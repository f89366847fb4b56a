-- ===== src/SqlGuard/Scan.antt =====
-- `scanOutsideQuotes` and its callers in internal/sqlguard/sqlguard.go. The slice
-- `sqlText[start:i]` is the accumulated `fragment`; `i++` before `continue` is the flag `skip`,
-- which passes over the next character; `outsideFn` threads the state of its closure. The
-- parameter `keepQuotedWidth` has no effect in the source and is left out.
pub mod Quoting
use mission.Prelude.{
  ℕ, ◌-◌, ◌≡◌, refl, Bool, true, false, List, [], ◌∷◌, ◌++◌, map, String, if◌then◌else◌, ◌&&◌, ◌||◌,
  nat_beq, leb,
}
use mission.Prelude.Text.{Text, codes, contains, is_empty}
use mission.SqlGuard.Result.{Result, deny}

pub data ScanState : Type 0 where
  state_normal state_single state_double state_backtick : ScanState

unfoldable pub is_space_or_control : ℕ → Bool
is_space_or_control c =
    nat_beq c b' ' || nat_beq c 9 || nat_beq c 10 || nat_beq c 13 || nat_beq c 12 || nat_beq c 11

-- The next character is `c`; the next two are `-` and a space or control character.
abbrev pub next_is : ℕ → Text → Bool
next_is c [] = false
next_is c (d ∷ _) = nat_beq d c

unfoldable pub starts_dash_comment : Text → Bool
unfolding is_space_or_control
starts_dash_comment [] = false
starts_dash_comment (_ ∷ []) = false
starts_dash_comment (d ∷ e ∷ _) = nat_beq d b'-' && is_space_or_control e

-- One round of the loop: return true, hand the fragment to `outsideFn` and enter a quoted state,
-- add the character to the fragment, go to a state, or pass over the next character.
pub data Move : Type 0 where
  found keep skip_next : Move
  flush goto : ScanState → Move

move_normal : ℕ → Text → Move
unfolding starts_dash_comment
move_normal c rest =
    if nat_beq c b'\''
    then flush state_single
    else if nat_beq c b'"'
    then flush state_double
    else if nat_beq c b'`'
    then flush state_backtick
    else if nat_beq c b'#'
    then found
    else if nat_beq c b'/' && next_is b'*' rest
    then found
    else if nat_beq c b'-' && starts_dash_comment rest
    then found
    else keep

-- A quoted state: the quote, whether a backslash escapes, and the state itself.
move_quoted : ℕ → Bool → ScanState → ℕ → Text → Move
move_quoted quote escapes state c rest =
    if escapes && (nat_beq c b'\\' && (if is_empty rest then false else true))
    then skip_next
    else if nat_beq c quote
    then (if next_is quote rest then skip_next else goto state_normal)
    else goto state

unfoldable pub move : ScanState → ℕ → Text → Move
unfolding move_normal move_quoted
move state_normal c rest = move_normal c rest
move state_single c rest = move_quoted b'\'' true state_single c rest
move state_double c rest = move_quoted b'"' true state_double c rest
move state_backtick c rest = move_quoted b'`' false state_backtick c rest

module _ {B : Type 0} (outside : B → Text → B × Bool) where
  at_end : ScanState → Text → B → B × Bool
  at_end state_normal fragment b = outside b fragment
  at_end _ fragment b = (b, false)

  unfoldable pub scan : ScanState → Text → B → Bool → Text → B × Bool
  unfolding at_end
  scan state fragment b skip [] = at_end state fragment b
  scan state fragment b true (c ∷ rest) = scan state [] b false rest
  scan state fragment b false (c ∷ rest) = elim (move state c rest) [
    | found ↦ (b, true)
    | keep ↦ scan state (fragment ++ c ∷ []) b false rest
    | skip_next ↦ scan state [] b true rest
    | goto state' ↦ scan state' [] b false rest
    | flush state' ↦ elim (outside b fragment).1 [
      | true ↦ ((outside b fragment).0, true)
      | false ↦ scan state' [] (outside b fragment).0 false rest
    ]
  ]

  unfoldable pub scan_outside_quotes : B → Text → B × Bool
  scan_outside_quotes b text = scan state_normal [] b false text

unfoldable pub comment_fragment : Unit {0} → Text → Unit {0} × Bool
comment_fragment b fragment = (
  b,
  contains fragment (codes "#")
      || contains fragment (codes "/*")
      || contains fragment (codes "-- "),
)

unfoldable pub has_comment_token : Text → Bool
unfolding scan_outside_quotes
has_comment_token text = (scan_outside_quotes comment_fragment tt text).1

-- Go's `strings.ToUpper`, character by character; above ASCII it is a parameter.
unfoldable pub to_upper : (ℕ → ℕ) → ℕ → ℕ
to_upper unicode_upper c =
    if leb 128 c then unicode_upper c else if leb b'a' c && leb c b'z' then c - 32 else c

unfoldable pub upper_fragment : (ℕ → ℕ) → Text → Text → Text × Bool
upper_fragment unicode_upper out fragment = (out ++ map (to_upper unicode_upper) fragment, false)

unfoldable pub outside_quotes_upper : (ℕ → ℕ) → Text → Text
unfolding scan_outside_quotes
outside_quotes_upper unicode_upper text =
    (scan_outside_quotes (upper_fragment unicode_upper) [] text).0

-- The tests of `detectRawDeniedPattern`, and the result that they give.
unfoldable pub has_raw_denied_pattern : (ℕ → ℕ) → Text → Bool
unfolding outside_quotes_upper
has_raw_denied_pattern unicode_upper text =
    let normalized = outside_quotes_upper unicode_upper text in
    contains normalized (codes " INTO OUTFILE")
    || contains normalized (codes " INTO DUMPFILE")
    || contains normalized (codes " INTO @")
