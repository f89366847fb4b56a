-- ===== src/SqlGuard/Scan/Quoting.antt =====
-- The scanner against texts that are written as plain parts and quoted parts: what stands in quotes
-- is hidden from its callers, whatever it holds.
use mission.Prelude.{
  ℕ, ◌≡◌, refl, ap, ◌∙◌, Bool, true, false, List, [], ◌∷◌, ◌++◌, map, append_assoc, append-nil,
  if◌then◌else◌, ◌&&◌, ◌||◌, nat_beq, arith, All, Bool-cases, inl, inr,
}
use mathlib.Core.List.{map-append}
use mission.Prelude.Text.{Text, codes, contains}
use mission.SqlGuard.Scan.{
  ScanState, state_normal, state_single, state_double, state_backtick, is_space_or_control, next_is,
  starts_dash_comment, found, keep, skip_next, goto, move, scan, comment_fragment,
  has_comment_token, to_upper, upper_fragment, outside_quotes_upper,
}

pub data Quote : Type 0 where
  single double backtick : Quote

abbrev pub quote_char : Quote → ℕ
quote_char single = b'\''
quote_char double = b'"'
quote_char backtick = b'`'

abbrev escapes : Quote → Bool
escapes backtick = false
escapes _ = true

abbrev state_of : Quote → ScanState
state_of single = state_single
state_of double = state_double
state_of backtick = state_backtick

-- A piece of a quoted part: a character, a backslash with what it escapes, or the quote twice.
pub data Piece : Type 0 where
  raw : ℕ → Piece
  escaped : ℕ → Piece
  doubled : Piece

abbrev pub encode : Quote → List Piece → Text
encode q [] = []
encode q (raw c ∷ ps) = c ∷ encode q ps
encode q (escaped c ∷ ps) = b'\\' ∷ c ∷ encode q ps
encode q (doubled ∷ ps) = quote_char q ∷ quote_char q ∷ encode q ps

abbrev pub IsPiece : Quote → Piece → Type 0
IsPiece q (raw c) = (nat_beq c (quote_char q) || (escapes q && nat_beq c b'\\')) ≡ false
IsPiece q (escaped c) = escapes q ≡ true
IsPiece q doubled = Unit

-- Plain text, then a quoted part and more, or a quoted part with no closing quote, or the end.
pub data Segments : Type 0 where
  plain_end : Text → Segments
  unclosed : Text → Quote → List Piece → Segments
  quoted : Text → Quote → List Piece → Segments → Segments

abbrev pub render : Segments → Text
render (plain_end p) = p
render (unclosed p q ps) = p ++ quote_char q ∷ encode q ps
render (quoted p q ps s) = p ++ quote_char q ∷ (encode q ps ++ quote_char q ∷ render s)

abbrev pub is_quote : ℕ → Bool
is_quote c = nat_beq c b'\'' || nat_beq c b'"' || nat_beq c b'`'

abbrev pub IsPlain : Text → Type 0
IsPlain = All (λ c. is_quote c ≡ false)

-- Plain parts hold no quotes, and no quoted part is closed right in front of its own quote.
abbrev pub IsSegmented : Segments → Type 0
IsSegmented (plain_end p) = IsPlain p
IsSegmented (unclosed p q ps) = IsPlain p × All (IsPiece q) ps
IsSegmented (quoted p q ps s) =
    IsPlain p × All (IsPiece q) ps × (next_is (quote_char q) (render s) ≡ false) × IsSegmented s

-- A comment starts at the character: `#`, `/*`, or `--` and a space or control character.
unfoldable pub comment_at : ℕ → Text → Bool
unfolding is_space_or_control starts_dash_comment
comment_at c rest =
    nat_beq c b'#'
    || (nat_beq c b'/' && next_is b'*' rest)
    || (nat_beq c b'-' && starts_dash_comment rest)

unfoldable pub comment_in : Text → Bool
unfolding comment_at
comment_in [] = false
comment_in (c ∷ cs) = comment_at c cs || comment_in cs

-- Some plain part has a comment.
unfoldable pub has_comment : Segments → Bool
unfolding comment_in
has_comment (plain_end p) = comment_in p
has_comment (unclosed p q ps) = comment_in p
has_comment (quoted p q ps s) = comment_in p || has_comment s

-- The plain parts up to the last one; what follows an opening quote that is not closed is no part.
abbrev pub outside_text : Segments → Text
outside_text (plain_end p) = p
outside_text (unclosed p q ps) = p
outside_text (quoted p q ps s) = p ++ outside_text s

abbrev starts_quote : Text → Bool
starts_quote [] = true
starts_quote (c ∷ _) = is_quote c

comment_at-append :
    (c : ℕ) (cs rest : Text)
    → starts_quote rest ≡ true
    → comment_at c (cs ++ rest) ≡ comment_at c cs
unfolding comment_at
comment_at-append c [] [] h = refl
comment_at-append c [] (q ∷ []) h = ground arith
comment_at-append c [] (q ∷ r ∷ _) h = ground arith
comment_at-append c (d ∷ []) [] h = refl
comment_at-append c (d ∷ []) (q ∷ _) h = ground arith
comment_at-append c (d ∷ e ∷ cs) rest h = refl

move-plain :
    (c : ℕ) (rest : Text)
    → is_quote c ≡ false
    → move state_normal c rest ≡ (if comment_at c rest then found else keep)
unfolding move comment_at
move-plain c rest h = ground arith

is_quote-quote_char : (q : Quote) → is_quote (quote_char q) ≡ true
is_quote-quote_char single = refl
is_quote-quote_char double = refl
is_quote-quote_char backtick = refl

or_false : (a b : Bool) → (a || b) ≡ false → (a ≡ false) × (b ≡ false)
or_false a b h = ground arith

move-raw :
    (q : Quote) (c : ℕ) (rest : Text)
    → IsPiece q (raw c)
    → move (state_of q) c rest ≡ goto (state_of q)
unfolding move
move-raw single c rest h = ground arith
move-raw double c rest h = ground arith
move-raw backtick c rest h = ground arith

move-escaped :
    (q : Quote) (c : ℕ) (rest : Text)
    → escapes q ≡ true
    → move (state_of q) b'\\' (c ∷ rest) ≡ skip_next
unfolding move
move-escaped single c rest h = refl
move-escaped double c rest h = refl
move-escaped backtick c rest h = cc

move-doubled :
    (q : Quote) (rest : Text) → move (state_of q) (quote_char q) (quote_char q ∷ rest) ≡ skip_next
unfolding move
move-doubled single rest = refl
move-doubled double rest = refl
move-doubled backtick rest = refl

module _ {B : Type 0} (outside : B → Text → B × Bool) where
  scan-plain :
      (p fragment : Text) (b : B) (rest : Text)
      → IsPlain p
      → starts_quote rest ≡ true
      → comment_in p ≡ false
      → scan outside state_normal fragment b false (p ++ rest)
        ≡ scan outside state_normal (fragment ++ p) b false rest
  unfolding scan comment_in
  scan-plain [] fragment b rest h q n = rw append-nil
  scan-plain (c ∷ cs) fragment b rest h q n =
      let (here, after) = or_false (comment_at c cs) (comment_in cs) n in
      let kept : move state_normal c (cs ++ rest) ≡ keep =
        move-plain c (cs ++ rest) h.0 ∙ rw (comment_at-append c cs rest q, here) in
      rw (kept, scan)
        (scan-plain cs (fragment ++ c ∷ []) b rest h.1 q after
          ∙ ap (λ t. scan outside state_normal t b false rest) (append_assoc fragment (c ∷ []) cs))

  scan-comment :
      (p fragment : Text) (b : B) (rest : Text)
      → IsPlain p
      → starts_quote rest ≡ true
      → comment_in p ≡ true
      → scan outside state_normal fragment b false (p ++ rest) ≡ (b, true)
  unfolding scan comment_in
  scan-comment [] fragment b rest h q n = cc
  scan-comment (c ∷ cs) fragment b rest h q n = elim (Bool-cases (comment_at c cs)) [
    | inl here ↦
        let stops : move state_normal c (cs ++ rest) ≡ found =
          move-plain c (cs ++ rest) h.0 ∙ rw (comment_at-append c cs rest q, here) in
        rw (stops, scan)
    | inr not_here ↦
        let kept : move state_normal c (cs ++ rest) ≡ keep =
          move-plain c (cs ++ rest) h.0 ∙ rw (comment_at-append c cs rest q, not_here) in
        rw (kept, scan) (scan-comment cs (fragment ++ c ∷ []) b rest h.1 q (rw not_here at n))
  ]

  scan-open :
      (q : Quote) (fragment : Text) (b : B) (rest : Text)
      → scan outside state_normal fragment b false (quote_char q ∷ rest) ≡ (
          if (outside b fragment).1
          then ((outside b fragment).0, true)
          else scan outside (state_of q) [] (outside b fragment).0 false rest)
  unfolding scan move
  scan-open single fragment b rest = ground arith
  scan-open double fragment b rest = ground arith
  scan-open backtick fragment b rest = ground arith

  scan-inside : (q : Quote) (b : B) → scan outside (state_of q) [] b false [] ≡ (b, false)
  unfolding scan
  scan-inside single b = refl
  scan-inside double b = refl
  scan-inside backtick b = refl

  scan-encode :
      (q : Quote) (ps : List Piece) (b : B) (rest : Text)
      → All (IsPiece q) ps
      → scan outside (state_of q) [] b false (encode q ps ++ rest)
        ≡ scan outside (state_of q) [] b false rest
  unfolding scan
  scan-encode q [] b rest h = refl
  scan-encode q (raw c ∷ ps) b rest h =
      rw (move-raw q c (encode q ps ++ rest) h.0, scan) (scan-encode q ps b rest h.1)
  scan-encode q (escaped c ∷ ps) b rest h =
      rw (move-escaped q c (encode q ps ++ rest) h.0, scan) (scan-encode q ps b rest h.1)
  scan-encode q (doubled ∷ ps) b rest h =
      rw (move-doubled q (encode q ps ++ rest), scan) (scan-encode q ps b rest h.1)

  scan-close :
      (q : Quote) (b : B) (rest : Text)
      → next_is (quote_char q) rest ≡ false
      → scan outside (state_of q) [] b false (quote_char q ∷ rest)
        ≡ scan outside state_normal [] b false rest
  unfolding scan move
  scan-close single b rest h = ground arith
  scan-close double b rest h = ground arith
  scan-close backtick b rest h = ground arith

  scan-last :
      (p : Text) (b : B)
      → IsPlain p
      → comment_in p ≡ false
      → scan outside state_normal [] b false p ≡ outside b p
  unfolding scan
  scan-last p b h n = rw append-nil at (scan-plain p [] b [] h refl n)

  scan-last_comment :
      (p : Text) (b : B)
      → IsPlain p
      → comment_in p ≡ true
      → scan outside state_normal [] b false p ≡ (b, true)
  scan-last_comment p b h n = rw append-nil at (scan-comment p [] b [] h refl n)

  scan-unclosed :
      (p : Text) (q : Quote) (ps : List Piece) (b : B)
      → IsPlain p
      → All (IsPiece q) ps
      → comment_in p ≡ false
      → (outside b p).1 ≡ false
      → scan outside state_normal [] b false (p ++ quote_char q ∷ encode q ps)
        ≡ ((outside b p).0, false)
  scan-unclosed p q ps b h k n f =
      scan-plain p [] b (quote_char q ∷ encode q ps) h (is_quote-quote_char q) n
      ∙ scan-open q p b (encode q ps)
      ∙ rw f (rw append-nil at (scan-encode q ps (outside b p).0 [] k))
      ∙ scan-inside q (outside b p).0

  scan-quoted :
      (p : Text) (q : Quote) (ps : List Piece) (rest : Text) (b : B)
      → IsPlain p
      → All (IsPiece q) ps
      → next_is (quote_char q) rest ≡ false
      → comment_in p ≡ false
      → (outside b p).1 ≡ false
      → scan outside state_normal [] b false
          (p ++ quote_char q ∷ (encode q ps ++ quote_char q ∷ rest))
        ≡ scan outside state_normal [] (outside b p).0 false rest
  scan-quoted p q ps rest b h k e n f =
      scan-plain p [] b _ h (is_quote-quote_char q) n
      ∙ scan-open q p b _
      ∙ rw f (scan-encode q ps (outside b p).0 (quote_char q ∷ rest) k)
      ∙ scan-close q (outside b p).0 rest e

contains-comment_in :
    (p : Text)
    → comment_in p ≡ false
    → (contains p (codes "#") || contains p (codes "/*") || contains p (codes "-- ")) ≡ false
unfolding comment_in contains
contains-comment_in [] h = refl
contains-comment_in (c ∷ []) h = ground arith
contains-comment_in (c ∷ d ∷ []) h = ground (arith, contains-comment_in (d ∷ []))
contains-comment_in (c ∷ d ∷ e ∷ cs) h = ground (arith, contains-comment_in (d ∷ e ∷ cs))

quiet_fragment : (p : Text) → comment_in p ≡ false → (comment_fragment tt p).1 ≡ false
unfolding comment_fragment
quiet_fragment p h = contains-comment_in p h

scan-render :
    (s : Segments)
    → IsSegmented s
    → (scan comment_fragment state_normal [] tt false (render s)).1 ≡ has_comment s
unfolding has_comment
scan-render (plain_end p) h = elim (Bool-cases (comment_in p)) [
  | inl yes' ↦ rw (scan-last_comment comment_fragment p tt h yes', yes')
  | inr none' ↦ rw (scan-last comment_fragment p tt h none', none') (quiet_fragment p none')
]
scan-render (unclosed p q ps) h = elim (Bool-cases (comment_in p)) [
  | inl yes' ↦ rw (scan-comment comment_fragment p [] tt _ h.0 (is_quote-quote_char q) yes', yes')
  | inr none' ↦
      rw (scan-unclosed comment_fragment p q ps tt h.0 h.1 none' (quiet_fragment p none'), none')
]
scan-render (quoted p q ps s) h = elim (Bool-cases (comment_in p)) [
  | inl yes' ↦ rw (scan-comment comment_fragment p [] tt _ h.0 (is_quote-quote_char q) yes', yes')
  | inr none' ↦
      rw
        (
          scan-quoted comment_fragment p q ps (render s) tt h.0 h.1 h.2 none'
              (quiet_fragment p none'),
          none',
        )
        (scan-render s h.3)
]

-- `hasCommentToken` finds a comment exactly when a plain part has one: what is quoted is not
-- looked at, whatever comment signs it holds, up to the first comment.
pub has_comment_token-render :
    (s : Segments) → IsSegmented s → has_comment_token (render s) ≡ has_comment s
unfolding has_comment_token
has_comment_token-render s h = scan-render s h

upper-render :
    (u : ℕ → ℕ) (s : Segments) (out : Text)
    → IsSegmented s
    → has_comment s ≡ false
    → (scan (upper_fragment u) state_normal [] out false (render s)).0
      ≡ out ++ map (to_upper u) (outside_text s)
unfolding has_comment upper_fragment
upper-render u (plain_end p) out h n = rw (scan-last (upper_fragment u) p out h n)
upper-render u (unclosed p q ps) out h n =
    rw (scan-unclosed (upper_fragment u) p q ps out h.0 h.1 n refl)
upper-render u (quoted p q ps s) out h n =
    let (here, after) = or_false (comment_in p) (has_comment s) n in
    rw (scan-quoted (upper_fragment u) p q ps (render s) out h.0 h.1 h.2 here refl)
      (upper-render u s (out ++ map (to_upper u) p) h.3 after ∙ rw (append_assoc, map-append))

-- With no comment in a plain part, `outsideQuotesUpper` gives the plain parts, joined and in upper
-- case, and nothing of the quoted ones.
pub outside_quotes_upper-render :
    (u : ℕ → ℕ) (s : Segments)
    → IsSegmented s
    → has_comment s ≡ false
    → outside_quotes_upper u (render s) ≡ map (to_upper u) (outside_text s)
unfolding outside_quotes_upper
outside_quotes_upper-render u s h n = upper-render u s [] h n
