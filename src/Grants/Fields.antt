-- ===== src/Grants/Fields.antt =====
-- What `normalizePrivilege` of internal/edgeagent/gateway/mysql/mysql.go makes of a text.
use mission.Prelude.{
  ℕ, ◌≡◌, refl, sym, ap, subst, ◌∙◌, Bool-cases, inl, inr, true, List, [], ◌∷◌, ◌++◌, append_assoc,
  append-nil, All-append,
}
use mission.Prelude.Text.{Text, is_space, trim_space}
use mission.Prelude.Trim.{Blank, trim_space_cut}
use mission.Grants.Check.{fields_onto, joined, normalize_privilege}

-- The text is the name, with any white space in place of each of its spaces, and behind it.
pub data Spread : Text → Text → Type 0 where
  done : {s : Text} → Blank s → Spread [] s
  same : {n s : Text} (c : ℕ) → Spread n s → Spread (c ∷ n) (c ∷ s)
  gap :
      {n s t : Text} (c : ℕ) (run : Text)
      → Blank (c ∷ run)
      → t ≡ c ∷ (run ++ s)
      → Spread n s
      → Spread (b' ' ∷ n) t

-- The text is the name so, with any white space before it.
pub record Named (name value : Text) : Type 0 where
  pub pad : Text
  pub spread : Text
  pub pad_blank : Blank pad
  pub written : value ≡ pad ++ spread
  pub is_spread : Spread name spread

Spread-append : (w : Text) {n s : Text} → Spread n s → Spread (w ++ n) (w ++ s)
Spread-append [] h = h
Spread-append (c ∷ w) h = same c (Spread-append w h)

Spread-Blank : {n s : Text} (r : Text) → Spread n s → Blank r → Spread n (s ++ r)
Spread-Blank r (done {s = s} h) b = done (All-append (λ c. is_space c ≡ true) s r h b)
Spread-Blank r (same c h) b = same c (Spread-Blank r h b)
Spread-Blank r (gap {s = s} c run h e k) b =
    gap c run h (ap (λ x. x ++ r) e ∙ ap (◌∷◌ c) (append_assoc run s r)) (Spread-Blank r k b)

Spread-nil : (s : Text) → Spread [] s → Blank s
Spread-nil _ (done h) = h

-- A word, then white space, then further words.
Spread-word :
    (w : Text) (c : ℕ) (s : Text) (ws : List Text)
    → is_space c ≡ true
    → Named (joined ws) s
    → Spread (joined (w ∷ ws)) (w ++ c ∷ s)
unfolding joined
Spread-word w c s [] h v =
    let blank : Blank s = subst Blank (sym v.written) (
      All-append (λ c. is_space c ≡ true) v.pad v.spread v.pad_blank
        (Spread-nil v.spread v.is_spread)) in
    subst (λ x. Spread x (w ++ c ∷ s)) (append-nil w) (Spread-append w (done (h, blank)))
Spread-word w c s (x ∷ ws) h v =
    Spread-append w (gap c v.pad (h, v.pad_blank) (ap (◌∷◌ c) v.written) v.is_spread)

Named-space : (n s : Text) (c : ℕ) → is_space c ≡ true → Named n s → Named n (c ∷ s)
Named-space n s c h v = record {
  pad = c ∷ v.pad;
  spread = v.spread;
  pad_blank = (h, v.pad_blank);
  written = ap (◌∷◌ c) v.written;
  is_spread = v.is_spread;
}

Named-Spread : {n s : Text} → Spread n s → Named n s
Named-Spread {s = s} h = record {
  pad = [];
  spread = s;
  pad_blank = tt;
  written = refl;
  is_spread = h;
}

-- The fields of a text, and those of a text that begins with the field so far.
fields_onto-Named :
    (s : Text)
    → Named (joined (fields_onto [] s)) s
      × ((f : ℕ) (field : Text) → Spread (joined (fields_onto (f ∷ field) s)) (f ∷ field ++ s))
unfolding fields_onto joined
fields_onto-Named [] = (
  Named-Spread (done tt),
  λ f field.
      subst (λ x. Spread (f ∷ field) (f ∷ x)) (sym (append-nil field))
        (subst (λ x. Spread x x) (append-nil (f ∷ field)) (Spread-append (f ∷ field) (done tt))),
)
fields_onto-Named (c ∷ s) =
    let (bare, with_field) = fields_onto-Named s in
    elim (Bool-cases (is_space c)) [
      | inl h ↦ (
        rw h (Named-space _ s c h bare),
        λ f field. rw h (Spread-word (f ∷ field) c s (fields_onto [] s) h bare),
      )
      | inr h ↦ (
        rw h (Named-Spread (with_field c [])),
        λ f field. rw h (
            subst (λ x. Spread (joined (fields_onto (f ∷ field ++ c ∷ []) s)) (f ∷ x))
              (append_assoc field (c ∷ []) s) (with_field f (field ++ c ∷ []))),
      )
    ]

-- The normalized privilege names the text in upper case.
pub normalize_privilege-Named :
    (to_upper : Text → Text) (value : Text)
    → Named (normalize_privilege to_upper value) (to_upper value)
unfolding normalize_privilege
normalize_privilege-Named to_upper value =
    let (l, (r, (bl, (br, cut)))) = trim_space_cut (to_upper value) in
    let v = (fields_onto-Named (trim_space (to_upper value))).0 in
    record {
      pad = l ++ v.pad;
      spread = v.spread ++ r;
      pad_blank = All-append (λ c. is_space c ≡ true) l v.pad bl v.pad_blank;
      written =
          cut
          ∙ (ap (λ x. l ++ (x ++ r)) v.written
              ∙ (ap (λ x. l ++ x) (append_assoc v.pad v.spread r)
                  ∙ sym (append_assoc l v.pad (v.spread ++ r))));
      is_spread = Spread-Blank r v.is_spread br;
    }
