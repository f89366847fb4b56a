-- ===== src/SqlGuard/Validate/Acceptance.antt =====
-- Which texts `Validate` accepts, and what it makes of them.
use mission.Prelude.{
  ◌≡◌, ◌≢◌, ◌⊎◌, ◌↔◌, inl, inr, refl, sym, ap, ◌∙◌, Bool, true, false, Option, none, some, List, [],
  ◌∷◌, String, arith, All, Bool-cases,
}
use mission.Prelude.Text.{Text, trim_space, is_empty}
use mission.SqlGuard.Ast.{Restored, restored, restore_error, SqlLib}
use mission.SqlGuard.Result.{Result, deny}
use mission.SqlGuard.Scan.{has_comment_token, has_raw_denied_pattern}
use mission.SqlGuard.Visitor.{visit, visit_lem, ReadsOnly}
use mission.SqlGuard.Kinds.{is_allowed}
use mission.SqlGuard.Limit.{needs_limit_injection, needs_limit_injection_lem, IsBounded}
use mission.SqlGuard.Validate.{
  returned, accepted, rewrite_with, limit_and_restore, after_visit, validate_tree, validate_parsed,
  validate_trimmed, validate, Accepts,
}

deny-ne-ok :
    (reason construct : String) (r : Result)
    → returned (deny reason construct) ≡ returned r
    → r.ok ≡ true
    → ⊥
unfolding deny
deny-ne-ok reason construct r h o = ground arith

Restored-cases :
    (p : Restored) → ((t : Text) × (p ≡ restored t)) ⊎ ((e : String) × (p ≡ restore_error e))
Restored-cases (restored t) = inl (t, refl)
Restored-cases (restore_error e) = inr (e, refl)

module _ (lib : SqlLib) where
  open lib use {Tree, parse, stmt, nodes, restore, unicode_upper}

  -- The part of `Accepts` that is about the statement.
  record AcceptsTree (t : Tree) (r : Result) : Type 0 where
    text : Text
    allowed : is_allowed (stmt t) ≡ true
    reads_only : All ReadsOnly (nodes t)
    prints : restore t ≡ restored text
    bounded :
        (IsBounded (stmt t) × (r ≡ accepted text false))
        ⊎ ((¬ IsBounded (stmt t)) × (r ≡ accepted text true))

  pub validate_tree-eq :
      (t : Tree) (b : Bool)
      → is_allowed (stmt t) ≡ true
      → visit (nodes t) ≡ none
      → needs_limit_injection (stmt t) ≡ some b
      → validate_tree lib t ≡ rewrite_with lib b (restore t)
  unfolding validate_tree after_visit limit_and_restore
  validate_tree-eq t b a v n = rw (a, v, after_visit, n, limit_and_restore)

  rewrite_with-ok :
      (b : Bool) (p : Restored) (r : Result)
      → rewrite_with lib b p ≡ returned r
      → (text : Text) × (p ≡ restored text) × (r ≡ accepted text b)
  unfolding rewrite_with
  rewrite_with-ok b (restored t) r h = (t, refl, cc h)
  rewrite_with-ok b (restore_error e) r h = cc

  validate_tree-accepts :
      (t : Tree) (r : Result) → validate_tree lib t ≡ returned r → r.ok ≡ true → AcceptsTree t r
  unfolding validate_tree
  validate_tree-accepts t r h o = elim (Bool-cases (is_allowed (stmt t))) [
    | inr other ↦ absurd (deny-ne-ok _ _ r (rw other at h) o)
    | inl allowed ↦ elim (visit_lem (nodes t)) [
      | inr (_, inl d) ↦ absurd (deny-ne-ok _ _ r (rw (allowed, d, after_visit) at h) o)
      | inr (_, inr d) ↦ absurd (deny-ne-ok _ _ r (rw (allowed, d, after_visit) at h) o)
      | inl (all, v) ↦ elim (needs_limit_injection_lem (stmt t)) [
        | inl (_, n) ↦ cc (allowed, n)
        | inr (inl (n, _, bounded)) ↦
            let (text, p, e) =
              rewrite_with-ok false (restore t) r
                (sym (validate_tree-eq t false allowed v n) ∙ h) in
            record {
              text = text;
              allowed = allowed;
              reads_only = all;
              prints = p;
              bounded = inl (bounded, e);
            }
        | inr (inr (n, _, unbounded)) ↦
            let (text, p, e) =
              rewrite_with-ok true (restore t) r (sym (validate_tree-eq t true allowed v n) ∙ h) in
            record {
              text = text;
              allowed = allowed;
              reads_only = all;
              prints = p;
              bounded = inr (unbounded, e);
            }
      ]
    ]
  ]

  accepts-validate_tree :
      (t : Tree) (r : Result) → AcceptsTree t r → (validate_tree lib t ≡ returned r) × (r.ok ≡ true)
  unfolding rewrite_with
  accepts-validate_tree t r a = elim (visit_lem (nodes t)) [
    | inr (some_denied, _) ↦ absurd (some_denied a.reads_only)
    | inl (_, v) ↦ elim (needs_limit_injection_lem (stmt t)) [
      | inl (_, n) ↦ cc (a.allowed, n)
      | inr (inl (n, _, bounded)) ↦ elim a.bounded [
        | inr (u, _) ↦ absurd (u bounded)
        | inl (_, e) ↦
            (validate_tree-eq t false a.allowed v n ∙ rw (a.prints, rewrite_with, e), rw e)
      ]
      | inr (inr (n, _, unbounded)) ↦ elim a.bounded [
        | inl (b, _) ↦ absurd (unbounded b)
        | inr (_, e) ↦
            (validate_tree-eq t true a.allowed v n ∙ rw (a.prints, rewrite_with, e), rw e)
      ]
    ]
  ]

  validate_parsed-accepts :
      (p : Option (List Tree)) (r : Result)
      → validate_parsed lib p ≡ returned r
      → r.ok ≡ true
      → (t : Tree) × (p ≡ some (t ∷ [])) × AcceptsTree t r
  unfolding validate_parsed
  validate_parsed-accepts none r h o = absurd (deny-ne-ok _ _ r h o)
  validate_parsed-accepts (some []) r h o = absurd (deny-ne-ok _ _ r h o)
  validate_parsed-accepts (some (t ∷ [])) r h o = (t, refl, validate_tree-accepts t r h o)
  validate_parsed-accepts (some (_ ∷ _ ∷ _)) r h o = absurd (deny-ne-ok _ _ r h o)

  validate_trimmed-accepts :
      (s : Text) (r : Result)
      → validate_trimmed lib s ≡ returned r
      → r.ok ≡ true
      → (is_empty s ≡ false)
        × (has_comment_token s ≡ false)
        × (has_raw_denied_pattern unicode_upper s ≡ false)
        × (validate_parsed lib (parse s) ≡ returned r)
  unfolding validate_trimmed
  validate_trimmed-accepts s r h o = elim (Bool-cases (is_empty s)) [
    | inl a ↦ absurd (deny-ne-ok _ _ r (rw a at h) o)
    | inr a ↦ elim (Bool-cases (has_comment_token s)) [
      | inl b ↦ absurd (deny-ne-ok _ _ r (rw (a, b) at h) o)
      | inr b ↦ elim (Bool-cases (has_raw_denied_pattern unicode_upper s)) [
        | inl c ↦ absurd (deny-ne-ok _ _ r (rw (a, b, c) at h) o)
        | inr c ↦ (a, b, c, rw (a, b, c) at h)
      ]
    ]
  ]

  accepted_of :
      (sql : Text) (r : Result) → validate lib sql ≡ returned r → r.ok ≡ true → Accepts lib sql r
  unfolding validate
  accepted_of sql r h o =
      let (a, b, c, k) = validate_trimmed-accepts (trim_space sql) r h o in
      let (t, p, x) = validate_parsed-accepts (parse (trim_space sql)) r k o in
      record {
        tree = t;
        text = x.text;
        ne_nil = λ z. cc (ap is_empty z, a);
        no_comment = b;
        no_raw_pattern = c;
        single = p;
        allowed = x.allowed;
        reads_only = x.reads_only;
        prints = x.prints;
        bounded = x.bounded;
      }

  is_empty_of_ne_nil : (s : Text) → s ≢ [] → is_empty s ≡ false
  is_empty_of_ne_nil [] h = absurd (h refl)
  is_empty_of_ne_nil (c ∷ s) h = refl

  of_accepted :
      (sql : Text) (r : Result)
      → Accepts lib sql r
      → (validate lib sql ≡ returned r) × (r.ok ≡ true)
  unfolding validate validate_trimmed validate_parsed
  of_accepted sql r a =
      rw
        (
          is_empty_of_ne_nil (trim_space sql) a.ne_nil,
          a.no_comment,
          a.no_raw_pattern,
          a.single,
          validate_parsed,
        )
        (accepts-validate_tree a.tree r (record {
          text = a.text;
          allowed = a.allowed;
          reads_only = a.reads_only;
          prints = a.prints;
          bounded = a.bounded;
        }))

  pub validate-Accepts_iff :
      (sql : Text) (r : Result)
      → ((validate lib sql ≡ returned r) × (r.ok ≡ true)) ↔ Accepts lib sql r
  validate-Accepts_iff sql r = (λ h. accepted_of sql r h.0 h.1, λ a. of_accepted sql r a)
