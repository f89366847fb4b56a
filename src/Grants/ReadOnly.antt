-- ===== src/Grants/ReadOnly.antt =====
-- What grants `ValidateGrants` of internal/edgeagent/gateway/mysql/mysql.go accepts.
use mission.Prelude.{
  ◌≡◌, In, refl, sym, ap, subst, ◌∙◌, ◌⊎◌, ◌++◌, arith, Bool, Bool-cases, inl, inr, true, false,
  ◌||◌, Option, none, some, List, [], ◌∷◌, All,
}
use mission.Prelude.Text.{Text, codes, is_empty, has_prefix, contains, trim_space}
use mission.Prelude.Equality.{text_beq, text_beq_iff}
use mission.Grants.Fields.{Named, normalize_privilege-Named}
use mission.Grants.Parse.{
  listing, Occurs, listing-split_onto, split_onto-full, before_cut, behind_cut, contains-not_Occurs,
}
use mission.Grants.Check.{
  Checked, passed, refused, out_of_range, accepted, normalize_privilege, split_onto, before, behind,
  is_allowed, check_privileges, check_sliced, check_list, check_grant, check_grants, outcome,
  validate_grants,
}

module _ (to_upper : Text → Text) where
  -- The privilege is, in upper case, USAGE, SELECT or SHOW VIEW, with white space around it, and in place of
  -- its space, at most.
  abbrev pub Allowed : Text → Type 0
  Allowed p =
      Named (codes "USAGE") (to_upper p)
      ⊎ (Named (codes "SELECT") (to_upper p) ⊎ Named (codes "SHOW VIEW") (to_upper p))

  -- A grant of USAGE, SELECT and SHOW VIEW at most, which may not be granted on.
  pub record ReadsOnly (grant : Text) : Type 0 where
    pub privileges : List Text
    pub rest : Text
    pub written :
        to_upper (trim_space grant)
        ≡ codes "GRANT " ++ (listing privileges ++ (codes " ON " ++ rest))
    pub given : ¬ (privileges ≡ [])
    pub allowed : All Allowed privileges
    pub no_option : ¬ Occurs (codes "WITH GRANT OPTION") (to_upper (trim_space grant))

  -- Such a grant with SELECT among its privileges.
  pub record Selects (grant : Text) : Type 0 where
    pub reads_only : ReadsOnly grant
    pub privilege : Text
    pub listed : In privilege reads_only.privileges
    pub is_select : Named (codes "SELECT") (to_upper privilege)

  -- A flag has not changed, or SELECT is among the privileges.
  abbrev Seen : Bool → Bool → List Text → Type 0
  Seen b c ps = (c ≡ b) ⊎ ((p : Text) × (In p ps × Named (codes "SELECT") (to_upper p)))

  Seen-more :
      (b c : Bool) (p : Text) (ps : List Text)
      → Seen (text_beq (normalize_privilege to_upper p) (codes "SELECT") || b) c ps
      → Seen b c (p ∷ ps)
  Seen-more b c p ps (inr (q, (i, n))) = inr (q, (inr i, n))
  Seen-more b c p ps (inl e) =
      let name = normalize_privilege to_upper p in
      elim (Bool-cases (text_beq name (codes "SELECT"))) [
        | inl s ↦ inr (
          p,
          (
            inl refl,
            subst (λ x. Named x (to_upper p)) ((text_beq_iff name (codes "SELECT")).0 s)
                (normalize_privilege-Named to_upper p),
          ),
        )
        | inr s ↦ inl (e ∙ ap (λ x. x || b) s)
      ]

  is_allowed-Allowed : (p : Text) → is_allowed (normalize_privilege to_upper p) ≡ true → Allowed p
  unfolding is_allowed
  is_allowed-Allowed p h =
      let name = normalize_privilege to_upper p in
      let named = normalize_privilege-Named to_upper p in
      elim (Bool-cases (text_beq name (codes "USAGE"))) [
        | inl u ↦ inl (subst (λ x. Named x (to_upper p)) ((text_beq_iff name _).0 u) named)
        | inr u ↦ elim (Bool-cases (text_beq name (codes "SELECT"))) [
          | inl s ↦ inr (inl (subst (λ x. Named x (to_upper p)) ((text_beq_iff name _).0 s) named))
          | inr s ↦ inr (
              inr (
                subst (λ x. Named x (to_upper p))
                  ((text_beq_iff name _).0 (ground (arith, h, u, s))) named))
        ]
      ]

  check_privileges-passed :
      (b c : Bool) (ps : List Text)
      → check_privileges to_upper b ps ≡ passed c
      → All Allowed ps × Seen b c ps
  unfolding check_privileges
  check_privileges-passed b c [] h = (tt, inl (ground (arith, h)))
  check_privileges-passed b c (p ∷ ps) h =
      elim (Bool-cases (text_beq (normalize_privilege to_upper p) (codes "ALL PRIVILEGES"))) [
        | inl t ↦ absurd (ground (arith, h, t))
        | inr t ↦ elim (Bool-cases (is_allowed (normalize_privilege to_upper p))) [
          | inl a ↦
              let (allowed, seen) =
                check_privileges-passed
                  (text_beq (normalize_privilege to_upper p) (codes "SELECT") || b) c ps
                  (ground (arith, h, t, a)) in
              ((is_allowed-Allowed p a, allowed), Seen-more b c p ps seen)
          | inr a ↦ absurd (ground (arith, h, t, a))
        ]
      ]

  check_sliced-passed :
      (b c : Bool) (o : Option Text)
      → check_sliced to_upper b o ≡ passed c
      → (l : Text) × ((o ≡ some l) × (All Allowed (split_onto [] l) × Seen b c (split_onto [] l)))
  unfolding check_sliced
  check_sliced-passed b c none h = absurd (ground (arith, h))
  check_sliced-passed b c (some l) h = (l, (refl, check_privileges-passed b c (split_onto [] l) h))

  check_list-passed :
      (b c : Bool) (o : Option Text)
      → check_list to_upper b o ≡ passed c
      → (u : Text) × ((o ≡ some u)
          × ((l : Text) × ((behind (codes "GRANT ") u ≡ some l)
                × (All Allowed (split_onto [] l) × Seen b c (split_onto [] l)))))
  unfolding check_list
  check_list-passed b c none h = absurd (ground (arith, h))
  check_list-passed b c (some u) h =
      (u, (refl, check_sliced-passed b c (behind (codes "GRANT ") u) h))

  check_grant-passed :
      (b c : Bool) (g : Text)
      → check_grant to_upper b g ≡ passed c
      → (v : ReadsOnly g) × Seen b c v.privileges
  unfolding check_grant
  check_grant-passed b c g h =
      let n = to_upper (trim_space g) in
      elim (Bool-cases (is_empty n)) [
        | inl e ↦ absurd (ground (arith, h, e))
        | inr e ↦ elim (Bool-cases (contains n (codes "WITH GRANT OPTION"))) [
          | inl o ↦ absurd (ground (arith, h, e, o))
          | inr o ↦ elim (Bool-cases (has_prefix n (codes "GRANT "))) [
            | inl p ↦
                let (u, (cut, (l, (list, (allowed, seen))))) =
                  check_list-passed b c (before (codes " ON ") n) (ground (arith, h, e, o, p)) in
                let (r, parted) = before_cut (codes " ON ") n u cut in
                let listed : u ≡ codes "GRANT " ++ l =
                  behind_cut (codes "GRANT ") u (codes " ON " ++ r) l list
                    (sym (ap (λ x. has_prefix x (codes "GRANT ")) parted) ∙ p) in
                (
                  record {
                    privileges = split_onto [] l;
                    rest = r;
                    written =
                        parted
                        ∙ (ap (λ x. x ++ (codes " ON " ++ r)) listed
                            ∙ ap (λ x. codes "GRANT " ++ (x ++ (codes " ON " ++ r)))
                                (sym (listing-split_onto [] l)));
                    given = split_onto-full [] l;
                    allowed = allowed;
                    no_option = contains-not_Occurs (codes "WITH GRANT OPTION") n o;
                  },
                  seen,
                )
            | inr p ↦ absurd (ground (arith, h, e, o, p))
          ]
        ]
      ]

  -- A flag has not changed, or one of the grants selects.
  abbrev SeenIn : Bool → Bool → List Text → Type 0
  SeenIn b c gs = (c ≡ b) ⊎ ((g : Text) × (In g gs × Selects g))

  SeenIn-more :
      (b c d : Bool) (g : Text) (gs : List Text) (v : ReadsOnly g)
      → Seen b d v.privileges
      → SeenIn d c gs
      → SeenIn b c (g ∷ gs)
  SeenIn-more b c d g gs v (inr (p, (i, n))) _ =
      inr (g, (inl refl, record { reads_only = v; privilege = p; listed = i; is_select = n }))
  SeenIn-more b c d g gs v (inl e) (inl f) = inl (f ∙ e)
  SeenIn-more b c d g gs v (inl e) (inr (k, (i, n))) = inr (k, (inr i, n))

  check_grants-passed :
      (b c : Bool) (gs : List Text)
      → check_grants to_upper b gs ≡ passed c
      → All ReadsOnly gs × SeenIn b c gs
  unfolding check_grants
  check_grants-passed b c [] h = (tt, inl (ground (arith, h)))
  check_grants-passed b c (g ∷ gs) h =
      first (check_grant to_upper b g) refl h (λ d. check_grants-passed d c gs)
    where
      first :
          (x : Checked)
          → check_grant to_upper b g ≡ x
          → (elim x as (λ _. Checked) [
            | refused r ↦ refused r
            | out_of_range ↦ out_of_range
            | passed d ↦ check_grants to_upper d gs
          ])
            ≡ passed c
          → ((d : Bool) → check_grants to_upper d gs ≡ passed c → All ReadsOnly gs × SeenIn d c gs)
          → All ReadsOnly (g ∷ gs) × SeenIn b c (g ∷ gs)
      first (refused r) e h k = absurd (ground (arith, h))
      first out_of_range e h k = absurd (ground (arith, h))
      first (passed d) e h k =
          let (v, seen) = check_grant-passed b d g e in
          let (all, rest) = k d h in ((v, all), SeenIn-more b c d g gs v seen rest)

  outcome-passed : (x : Checked) → outcome to_upper x ≡ accepted → x ≡ passed true
  unfolding outcome
  outcome-passed (refused r) h = absurd (ground (arith, h))
  outcome-passed out_of_range h = absurd (ground (arith, h))
  outcome-passed (passed true) h = refl
  outcome-passed (passed false) h = absurd (ground (arith, h))

  some_select : (gs : List Text) → SeenIn false true gs → (g : Text) × (In g gs × Selects g)
  some_select gs (inl e) = absurd (ground (arith, e))
  some_select gs (inr v) = v

  -- When the grants are accepted, each of them, trimmed and in upper case, is GRANT, a list of privileges
  -- with commas between them, ON, and a rest, without WITH GRANT OPTION anywhere; every privilege
  -- of the list is USAGE, SELECT or SHOW VIEW in upper case, but for white space around it and between the
  -- two words; and SELECT is among the privileges of one of the grants.
  pub validate_grants-ReadsOnly :
      (grants : List Text)
      → validate_grants to_upper grants ≡ accepted
      → All ReadsOnly grants × ((g : Text) × (In g grants × Selects g))
  unfolding validate_grants
  validate_grants-ReadsOnly grants h =
      let (all, seen) =
        check_grants-passed false true grants
          (outcome-passed (check_grants to_upper false grants) h) in
      (all, some_select grants seen)
