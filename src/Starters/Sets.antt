-- ===== src/Starters/Sets.antt =====
-- The active sets of the tenants under internal/controlplane/controller/starter_questions.go: one for each
-- tenant, and none of another tenant is touched.
use mission.Prelude.{
  ℕ, ◌≡◌, refl, sym, ap, ◌∙◌, arith, inl, inr, Bool, Bool-cases, true, false, none, some, Option,
  List, [], ◌∷◌, ◌++◌, append-nil, map, In, In-append, nat_beq, ◌&&◌,
}
use mission.Prelude.Text.{Text}
use mission.Starters.Rows.{
  StarterQuestion, Rows, active_of, deactivate_prior_sets, inserted, insert_set, replace_active_set,
  select, rows_of_set, first_row, latest_active, unless_empty, no_set, scan_rows, order_by_ordinal,
}
use mission.Starters.Methods.{Env, Store, starter_questions, list, regenerate}
use mission.Starters.Written.{Written, kept, replaced, list-Writes, regenerate-Writes}

-- The active questions of a tenant belong to one set.
pub record HasOneSet (rows : Rows) : Type 0 where
  pub same :
      (l m : StarterQuestion)
      → In l rows
      → In m rows
      → l.is_active ≡ true
      → m.is_active ≡ true
      → l.tenant_id ≡ m.tenant_id
      → l.set_id ≡ m.set_id

module _ (tenant : ℕ) where
  -- What is active after the deactivation was there, and is of another tenant.
  pub still_active :
      (l : StarterQuestion) (rows : Rows)
      → In l (deactivate_prior_sets tenant rows)
      → l.is_active ≡ true
      → In l rows × (nat_beq l.tenant_id tenant ≡ false)
  unfolding deactivate_prior_sets
  still_active l [] i h = elim i [ ]
  still_active l (q ∷ qs) (inr i) h = let (j, n) = still_active l qs i h in (inr j, n)
  still_active l (q ∷ qs) (inl e) h = elim (Bool-cases (active_of tenant q)) [
    | inl a ↦ absurd (ground (arith, ap (λ (x : StarterQuestion). x.is_active) e, a, h))
    | inr a ↦
        let same : l ≡ q = ground (arith, e, a) in
        (inl same, rw same (ground (arith, a, ap (λ (x : StarterQuestion). x.is_active) same, h)))
  ]

  module _ (now layer set : ℕ) where
    newly_stored :
        (l : StarterQuestion) (qs : List StarterQuestion)
        → In l (map (inserted now tenant layer set) qs)
        → (l.tenant_id ≡ tenant) × (l.set_id ≡ set)
    newly_stored l [] i = elim i [ ]
    newly_stored l (q ∷ qs) (inr i) = newly_stored l qs i
    newly_stored l (q ∷ qs) (inl e) =
        (ap (λ (x : StarterQuestion). x.tenant_id) e, ap (λ (x : StarterQuestion). x.set_id) e)

    replace_active_set-HasOneSet :
        (qs : List StarterQuestion) (rows : Rows)
        → HasOneSet rows
        → HasOneSet (replace_active_set now tenant layer set qs rows)
    unfolding replace_active_set insert_set
    replace_active_set-HasOneSet qs rows v = record { same = same }
      where
        olds : Rows
        olds = deactivate_prior_sets tenant rows

        same :
            (l m : StarterQuestion)
            → In l (olds ++ map (inserted now tenant layer set) qs)
            → In m (olds ++ map (inserted now tenant layer set) qs)
            → l.is_active ≡ true
            → m.is_active ≡ true
            → l.tenant_id ≡ m.tenant_id
            → l.set_id ≡ m.set_id
        same l m i j a b t = elim (In-append l olds (map (inserted now tenant layer set) qs) i) [
          | inl i' ↦
              let p = still_active l rows i' a in
              elim (In-append m olds (map (inserted now tenant layer set) qs) j) [
                | inl j' ↦ v.same l m p.0 (still_active m rows j' b).0 a b t
                | inr j' ↦ absurd (ground (arith, p.1, t, newly_stored m qs j'))
              ]
          | inr i' ↦
              let p = newly_stored l qs i' in
              elim (In-append m olds (map (inserted now tenant layer set) qs) j) [
                | inl j' ↦ absurd (ground (arith, (still_active m rows j' b).1, t, p))
                | inr j' ↦ p.1 ∙ sym (newly_stored m qs j').1
              ]
        ]

  Written-HasOneSet : {old new : Rows} → Written tenant old new → HasOneSet old → HasOneSet new
  Written-HasOneSet (kept e) v = rw e v
  Written-HasOneSet (replaced rows now layer set id locale cs w e) v = rw e (
      replace_active_set-HasOneSet now layer set (starter_questions tenant layer set locale 1 id cs)
        rows (Written-HasOneSet w v))

-- However the listing or the regeneration of starter questions ends, errors included: when the active
-- questions of each tenant belonged to one set before, they do afterwards.
pub starter_questions-HasOneSet :
    (env : Env) (tenant : ℕ) (locale : Text) (w : Store)
    → HasOneSet w.rows
    → HasOneSet (list env tenant locale w).1.rows
      × HasOneSet (regenerate env tenant locale w).1.rows
starter_questions-HasOneSet env tenant locale w v = (
  Written-HasOneSet tenant (list-Writes env tenant locale w) v,
  Written-HasOneSet tenant (regenerate-Writes env tenant locale w) v,
)

pub select-append :
    (test : StarterQuestion → Bool) (xs ys : Rows)
    → select test (xs ++ ys) ≡ select test xs ++ select test ys
unfolding select
select-append test [] ys = refl
select-append test (x ∷ xs) ys = ground (arith, select-append test xs ys)

-- A test that only active questions of one tenant pass sees nothing of another tenant's replacement.
module _ (tenant other : ℕ) (different : nat_beq other tenant ≡ false)
    (test : StarterQuestion → Bool)
    (narrow : (q : StarterQuestion) → active_of other q ≡ false → test q ≡ false) where
  select-deactivate_prior_sets :
      (rows : Rows) → select test (deactivate_prior_sets tenant rows) ≡ select test rows
  unfolding select deactivate_prior_sets
  select-deactivate_prior_sets [] = refl
  select-deactivate_prior_sets (q ∷ qs) = elim (Bool-cases (active_of tenant q)) [
    | inl a ↦
        rw
          (
            a,
            narrow (record q { is_active = false }) (ground arith),
            narrow q (ground (arith, a, different)),
          )
          (select-deactivate_prior_sets qs)
    | inr a ↦ rw (a, select-deactivate_prior_sets qs) refl
  ]

  select-inserted :
      (now layer set : ℕ) (qs : List StarterQuestion)
      → select test (map (inserted now tenant layer set) qs) ≡ []
  unfolding select
  select-inserted now layer set [] = refl
  select-inserted now layer set (q ∷ qs) =
      rw (narrow (inserted now tenant layer set q) (ground (arith, different)))
        (select-inserted now layer set qs)

  select-replace_active_set :
      (now layer set : ℕ) (qs : List StarterQuestion) (rows : Rows)
      → select test (replace_active_set now tenant layer set qs rows) ≡ select test rows
  unfolding replace_active_set insert_set
  select-replace_active_set now layer set qs rows =
      select-append test (deactivate_prior_sets tenant rows)
        (map (inserted now tenant layer set) qs)
      ∙ (rw (select-inserted now layer set qs, select-deactivate_prior_sets rows) (append-nil _))

module _ (tenant other : ℕ) (different : nat_beq other tenant ≡ false) where
  latest_active-replace_active_set :
      (now layer set : ℕ) (qs : List StarterQuestion) (rows : Rows)
      → latest_active other (replace_active_set now tenant layer set qs rows)
        ≡ latest_active other rows
  unfolding latest_active
  latest_active-replace_active_set now layer set qs rows =
      rw
        (select-replace_active_set tenant other different (active_of other) (λ q h. h) now layer set
          qs rows)
        (ap (λ (r : Rows). unless_empty (scan_rows no_set r))
          (same_rows (first_row (select (active_of other) rows))))
    where
      same_rows :
          (first : Option StarterQuestion)
          → rows_of_set other (replace_active_set now tenant layer set qs rows) first
            ≡ rows_of_set other rows first
      same_rows none = refl
      same_rows (some first) = ap order_by_ordinal (
          select-replace_active_set tenant other different
            (λ q. active_of other q && nat_beq q.set_id first.set_id) (λ q h. ground (arith, h)) now
            layer set qs rows)

  latest_active-Written :
      {old new : Rows} → Written tenant old new → latest_active other new ≡ latest_active other old
  latest_active-Written (kept e) = ap (latest_active other) e
  latest_active-Written (replaced rows now layer set id locale cs w e) =
      ap (latest_active other) e
      ∙ (latest_active-replace_active_set now layer set
            (starter_questions tenant layer set locale 1 id cs) rows
          ∙ latest_active-Written w)

  -- The listing and the regeneration of a tenant's starter questions, however they end, leave the active
  -- set that is selected for another tenant as it was.
  pub latest_active-other_tenant :
      (env : Env) (locale : Text) (w : Store)
      → (latest_active other (list env tenant locale w).1.rows ≡ latest_active other w.rows)
        × (latest_active other (regenerate env tenant locale w).1.rows ≡ latest_active other w.rows)
  latest_active-other_tenant env locale w = (
    latest_active-Written (list-Writes env tenant locale w),
    latest_active-Written (regenerate-Writes env tenant locale w),
  )
