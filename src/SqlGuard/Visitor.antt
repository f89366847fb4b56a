-- ===== src/SqlGuard/Visitor.antt =====
-- `guardVisitor` of internal/sqlguard/sqlguard.go: `denied` is the result of the first node that
-- `Enter` refuses; after it `Enter` does nothing, so the rest of the traversal has no effect.
use mission.Prelude.{
  ◌≡◌, ◌⊎◌, inl, inr, refl, Bool, true, false, Option, none, some, List, [], ◌∷◌, All, arith,
  if◌then◌else◌,
}
use mission.SqlGuard.Ast.{
  LockType, lock_none, lock_for_share, lock_for_share_no_wait, lock_for_share_skip_locked,
  other_lock, SelectStmt, Node, select_node, other_node,
}
use mission.SqlGuard.Result.{Result, deny}

unfoldable pub lock_allowed : Option LockType → Bool
lock_allowed none = true
lock_allowed (some other_lock) = false
lock_allowed (some _) = true

abbrev pub select_into_denied : Result
select_into_denied = deny "SELECT ... INTO is not allowed" "select_into"

abbrev pub for_update_denied : Result
for_update_denied = deny "SELECT ... FOR UPDATE is not allowed" "for_update"

enter_select : SelectStmt → Option Result
unfolding lock_allowed
enter_select s =
    if s.select_into_opt
    then some select_into_denied
    else if lock_allowed s.lock_info
    then none
    else some for_update_denied

-- `Enter`, on the field `denied`.
unfoldable pub enter : Option Result → Node → Option Result
unfolding enter_select
enter (some d) n = some d
enter none (select_node s) = enter_select s
enter none other_node = none

visit_from : Option Result → List Node → Option Result
unfolding enter
visit_from denied [] = denied
visit_from denied (n ∷ ns) = visit_from (enter denied n) ns

-- `stmt.Accept(v)` with a new visitor: `v.denied` afterwards.
unfoldable pub visit : List Node → Option Result
unfolding visit_from
visit ns = visit_from none ns

-- A node that only reads: no INTO, and no lock but those for sharing.
abbrev pub ReadsOnly : Node → Type 0
ReadsOnly (select_node s) =
    (s.select_into_opt ≡ false)
    × ((s.lock_info ≡ none)
        ⊎ (s.lock_info ≡ some lock_none)
        ⊎ (s.lock_info ≡ some lock_for_share)
        ⊎ (s.lock_info ≡ some lock_for_share_no_wait)
        ⊎ (s.lock_info ≡ some lock_for_share_skip_locked))
ReadsOnly other_node = Unit

visit_denied : (d : Result) (ns : List Node) → visit_from (some d) ns ≡ some d
unfolding visit_from
visit_denied d [] = refl
visit_denied d (n ∷ ns) = visit_denied d ns

enter-ReadsOnly : (n : Node) → enter none n ≡ none → ReadsOnly n
unfolding enter
enter-ReadsOnly (select_node s) h = ground arith
enter-ReadsOnly other_node h = tt

ReadsOnly-enter : (n : Node) → ReadsOnly n → enter none n ≡ none
unfolding enter
ReadsOnly-enter (select_node s) h = ground arith
ReadsOnly-enter other_node h = refl

enter-cases :
    (n : Node)
    → (enter none n ≡ none)
      ⊎ (enter none n ≡ some select_into_denied)
      ⊎ (enter none n ≡ some for_update_denied)
unfolding enter
enter-cases (select_node s) = ground arith
enter-cases other_node = ground arith

-- The visitor refuses nothing exactly when every node that it enters only reads; otherwise it
-- refuses INTO or FOR UPDATE.
pub visit_lem :
    (ns : List Node)
    → (All ReadsOnly ns × (visit ns ≡ none))
      ⊎ ((¬ All ReadsOnly ns)
          × ((visit ns ≡ some select_into_denied) ⊎ (visit ns ≡ some for_update_denied)))
unfolding visit
visit_lem [] = inl (tt, refl)
visit_lem (n ∷ ns) = elim (enter-cases n) [
  | inl e ↦ elim (visit_lem ns) [
    | inl (a, v) ↦ inl ((enter-ReadsOnly n e, a), rw (visit_from, e) v)
    | inr (a, v) ↦ inr (λ b. a b.1, rw (visit_from, e) v)
  ]
  | inr (inl e) ↦
      inr (λ b. cc (ReadsOnly-enter n b.0, e), inl (rw (visit_from, e) (visit_denied _ ns)))
  | inr (inr e) ↦
      inr (λ b. cc (ReadsOnly-enter n b.0, e), inr (rw (visit_from, e) (visit_denied _ ns)))
]
