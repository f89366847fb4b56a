-- ===== src/Sessions/Ordering.antt =====
-- The order of `ListSessions` of internal/controlplane/controller/agent.go.
use mission.Prelude.{
  ℕ, suc, ◌≤◌, ◌≡◌, refl, ap, ◌∙◌, List, [], ◌∷◌, arith, Bool-cases, inl, inr, ltb, length, All,
}
use mission.Prelude.Dict.{Dict}
use mission.Sessions.Types.{AgentSessionSnapshot}
use mission.Sessions.Store.{Manager}
use mission.Sessions.Listing.{views, insert_snapshot, sort_snapshots, list_sessions}

-- Each snapshot was connected no earlier than those behind it.
abbrev pub IsLatestFirst : List AgentSessionSnapshot → Type 0
IsLatestFirst [] = Unit
IsLatestFirst (s ∷ rest) = All (λ t. t.connected_at ≤ s.connected_at) rest × IsLatestFirst rest

All-weaken :
    (n k : ℕ) (xs : List AgentSessionSnapshot)
    → n ≤ k
    → All (λ t. t.connected_at ≤ n) xs
    → All (λ t. t.connected_at ≤ k) xs
All-weaken n k [] l a = tt
All-weaken n k (x ∷ xs) l a = (omega (arith, a.0), All-weaken n k xs l a.1)

insert_snapshot-All :
    (k : ℕ) (s : AgentSessionSnapshot) (xs : List AgentSessionSnapshot)
    → s.connected_at ≤ k
    → All (λ t. t.connected_at ≤ k) xs
    → All (λ t. t.connected_at ≤ k) (insert_snapshot s xs)
unfolding insert_snapshot
insert_snapshot-All k s [] l a = (l, tt)
insert_snapshot-All k s (t ∷ rest) l a = elim (Bool-cases (ltb s.connected_at t.connected_at)) [
  | inl h ↦ rw h (a.0, insert_snapshot-All k s rest l a.1)
  | inr h ↦ rw h (l, a)
]

insert_snapshot-IsLatestFirst :
    (s : AgentSessionSnapshot) (xs : List AgentSessionSnapshot)
    → IsLatestFirst xs
    → IsLatestFirst (insert_snapshot s xs)
unfolding insert_snapshot
insert_snapshot-IsLatestFirst s [] o = (tt, tt)
insert_snapshot-IsLatestFirst s (t ∷ rest) o =
    elim (Bool-cases (ltb s.connected_at t.connected_at)) [
      | inl h ↦ rw h (
        insert_snapshot-All t.connected_at s rest (ground arith) o.0,
        insert_snapshot-IsLatestFirst s rest o.1,
      )
      | inr h ↦
          rw h ((ground arith, All-weaken t.connected_at s.connected_at rest (ground arith) o.0), o)
    ]

sort_snapshots-IsLatestFirst : (xs : List AgentSessionSnapshot) → IsLatestFirst (sort_snapshots xs)
unfolding sort_snapshots
sort_snapshots-IsLatestFirst [] = tt
sort_snapshots-IsLatestFirst (s ∷ rest) =
    insert_snapshot-IsLatestFirst s _ (sort_snapshots-IsLatestFirst rest)

length-insert :
    (s : AgentSessionSnapshot) (xs : List AgentSessionSnapshot)
    → length (insert_snapshot s xs) ≡ suc (length xs)
unfolding insert_snapshot
length-insert s [] = refl
length-insert s (t ∷ rest) = elim (Bool-cases (ltb s.connected_at t.connected_at)) [
  | inl h ↦ rw h (ap suc (length-insert s rest))
  | inr h ↦ rw h refl
]

length-sort : (xs : List AgentSessionSnapshot) → length (sort_snapshots xs) ≡ length xs
unfolding sort_snapshots
length-sort [] = refl
length-sort (s ∷ rest) = length-insert s _ ∙ ap suc (length-sort rest)

length-views : (now : ℕ) (m : Manager) (d : Dict ℕ ℕ) → length (views now m d) ≡ length d
unfolding views
length-views now m [] = refl
length-views now m ((t, r) ∷ rest) = ap suc (length-views now m rest)

-- `ListSessions` has one snapshot for every token with a session, the latest connected first.
pub list_sessions-IsLatestFirst :
    (now : ℕ) (m : Manager)
    → IsLatestFirst (list_sessions now m) × (length (list_sessions now m) ≡ length m.by_token)
unfolding list_sessions
list_sessions-IsLatestFirst now m = (
  sort_snapshots-IsLatestFirst (views now m m.by_token),
  length-sort (views now m m.by_token) ∙ length-views now m m.by_token,
)
