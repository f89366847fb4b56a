-- ===== src/Sessions/Listing.antt =====
-- The snapshots that internal/controlplane/controller/agent.go shows: every token's session, and the
-- latest of a tenant or a token. A list of sessions is in the order of the loop over the map.
use mission.Prelude.{ℕ, Option, none, some, List, [], ◌∷◌, ltb, if◌then◌else◌, ◌==◌, nat_test}
use mission.Prelude.Dict.{Dict, lookup}
use mission.Sessions.Types.{AgentSessionSnapshot}
use mission.Sessions.Store.{Manager}
use mission.Sessions.Manager.{is_active_locked}

-- The copy of the snapshot with the status of the moment.
unfoldable pub view : ℕ → Manager → ℕ → AgentSessionSnapshot
unfolding is_active_locked
view now m ref = record (m.sessions ref).snapshot {
  status = if is_active_locked m now (m.sessions ref) then "online" else "offline";
}

unfoldable pub views : ℕ → Manager → Dict ℕ ℕ → List AgentSessionSnapshot
unfolding view
views now m [] = []
views now m ((token, ref) ∷ rest) = view now m ref ∷ views now m rest

-- `sort.Slice` by `ConnectedAt`, the latest first.
unfoldable pub insert_snapshot :
    AgentSessionSnapshot → List AgentSessionSnapshot → List AgentSessionSnapshot
insert_snapshot s [] = s ∷ []
insert_snapshot s (t ∷ rest) =
    let below = insert_snapshot s rest in
    if ltb s.connected_at t.connected_at then t ∷ below else s ∷ t ∷ rest

unfoldable pub sort_snapshots : List AgentSessionSnapshot → List AgentSessionSnapshot
unfolding insert_snapshot
sort_snapshots [] = []
sort_snapshots (s ∷ rest) = insert_snapshot s (sort_snapshots rest)

unfoldable pub list_sessions : ℕ → Manager → List AgentSessionSnapshot
unfolding views sort_snapshots
list_sessions now m = sort_snapshots (views now m m.by_token)

later_snapshot : Option AgentSessionSnapshot → AgentSessionSnapshot → AgentSessionSnapshot
later_snapshot none s = s
later_snapshot (some selected) s = if ltb selected.connected_at s.connected_at then s else selected

latest_view : ℕ → ℕ → Manager → Dict ℕ ℕ → Option AgentSessionSnapshot → Option AgentSessionSnapshot
unfolding view later_snapshot
latest_view now tenant_id m [] selected = selected
latest_view now tenant_id m ((token, ref) ∷ rest) selected = latest_view now tenant_id m rest (
    if (m.sessions ref).snapshot.tenant_id == tenant_id
    then some (later_snapshot selected (view now m ref))
    else selected)

unfoldable pub latest_session_for_tenant : ℕ → ℕ → Manager → Option AgentSessionSnapshot
unfolding latest_view
latest_session_for_tenant now tenant_id m = latest_view now tenant_id m m.by_token none

token_view : ℕ → Manager → Option ℕ → Option AgentSessionSnapshot
unfolding view
token_view now m none = none
token_view now m (some ref) = some (view now m ref)

unfoldable pub latest_session_for_token : ℕ → ℕ → Manager → Option AgentSessionSnapshot
unfolding token_view
latest_session_for_token now token_id m = token_view now m (lookup token_id m.by_token)
