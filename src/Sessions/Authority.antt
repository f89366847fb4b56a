-- ===== src/Sessions/Authority.antt =====
-- Who may report a result, of internal/controlplane/controller/agent.go.
use mission.Prelude.{
  ℕ, ◌≡◌, ◌≢◌, refl, subst, nat_beq_iff, inl, inr, true, Option, none, some, Bool-cases, nat_beq,
  nat_test, text_test,
}
use mission.Prelude.Text.{Text}
use mission.Prelude.Dict.{lookup}
use mission.Sessions.Types.{CommandKind, AgentResult, Failure}
use mission.Sessions.Store.{Manager}
use mission.Sessions.Manager.{is_active_locked, session_locked, Found, found, lost}
use mission.Sessions.Results.{submit, submit_found, submit_to, deliver}
use mission.Sessions.Preservation.{session_at-found}

-- Either nothing changes and there is an error, or the active session of that name is the token's,
-- has the command pending, and its waiter `w` gets the result.
pub data Verdict (k : CommandKind) (now token : ℕ) (name : Text) (c : ℕ) (r : AgentResult)
    (m : Manager) : Manager × Option Failure → Type 0 where
  refused : (e : Failure) → Verdict k now token name c r m (m, some e)
  delivered :
      (ref w : ℕ)
      → lookup name m.by_id ≡ some ref
      → (m.sessions ref).snapshot.token_id ≡ token
      → is_active_locked m now (m.sessions ref) ≡ true
      → lookup c ((m.sessions ref).pending k) ≡ some w
      → Verdict k now token name c r m (deliver ref k c w r m, none)

submit_to-Verdict :
    (k : CommandKind) (now token : ℕ) (name : Text) (c : ℕ) (r : AgentResult) (m : Manager)
    (ref : ℕ) (o : Option ℕ)
    → lookup name m.by_id ≡ some ref
    → (m.sessions ref).snapshot.token_id ≡ token
    → is_active_locked m now (m.sessions ref) ≡ true
    → lookup c ((m.sessions ref).pending k) ≡ o
    → Verdict k now token name c r m (submit_to ref k c o r m)
unfolding submit_to
submit_to-Verdict k now token name c r m ref none n t a p = refused _
submit_to-Verdict k now token name c r m ref (some w) n t a p = delivered ref w n t a p

submit_found-Verdict :
    (k : CommandKind) (now token : ℕ) (name : Text) (c : ℕ) (r : AgentResult) (m : Manager)
    (f : Found)
    → session_locked now token name m ≡ f
    → Verdict k now token name c r m (submit_found k c f r m)
unfolding submit_found session_locked
submit_found-Verdict k now token name c r m (lost e) h = refused e
submit_found-Verdict k now token name c r m (found ref) h =
    let s = session_at-found now token m (lookup name m.by_id) ref h in
    submit_to-Verdict k now token name c r m ref _ s.0 s.1.0 s.1.1 refl

-- A `Submit` method, whoever calls it with whatever arguments, fails and changes nothing, or the
-- session that has the name is the caller's token's, is active and has a waiter for the command,
-- and the method takes that command out and gives that waiter the result.
pub submit-Verdict :
    (k : CommandKind) (now token : ℕ) (name : Text) (c : ℕ) (r : AgentResult) (m : Manager)
    → Verdict k now token name c r m (submit k now token name c r m)
unfolding submit
submit-Verdict k now token name c r m = submit_found-Verdict k now token name c r m _ refl

Verdict-others :
    (k : CommandKind) (now token : ℕ) (name : Text) (c : ℕ) (r : AgentResult) (m : Manager)
    (o : Manager × Option Failure)
    → Verdict k now token name c r m o
    → (j : ℕ) → (m.sessions j).snapshot.token_id ≢ token
    → (o.0.sessions j ≡ m.sessions j)
unfolding deliver
Verdict-others k now token name c r m _ (refused e) j n = refl
Verdict-others k now token name c r m _ (delivered ref w l t a p) j n =
    elim (Bool-cases (nat_beq ref j)) [
      | inl h ↦
          absurd
            (n (subst (λ q. (m.sessions q).snapshot.token_id ≡ token) ((nat_beq_iff ref j).0 h) t))
      | inr h ↦ rw h refl
    ]

-- A `Submit` method changes no session of another token than the caller's.
pub submit-others :
    (k : CommandKind) (now token : ℕ) (name : Text) (c : ℕ) (r : AgentResult) (m : Manager) (j : ℕ)
    → (m.sessions j).snapshot.token_id ≢ token
    → (submit k now token name c r m).0.sessions j ≡ m.sessions j
submit-others k now token name c r m j n =
    Verdict-others k now token name c r m _ (submit-Verdict k now token name c r m) j n
