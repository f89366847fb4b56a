-- ===== src/Llm/Router/Failover.antt =====
-- What `Complete` returns, against the rounds that its providers would have on their own.
use mission.Prelude.{
  ◌≡◌, ◌≢◌, ◌⊎◌, inl, inr, refl, sym, ap, ◌∙◌, true, Option, none, some, List, [], ◌∷◌, ◌++◌,
  append_assoc, append-nil, arith, All, All-map, All-In, In, Distinct, Bool-cases, text_test,
  beq_of_ne, beq_self,
}
use mission.Prelude.Text.{Text, is_empty}
use mission.Prelude.Dict.{lookup, lookup-insert}
use mission.Llm.Errors.{Err}
use mission.Llm.Request.{CompletionRequest}
use mission.Llm.Breaker.{ProviderBreaker}
use mission.Llm.Router.{
  Provider, Router, Visit, Round, next, stop, panic, Result, err, has, round, round_of, save,
  give_up, no_providers, complete_from, complete, ordered_providers,
}
use mission.Llm.Router.Order.{IsValid, ordered_providers_lem}

Round-cases :
    (t : Round)
    → ((b : ProviderBreaker) × (e : Err) × (t ≡ next b e))
      ⊎ ((b : ProviderBreaker) × (result : Result) × (t ≡ stop b result))
      ⊎ (t ≡ panic)
Round-cases (next b e) = inl (b, e, refl)
Round-cases (stop b result) = inr (inl (b, result, refl))
Round-cases panic = inr (inr refl)

is_empty→nil : (ns : List Text) → is_empty ns ≡ true → ns ≡ []
is_empty→nil [] h = refl
is_empty→nil (n ∷ ns) h = cc

module _ (visits : Text → Visit) (req : CompletionRequest) where
  -- The provider hands the request on to the next one.
  abbrev pub Passes : Router → Text → Type 0
  Passes r n = (b : ProviderBreaker) × (e : Err) × (round_of r visits req n ≡ next b e)

  -- The provider settles the request with this result, and the later ones are left alone.
  pub record Settled (r : Router) (names : List Text) (s : Router) (result : Result) : Type 0 where
    pub earlier : List Text
    pub name : Text
    pub later : List Text
    pub breaker : ProviderBreaker
    pub splits : names ≡ earlier ++ name ∷ later
    pub passed : All (Passes r) earlier
    pub settles : round_of r visits req name ≡ stop breaker result
    pub kept : lookup name s.breakers ≡ some breaker
    pub untouched : All (λ n. lookup n s.breakers ≡ lookup n r.breakers) later

  error_in : Round → Option Err
  error_in (next b e) = some e
  error_in (stop b result) = none
  error_in panic = none

  -- The error that the last of the providers handed the request on with.
  unfoldable pub last_error : Router → List Text → Option Err → Option Err
  unfolding error_in
  last_error r [] last = last
  last_error r (n ∷ ns) last = last_error r ns (error_in (round_of r visits req n))

  -- Every provider handed the request on: the error lists them all and holds the last one's error.
  pub record Exhausted (r : Router) (attempted names : List Text) (last : Option Err)
      (result : Result) : Type 0 where
    pub passed : All (Passes r) names
    pub gives_up : result ≡ give_up (attempted ++ names) (last_error r names last)

  -- The router `s` has the state of `r` for the provider.
  abbrev Agrees : Router → Router → Text → Type 0
  Agrees r s n =
      (round_of s visits req n ≡ round_of r visits req n)
      × (lookup n s.breakers ≡ lookup n r.breakers)

  Agrees-save :
      (r s : Router) (m : Text) (b : ProviderBreaker) (ns : List Text)
      → ¬ In m ns
      → All (Agrees r s) ns
      → All (Agrees r (save m b s)) ns
  Agrees-save r s m b [] h a = tt
  Agrees-save r s m b (n ∷ ns) h a = (
    (
      round_of-save s m n b (λ e. h (inl e)) ∙ a.0.0,
      rw (lookup-insert m n b s.breakers, beq_of_ne m n (λ e. h (inl e))) a.0.1,
    ),
    Agrees-save r s m b ns (λ i. h (inr i)) a.1,
  )
    where
      -- Another provider's breaker has no part in a round.
      round_of-save :
          (s : Router) (m n : Text) (b : ProviderBreaker)
          → m ≢ n
          → round_of (save m b s) visits req n ≡ round_of s visits req n
      round_of-save s m n b ne =
          ap (round n (visits n) req (lookup n s.providers))
            (rw (lookup-insert m n b s.breakers, beq_of_ne m n ne))

  Settled-cons :
      {r s : Router} {n : Text} {ns : List Text} {result : Result}
      → Passes r n
      → Settled r ns s result
      → Settled r (n ∷ ns) s result
  Settled-cons {n} pass x = record {
    earlier = n ∷ x.earlier;
    name = x.name;
    later = x.later;
    breaker = x.breaker;
    splits = ap (◌∷◌ n) x.splits;
    passed = (pass, x.passed);
    settles = x.settles;
    kept = x.kept;
    untouched = x.untouched;
  }

  Exhausted-cons :
      {r : Router} {n : Text} {attempted ns : List Text} {last : Option Err} {result : Result}
      (b : ProviderBreaker) (e : Err)
      → round_of r visits req n ≡ next b e
      → Exhausted r (attempted ++ n ∷ []) ns (some e) result
      → Exhausted r attempted (n ∷ ns) last result
  unfolding last_error
  Exhausted-cons {n} {attempted} {ns} b e h x = record {
    passed = ((b, e, h), x.passed);
    gives_up = rw h (rw append_assoc at x.gives_up);
  }

  complete_from-cases :
      (names attempted : List Text) (last : Option Err) (r s : Router)
      → Distinct names
      → All (Agrees r s) names
      → All (λ n. round_of r visits req n ≢ panic) names
      → let end = complete_from visits req names attempted last s in
        Settled r names end.0 end.1 ⊎ Exhausted r attempted names last end.1
  unfolding complete_from last_error
  complete_from-cases [] attempted last r s d a p =
      inr (record { passed = tt; gives_up = rw append-nil })
  complete_from-cases (n ∷ ns) attempted last r s d a p =
      let ahead = λ (b : ProviderBreaker). Agrees-save r s n b ns d.0 a.1 in
      elim (Round-cases (round_of s visits req n)) [
        | inl (b, e, h) ↦
            rw (h, complete_from)
              (elim (complete_from-cases ns (attempted ++ n ∷ []) (some e) r (save n b s) d.1
                (ahead b) p.1) [
                  | inl x ↦ inl (Settled-cons (b, e, sym a.0.0 ∙ h) x)
                  | inr x ↦ inr (Exhausted-cons b e (sym a.0.0 ∙ h) x)
                ])
        | inr (inl (b, result, h)) ↦
            rw (h, complete_from)
              (inl (record {
                earlier = [];
                name = n;
                later = ns;
                breaker = b;
                splits = refl;
                passed = tt;
                settles = sym a.0.0 ∙ h;
                kept = rw (lookup-insert n n b s.breakers, beq_self n);
                untouched = All-map (λ m x. x.1) ns (ahead b);
              }))
        | inr (inr h) ↦ absurd (p.0 (sym a.0.0 ∙ h))
      ]

  round-ne-panic :
      (n : Text) (v : Visit) (p : Option Provider) (b : Option ProviderBreaker)
      → has p ≡ true
      → has b ≡ true
      → round n v req p b ≢ panic
  unfolding round
  round-ne-panic n v (some p) (some b) h k = ground arith
  round-ne-panic n v none b h k = cc
  round-ne-panic n v p none h k = cc

  -- A provider of a valid router has a breaker, so no round dereferences nil.
  round_of-ne-panic :
      (r : Router) (n : Text) → IsValid r → In n r.order → round_of r visits req n ≢ panic
  round_of-ne-panic r n v i =
      round-ne-panic n (visits n) _ _ ((v.provided n).0 i) ((v.guarded n).0 i)

  -- For a valid router `Complete` has one of three ends. There is no provider, and the error says
  -- so. Or the providers tried, in their order, up to some one hand the request on, that one settles
  -- it with the result, its breaker is the one its round left, and those of the later providers are
  -- untouched. Or every provider hands it on, and the error lists them all and wraps the last one's.
  pub complete_lem :
      (r : Router)
      → IsValid r
      → let names = ordered_providers r in
        let end = complete visits req r in
        ((names ≡ []) × (end ≡ (r, err no_providers)))
        ⊎ ((names ≢ []) × Settled r names end.0 end.1)
        ⊎ ((names ≢ []) × Exhausted r [] names none end.1)
  unfolding complete
  complete_lem r v = elim (Bool-cases (is_empty (ordered_providers r))) [
    | inl e ↦ inl (is_empty→nil _ e, rw e)
    | inr e ↦
        rw e
          (elim (complete_from-cases (ordered_providers r) [] none r r (ordered_providers_lem r v).0
            (All-In _ (ordered_providers r) (λ n i. (refl, refl)))
            (All-In _ (ordered_providers r)
              (λ n i. round_of-ne-panic r n v (((ordered_providers_lem r v).1 n).0 i)))) [
                | inl x ↦ inr (inl (λ z. cc (ap is_empty z, e), x))
                | inr x ↦ inr (inr (λ z. cc (ap is_empty z, e), x))
              ])
  ]
