-- ===== src/Llm/Router/Answers.antt =====
-- Where the responses and the errors of `Complete` come from.
use mission.Prelude.{
  ◌≡◌, ◌≢◌, ◌⊎◌, inl, inr, refl, sym, ap, ◌∙◌, false, Option, none, some, List, [], ◌∷◌, ◌++◌,
  arith, In, In-append_right, text_test,
}
use mission.Prelude.Text.{Text, is_empty}
use mission.Prelude.Dict.{lookup}
use mission.Llm.Errors.{Err, unavailable, is_transient_provider_error, new_unavailable_error}
use mission.Llm.Request.{CompletionRequest, CompletionResponse, model_for_provider}
use mission.Llm.Breaker.{ProviderBreaker, before_call}
use mission.Llm.Router.{
  Provider, Router, Visit, response, stop, Result, ok, err, round, give_up, no_providers, complete,
  ordered_providers, with_provider, request_for,
}
use mission.Llm.Router.Order.{IsValid}
use mission.Llm.Router.Failover.{complete_lem}

-- The provider was asked: its breaker let the call through, a model is set, and this is its reply.
pub record Asked (r : Router) (visits : Text → Visit) (req : CompletionRequest) (n : Text)
    : Type 0 where
  pub provider : Provider
  pub breaker : ProviderBreaker
  pub registered : lookup n r.providers ≡ some provider
  pub guarded : lookup n r.breakers ≡ some breaker
  pub let_through : (before_call (visits n).before_at breaker).1 ≡ none
  pub has_model : model_for_provider req n ≢ []

asked_ok :
    (n : Text) (v : Visit) (req : CompletionRequest) (p : Provider) (b c : ProviderBreaker)
    (a : CompletionResponse)
    → round n v req (some p) (some b) ≡ stop c (ok a)
    → ((before_call v.before_at b).1 ≡ none)
      × (is_empty (model_for_provider req n) ≡ false)
      × ((r : CompletionResponse) × (v.reply (request_for n req) ≡ response r)
          × (a ≡ with_provider p.name r))
unfolding round
asked_ok n v req p b c a h = ground arith

round-ok :
    (n : Text) (v : Visit) (req : CompletionRequest) (p : Option Provider)
    (b : Option ProviderBreaker) (c : ProviderBreaker) (a : CompletionResponse)
    → round n v req p b ≡ stop c (ok a)
    → (p' : Provider) × (b' : ProviderBreaker) × (r : CompletionResponse) × (p ≡ some p')
      × (b ≡ some b')
      × ((before_call v.before_at b').1 ≡ none)
      × (is_empty (model_for_provider req n) ≡ false)
      × (v.reply (request_for n req) ≡ response r)
      × (a ≡ with_provider p'.name r)
unfolding round
round-ok n v req (some p) (some b) c a h =
    let (through, model, rest) = asked_ok n v req p b c a h in
    (p, b, rest.0, refl, refl, through, model, rest.1, rest.2)
round-ok n v req none b c a h = cc
round-ok n v req (some p) none c a h = cc

round-err :
    (n : Text) (v : Visit) (req : CompletionRequest) (p : Option Provider)
    (b : Option ProviderBreaker) (c : ProviderBreaker) (e : Err)
    → round n v req p b ≡ stop c (err e)
    → is_transient_provider_error (some e) ≡ false
unfolding round is_transient_provider_error
round-err n v req (some p) (some b) c e h = ground arith
round-err n v req none b c e h = cc
round-err n v req (some p) none c e h = cc

give_up-ne-ok :
    (attempted : List Text) (last : Option Err) (a : CompletionResponse)
    → give_up attempted last ≢ ok a
give_up-ne-ok attempted none a h = cc
give_up-ne-ok attempted (some l) a h = cc

give_up-err :
    (attempted : List Text) (last : Option Err) (e : Err)
    → give_up attempted last ≡ err e
    → (is_transient_provider_error (some e) ≡ false) ⊎ ((l : Err) × (e ≡ unavailable attempted l))
unfolding is_transient_provider_error new_unavailable_error
give_up-err attempted none e h = inl (ground arith)
give_up-err attempted (some l) e h = inr (l, ground arith)

give_up_nothing :
    (e : Err) → err no_providers ≡ err e → is_transient_provider_error (some e) ≡ false
unfolding is_transient_provider_error
give_up_nothing e h = ground arith

In-middle : (x : Text) (xs ys zs : List Text) → zs ≡ xs ++ x ∷ ys → In x zs
In-middle x xs ys zs e = rw e (In-append_right x xs (x ∷ ys) (inl refl))

module _ (visits : Text → Visit) (req : CompletionRequest) (r : Router) (v : IsValid r) where
  -- A response of `Complete` on a valid router is the reply of one of its providers, which was asked
  -- with its own model; a response with no provider's name gets the one of that provider.
  pub complete-ok :
      (a : CompletionResponse)
      → (complete visits req r).1 ≡ ok a
      → (n : Text) × In n (ordered_providers r)
        × (asked : Asked r visits req n) × (reply : CompletionResponse) × ((visits n).reply
              (request_for n req)
            ≡ response reply)
        × (a ≡ with_provider asked.provider.name reply)
  complete-ok a h = elim (complete_lem visits req r v) [
    | inl (_, e) ↦ cc (ap (λ (x : Router × Result). x.1) e, h)
    | inr (inl (_, s)) ↦
        let (p, b, reply, hp, hb, through, model, e, e') =
          round-ok s.name (visits s.name) req _ _ s.breaker a (s.settles ∙ ap (stop s.breaker) h) in
        (
          s.name,
          In-middle s.name s.earlier s.later _ s.splits,
          record {
            provider = p;
            breaker = b;
            registered = hp;
            guarded = hb;
            let_through = through;
            has_model = λ z. cc (ap is_empty z, model);
          },
          reply,
          e,
          e',
        )
    | inr (inr (_, x)) ↦ absurd (give_up-ne-ok _ _ a (sym x.gives_up ∙ h))
  ]

  -- An error of `Complete` on a valid router is not a transient one of a provider, unless it is the
  -- unavailable error, which lists all the router's providers in the order they were tried.
  pub complete-err :
      (e : Err)
      → (complete visits req r).1 ≡ err e
      → (is_transient_provider_error (some e) ≡ false)
        ⊎ ((last : Err) × (e ≡ unavailable (ordered_providers r) last))
  complete-err e h = elim (complete_lem visits req r v) [
    | inl (_, f) ↦ inl (give_up_nothing e (sym (ap (λ (x : Router × Result). x.1) f) ∙ h))
    | inr (inl (_, s)) ↦
        inl
          (round-err s.name (visits s.name) req _ _ s.breaker e (s.settles ∙ ap (stop s.breaker) h))
    | inr (inr (_, x)) ↦ give_up-err _ _ e (sym x.gives_up ∙ h)
  ]
