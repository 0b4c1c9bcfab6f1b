-- ===== src/RoundTrip/Steps.antt =====
-- When the authentication steps of a reply can be read.
use wso2is_operator.Base.{
  String, Bool, true, false, List, [], ◌∷◌, ◌≡◌, refl, ap, map, ◌⊎◌, inl, inr, if◌then◌else◌,
}
use wso2is_operator.Base.Exit.{Exit, ◌>>=◌, done, panicked, index_out_of_range}
use wso2is_operator.Wso2.Soap.ProviderReply.{
  AuthenticationStepResponse, FederatedIdentityProvidersResponse,
  FederatedAuthenticatiorConfigResponse,
}
use wso2is_operator.Wso2.App.{AuthenticationStep}
use wso2is_operator.Wso2.Map.Application.{
  MappedSteps, first_name, map_federated_authenticator, map_authentication_step, map_steps_from,
  map_authentication_steps,
}

-- A provider, if there is one, comes with an authenticator.
abbrev pub has_authenticator : List FederatedIdentityProvidersResponse → Bool
has_authenticator [] = true
has_authenticator (p ∷ _) = elim p.federated_authenticatior_config [ [] ↦ false | a ∷ _ ↦ true ]

abbrev pub all_have : List AuthenticationStepResponse → Bool
all_have [] = true
all_have (c ∷ cs) = if has_authenticator c.federated_identity_providers then all_have cs else false

-- Either every provider has an authenticator and the steps come out in their order, or one has none
-- and the reading panics with an index out of range.
abbrev Mapped : List AuthenticationStepResponse → Exit MappedSteps → Type 0
Mapped cs e =
    (all_have cs ≡ true)
      × ((m : MappedSteps) × (e ≡ done m)
          × (map (λ s. s.step) m.steps ≡ map (λ c. c.step_order) cs))
    ⊎ (all_have cs ≡ false) × (e ≡ panicked index_out_of_range)

authenticator-cases :
    (ps : List FederatedIdentityProvidersResponse)
    → (has_authenticator ps ≡ true) × ((s : String) × (map_federated_authenticator ps ≡ done s))
      ⊎ (has_authenticator ps ≡ false)
        × (map_federated_authenticator ps ≡ panicked index_out_of_range)
unfolding map_federated_authenticator
authenticator-cases [] = inl (refl, ("", refl))
authenticator-cases (p ∷ ps) = first p.federated_authenticatior_config
  where
    first :
        (l : List FederatedAuthenticatiorConfigResponse)
        → ((elim l [ [] ↦ false | a ∷ _ ↦ true ]) ≡ true) × ((s : String) × (first_name l ≡ done s))
          ⊎ ((elim l [ [] ↦ false | a ∷ _ ↦ true ]) ≡ false)
            × (first_name l ≡ panicked index_out_of_range)
    first [] = inr (refl, refl)
    first (a ∷ l) = inl (refl, (a.name, refl))

put_first :
    (step : AuthenticationStep) (c : AuthenticationStepResponse)
    (cs : List AuthenticationStepResponse) (e : Exit MappedSteps)
    → has_authenticator c.federated_identity_providers ≡ true
    → step.step ≡ c.step_order
    → Mapped cs e
    → Mapped (c ∷ cs) (e >>= λ rest. done (record rest { steps = step ∷ rest.steps }))
put_first step c cs e h k (inr (f, g)) = inr (rw (h, f) refl, rw g refl)
put_first step c cs e h k (inl (t, (m, g, orders))) =
    inl (rw (h, t) refl, (record m { steps = step ∷ m.steps }, rw g refl, rw (k, orders) refl))

map_steps_from-Mapped :
    (m : MappedSteps) (cs : List AuthenticationStepResponse)
    → m.steps ≡ []
    → Mapped cs (map_steps_from m cs)
unfolding map_steps_from map_authentication_step
map_steps_from-Mapped m [] e = inl (refl, (m, refl, ap (map (λ s. s.step)) e))
map_steps_from-Mapped m (c ∷ cs) e = elim (authenticator-cases c.federated_identity_providers) [
  | inr (h, k) ↦ inr (rw h refl, rw k refl)
  | inl (h, (s, k)) ↦ rw k (put_first _ c cs _ h refl (map_steps_from-Mapped _ cs refl))
]

-- The steps of a reply are read exactly if each step's first provider, where it has one, comes with
-- an authenticator, and then they keep their order numbers. Otherwise the reading panics with an
-- index out of range.
pub map_authentication_steps-exit :
    (cs : List AuthenticationStepResponse)
    → (all_have cs ≡ true)
        × ((m : MappedSteps) × (map_authentication_steps cs ≡ done m)
            × (map (λ s. s.step) m.steps ≡ map (λ c. c.step_order) cs))
      ⊎ (all_have cs ≡ false) × (map_authentication_steps cs ≡ panicked index_out_of_range)
unfolding map_authentication_steps
map_authentication_steps-exit [] = inl (refl, (_, refl, refl))
map_authentication_steps-exit (c ∷ cs) = map_steps_from-Mapped _ (c ∷ cs) refl
