-- ===== src/Registry/Enabled.antt =====
-- NewRegistry of internal/collector/registry.go: the settings that it takes, and its collectors.
use nadi_agent.Prelude.{
  ◌≡◌, ◌↔◌, refl, Bool, true, false, inl, inr, List, [], ◌∷◌, Bytes, Bool-cases, if_cases, All,
}
use nadi_agent.Registry.{
  registry, unknown_collectors, is_enabled, is_registered, unknown, instantiate, new_registry,
}

-- A name that is switched on is one of the registered collectors.
abbrev pub IsKnown {ℓ} : {C : Type ℓ} → List (Bytes × C) → Bytes × Bool → Type 0
IsKnown factories (name, on) = on ≡ true → is_registered factories name ≡ true

module _ {ℓ} {C : Type ℓ} (factories : List (Bytes × C)) where
  unknown-IsKnown :
      (enabled : List (Bytes × Bool))
      → unknown factories enabled ≡ []
      → All (IsKnown factories) enabled
  unfolding unknown
  unknown-IsKnown [] h = tt
  unknown-IsKnown ((name, false) ∷ rest) h = ((λ p. cc), unknown-IsKnown rest h)
  unknown-IsKnown ((name, true) ∷ rest) h = elim (Bool-cases (is_registered factories name)) [
    | inl known ↦ ((λ _. known), unknown-IsKnown rest (rw known at h))
    | inr strange ↦ let no : name ∷ unknown factories rest ≡ [] = rw strange at h in cc
  ]

  IsKnown-unknown :
      (enabled : List (Bytes × Bool))
      → All (IsKnown factories) enabled
      → unknown factories enabled ≡ []
  unfolding unknown
  IsKnown-unknown [] h = refl
  IsKnown-unknown ((name, false) ∷ rest) (_, h) = IsKnown-unknown rest h
  IsKnown-unknown ((name, true) ∷ rest) (known, h) = rw (known refl) (IsKnown-unknown rest h)

  instantiate-enabled :
      (enabled : List (Bytes × Bool)) (fs : List (Bytes × C))
      → All (λ c. is_enabled enabled c.0 ≡ true) (instantiate enabled fs)
  unfolding instantiate
  instantiate-enabled enabled [] = tt
  instantiate-enabled enabled ((name, f) ∷ rest) =
      if_cases (All (λ (c : Bytes × C). is_enabled enabled c.0 ≡ true)) (is_enabled enabled name) _
        _ (λ on. (on, instantiate-enabled enabled rest)) (λ _. instantiate-enabled enabled rest)

  registered :
      (enabled : List (Bytes × Bool)) (names : List Bytes) (cs : List (Bytes × C))
      → unknown factories enabled ≡ names
      → new_registry factories enabled ≡ registry cs
      → names ≡ []
  unfolding new_registry
  registered enabled [] cs e h = refl
  registered enabled (name ∷ names) cs e h =
      let no : unknown_collectors (name ∷ names) ≡ registry cs = rw (e, new_registry) at h in cc

  pub unknown-nil :
      (enabled : List (Bytes × Bool)) (cs : List (Bytes × C))
      → new_registry factories enabled ≡ registry cs
      → unknown factories enabled ≡ []
  unknown-nil enabled cs made = registered enabled (unknown factories enabled) cs refl made

  pub registry-IsKnown :
      (enabled : List (Bytes × Bool)) (cs : List (Bytes × C))
      → new_registry factories enabled ≡ registry cs
      → All (IsKnown factories) enabled
  registry-IsKnown enabled cs made = unknown-IsKnown enabled (unknown-nil enabled cs made)

  -- NewRegistry makes a registry, in which every collector's name is switched on, exactly if every name
  -- that is switched on is registered: a misspelt name is an error.
  pub new_registry_iff :
      (enabled : List (Bytes × Bool))
      → ((cs : List (Bytes × C)) × (new_registry factories enabled ≡ registry cs)
          × All (λ c. is_enabled enabled c.0 ≡ true) cs)
        ↔ All (IsKnown factories) enabled
  unfolding new_registry
  new_registry_iff enabled = (
    (λ (cs, made, _). registry-IsKnown enabled cs made),
    (λ h. (
      instantiate enabled factories,
      rw (IsKnown-unknown enabled h, new_registry) refl,
      instantiate-enabled enabled factories,
    )),
  )
