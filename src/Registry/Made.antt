-- ===== src/Registry/Made.antt =====
-- What NewRegistry of internal/collector/registry.go makes of the factories: which names its registry
-- has.
use nadi_agent.Prelude.{
  ◌≡◌, ◌∙◌, refl, sym, Bool, true, false, ◌&&◌, inl, inr, List, [], ◌∷◌, Bytes, Bool-cases,
  if_cases, All, bytes_eq, bytes_eq_iff, bytes_eq_refl,
}
use mathlib.Core.Path.{subst}
use nadi_agent.Registry.{registry, is_enabled, is_registered, instantiate, new_registry}
use nadi_agent.Registry.Enabled.{IsKnown, registry-IsKnown, unknown-nil}

module _ {ℓ} {C : Type ℓ} where
  -- No name stands twice in a map.
  abbrev pub IsMap : List (Bytes × C) → Type 0
  IsMap [] = Unit
  IsMap ((name, c) ∷ rest) = (is_registered rest name ≡ false) × IsMap rest

  instantiate-All {κ} :
      (P : Bytes × C → Type κ) (enabled : List (Bytes × Bool)) (fs : List (Bytes × C))
      → All P fs
      → All P (instantiate enabled fs)
  unfolding instantiate
  instantiate-All P enabled [] h = tt
  instantiate-All P enabled ((name, f) ∷ rest) (p, h) =
      if_cases (All P) (is_enabled enabled name) _ _ (λ on. (p, instantiate-All P enabled rest h))
        (λ off. instantiate-All P enabled rest h)

  -- A name is in the registry exactly if it is switched on and registered.
  is_registered-instantiate :
      (enabled : List (Bytes × Bool)) (fs : List (Bytes × C)) (name : Bytes)
      → is_registered (instantiate enabled fs) name
        ≡ (is_enabled enabled name && is_registered fs name)
  unfolding instantiate is_registered
  is_registered-instantiate enabled [] name = elim (Bool-cases (is_enabled enabled name)) [
    | inl on ↦ rw on refl
    | inr off ↦ rw off refl
  ]
  is_registered-instantiate enabled ((key, f) ∷ rest) name =
      let others = is_registered-instantiate enabled rest name in
      elim (Bool-cases (bytes_eq key name)) [
        | inl same ↦
            let e : key ≡ name = (bytes_eq_iff key name).0 same in
            elim (Bool-cases (is_enabled enabled name)) [
              | inl on ↦ rw (e, on, bytes_eq_refl name) refl
              | inr off ↦ rw (e, off) (others ∙ rw off refl)
            ]
        | inr differs ↦ elim (Bool-cases (is_enabled enabled key)) [
          | inl on ↦ rw (on, differs) others
          | inr off ↦ rw (off, differs) others
        ]
      ]

  is_registered-not :
      (enabled : List (Bytes × Bool)) (fs : List (Bytes × C)) (name : Bytes)
      → is_registered fs name ≡ false
      → is_registered (instantiate enabled fs) name ≡ false
  is_registered-not enabled fs name h =
      is_registered-instantiate enabled fs name
      ∙ elim (Bool-cases (is_enabled enabled name)) [ inl on ↦ rw on h | inr off ↦ rw off refl ]

  instantiate-IsMap :
      (enabled : List (Bytes × Bool)) (fs : List (Bytes × C))
      → IsMap fs
      → IsMap (instantiate enabled fs)
  unfolding instantiate
  instantiate-IsMap enabled [] h = tt
  instantiate-IsMap enabled ((name, f) ∷ rest) (new, h) =
      if_cases IsMap (is_enabled enabled name) _ _
        (λ on. (is_registered-not enabled rest name new, instantiate-IsMap enabled rest h))
        (λ off. instantiate-IsMap enabled rest h)

  module _ (factories : List (Bytes × C)) where
    is_enabled-IsKnown :
        (enabled : List (Bytes × Bool)) (name : Bytes)
        → All (IsKnown factories) enabled
        → is_enabled enabled name ≡ true
        → is_registered factories name ≡ true
    unfolding is_enabled
    is_enabled-IsKnown [] name h on = absurd cc
    is_enabled-IsKnown ((key, value) ∷ rest) name (known, h) on =
        elim (Bool-cases (bytes_eq key name)) [
          | inl same ↦
              subst (λ t. is_registered factories t ≡ true) ((bytes_eq_iff key name).0 same)
                (known (rw same at on))
          | inr differs ↦ is_enabled-IsKnown rest name h (rw differs at on)
        ]

    made :
        (enabled : List (Bytes × Bool)) (cs : List (Bytes × C))
        → new_registry factories enabled ≡ registry cs
        → instantiate enabled factories ≡ cs
    unfolding new_registry instantiate
    made enabled cs h =
        let known = unknown-nil factories enabled cs h in
        let ran : new_registry factories enabled ≡ registry (instantiate enabled factories) =
          rw (known, new_registry) refl in
        let same : registry (instantiate enabled factories) ≡ registry cs = sym ran ∙ h in cc

    -- A registry has exactly the collectors that are switched on, each once and as its factory made it:
    -- what holds of all factories and their names holds of them.
    pub new_registry-All {κ} :
        (P : Bytes × C → Type κ) (enabled : List (Bytes × Bool)) (cs : List (Bytes × C))
        → new_registry factories enabled ≡ registry cs
        → IsMap factories
        → All P factories
        → ((name : Bytes) → is_registered cs name ≡ is_enabled enabled name) × IsMap cs × All P cs
    new_registry-All P enabled cs h once all =
        let known = registry-IsKnown factories enabled cs h in
        rw (sym (made enabled cs h)) (
          (λ name.
              is_registered-instantiate enabled factories name
              ∙ elim (Bool-cases (is_enabled enabled name)) [
                | inl on ↦ rw on (is_enabled-IsKnown enabled name known on)
                | inr off ↦ rw off refl
              ]),
          instantiate-IsMap enabled factories once,
          instantiate-All P enabled factories all,
        )
