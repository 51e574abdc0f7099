-- ===== src/Suite/Registered.antt =====
-- The registry of the program's own collectors: what NewRegistry of internal/collector/registry.go makes
-- of what the init functions beside it register.
use nadi_agent.Prelude.{arith, ◌≡◌, Bool, List, Bytes, All, bytes_eq}
use nadi_agent.Collectors.{Float}
use nadi_agent.Registry.{registry, register, is_enabled, is_registered, new_registry}
use nadi_agent.Registry.Made.{IsMap, new_registry-All}
use nadi_agent.Suite.Factories.{Collector, name_of, factories}

module _ {ℓ κ} {T : Type ℓ} {F : Type κ} (float : Float F) (now : T) where
  -- A collector under its own Name.
  abbrev pub IsNamed : Bytes × Collector T F → Type 0
  IsNamed (name, c) = name_of c ≡ name

  factories-IsMap : IsMap (factories float now)
  unfolding factories register bytes_eq is_registered
  factories-IsMap = ground arith

  factories-IsNamed : All IsNamed (factories float now)
  unfolding factories register bytes_eq name_of
  factories-IsNamed = ground arith

  -- Where NewRegistry takes the settings, its registry has a collector under exactly the names that are
  -- switched on, each name once, and each is the collector whose Name that is.
  pub new_registry-IsNamed :
      (enabled : List (Bytes × Bool)) (cs : List (Bytes × Collector T F))
      → new_registry (factories float now) enabled ≡ registry cs
      → ((name : Bytes) → is_registered cs name ≡ is_enabled enabled name)
        × IsMap cs
        × All IsNamed cs
  new_registry-IsNamed enabled cs h =
      new_registry-All (factories float now) IsNamed enabled cs h factories-IsMap factories-IsNamed
