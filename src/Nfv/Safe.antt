-- ===== src/Nfv/Safe.antt =====
-- The commands of src/nfv/commands.h and the loop of src/shared/basic_forwarder.c that runs between them.
use spp_tmp.Base.{ℕ, ◌<◌, ◌≡◌, ◌≢◌, Bool, Option, none, some, List, [], ◌∷◌}
use spp_tmp.Ethdev.{Ethdev}
use spp_tmp.PortManager.{PortState, PortType}
use spp_tmp.PortManager.Wired.{Kept}
use spp_tmp.Nfv.{Drivers, Command, dynamic_type, parse_command}

-- The command names a type that it knows and a queue that the array has.
abbrev pub IsKnown : ℕ → Command → Type 0
IsKnown m (Command.add u) = (dynamic_type u.p_type ≢ PortType.undef) × (u.queue_id < m)
IsKnown m (Command.del u) = (dynamic_type u.p_type ≢ PortType.undef) × (u.queue_id < m)
IsKnown m (Command.patch u v) = Unit {0}
IsKnown m Command.patch_reset = Unit {0}

module _ (n m : ℕ) (drv : Drivers) where
  open drv use {State, add_pmd, detach}

  -- A driver numbers its ports below RTE_MAX_ETHPORTS.
  abbrev pub Bounded : Type 0
  Bounded = (t : PortType) (i r : ℕ) (d : State) → (add_pmd t i d).0 ≡ some r → r < n

  -- The command ends, within the arrays, and keeps the table wired.
  abbrev Ends : Option (Bool × PortState × State) → Type 0
  Ends o = (b : Bool) × (t : PortState) × (d : State) × (o ≡ some (b, t, d)) × Kept n m t

  -- The commands, one after the other.
  abbrev pub run : List Command → PortState × State → Option (PortState × State)
  run [] sd = some sd
  run (c ∷ cs) sd = elim (parse_command n m drv c sd) [
    | none ↦ none
    | some (b, t, d) ↦ run cs (t, d)
  ]

  abbrev pub AllKnown : List Command → Type 0
  AllKnown [] = Unit
  AllKnown (c ∷ cs) = IsKnown m c × AllKnown cs
