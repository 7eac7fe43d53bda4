-- ===== src/Models/Runtime.antt =====
-- internal/runtime/runtime.go: what the runtime tells about a Compose project.
use opendash.Prelude.{String, Bool, List}
use opendash.Prelude.Int.{ℤ}

pub record ObservedService : Type 0 where
  pub name : String
  pub state : String
  pub health : String

pub record ObservedState : Type 0 where
  pub running : Bool
  pub healthy : Bool
  pub services : List ObservedService
  pub host_ports : List (ℤ × ℤ)
