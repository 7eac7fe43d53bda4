-- ===== src/Catalog/Allocate.antt =====
-- internal/catalog/compose.go: the reservation and the allocation of host ports. The set of reserved ports
-- is a list. What a listener on 127.0.0.1:0 gets from the system is an argument: the text of its port for
-- each call in turn, or `none` where net.Listen or net.SplitHostPort returns an error.
pub mod Unreserved
pub mod Disjoint
use opendash.Prelude.{
  ℕ, zero, suc, ◌+◌, String, Bool, true, false, not, Option, none, some, List, [], ◌∷◌, Result, ok,
  err, if◌then◌else◌, keep, exists, atoi,
}
use opendash.Prelude.Int.{ℤ, pos, int_eq, int_ltb}
use opendash.Prelude.Maps.{get, put, int_key}
use opendash.Models.Manifest.{Manifest, ManifestService, ManifestInlineCompose, ManifestEndpoint}
use opendash.Catalog.Ports.{parse_port_mapping}
use opendash.Catalog.Assess.{inline_services}

-- a Go map[int]int, and the keys of reservedPorts
abbrev pub PortMap : Type 0
PortMap = List (ℤ × ℤ)

abbrev pub Reserved : Type 0
Reserved = List ℤ

-- isReserved
unfoldable pub is_reserved : ℤ → Reserved → Bool
unfolding exists
is_reserved p reserved = exists (int_eq p) reserved

-- ReserveHostPorts
unfoldable pub reserve_host_ports : PortMap → Reserved → Reserved
unfolding is_reserved
reserve_host_ports [] reserved = reserved
reserve_host_ports ((cp, hp) ∷ ports) reserved =
    reserve_host_ports ports (if is_reserved hp reserved then reserved else hp ∷ reserved)

-- ReleaseHostPorts
unfoldable pub release_host_ports : PortMap → Reserved → Reserved
unfolding keep
release_host_ports [] reserved = reserved
release_host_ports ((cp, hp) ∷ ports) reserved =
    release_host_ports ports (keep (λ p. not (int_eq hp p)) reserved)

pub data PortError : Type 0 where
  invalid_mapping : String → PortError
  listen_failed no_free_port : PortError

-- the listeners' ports, and the number of the next listener
abbrev pub Listeners : Type 0
Listeners = ℕ → Option String

abbrev pub number_of : Option String → Option ℤ
number_of none = none
number_of (some text) = atoi text

-- one attempt, and `next` where its port is reserved
abbrev pub attempt : Reserved → Option ℤ → ℕ → Result PortError ℤ × ℕ → Result PortError ℤ × ℕ
attempt reserved none n next = (err listen_failed, n)
attempt reserved (some p) n next = if is_reserved p reserved then next else (ok p, n)

-- the loop of FindFreePort with so many attempts left, from listener `n`
unfoldable pub find_loop : Listeners → Reserved → ℕ → ℕ → Result PortError ℤ × ℕ
unfolding is_reserved atoi
find_loop listeners reserved zero n = (err no_free_port, n)
find_loop listeners reserved (suc attempts) n =
    attempt reserved (number_of (listeners n)) (n + 1)
      (find_loop listeners reserved attempts (n + 1))

-- FindFreePort
abbrev pub find_free_port : Listeners → Reserved → ℕ → Result PortError ℤ × ℕ
find_free_port listeners reserved n = find_loop listeners reserved 20 n

abbrev with_mapping : Option (ℤ × ℤ) → String → PortMap → Result PortError PortMap
with_mapping none mapping ports = err (invalid_mapping mapping)
with_mapping (some (hp, cp)) mapping ports =
    ok (if int_ltb (pos 0) hp then put cp hp ports else ports)

abbrev service_ports : List String → PortMap → Result PortError PortMap
service_ports [] ports = ok ports
service_ports (mapping ∷ mappings) ports =
    elim (with_mapping (parse_port_mapping mapping) mapping ports) [
      | ok ports' ↦ service_ports mappings ports'
      | err e ↦ err e
    ]

-- the ports that the services fix
unfoldable pub fixed_ports : List (String × ManifestService) → PortMap → Result PortError PortMap
unfolding put parse_port_mapping
fixed_ports [] ports = ok ports
fixed_ports ((name, svc) ∷ services) ports = elim (service_ports svc.ports ports) [
  | ok ports' ↦ fixed_ports services ports'
  | err e ↦ err e
]

abbrev pub put_found :
    ManifestEndpoint → PortMap → Result PortError ℤ × ℕ → Result PortError PortMap × ℕ
put_found ep ports (ok hp, n) = (ok (put ep.port hp ports), n)
put_found ep ports (err e, n) = (err e, n)

abbrev pub allocate_found :
    Listeners → Reserved → ManifestEndpoint → PortMap → ℕ → Option ℤ → Result PortError PortMap × ℕ
allocate_found listeners reserved ep ports n (some hp) = (ok ports, n)
allocate_found listeners reserved ep ports n none =
    put_found ep ports (find_free_port listeners reserved n)

-- one endpoint
abbrev pub allocate_one :
    Listeners → Reserved → ManifestEndpoint → PortMap → ℕ → Result PortError PortMap × ℕ
allocate_one listeners reserved ep ports n =
    allocate_found listeners reserved ep ports n (get ep.port ports)

-- the loop over the endpoints
unfoldable pub allocate :
    Listeners → Reserved → List ManifestEndpoint → PortMap → ℕ → Result PortError PortMap × ℕ
unfolding get put find_loop
allocate listeners reserved [] ports n = (ok ports, n)
allocate listeners reserved (ep ∷ eps) ports n =
    let (r, n') = allocate_one listeners reserved ep ports n in
    elim r [ ok ports' ↦ allocate listeners reserved eps ports' n' | err e ↦ (err e, n') ]

abbrev pub copied : PortMap → PortMap
copied [] = []
copied ((cp, hp) ∷ overrides) = put cp hp (copied overrides)

abbrev pub allocate_behind :
    Listeners
    → Reserved
    → List ManifestEndpoint
    → Result PortError PortMap
    → ℕ
    → Result PortError PortMap × ℕ
allocate_behind listeners reserved eps (ok ports) n = allocate listeners reserved eps ports n
allocate_behind listeners reserved eps (err e) n = (err e, n)

-- HostPorts, from listener `n`
unfoldable pub host_ports :
    Listeners → Reserved → Manifest → PortMap → ℕ → Result PortError PortMap × ℕ
unfolding fixed_ports allocate
host_ports listeners reserved m overrides n =
    allocate_behind listeners reserved m.endpoints
      (fixed_ports (inline_services m.compose.inline) (copied overrides)) n
