-- ===== src/Api/Observe.antt =====
-- internal/api/handlers.go: what the runtime tells of an application, and what is stored of it.
use Prim.Native.String.{◌++◌ as ◌<>◌}
use opendash.Prelude.{
  ℕ, ◌-◌, ◌^◌, ◌≡◌, refl, String, Bool, ◌||◌, not, Option, none, some, List, [], ◌∷◌, nat_eq, ◌==◌,
  if◌then◌else◌, length, count_if, has_prefix, trim_prefix, is_digit, atoi, int_text,
}
use opendash.Prelude.Int.{ℤ, pos}
use opendash.Prelude.Maps.{get, int_key}
use opendash.Prelude.Spans.{span, before_last}
use opendash.Models.Time.{Time}
use opendash.Models.Status.{AppInstanceStatus, HealthStatus}
use opendash.Models.Dashboard.{AppEndpoint}
use opendash.Models.App.{AppInstance}
use opendash.Models.Runtime.{ObservedService, ObservedState}
use opendash.Store.Rows.{Store}
use opendash.Store.Apps.{update_app_instance_status_and_endpoints}

abbrev is_running : ObservedService → Bool
is_running svc = svc.state == "running"

abbrev is_stopped : ObservedService → Bool
is_stopped svc = svc.state == "exited" || svc.state == "paused"

-- observedToAppInstanceStatus
unfoldable pub observed_to_app_instance_status :
    AppInstanceStatus → ObservedState → AppInstanceStatus × HealthStatus
unfolding count_if
observed_to_app_instance_status current obs =
    if nat_eq (length obs.services) 0
    then (current, HealthStatus.unknown)
    else if nat_eq (count_if is_running obs.services) (length obs.services)
    then (AppInstanceStatus.running, HealthStatus.healthy)
    else if nat_eq (count_if is_stopped obs.services) (length obs.services)
    then (AppInstanceStatus.stopped, HealthStatus.unknown)
    else (AppInstanceStatus.error, HealthStatus.critical)

-- [^/:]
abbrev is_host : ℕ → Bool
is_host c = not (nat_eq c b'/' || nat_eq c b':')

-- a match of portInURL: the first group, the second, and what follows
abbrev Match : Type 0
Match = String × String × String

abbrev digits_behind : String → String × String → Option Match
digits_behind group (digits, rest) = if digits == "" then none else some (group, digits, rest)

-- the host, a colon and digits behind the scheme
abbrev host_match : String → String × String → Option Match
host_match scheme (host, rest) =
    if host == "" || not (has_prefix rest ":")
    then none
    else digits_behind (scheme <> host) (span is_digit (trim_prefix rest ":"))

abbrev or_match : Option Match → Option Match → Option Match
or_match none b = b
or_match (some m) b = some m

abbrev scheme_match : String → String → Option Match
scheme_match scheme raw =
    if has_prefix raw scheme
    then host_match scheme (span is_host (trim_prefix raw scheme))
    else none

-- portInURL; the alternatives are tried in their order
unfoldable pub port_in_url : String → Option Match
unfolding span has_prefix trim_prefix is_digit
port_in_url raw = or_match (scheme_match "http://" raw) (
    or_match (scheme_match "https://" raw) (
      or_match (scheme_match "tcp://" raw)
        (or_match (scheme_match "udp://" raw) (host_match "" (span is_host raw)))))

-- strconv.Atoi of digits without its error: a number that is too large is the largest one
abbrev number_or_max : Option ℤ → ℤ
number_or_max none = pos (2 ^ 63 - 1)
number_or_max (some n) = n

abbrev matched_port : Option Match → ℤ
matched_port none = pos 0
matched_port (some (group, digits, rest)) = number_or_max (atoi digits)

-- endpointContainerPort
unfoldable pub endpoint_container_port : String → ℤ
unfolding port_in_url atoi
endpoint_container_port raw = matched_port (port_in_url raw)

abbrev port_text : ℤ → String
port_text port = ":" <> int_text port

abbrev replaced_match : String → ℤ → Option Match → String
replaced_match raw port none = raw
replaced_match raw port (some (group, digits, rest)) = group <> (port_text port <> rest)

-- strings.LastIndex gives an index above 0
abbrev replaced_last : String → ℤ → Option String → String
replaced_last raw port none = raw
replaced_last raw port (some host) = if host == "" then raw else host <> port_text port

-- replacePort
unfoldable pub replace_port : String → ℤ → String
unfolding port_in_url before_last has_prefix
replace_port raw port =
    if has_prefix raw "http://"
      || has_prefix raw "https://"
      || has_prefix raw "tcp://"
      || has_prefix raw "udp://"
    then replaced_match raw port (port_in_url raw)
    else replaced_last raw port (before_last b':' raw)

abbrev published : AppEndpoint → Option ℤ → AppEndpoint
published ep none = ep
published ep (some port) = record ep { url = replace_port ep.url port }

-- the loop of updateEndpoints
abbrev publish_all : List (ℤ × ℤ) → List AppEndpoint → List AppEndpoint
publish_all host_ports [] = []
publish_all host_ports (ep ∷ eps) =
    published ep (get (endpoint_container_port ep.url) host_ports) ∷ publish_all host_ports eps

-- updateEndpoints
unfoldable pub update_endpoints : List AppEndpoint → List (ℤ × ℤ) → List AppEndpoint
unfolding get endpoint_container_port replace_port
update_endpoints endpoints host_ports =
    if nat_eq (length host_ports) 0 then endpoints else publish_all host_ports endpoints

-- observeAndUpdateInstance behind runtime.Observe; the caller's copy of the instance is not kept
unfoldable pub observe_and_update_instance : Time → AppInstance → ObservedState → Store (Unit {0})
unfolding observed_to_app_instance_status update_endpoints
observe_and_update_instance now inst obs =
    let (status, health) = observed_to_app_instance_status inst.status obs in
    update_app_instance_status_and_endpoints now inst.id status health
      (update_endpoints inst.endpoints obs.host_ports)

replace_runs : replace_port "http://127.0.0.1:3001/ui" (pos 4000) ≡ "http://127.0.0.1:4000/ui"
unfolding replace_port span int_text
replace_runs = refl

replace_bare : replace_port "127.0.0.1:3001" (pos 4000) ≡ "127.0.0.1:4000"
unfolding replace_port span int_text
replace_bare = refl

container_runs : endpoint_container_port "127.0.0.1:3001" ≡ pos 3001
unfolding endpoint_container_port span
container_runs = refl
