-- ===== src/Diagnostics/Tests.antt =====
-- The rules on concrete systems.
use opendash.Prelude.{
  ◌≡◌, refl, String, true, false, none, some, List, [], ◌∷◌, if◌then◌else◌, count_if, map,
}
use opendash.Models.Status.{AppStatus, HealthStatus, ProtectionStatus, SourceTrust}
use opendash.Models.Dashboard.{InstalledApp, ProtectionOverview}
use opendash.Prelude.Int.{pos}
use opendash.Diagnostics.{Finding, count_apps, evaluate, evaluate_health}
use opendash.Diagnostics.Health.{evaluate_health_exact, critical_expected, warning_expected}

abbrev app : AppStatus → HealthStatus → String → InstalledApp
app status health version = record {
  id = "a";
  name = "A";
  icon = "";
  description = "";
  status = status;
  health = health;
  version = version;
  latest_version = "1";
  update_available = false;
  trust = SourceTrust.official;
  category = "";
  endpoints = [];
  services = [];
  storage = [];
  updated_at = 0;
  installed_at = 0;
}

abbrev protection : ProtectionOverview
protection = record {
  status = ProtectionStatus.degraded;
  rules = [];
  threats_blocked24h = pos 0;
  last_scan_at = 0;
  vpn_connected = false;
  firewall_active = true;
  dns_filtering_active = true;
}

abbrev apps : List InstalledApp
apps =
    app AppStatus.running HealthStatus.healthy "1"
    ∷ app AppStatus.stopped HealthStatus.warning "0"
    ∷ []

abbrev rules_of : List Finding → List String
rules_of = map (λ (f : Finding). f.rule)

evaluate_runs :
    rules_of (evaluate 0 apps (some protection))
    ≡ "app-warning" ∷ "stopped-apps" ∷ "protection-not-armed" ∷ []
unfolding evaluate count_apps count_if
evaluate_runs = refl

evaluate_empty : rules_of (evaluate 0 [] none) ≡ "healthy" ∷ []
unfolding evaluate count_apps
evaluate_empty = refl

evaluate_health_exact_example : evaluate_health 0 apps (some protection) ≡ (
    if critical_expected apps
    then HealthStatus.critical
    else if warning_expected apps (some protection)
    then HealthStatus.warning
    else HealthStatus.healthy)
evaluate_health_exact_example = evaluate_health_exact 0 apps (some protection)
