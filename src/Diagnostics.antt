-- ===== src/Diagnostics.antt =====
-- internal/diagnostics/diagnostics.go: the rules that judge the health of the system. The clock's reading
-- is an argument.
pub mod Health
mod Tests
use Prim.Native.String.{◌++◌ as ◌<>◌}
use opendash.Prelude.{
  ℕ, suc, ◌+◌, String, Bool, true, false, ◌||◌, ◌&&◌, not, Option, none, some, List, [], ◌∷◌, ◌++◌,
  ltb, leb, nat_eq, ◌==◌, if◌then◌else◌, length, exists, count_if, itoa,
}
use opendash.Models.Time.{Time}
use opendash.Models.Status.{AppStatus, HealthStatus, ProtectionStatus}
use opendash.Models.Dashboard.{InstalledApp, ProtectionOverview, ProtectionRule}

pub data Confidence : Type 0 where
  certain high medium low : Confidence

pub record Evidence : Type 0 where
  pub source : String
  pub message : String
  pub timestamp : Time

pub record Finding : Type 0 where
  pub rule : String
  pub status : HealthStatus
  pub confidence : Confidence
  pub evidence : List Evidence

abbrev pub is_critical : HealthStatus → Bool
is_critical HealthStatus.critical = true
is_critical _ = false

abbrev pub is_warning : HealthStatus → Bool
is_warning HealthStatus.warning = true
is_warning _ = false

abbrev pub is_armed : ProtectionStatus → Bool
is_armed ProtectionStatus.armed = true
is_armed _ = false

abbrev pub protection_text : ProtectionStatus → String
protection_text ProtectionStatus.armed = "armed"
protection_text ProtectionStatus.monitoring = "monitoring"
protection_text ProtectionStatus.degraded = "degraded"
protection_text ProtectionStatus.offline = "offline"
protection_text (ProtectionStatus.other s) = s

pub record Counts : Type 0 where
  pub critical_apps : ℕ
  pub warning_apps : ℕ
  pub stopped_apps : ℕ
  pub running_apps : ℕ
  pub updates : ℕ

abbrev count_status : AppStatus → Counts → Counts
count_status AppStatus.error c = record c { critical_apps = suc c.critical_apps }
count_status AppStatus.stopped c = record c { stopped_apps = suc c.stopped_apps }
count_status AppStatus.running c = record c { running_apps = suc c.running_apps }
count_status _ c = c

abbrev count_health : HealthStatus → Counts → Counts
count_health HealthStatus.critical c = record c { critical_apps = suc c.critical_apps }
count_health HealthStatus.warning c = record c { warning_apps = suc c.warning_apps }
count_health _ c = c

abbrev pub is_outdated : InstalledApp → Bool
is_outdated app = not (app.version == app.latest_version)

abbrev count_update : InstalledApp → Counts → Counts
count_update app c = if is_outdated app then record c { updates = suc c.updates } else c

-- the body of the loop over the applications
abbrev pub count_app : InstalledApp → Counts → Counts
count_app app c = count_update app (count_health app.health (count_status app.status c))

unfoldable pub count_apps : List InstalledApp → Counts → Counts
count_apps [] c = c
count_apps (app ∷ apps) c = count_apps apps (count_app app c)

abbrev pub zero_counts : Counts
zero_counts = record {
  critical_apps = 0;
  warning_apps = 0;
  stopped_apps = 0;
  running_apps = 0;
  updates = 0;
}

-- `if b { findings = append(findings, f) }`
abbrev pub add_if : Bool → Finding → List Finding → List Finding
add_if true f fs = fs ++ (f ∷ [])
add_if false f fs = fs

abbrev finding : Time → String → HealthStatus → Confidence → String → String → Finding
finding now rule status confidence source message = record {
  rule = rule;
  status = status;
  confidence = confidence;
  evidence = record { source = source; message = message; timestamp = now } ∷ [];
}

abbrev pub rule_failed : ProtectionRule → Bool
rule_failed rule = not rule.enabled || is_critical rule.status

abbrev pub app_findings : Time → ℕ → Counts → List Finding
app_findings now apps c =
    add_if (ltb 0 c.stopped_apps)
      (finding now "stopped-apps" HealthStatus.warning Confidence.low "apps"
        (itoa c.stopped_apps <> " app(s) are stopped"))
      (add_if (leb 3 c.updates)
        (finding now "updates-pending" HealthStatus.warning Confidence.medium "apps"
          (itoa c.updates <> " updates are available"))
        (add_if (ltb 0 apps && nat_eq c.running_apps 0)
          (finding now "no-running-apps" HealthStatus.critical Confidence.high "apps"
            "No apps are currently running")
          (add_if (ltb 0 c.warning_apps)
            (finding now "app-warning" HealthStatus.warning Confidence.high "apps"
              (itoa c.warning_apps <> " app(s) report warning health"))
            (add_if (ltb 0 c.critical_apps)
              (finding now "app-critical" HealthStatus.critical Confidence.certain "apps"
                (itoa c.critical_apps <> " app(s) report critical/error status"))
              []))))

abbrev pub protection_findings : Time → Option ProtectionOverview → List Finding → List Finding
protection_findings now none fs = fs
protection_findings now (some protection) fs =
    add_if (ltb 0 (count_if rule_failed protection.rules))
      (finding now "protection-rule-failure" HealthStatus.warning Confidence.medium "protection" (
        itoa (count_if rule_failed protection.rules)
        <> " protection rule(s) are disabled or critical"))
      (add_if (not (is_armed protection.status))
        (finding now "protection-not-armed" HealthStatus.warning Confidence.high "protection"
          ("Protection status is " <> protection_text protection.status))
        fs)

abbrev pub or_healthy : Time → List Finding → List Finding
or_healthy now [] =
    finding now "healthy" HealthStatus.healthy Confidence.certain "system"
      "All diagnostics rules passed"
    ∷ []
or_healthy now (f ∷ fs) = f ∷ fs

-- Evaluate; `protection` is a pointer, which may be nil
unfoldable pub evaluate : Time → List InstalledApp → Option ProtectionOverview → List Finding
unfolding count_apps
evaluate now apps protection = or_healthy now (
    protection_findings now protection
      (app_findings now (length apps) (count_apps apps zero_counts)))

-- EvaluateHealth
unfoldable pub evaluate_health : Time → List InstalledApp → Option ProtectionOverview → HealthStatus
unfolding evaluate
evaluate_health now apps protection =
    if exists (λ (f : Finding). is_critical f.status) (evaluate now apps protection)
    then HealthStatus.critical
    else if exists (λ (f : Finding). is_warning f.status) (evaluate now apps protection)
    then HealthStatus.warning
    else HealthStatus.healthy
