-- ===== src/Diagnostics/Health.antt =====
-- The health of the system by what its applications and its protection are.
use opendash.Prelude.{
  sym, ℕ, ◌+◌, ◌≡◌, refl, Bool, true, false, ◌||◌, ◌&&◌, not, Option, none, some, List, [], ◌∷◌,
  arith, ltb, leb, if◌then◌else◌, length, exists, count_if, exists-append,
}
use opendash.Models.Time.{Time}
use opendash.Models.Status.{AppStatus, HealthStatus}
use opendash.Models.Dashboard.{InstalledApp, ProtectionOverview}
use opendash.Diagnostics.{
  Finding, Counts, is_critical, is_warning, is_armed, is_outdated, rule_failed, count_status,
  count_health, count_update, count_app, count_apps, zero_counts, add_if, app_findings,
  protection_findings, or_healthy, evaluate, evaluate_health,
}

abbrev pub is_error : AppStatus → Bool
is_error AppStatus.error = true
is_error _ = false

abbrev pub is_stopped : AppStatus → Bool
is_stopped AppStatus.stopped = true
is_stopped _ = false

abbrev pub is_running : AppStatus → Bool
is_running AppStatus.running = true
is_running _ = false

-- No application runs although there are some, or one reports an error.
abbrev pub critical_expected : List InstalledApp → Bool
critical_expected apps =
    exists (λ (a : InstalledApp). is_error a.status) apps
    || exists (λ (a : InstalledApp). is_critical a.health) apps
    || (ltb 0 (length apps) && not (exists (λ (a : InstalledApp). is_running a.status) apps))

abbrev pub unprotected : Option ProtectionOverview → Bool
unprotected none = false
unprotected (some p) = not (is_armed p.status) || exists rule_failed p.rules

abbrev pub warning_expected : List InstalledApp → Option ProtectionOverview → Bool
warning_expected apps protection =
    exists (λ (a : InstalledApp). is_warning a.health) apps
    || leb 3 (count_if is_outdated apps)
    || exists (λ (a : InstalledApp). is_stopped a.status) apps
    || unprotected protection

abbrev one : Bool → ℕ
one true = 1
one false = 0

-- the counters `d` are those of `c`, more by so many
abbrev IsSum : Counts → Counts → (e w s r u : ℕ) → Type 0
IsSum c d e w s r u =
    (d.critical_apps ≡ c.critical_apps + e)
    × (d.warning_apps ≡ c.warning_apps + w)
    × (d.stopped_apps ≡ c.stopped_apps + s)
    × (d.running_apps ≡ c.running_apps + r)
    × (d.updates ≡ c.updates + u)

count_status-IsSum :
    (s : AppStatus) (c : Counts)
    → IsSum c (count_status s c) (one (is_error s)) 0 (one (is_stopped s)) (one (is_running s)) 0
count_status-IsSum AppStatus.running c = omega arith
count_status-IsSum AppStatus.stopped c = omega arith
count_status-IsSum AppStatus.updating c = omega arith
count_status-IsSum AppStatus.error c = omega arith
count_status-IsSum AppStatus.installing c = omega arith
count_status-IsSum (AppStatus.other x) c = omega arith

count_health-IsSum :
    (h : HealthStatus) (c : Counts)
    → IsSum c (count_health h c) (one (is_critical h)) (one (is_warning h)) 0 0 0
count_health-IsSum HealthStatus.healthy c = omega arith
count_health-IsSum HealthStatus.warning c = omega arith
count_health-IsSum HealthStatus.critical c = omega arith
count_health-IsSum HealthStatus.unknown c = omega arith
count_health-IsSum (HealthStatus.other x) c = omega arith

count_update-IsSum :
    (app : InstalledApp) (c : Counts) → IsSum c (count_update app c) 0 0 0 0 (one (is_outdated app))
count_update-IsSum app c = ground arith

abbrev errors : List InstalledApp → ℕ
errors = count_if (λ (a : InstalledApp). is_error a.status)

abbrev criticals : List InstalledApp → ℕ
criticals = count_if (λ (a : InstalledApp). is_critical a.health)

abbrev warnings : List InstalledApp → ℕ
warnings = count_if (λ (a : InstalledApp). is_warning a.health)

abbrev stopped : List InstalledApp → ℕ
stopped = count_if (λ (a : InstalledApp). is_stopped a.status)

abbrev running : List InstalledApp → ℕ
running = count_if (λ (a : InstalledApp). is_running a.status)

count_app-IsSum :
    (app : InstalledApp) (c : Counts)
    → IsSum c
        (count_app app c)
        (one (is_error app.status) + one (is_critical app.health))
        (one (is_warning app.health))
        (one (is_stopped app.status))
        (one (is_running app.status))
        (one (is_outdated app))
count_app-IsSum app c =
    let c1 : Counts = count_status app.status c in
    omega (
      arith,
      count_status-IsSum app.status c,
      count_health-IsSum app.health c1,
      count_update-IsSum app (count_health app.health c1),
    )

count_if-nil : {A : Type 0} (p : A → Bool) → count_if p [] ≡ 0
unfolding count_if
count_if-nil p = refl

count_if-cons :
    {A : Type 0} (p : A → Bool) (x : A) (xs : List A)
    → count_if p (x ∷ xs) ≡ one (p x) + count_if p xs
unfolding count_if
count_if-cons p x xs = ground arith

count_apps-IsSum :
    (apps : List InstalledApp) (c : Counts)
    → IsSum c
        (count_apps apps c)
        (errors apps + criticals apps)
        (warnings apps)
        (stopped apps)
        (running apps)
        (count_if is_outdated apps)
unfolding count_apps
count_apps-IsSum [] c = simp (count_if-nil) (omega arith)
count_apps-IsSum (app ∷ apps) c =
    simp (count_if-cons)
      (omega (arith, count_app-IsSum app c, count_apps-IsSum apps (count_app app c)))

ltb-count_if : {A : Type 0} (p : A → Bool) (xs : List A) → ltb 0 (count_if p xs) ≡ exists p xs
unfolding count_if exists
ltb-count_if p [] = refl
ltb-count_if p (x ∷ xs) = ground (arith, ltb-count_if p xs)

exists-count : {A : Type 0} (p : A → Bool) (xs : List A) → exists p xs ≡ ltb 0 (count_if p xs)
exists-count p xs = sym (ltb-count_if p xs)

exists-empty : (p : Finding → Bool) → exists p [] ≡ false
unfolding exists
exists-empty p = refl

exists-add_if :
    (p : Finding → Bool) (b : Bool) (f : Finding) (fs : List Finding)
    → exists p (add_if b f fs) ≡ (exists p fs || (b && p f))
unfolding exists
exists-add_if p true f fs = rw exists-append (ground arith)
exists-add_if p false f fs = ground arith

abbrev any_critical : List Finding → Bool
any_critical = exists (λ (f : Finding). is_critical f.status)

abbrev any_warning : List Finding → Bool
any_warning = exists (λ (f : Finding). is_warning f.status)

critical-or_healthy :
    (now : Time) (fs : List Finding) → any_critical (or_healthy now fs) ≡ any_critical fs
unfolding exists
critical-or_healthy now [] = refl
critical-or_healthy now (f ∷ fs) = refl

warning-or_healthy :
    (now : Time) (fs : List Finding) → any_warning (or_healthy now fs) ≡ any_warning fs
unfolding exists
warning-or_healthy now [] = refl
warning-or_healthy now (f ∷ fs) = refl

critical-protection_findings :
    (now : Time) (protection : Option ProtectionOverview) (fs : List Finding)
    → any_critical (protection_findings now protection fs) ≡ any_critical fs
critical-protection_findings now none fs = refl
critical-protection_findings now (some p) fs = simp (exists-add_if) (ground arith)

warning-protection_findings :
    (now : Time) (protection : Option ProtectionOverview) (fs : List Finding)
    → any_warning (protection_findings now protection fs)
      ≡ (any_warning fs || unprotected protection)
warning-protection_findings now none fs = ground arith
warning-protection_findings now (some p) fs = simp (exists-add_if, ltb-count_if) (ground arith)

critical-app_findings :
    (now : Time) (apps : List InstalledApp)
    → any_critical (app_findings now (length apps) (count_apps apps zero_counts))
      ≡ critical_expected apps
critical-app_findings now apps =
    simp (exists-add_if, exists-empty, exists-count)
      (ground (arith, count_apps-IsSum apps zero_counts))

warning-app_findings :
    (now : Time) (apps : List InstalledApp)
    → any_warning (app_findings now (length apps) (count_apps apps zero_counts))
      ≡ warning_expected apps none
warning-app_findings now apps =
    simp (exists-add_if, exists-empty, exists-count)
      (ground (arith, count_apps-IsSum apps zero_counts))

-- The system is critical exactly if an application reports an error or critical health, or if there are
-- applications and none runs; else it is in a state of warning exactly if an application is stopped or
-- warns, at least three are outdated, or the protection is not armed or has a rule that is disabled or
-- critical; else it is healthy.
pub evaluate_health_exact :
    (now : Time) (apps : List InstalledApp) (protection : Option ProtectionOverview)
    → evaluate_health now apps protection ≡ (
        if critical_expected apps
        then HealthStatus.critical
        else if warning_expected apps protection
        then HealthStatus.warning
        else HealthStatus.healthy)
unfolding evaluate_health evaluate
evaluate_health_exact now apps protection =
    rw
      (
        critical-or_healthy, warning-or_healthy, critical-protection_findings,
        warning-protection_findings, critical-app_findings, warning-app_findings,
      )
      (ground arith)
