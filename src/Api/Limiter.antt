-- ===== src/Api/Limiter.antt =====
-- internal/api/auth.go: the limiter of login attempts, one entry for each client. The mutex makes each
-- call atomic, so a run is a sequence of calls.
pub mod Bounds
mod Entry
pub mod Window
use opendash.Prelude.{
  ℕ, ◌+◌, ◌*◌, String, Bool, true, false, ◌&&◌, not, Option, none, some, List, [], ◌∷◌, ltb, leb,
  length, keep, if◌then◌else◌,
}
use opendash.Prelude.Maps.{get, put, remove, text_key}
use opendash.Models.Time.{Time, before, second}

abbrev pub login_limit : ℕ
login_limit = 5

abbrev pub login_window : Time
login_window = 60 * second

abbrev pub max_limiter_keys : ℕ
max_limiter_keys = 10000

pub record LoginAttempt : Type 0 where
  pub count : ℕ
  pub reset : Time

abbrev pub Attempts : Type 0
Attempts = List (String × LoginAttempt)

abbrev pub live : Time → String × LoginAttempt → Bool
live now (k, a) = before now a.reset

-- A full table drops the entries whose window is over.
pub evict : Time → Attempts → Attempts
evict now m = if leb max_limiter_keys (length m) then keep (live now) m else m

abbrev pub is_none {ℓ} : {A : Type ℓ} → Option A → Bool
is_none none = true
is_none (some _) = false

-- The zero value of a missing entry has the zero time, which is before any clock's reading.
abbrev pub current : Time → Option LoginAttempt → LoginAttempt
current now none = record { count = 0; reset = now + login_window }
current now (some a) =
    if before now a.reset then a else record { count = 0; reset = now + login_window }

abbrev pub register : String → Attempts → LoginAttempt → Attempts × Bool
register key m a =
    if leb login_limit a.count
    then (m, false)
    else (put key (record a { count = a.count + 1 }) m, true)

-- `m` is the table behind the eviction; `full` says whether the table was full before it
abbrev pub admit : Time → String → Bool → Attempts → Attempts × Bool
admit now key full m =
    if full && is_none (get key m) && leb max_limiter_keys (length m)
    then (m, false)
    else register key m (current now (get key m))

unfoldable pub allow : Time → String → Attempts → Attempts × Bool
unfolding evict
allow now key m = admit now key (leb max_limiter_keys (length m)) (evict now m)

-- (*loginLimiter).reset
unfoldable pub reset : String → Attempts → Attempts
reset key m = remove key m

-- newLoginLimiter
abbrev pub new_limiter : Attempts
new_limiter = []

-- What clients and the handlers do to the limiter.
pub data Event : Type 0 where
  attempt : Time → String → Event
  clear : String → Event

-- the table and, for the attempts, whether each was allowed
unfoldable pub step : Event → Attempts → Attempts × Bool
step (attempt now key) m = allow now key m
step (clear key) m = (reset key m, false)

unfoldable pub run : List Event → Attempts → Attempts
unfolding step
run [] m = m
run (e ∷ es) m = run es (step e m).0
