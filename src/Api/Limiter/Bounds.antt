-- ===== src/Api/Limiter/Bounds.antt =====
-- The table of the limiter stays bounded.
use opendash.Prelude.{
  ◌+◌, ◌≤◌, ◌<◌, ◌≡◌, refl, String, Bool, false, Option, none, some, List, [], ◌∷◌, arith, leb,
  length, length-keep-le,
}
use opendash.Prelude.Maps.{get, remove, text_key, length-put-le, length-put_there, length-remove-le}
use opendash.Models.Time.{Time}
use opendash.Api.Limiter.{
  LoginAttempt, Attempts, Event, attempt, clear, max_limiter_keys, evict, live, current, register,
  admit, allow, reset, run, new_limiter,
}

length-evict-le : (now : Time) (m : Attempts) → length (evict now m) ≤ length m
unfolding evict
length-evict-le now m = ground (arith, length-keep-le (live now) m)

evict_room : (now : Time) (m : Attempts) → leb max_limiter_keys (length m) ≡ false → evict now m ≡ m
unfolding evict
evict_room now m h = ground arith

length-register :
    (key : String) (m : Attempts) (a : LoginAttempt) → length (register key m a).0 ≤ length m + 1
length-register key m a = ground (arith, length-put-le key (record a { count = a.count + 1 }) m)

length-register_there :
    (key : String) (m : Attempts) (a w : LoginAttempt)
    → get key m ≡ some w
    → length (register key m a).0 ≤ length m
length-register_there key m a w h =
    ground (arith, length-put_there key (record a { count = a.count + 1 }) w m h)

-- `full` is true wherever the table behind the eviction has no room left.
admit_bounded :
    (now : Time) (key : String) (full : Bool) (m : Attempts)
    → length m ≤ max_limiter_keys
    → (full ≡ false → length m < max_limiter_keys)
    → length (admit now key full m).0 ≤ max_limiter_keys
admit_bounded now key full m h room = go (get key m) refl
  where
    go :
        (o : Option LoginAttempt)
        → get key m ≡ o
        → length (admit now key full m).0 ≤ max_limiter_keys
    go none e = rw e (ground (arith, length-register key m (current now none)))
    go (some a) e = rw e (ground (arith, length-register_there key m (current now (some a)) a e))

allow_bounded :
    (now : Time) (key : String) (m : Attempts)
    → length m ≤ max_limiter_keys
    → length (allow now key m).0 ≤ max_limiter_keys
unfolding allow
allow_bounded now key m h =
    admit_bounded now key (leb max_limiter_keys (length m)) (evict now m)
      (omega (arith, length-evict-le now m)) (λ full. rw (evict_room now m full) (ground arith))

run_from_bounded :
    (es : List Event) (m : Attempts)
    → length m ≤ max_limiter_keys
    → length (run es m) ≤ max_limiter_keys
unfolding run reset
run_from_bounded [] m h = h
run_from_bounded (attempt now key ∷ es) m h =
    run_from_bounded es (allow now key m).0 (allow_bounded now key m h)
run_from_bounded (clear key ∷ es) m h =
    run_from_bounded es (remove key m) (omega (arith, length-remove-le key m))

-- Whatever clients do, in whatever order and at whatever times, the limiter holds at most 10000
-- entries.
pub run_bounded : (es : List Event) → length (run es new_limiter) ≤ max_limiter_keys
run_bounded es = run_from_bounded es new_limiter (omega arith)
