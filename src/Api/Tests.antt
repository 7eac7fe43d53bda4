-- ===== src/Api/Tests.antt =====
-- The theorems on the limiter at concrete events, and runs of it.
use opendash.Prelude.{◌+◌, ◌*◌, ◌≤◌, ◌≡◌, refl, List, [], ◌∷◌, arith, length}
use opendash.Prelude.Maps.{get, put, remove}
use opendash.Models.Time.{Time, second}
use opendash.Api.Limiter.{
  Event, attempt, clear, allow, reset, run, step, new_limiter, max_limiter_keys, login_limit,
}
use opendash.Api.Limiter.Bounds.{run_bounded}
use opendash.Api.Limiter.Window.{allowed, allowed-le}

abbrev noon : Time
noon = 1700000000 * second

-- six attempts of one client in a minute, and a login of another client
abbrev six : List Event
six =
    attempt noon "a"
    ∷ attempt (noon + second) "a"
    ∷ attempt (noon + 2 * second) "a"
    ∷ clear "b"
    ∷ attempt (noon + 3 * second) "a"
    ∷ attempt (noon + 4 * second) "a"
    ∷ attempt (noon + 59 * second) "a"
    ∷ []

six_runs : allowed "a" six new_limiter ≡ 5
unfolding allowed allow step reset get put remove
six_runs = refl

-- The client's entry is cleared by its own login, and attempts count from the start.
cleared_runs :
    allowed "a"
      (attempt noon "a"
        ∷ attempt noon "a"
        ∷ attempt noon "a"
        ∷ clear "a"
        ∷ attempt noon "a"
        ∷ attempt noon "a"
        ∷ attempt noon "a"
        ∷ [])
      new_limiter
    ≡ 6
unfolding allowed allow step reset get put remove
cleared_runs = refl

run_bounded_example : length (run six new_limiter) ≤ max_limiter_keys
run_bounded_example = run_bounded six

allowed-le_example : allowed "a" six new_limiter ≤ login_limit
allowed-le_example = allowed-le noon "a" six new_limiter tt (
  (omega arith, omega arith),
  (
    (omega arith, omega arith),
    (
      (omega arith, omega arith),
      (
        refl,
        (
          (omega arith, omega arith),
          ((omega arith, omega arith), ((omega arith, omega arith), tt)),
        ),
      ),
    ),
  ),
)
