-- ===== src/Models/Time.antt =====
-- `time.Time` as the nanoseconds since the zero time, the first of January of year 1 (UTC), and
-- the Unix seconds that the database holds. The clock is taken to stand after 1970.
use opendash.Prelude.{ℕ, ◌+◌, ◌-◌, ◌*◌, ◌/◌, Bool, ltb, nat_eq}

abbrev pub Time : Type 0
Time = ℕ

abbrev pub second : Time
second = 1000000000

abbrev pub unix_epoch : ℕ
unix_epoch = 62135596800

-- t.Unix()
abbrev pub unix : Time → ℕ
unix t = t / second - unix_epoch

-- time.Unix(s, 0)
abbrev pub from_unix : ℕ → Time
from_unix s = (s + unix_epoch) * second

-- t.Before(u)
abbrev pub before : Time → Time → Bool
before t u = ltb t u

-- t.IsZero()
abbrev pub is_zero : Time → Bool
is_zero t = nat_eq t 0
