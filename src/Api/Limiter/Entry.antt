-- ===== src/Api/Limiter/Entry.antt =====
-- The entries of one client in the table of the limiter.
use opendash.Prelude.{
  ◌+◌, ◌≤◌, ◌≡◌, refl, String, Bool, true, false, ◌&&◌, Option, none, some, [], ◌∷◌, leb, length,
  keep, Bool-cases, inl, inr, ◌==◌, if◌then◌else◌, All,
}
use opendash.Prelude.Maps.{get, put, remove, text_key, get-put}
use opendash.Models.Time.{Time}
use opendash.Api.Limiter.{
  LoginAttempt, Attempts, max_limiter_keys, login_limit, evict, live, is_none, current, register,
  admit,
}

-- No entry, or one whose window is over at `start`.
abbrev pub IsStale : Time → Option LoginAttempt → Type 0
IsStale start none = Unit
IsStale start (some a) = a.reset ≤ start

-- A call leaves the table as it is, or writes one entry of its client.
pub admit_cases :
    (P : Attempts → Type 0) (now : Time) (k : String) (full : Bool) (m : Attempts)
    → P m
    → ((a : LoginAttempt) → P (put k a m))
    → P (admit now k full m).0
admit_cases P now k full m h p =
    refused (full && is_none (get k m) && leb max_limiter_keys (length m))
  where
    a : LoginAttempt
    a = current now (get k m)

    counted :
        (b : Bool)
        → P
            (if◌then◌else◌ {A = Attempts × Bool} b
              (m, false)
              (put k (record a { count = a.count + 1 }) m, true)).0
    counted true = h
    counted false = p _

    refused : (b : Bool) → P (if◌then◌else◌ {A = Attempts × Bool} b (m, false) (register k m a)).0
    refused true = h
    refused false = counted (leb login_limit a.count)

-- Every entry of `key` has a window that is over at `start`: a table with no fresh attempt.
abbrev pub IsOver : Time → String → Attempts → Type 0
IsOver start key = All (λ (e : String × LoginAttempt). (e.0 == key) ≡ true → e.1.reset ≤ start)

pub get-IsOver :
    (start : Time) (key : String) (m : Attempts) → IsOver start key m → IsStale start (get key m)
unfolding get
get-IsOver start key [] h = tt
get-IsOver start key ((k, a) ∷ m) h = elim (Bool-cases (k == key)) [
  | inl e ↦ rw e (h.0 e)
  | inr e ↦ rw e (get-IsOver start key m h.1)
]

keep-IsOver :
    (start now : Time) (key : String) (m : Attempts)
    → IsOver start key m
    → IsOver start key (keep (live now) m)
unfolding keep
keep-IsOver start now key [] h = tt
keep-IsOver start now key (x ∷ m) h = elim (Bool-cases (live now x)) [
  | inl e ↦ rw e (h.0, keep-IsOver start now key m h.1)
  | inr e ↦ rw e (keep-IsOver start now key m h.1)
]

pub evict-IsOver :
    (start now : Time) (key : String) (m : Attempts)
    → IsOver start key m
    → IsOver start key (evict now m)
unfolding evict
evict-IsOver start now key m h = elim (Bool-cases (leb max_limiter_keys (length m))) [
  | inl e ↦ rw e (keep-IsOver start now key m h)
  | inr e ↦ rw e h
]

put-IsOver :
    (start : Time) (key k : String) (a : LoginAttempt) (m : Attempts)
    → (k == key) ≡ false
    → IsOver start key m
    → IsOver start key (put k a m)
unfolding put
put-IsOver start key k a [] e h = (λ t. cc, tt)
put-IsOver start key k a ((j, b) ∷ m) e h = elim (Bool-cases (j == k)) [
  | inl same ↦ rw same (λ t. cc, h.1)
  | inr other ↦ rw other (h.0, put-IsOver start key k a m e h.1)
]

pub remove-IsOver :
    (start : Time) (key k : String) (m : Attempts)
    → IsOver start key m
    → IsOver start key (remove k m)
unfolding remove
remove-IsOver start key k [] h = tt
remove-IsOver start key k ((j, b) ∷ m) h = elim (Bool-cases (j == k)) [
  | inl same ↦ rw same (remove-IsOver start key k m h.1)
  | inr other ↦ rw other (h.0, remove-IsOver start key k m h.1)
]

-- What `allow` does to the entry of another client.
pub admit-IsOver :
    (start now : Time) (key k : String) (full : Bool) (m : Attempts)
    → (k == key) ≡ false
    → IsOver start key m
    → IsOver start key (admit now k full m).0
admit-IsOver start now key k full m e h =
    admit_cases (IsOver start key) now k full m h (λ a. put-IsOver start key k a m e h)

pub get-admit_other :
    (now : Time) (key k : String) (full : Bool) (m : Attempts)
    → (k == key) ≡ false
    → get key (admit now k full m).0 ≡ get key m
get-admit_other now key k full m e =
    admit_cases (λ m'. get key m' ≡ get key m) now k full m refl (λ a. rw (get-put, e))
