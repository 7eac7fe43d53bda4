-- ===== src/Api/Limiter/Window.antt =====
-- How many attempts of one client the limiter allows within a window.
use opendash.Prelude.{
  ℕ, ◌+◌, ◌≤◌, ◌<◌, ◌≡◌, refl, sym, ap, ◌∙◌, ◌⊎◌, String, Bool, true, false, ◌&&◌, Option, none,
  some, List, [], ◌∷◌, arith, leb, Bool-cases, inl, inr, eq_iff, ◌==◌, if◌then◌else◌, All,
}
use text.Mathlib.TextPositions.{eq_refl}
use opendash.Prelude.Maps.{get, put, remove, text_key, get-put, get-remove, get-keep_there}
use opendash.Models.Time.{Time}
use opendash.Api.Limiter.Entry.{
  IsStale, IsOver, get-IsOver, evict-IsOver, remove-IsOver, admit-IsOver, get-admit_other,
}
use opendash.Api.Limiter.{
  LoginAttempt, Attempts, Event, attempt, clear, login_limit, login_window, evict, live, current,
  register, admit, allow, reset, step,
}

-- how many attempts of `key` were allowed
unfoldable pub allowed : String → List Event → Attempts → ℕ
unfolding step
allowed key [] m = 0
allowed key (attempt now k ∷ es) m =
    let (m', ok) = allow now k m in
    let rest = allowed key es m' in if ok && k == key then rest + 1 else rest
allowed key (clear k ∷ es) m = allowed key es (reset k m)

-- An event in the window that begins at `start`, which does not clear the entry of `key`.
abbrev pub Within : Time → String → Event → Type 0
Within start key (attempt now k) = (start ≤ now) × (now < start + login_window)
Within start key (clear k) = (k == key) ≡ false

-- An entry made in the window, with `n` attempts counted.
abbrev IsCounted : Time → ℕ → Option LoginAttempt → Type 0
IsCounted start n none = ⊥
IsCounted start n (some a) = (start + login_window ≤ a.reset) × (a.count ≡ n) × (n ≤ login_limit)

get-evict-counted :
    (start now : Time) (key : String) (n : ℕ) (m : Attempts)
    → now < start + login_window
    → IsCounted start n (get key m)
    → get key (evict now m) ≡ get key m
unfolding evict
get-evict-counted start now key n m h c = go (get key m) refl c
  where
    go :
        (o : Option LoginAttempt)
        → get key m ≡ o
        → IsCounted start n o
        → get key (evict now m) ≡ get key m
    go none e c = absurd c
    go (some a) e c = ground (arith, get-keep_there (live now) key a m e)

-- The entry of `key` in the course of the window: `n` of its attempts were allowed.
abbrev Phase : Time → String → ℕ → Attempts → Type 0
Phase start key n m = ((n ≡ 0) × IsOver start key m) ⊎ IsCounted start n (get key m)

-- One attempt of the client itself.
abbrev Advance : Time → String → ℕ → Attempts × Bool → Type 0
Advance start key n (m, true) = (n + 1 ≤ login_limit) × IsCounted start (n + 1) (get key m)
Advance start key n (m, false) = Phase start key n m

get-put_self : (key : String) (v : LoginAttempt) (m : Attempts) → get key (put key v m) ≡ some v
get-put_self key v m = simp (get-put, eq_refl)

-- Counting one more attempt in an entry of the window, or refusing it.
register-Advance :
    (start : Time) (key : String) (n : ℕ) (m : Attempts) (a : LoginAttempt) (b : Bool)
    → Phase start key n m
    → a.count ≡ n
    → start + login_window ≤ a.reset
    → Advance start key n (if b then (m, false) else register key m a)
register-Advance start key n m a true h e r = h
register-Advance start key n m a false h e r = elim (Bool-cases (leb login_limit a.count)) [
  | inl full ↦ rw full h
  | inr room ↦
      rw (room, get-put_self) (ground (arith, e), (r, ap (λ (k : ℕ). k + 1) e, ground (arith, e)))
]

current-stale :
    (start now : Time) (o : Option LoginAttempt)
    → start ≤ now
    → IsStale start o
    → current now o ≡ record { count = 0; reset = now + login_window }
current-stale start now none h k = refl
current-stale start now (some a) h k = ground arith

current-counted :
    (start now : Time) (n : ℕ) (o : Option LoginAttempt)
    → now < start + login_window
    → IsCounted start n o
    → ((current now o).count ≡ n) × (start + login_window ≤ (current now o).reset)
current-counted start now n none h k = absurd k
current-counted start now n (some a) h k = ground arith

admit-Advance :
    (start now : Time) (key : String) (full : Bool) (n : ℕ) (m : Attempts)
    → start ≤ now
    → now < start + login_window
    → Phase start key n m
    → Advance start key n (admit now key full m)
admit-Advance start now key full n m h k (inl (e, over)) =
    let c : current now (get key m) ≡ record { count = 0; reset = now + login_window } =
      current-stale start now (get key m) h (get-IsOver start key m over) in
    register-Advance start key n m (current now (get key m)) _ (inl (e, over))
      (ap (λ (a : LoginAttempt). a.count) c ∙ sym e) (rw c (omega arith))
admit-Advance start now key full n m h k (inr c) =
    let f = current-counted start now n (get key m) k c in
    register-Advance start key n m (current now (get key m)) _ (inr c) f.0 f.1

evict-Phase :
    (start now : Time) (key : String) (n : ℕ) (m : Attempts)
    → now < start + login_window
    → Phase start key n m
    → Phase start key n (evict now m)
evict-Phase start now key n m h (inl (e, over)) = inl (e, evict-IsOver start now key m over)
evict-Phase start now key n m h (inr c) = inr (rw (get-evict-counted start now key n m h c) c)

-- What happens to other clients, or a successful login of another, leaves the phase.
other-Phase :
    (start now : Time) (key k : String) (full : Bool) (n : ℕ) (m : Attempts)
    → (k == key) ≡ false
    → Phase start key n m
    → Phase start key n (admit now k full m).0
other-Phase start now key k full n m e (inl (z, over)) =
    inl (z, admit-IsOver start now key k full m e over)
other-Phase start now key k full n m e (inr c) = inr (rw (get-admit_other now key k full m e) c)

clear-Phase :
    (start : Time) (key k : String) (n : ℕ) (m : Attempts)
    → (k == key) ≡ false
    → Phase start key n m
    → Phase start key n (remove k m)
clear-Phase start key k n m e (inl (z, over)) = inl (z, remove-IsOver start key k m over)
clear-Phase start key k n m e (inr c) = inr (rw (get-remove, e) c)

Phase-le :
    (start : Time) (key : String) (n : ℕ) (m : Attempts) → Phase start key n m → n ≤ login_limit
Phase-le start key n m (inl (e, over)) = omega arith
Phase-le start key n m (inr c) = go (get key m) c
  where
    go : (o : Option LoginAttempt) → IsCounted start n o → n ≤ login_limit
    go none h = absurd h
    go (some a) h = h.2

allow-Advance :
    (start now : Time) (key k : String) (n : ℕ) (m : Attempts)
    → start ≤ now
    → now < start + login_window
    → (k == key) ≡ true
    → Phase start key n m
    → Advance start key n (allow now k m)
unfolding allow
allow-Advance start now key k n m h h' own ph =
    rw ((eq_iff k key).0 own)
      (admit-Advance start now key _ n (evict now m) h h' (evict-Phase start now key n m h' ph))

allow-Phase :
    (start now : Time) (key k : String) (n : ℕ) (m : Attempts)
    → now < start + login_window
    → (k == key) ≡ false
    → Phase start key n m
    → Phase start key n (allow now k m).0
unfolding allow
allow-Phase start now key k n m h other ph =
    other-Phase start now key k _ n (evict now m) other (evict-Phase start now key n m h ph)

count_own :
    (start : Time) (key : String) (n : ℕ) (es : List Event) (z : Attempts × Bool)
    → ((n' : ℕ) → Phase start key n' z.0 → n' + allowed key es z.0 ≤ login_limit)
    → Advance start key n z
    → n + (if z.1 && true then allowed key es z.0 + 1 else allowed key es z.0) ≤ login_limit
count_own start key n es (m, true) ih a = omega (arith, ih (n + 1) (inr a.1))
count_own start key n es (m, false) ih a = ih n a

count_other :
    (key : String) (n : ℕ) (es : List Event) (z : Attempts × Bool)
    → n + allowed key es z.0 ≤ login_limit
    → n + (if z.1 && false then allowed key es z.0 + 1 else allowed key es z.0) ≤ login_limit
count_other key n es (m, true) h = h
count_other key n es (m, false) h = h

allowed-Phase :
    (start : Time) (key : String) (es : List Event) (n : ℕ) (m : Attempts)
    → All (Within start key) es
    → Phase start key n m
    → n + allowed key es m ≤ login_limit
unfolding allowed reset
allowed-Phase start key [] n m w h = omega (arith, Phase-le start key n m h)
allowed-Phase start key (clear k ∷ es) n m w h =
    allowed-Phase start key es n (remove k m) w.1 (clear-Phase start key k n m w.0 h)
allowed-Phase start key (attempt now k ∷ es) n m w h = elim (Bool-cases (k == key)) [
  | inl own ↦ rw own (
      count_own start key n es (allow now k m)
        (λ n' p. allowed-Phase start key es n' (allow now k m).0 w.1 p)
        (allow-Advance start now key k n m w.0.0 w.0.1 own h))
  | inr other ↦ rw other (
      count_other key n es (allow now k m) (
        allowed-Phase start key es n (allow now k m).0 w.1
          (allow-Phase start now key k n m w.0.1 other h)))
]

-- Within one window, from a table whose entries of a client are over, at most five attempts of that
-- client are allowed: whatever it and other clients attempt, at whatever times of the window and in
-- whatever order, and whatever other clients' entries are cleared.
pub allowed-le :
    (start : Time) (key : String) (es : List Event) (m : Attempts)
    → IsOver start key m
    → All (Within start key) es
    → allowed key es m ≤ login_limit
allowed-le start key es m over w =
    omega (arith, allowed-Phase start key es 0 m w (inl (refl, over)))
