-- ===== src/Sql/Triple.antt =====
-- Hoare triples for calls on a connection. They speak of the database only, so they hold for every
-- schedule of failures of the driver.
use opendash.Prelude.{
  ◌≡◌, refl, true, false, Bool, [], ◌∷◌, List, Result, ok, err, Option, some, none, ignore,
  if◌then◌else◌,
}
use opendash.Sql.{
  Conn, Sql, pure, raise, lift, stmt, transaction, try, attempt, continue, run_body, finish, ◌>>=◌,
}

module _ {E D A : Type 0} where
  abbrev pub Outcome : (A → D → Type 0) → (E → D → Type 0) → Result E A → D → Type 0
  Outcome Q R (ok a) d = Q a d
  Outcome Q R (err e) d = R e d

-- From a database that satisfies `P`, the call ends with a value and a database that satisfy `Q`, or
-- with an error and a database that satisfy `R`.
pub record Triple {E D A : Type 0} (P : D → Type 0) (m : Sql E D A) (Q : A → D → Type 0)
    (R : E → D → Type 0) : Type 0 where
  pub at : (c : Conn D) → P c.db → Outcome Q R (m c).0 (m c).1.db

module _ {E D A : Type 0} (Q : A → D → Type 0) (R : E → D → Type 0) where
  lift-Outcome :
      (r : Result E A) (d : D)
      → ((a : A) → r ≡ ok a → Q a d)
      → ((e : E) → r ≡ err e → R e d)
      → Outcome Q R r d
  lift-Outcome (ok a) d h k = h a refl
  lift-Outcome (err e) d h k = k e refl

  attempt-Outcome :
      (io : E) (f : D → Result E A × D) (c : Conn D) (fs : List Bool)
      → Outcome Q R (f c.db).0 (f c.db).1
      → R io c.db
      → Outcome Q R (attempt io f c fs).0 (attempt io f c fs).1.db
  attempt-Outcome io f c [] h k = h
  attempt-Outcome io f c (true ∷ fs) h k = k
  attempt-Outcome io f c (false ∷ fs) h k = h

  finish-Outcome :
      (io : E) (before : D) (r : Result E A) (c : Conn D)
      → Outcome Q (λ _ _. Unit {0}) r c.db
      → ((e : E) → R e before)
      → Outcome Q R (finish io before r c).0 (finish io before r c).1.db
  unfolding stmt
  finish-Outcome io before (err e) c h k = k e
  finish-Outcome io before (ok a) c h k = go c.faults
    where
      settle : Result E A × Conn D → Result E A × Conn D
      settle (r, c') = elim r [ ok a' ↦ (ok a', c') | err e ↦ (err e, record c' { db = before }) ]

      go :
          (fs : List Bool)
          → let z = settle (attempt {A = A} io (λ d. (ok a, d)) c fs) in Outcome Q R z.0 z.1.db
      go [] = h
      go (true ∷ fs) = k io
      go (false ∷ fs) = h

module _ {E D A B : Type 0} (Q : A → D → Type 0) (S : B → D → Type 0) (R : E → D → Type 0) where
  continue-Outcome :
      (r : Result E A) (f : A → Sql E D B) (c : Conn D)
      → Outcome Q R r c.db
      → ((a : A) → Triple (Q a) (f a) S R)
      → Outcome S R (continue r f c).0 (continue r f c).1.db
  continue-Outcome (ok a) f c h k = (k a).at c h
  continue-Outcome (err e) f c h k = h

module _ {E D A : Type 0} (R : E → D → Type 0) (S : Option A → D → Type 0) where
  try-Outcome :
      (r : Result E A) (d : D)
      → Outcome (λ a. S (some a)) (λ _. S none) r d
      → Outcome {E = E} S R (ok (ignore r)) d
  try-Outcome (ok a) d h = h
  try-Outcome (err e) d h = h

module _ {E D A : Type 0} {P : D → Type 0} {Q : A → D → Type 0} {R : E → D → Type 0} where
  pub Triple-pure : (a : A) → ((d : D) → P d → Q a d) → Triple P (pure {E = E} a) Q R
  unfolding pure
  Triple-pure a h = record { at = λ c p. h c.db p }

  pub Triple-raise : (e : E) → ((d : D) → P d → R e d) → Triple P (raise {A = A} e) Q R
  unfolding raise
  Triple-raise e h = record { at = λ c p. h c.db p }

  pub Triple-lift :
      (r : Result E A)
      → ((a : A) → r ≡ ok a → (d : D) → P d → Q a d)
      → ((e : E) → r ≡ err e → (d : D) → P d → R e d)
      → Triple P (lift {D = D} r) Q R
  unfolding lift
  Triple-lift r h k = record {
    at = λ c p. lift-Outcome Q R r c.db (λ a e. h a e c.db p) (λ x e. k x e c.db p);
  }

  pub Triple-stmt :
      (io : E) (f : D → Result E A × D)
      → ((d : D) → P d → Outcome Q R (f d).0 (f d).1)
      → ((d : D) → P d → R io d)
      → Triple P (stmt io f) Q R
  unfolding stmt
  Triple-stmt io f h k = record {
    at = λ c p. attempt-Outcome Q R io f c c.faults (h c.db p) (k c.db p);
  }

  pub Triple-ok :
      {m : Sql E D A} (t : Triple P m Q R) (c : Conn D) {a : A}
      → P c.db
      → (m c).0 ≡ ok a
      → Q a (m c).1.db
  Triple-ok {m} t c p e = rw e at (t.at c p)

  pub Triple-err :
      {m : Sql E D A} (t : Triple P m Q R) (c : Conn D) {x : E}
      → P c.db
      → (m c).0 ≡ err x
      → R x (m c).1.db
  Triple-err {m} t c p e = rw e at (t.at c p)

  pub Triple-if :
      (b : Bool) (m n : Sql E D A)
      → (b ≡ true → Triple P m Q R)
      → (b ≡ false → Triple P n Q R)
      → Triple P (if b then m else n) Q R
  Triple-if true m n h k = h refl
  Triple-if false m n h k = k refl

module _ {E D A : Type 0} {P : D → Type 0} {Q : A → D → Type 0} {R : E → D → Type 0} where
  -- What an error leaves may be forgotten.
  pub Triple-forget : {m : Sql E D A} → Triple P m Q R → Triple P m Q (λ _ _. Unit {0})
  Triple-forget {m} t = record { at = λ c p. go (m c).0 (m c).1.db (t.at c p) }
    where
      go : (r : Result E A) (d : D) → Outcome Q R r d → Outcome Q (λ _ _. Unit {0}) r d
      go (ok a) d h = h
      go (err e) d h = tt

module _ {E D A B : Type 0} {P : D → Type 0} {Q : A → D → Type 0} {S : B → D → Type 0}
    {R : E → D → Type 0} where
  pub Triple-bind :
      {m : Sql E D A} {f : A → Sql E D B}
      → Triple P m Q R
      → ((a : A) → Triple (Q a) (f a) S R)
      → Triple P (m >>= f) S R
  unfolding ◌>>=◌
  Triple-bind {m} {f} t k = record {
    at = λ c p. continue-Outcome Q S R (m c).0 f (m c).1 (t.at c p) k;
  }

module _ {E D A : Type 0} {P : D → Type 0} {Q : A → D → Type 0} {R : E → D → Type 0} where
  -- A transaction that fails leaves the database as it found it.
  pub Triple-transaction :
      (io : E) (body : Sql E D A)
      → Triple P body Q (λ _ _. Unit {0})
      → ((e : E) (d : D) → P d → R e d)
      → Triple P (transaction io body) Q R
  unfolding transaction
  Triple-transaction io body t k = record { at = λ c p. go c p c.faults }
    where
      start : Conn D → Result E (Unit {0}) × Conn D → Result E A × Conn D
      start c (r, c') = continue r (λ _. run_body io c.db body) c'

      go :
          (c : Conn D)
          → P c.db
          → (fs : List Bool)
          → let z = start c (attempt {A = Unit {0}} io (λ d. (ok tt, d)) c fs) in
            Outcome Q R z.0 z.1.db
      go c p [] =
          let c' : Conn D = record c { faults = [] } in
          finish-Outcome Q R io c.db (body c').0 (body c').1 (t.at c' p) (λ e. k e c.db p)
      go c p (true ∷ fs) = k io c.db p
      go c p (false ∷ fs) =
          let c' : Conn D = record c { faults = fs } in
          finish-Outcome Q R io c.db (body c').0 (body c').1 (t.at c' p) (λ e. k e c.db p)

module _ {E D A : Type 0} {P : D → Type 0} {R : E → D → Type 0} {S : Option A → D → Type 0} where
  -- An error that is ignored leaves what the call left.
  pub Triple-try :
      {m : Sql E D A} → Triple P m (λ a. S (some a)) (λ _. S none) → Triple P (try m) S R
  unfolding try
  Triple-try {m} t = record { at = λ c p. try-Outcome R S (m c).0 (m c).1.db (t.at c p) }
