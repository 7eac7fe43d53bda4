-- ===== src/Sql/Returns.antt =====
-- What a call does while the driver does not fail: it returns a value and leaves a database.
use opendash.Prelude.{
  ◌≡◌, refl, Bool, false, [], Result, ok, err, some, none, ignore, if◌then◌else◌,
}
use opendash.Sql.{Conn, Sql, pure, raise, stmt, query, try, ◌>>=◌}

-- a connection whose driver does not fail
abbrev pub quiet : {D : Type 0} → D → Conn D
quiet d = record { db = d; faults = [] }

pub record Returns {E D A : Type 0} (m : Sql E D A) (d : D) (a : A) (d' : D) : Type 0 where
  pub eq : m (quiet d) ≡ (ok a, quiet d')

pub record Fails {E D A : Type 0} (m : Sql E D A) (d : D) (e : E) (d' : D) : Type 0 where
  pub eq : m (quiet d) ≡ (err e, quiet d')

module _ {E D A : Type 0} where
  pub Returns-pure : (a : A) (d : D) → Returns {E = E} (pure a) d a d
  unfolding pure
  Returns-pure a d = record { eq = refl }

  pub Fails-raise : (e : E) (d : D) → Fails {A = A} (raise e) d e d
  unfolding raise
  Fails-raise e d = record { eq = refl }

  pub Returns-stmt :
      (io : E) (f : D → Result E A × D) {d d' : D} {a : A}
      → f d ≡ (ok a, d')
      → Returns (stmt io f) d a d'
  unfolding stmt
  Returns-stmt io f h = record { eq = rw h refl }

  pub Fails-stmt :
      (io : E) (f : D → Result E A × D) {d d' : D} {e : E}
      → f d ≡ (err e, d')
      → Fails (stmt io f) d e d'
  unfolding stmt
  Fails-stmt io f h = record { eq = rw h refl }

  pub Returns-try :
      {m : Sql E D A} {d d' : D} {a : A} → Returns m d a d' → Returns (try m) d (some a) d'
  unfolding try
  Returns-try h = record { eq = rw h.eq refl }

  pub Returns-try_err :
      {m : Sql E D A} {d d' : D} {e : E} → Fails m d e d' → Returns (try m) d none d'
  unfolding try
  Returns-try_err h = record { eq = rw h.eq refl }

  -- an ignored read
  pub Returns-try-query :
      (io : E) (f : D → Result E A) (d : D) → Returns (try (query io f)) d (ignore (f d)) d
  unfolding try stmt
  Returns-try-query io f d = record { eq = refl }

  pub Returns-if :
      (m n : Sql E D A) {b : Bool} {d d' : D} {a : A}
      → b ≡ false
      → Returns n d a d'
      → Returns (if b then m else n) d a d'
  Returns-if m n h r = record { eq = rw h r.eq }

module _ {E D A B : Type 0} where
  pub Returns-bind :
      {m : Sql E D A} (f : A → Sql E D B) {d d' d'' : D} {a : A} {b : B}
      → Returns m d a d'
      → Returns (f a) d' b d''
      → Returns (m >>= f) d b d''
  unfolding ◌>>=◌
  Returns-bind f h k = record { eq = rw h.eq k.eq }

  pub Fails-bind :
      {m : Sql E D A} (f : A → Sql E D B) {d d' d'' : D} {a : A} {e : E}
      → Returns m d a d'
      → Fails (f a) d' e d''
      → Fails (m >>= f) d e d''
  unfolding ◌>>=◌
  Fails-bind f h k = record { eq = rw h.eq k.eq }

  pub Fails-bind_first :
      {m : Sql E D A} (f : A → Sql E D B) {d d' : D} {e : E}
      → Fails m d e d'
      → Fails (m >>= f) d e d'
  unfolding ◌>>=◌
  Fails-bind_first f h = record { eq = rw h.eq refl }
