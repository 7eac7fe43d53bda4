-- ===== src/Sql.antt =====
-- database/sql as the program uses it: one connection (store/sqlite.go opens the database with
-- SetMaxOpenConns(1)), statements that the driver may fail, and transactions.
-- Which of the coming calls of the driver fail is a list, so a theorem holds for every schedule of
-- failures; behind its end no call fails.
pub mod Triple
pub mod Returns
use opendash.Prelude.{Bool, true, false, List, [], ◌∷◌, Result, ok, err, Option, ignore}

pub record Conn (D : Type 0) : Type 0 where
  pub db : D
  pub faults : List Bool

-- A call on the connection: its value or error, and the connection afterwards.
abbrev pub Sql : Type 0 → Type 0 → Type 0 → Type 0
Sql E D A = Conn D → Result E A × Conn D

module _ {E D A : Type 0} where
  unfoldable pub pure : A → Sql E D A
  pure a c = (ok a, c)

  unfoldable pub raise : E → Sql E D A
  raise e c = (err e, c)

  unfoldable pub lift : Result E A → Sql E D A
  lift r c = (r, c)

  abbrev pub perform : (D → Result E A × D) → Conn D → List Bool → Result E A × Conn D
  perform f c rest = let (r, d) = f c.db in (r, record { db = d; faults = rest })

  -- One call of the driver: where it fails, it has changed nothing and the error is `io`.
  abbrev pub attempt : E → (D → Result E A × D) → Conn D → List Bool → Result E A × Conn D
  attempt io f c [] = perform f c []
  attempt io f c (true ∷ rest) = (err io, record c { faults = rest })
  attempt io f c (false ∷ rest) = perform f c rest

  -- db.ExecContext, db.QueryRowContext
  unfoldable pub stmt : E → (D → Result E A × D) → Sql E D A
  stmt io f c = attempt io f c c.faults

  -- A statement that only reads.
  abbrev pub query : E → (D → Result E A) → Sql E D A
  query io f = stmt io (λ d. (f d, d))

  -- An error that the source ignores: `_, _ = …`, `_ = …`.
  unfoldable pub try : Sql E D A → Sql E D (Option A)
  try m c = let (r, c') = m c in (ok (ignore r), c')

module _ {E D A B : Type 0} where
  abbrev pub continue : Result E A → (A → Sql E D B) → Sql E D B
  continue (ok a) f c = f a c
  continue (err e) f c = (err e, c)

  infixl 10 ◌>>=◌ ◌>>◌
  -- opening this opens `pure`, `raise`, `lift` and `stmt` too
  unfoldable pub ◌>>=◌ : Sql E D A → (A → Sql E D B) → Sql E D B
  unfolding pure raise lift stmt
  ◌>>=◌ m f c = let (r, c') = m c in continue r f c'

  abbrev pub ◌>>◌ : Sql E D A → Sql E D B → Sql E D B
  m >> n = m >>= λ _. n

module _ {E D A : Type 0} where
  -- tx.Commit: where it fails, the deferred Rollback restores what BeginTx saw.
  abbrev pub commit : E → D → A → Sql E D A
  commit io before a c =
      let (r, c') = stmt {A = A} io (λ d. (ok a, d)) c in
      elim r [ ok a' ↦ (ok a', c') | err e ↦ (err e, record c' { db = before }) ]

  abbrev pub finish : E → D → Result E A → Sql E D A
  finish io before (ok a) c = commit io before a c
  finish io before (err e) c = (err e, record c { db = before })

  abbrev pub run_body : E → D → Sql E D A → Sql E D A
  run_body io before body c = let (r, c') = body c in finish io before r c'

  -- BeginTx, `defer tx.Rollback()`, the body, and Commit where the body returned no error.
  unfoldable pub transaction : E → Sql E D A → Sql E D A
  unfolding stmt
  transaction io body c =
      let (r, c') = stmt {A = Unit {0}} io (λ d. (ok tt, d)) c in
      continue r (λ _. run_body io c.db body) c'
