-- ===== src/Auth/Service/Refused.antt =====
-- What a second Bootstrap and a Logout leave.
use opendash.Prelude.{
  ◌<◌, ◌≡◌, refl, length, All, String, Bool, true, false, not, ◌||◌, Option, List, [], ◌∷◌, Result,
  ok, err, arith, exists, reject_if, nat_eq, ◌==◌,
}
use opendash.Prelude.Bytes.{Bytes}
use opendash.Models.Time.{Time, unix}
use opendash.Sql.{Conn}
use opendash.Sql.Triple.{
  Triple, Outcome, Triple-pure, Triple-lift, Triple-stmt, Triple-bind, Triple-transaction,
}
use opendash.Auth.Password.{Crypto}
use opendash.Auth.Service.{
  AuthDb, AuthError, AdminRow, Session, admin_exists, insert_admin, bootstrap_body, bootstrap,
}
use opendash.Auth.Service.Consistent.{IsConsistent}

taken :
    (row : AdminRow) (xs : List AdminRow)
    → row.id ≡ 1
    → All (λ a. a.id ≡ 1) xs
    → 0 < length xs
    → exists (λ a. nat_eq a.id row.id || a.username == row.username) xs ≡ true
unfolding exists
taken row [] e h k = absurd (omega arith)
taken row (x ∷ xs) e h k = ground arith

module _ (crypto : Crypto) (url_encode : Bytes → String) (lifetime : Time) where
  abbrev Occupied : AuthDb → AuthDb → Type 0
  Occupied d0 d = (d ≡ d0) × IsConsistent d × (0 < length d.admins)

  body_refused :
      (now : Time) (name hash token csrf : String) (d0 : AuthDb)
      → Triple
          (Occupied d0)
          (bootstrap_body crypto url_encode lifetime now name hash token csrf)
          (λ _ _. ⊥)
          (λ _ _. Unit {0})
  unfolding bootstrap_body
  body_refused now name hash token csrf d0 =
      Triple-bind {Q = λ b _. b ≡ false} (Triple-stmt _ _ (λ d h. ignored d h) (λ d h. tt))
        λ inserted.
          Triple-bind {Q = λ _ _. ⊥} (Triple-lift _ (rejected inserted) (λ x e d h. tt))
            λ _. Triple-stmt _ _ (λ d h. absurd h) (λ d h. tt)
    where
      row : AdminRow
      row = record { id = 1; username = name; password_hash = hash; created_at = unix now }

      ignored :
          (d : AuthDb)
          → Occupied d0 d
          → Outcome
              (λ b _. b ≡ false)
              (λ _ _. Unit {0})
              (insert_admin row d).0
              (insert_admin row d).1
      ignored d h = unfold insert_admin in rw (taken row d.admins refl h.1.admin_ids h.2) refl

      rejected :
          (b : Bool) (a : Unit {0}) → reject_if (not b) admin_exists ≡ ok a → AuthDb → b ≡ false → ⊥
      rejected true a e d h = cc
      rejected false a e d h = cc

  bootstrap_refused :
      (now : Time) (salt token_bytes csrf_bytes : Option Bytes) (name password : String)
      (d0 : AuthDb)
      → Triple
          (Occupied d0)
          (bootstrap crypto url_encode lifetime now salt token_bytes csrf_bytes name password)
          (λ _ _. ⊥)
          (λ _ d. d ≡ d0)
  unfolding bootstrap
  bootstrap_refused now salt token_bytes csrf_bytes name password d0 =
      Triple-bind {Q = λ _. Occupied d0} (Triple-lift _ (λ a e d h. h) (λ x e d h. h.0)) λ _.
        Triple-bind {Q = λ _. Occupied d0} (Triple-lift _ (λ a e d h. h) (λ x e d h. h.0)) λ hash.
          Triple-bind {Q = λ _. Occupied d0} (Triple-lift _ (λ a e d h. h) (λ x e d h. h.0))
            λ secrets.
              Triple-bind {Q = λ _ _. ⊥}
                (Triple-transaction _ _ (body_refused now _ hash _ _ d0) (λ e d h. h.0))
                λ _. Triple-pure _ (λ d h. h)

  -- Where consistent tables have an administrator, Bootstrap returns an error, whatever it is given and whatever
  -- fails, and leaves the tables as they were.
  pub bootstrap_once :
      (now : Time) (salt token_bytes csrf_bytes : Option Bytes) (name password : String)
      (c : Conn AuthDb)
      → IsConsistent c.db
      → 0 < length c.db.admins
      → let z =
          bootstrap crypto url_encode lifetime now salt token_bytes csrf_bytes name password c in
        ((e : AuthError) × (z.0 ≡ err e)) × (z.1.db ≡ c.db)
  bootstrap_once now salt token_bytes csrf_bytes name password c h k =
      either z.0 refl (t.at c (refl, h, k))
    where
      t :
          Triple
            (Occupied c.db)
            (bootstrap crypto url_encode lifetime now salt token_bytes csrf_bytes name password)
            (λ _ _. ⊥)
            (λ _ d. d ≡ c.db)
      t = bootstrap_refused now salt token_bytes csrf_bytes name password c.db

      z : Result AuthError (String × Session) × Conn AuthDb
      z = bootstrap crypto url_encode lifetime now salt token_bytes csrf_bytes name password c

      either :
          (r : Result AuthError (String × Session))
          → z.0 ≡ r
          → Outcome (λ _ _. ⊥) (λ _ d. d ≡ c.db) r z.1.db
          → ((e : AuthError) × (z.0 ≡ err e)) × (z.1.db ≡ c.db)
      either (ok a) e x = absurd x
      either (err y) e x = ((y, e), x)
