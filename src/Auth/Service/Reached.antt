-- ===== src/Auth/Service/Reached.antt =====
-- The states that calls of the service reach.
use opendash.Prelude.{
  ℕ, ◌≡◌, refl, String, Bool, true, false, Option, none, some, List, ok, err, arith, not, reject_if,
  Result, ◌==◌,
}
use opendash.Prelude.Bytes.{Bytes}
use opendash.Models.Time.{Time, unix}
use opendash.Sql.{Conn}
use opendash.Sql.Triple.{
  Triple, Outcome, Triple-pure, Triple-raise, Triple-lift, Triple-stmt, Triple-bind,
  Triple-transaction, Triple-try, Triple-if,
}
use opendash.Auth.Password.{Crypto}
use opendash.Auth.Service.{
  AuthDb, AuthError, Auth, admin_exists, or_expire, Session, delete_sessions, bootstrap_body,
  login_body, bootstrap, login, authenticate, logout,
}
use opendash.Auth.Service.Consistent.{
  empty, IsConsistent, IsReady, Ready, insert_admin-Ready, delete_sessions-Ready,
  insert_session-IsConsistent, Keeps, delete_sessions-IsConsistent, query-IsConsistent,
}

module _ (crypto : Crypto) (url_encode : Bytes → String) (lifetime : Time) where
  bootstrap_body-IsConsistent :
      (now : Time) (username hash token csrf : String)
      → Triple IsConsistent
          (bootstrap_body crypto url_encode lifetime now username hash token csrf)
          (λ _. IsConsistent)
          (λ _ _. Unit {0})
  unfolding bootstrap_body
  bootstrap_body-IsConsistent now username hash token csrf =
      Triple-bind {Q = Ready} (Triple-stmt _ _ (λ d h. insert_admin-Ready _ d refl h) (λ d h. tt))
        (λ inserted.
          Triple-bind {Q = λ _. IsReady}
            (Triple-lift _ (λ a e. admitted inserted e) (λ e x d h. tt))
            (λ _. Triple-stmt _ _ (λ d h. insert_session-IsConsistent _ d refl h) (λ d h. tt)))
    where
      admitted :
          (inserted : Bool) {a : Unit {0}}
          → reject_if (not inserted) admin_exists ≡ ok a
          → (d : AuthDb) → Ready inserted d
          → IsReady d
      admitted true e d h = h
      admitted false e d h = cc

  bootstrap-IsConsistent :
      (now : Time) (salt token_bytes csrf_bytes : Option Bytes) (name password : String)
      → Triple IsConsistent
          (bootstrap crypto url_encode lifetime now salt token_bytes csrf_bytes name password)
          (λ _. IsConsistent)
          (λ _. IsConsistent)
  unfolding bootstrap
  bootstrap-IsConsistent now salt token_bytes csrf_bytes name password =
      Triple-bind {Q = λ _. IsConsistent} (Triple-lift _ (λ a e d h. h) (λ x e d h. h)) λ _.
        Triple-bind {Q = λ _. IsConsistent} (Triple-lift _ (λ a e d h. h) (λ x e d h. h)) λ hash.
          Triple-bind {Q = λ _. IsConsistent} (Triple-lift _ (λ a e d h. h) (λ x e d h. h))
            λ secrets.
              Triple-bind {Q = λ _. IsConsistent}
                (Triple-transaction _ _ (bootstrap_body-IsConsistent now _ hash _ _) (λ e d h. h))
                λ _. Triple-pure _ (λ d h. h)

  login_body-IsConsistent :
      (now : Time) (token csrf : String)
      → Triple IsConsistent
          (login_body crypto url_encode lifetime now token csrf)
          (λ _. IsConsistent)
          (λ _ _. Unit {0})
  unfolding login_body delete_sessions
  login_body-IsConsistent now token csrf =
      Triple-bind {Q = λ _. IsReady}
        (Triple-stmt _ _ (λ d h. delete_sessions-Ready _ d h) (λ d h. tt))
        (λ _. Triple-stmt _ _ (λ d h. insert_session-IsConsistent _ d refl h) (λ d h. tt))

  login-IsConsistent :
      (dummy : String) (now : Time) (token_bytes csrf_bytes : Option Bytes) (name password : String)
      → Keeps (login crypto url_encode lifetime dummy now token_bytes csrf_bytes name password)
  unfolding login
  login-IsConsistent dummy now token_bytes csrf_bytes name password =
      Triple-bind {Q = λ _. IsConsistent} (query-IsConsistent _) λ found.
        Triple-bind {Q = λ _. IsConsistent} (Triple-lift _ (λ a e d h. h) (λ x e d h. h)) λ actual.
          Triple-bind {Q = λ _. IsConsistent} (Triple-lift _ (λ a e d h. h) (λ x e d h. h))
            λ secrets.
              Triple-bind {Q = λ _. IsConsistent}
                (Triple-transaction _ _ (login_body-IsConsistent now _ _) (λ e d h. h))
                λ _. Triple-pure _ (λ d h. h)

  or_expire-IsConsistent :
      (now : ℕ) (found : Option Session) → Keeps (or_expire crypto url_encode lifetime now found)
  or_expire-IsConsistent now (some s) = Triple-pure _ (λ d h. h)
  or_expire-IsConsistent now none =
      Triple-bind {Q = λ _. IsConsistent} (Triple-try (delete_sessions-IsConsistent _))
        λ _. Triple-raise _ (λ d h. h)

  authenticate-IsConsistent :
      (now : Time) (token : String) → Keeps (authenticate crypto url_encode lifetime now token)
  unfolding authenticate
  authenticate-IsConsistent now token =
      Triple-if (token == "") _ _ (λ _. Triple-raise _ (λ d h. h))
        (λ _.
          Triple-bind {Q = λ _. IsConsistent} (query-IsConsistent _)
            (or_expire-IsConsistent (unix now)))

  logout-IsConsistent : (token : String) → Keeps (logout crypto url_encode lifetime token)
  unfolding logout
  logout-IsConsistent token =
      Triple-if (token == "") _ _ (λ _. Triple-pure _ (λ d h. h))
        (λ _. delete_sessions-IsConsistent _)

  -- A call of the service on the tables `d`, under some schedule of failures, that leaves `d'`.
  pub data Call (d : AuthDb) (d' : AuthDb) : Type 0 where
    bootstrap_call :
        (now : Time) (salt token_bytes csrf_bytes : Option Bytes) (name password : String)
        (faults : List Bool)
        → d'
          ≡ (bootstrap crypto url_encode lifetime now salt token_bytes csrf_bytes name password
              (record { db = d; faults = faults })).1.db
        → Call d d'
    login_call :
        (dummy : String) (now : Time) (token_bytes csrf_bytes : Option Bytes)
        (name password : String) (faults : List Bool)
        → d'
          ≡ (login crypto url_encode lifetime dummy now token_bytes csrf_bytes name password
              (record { db = d; faults = faults })).1.db
        → Call d d'
    authenticate_call :
        (now : Time) (token : String) (faults : List Bool)
        → d'
          ≡ (authenticate crypto url_encode lifetime now token
              (record { db = d; faults = faults })).1.db
        → Call d d'
    logout_call :
        (token : String) (faults : List Bool)
        → d' ≡ (logout crypto url_encode lifetime token (record { db = d; faults = faults })).1.db
        → Call d d'

  pub data Reach : AuthDb → Type 0 where
    fresh : Reach empty
    after : {d d' : AuthDb} → Reach d → Call d d' → Reach d'

  kept :
      {A : Type 0} {m : Auth A} {d d' : AuthDb} (faults : List Bool)
      → Keeps m
      → IsConsistent d
      → d' ≡ (m (record { db = d; faults = faults })).1.db
      → IsConsistent d'
  kept {A} {m} {d} faults t h e = rw e (settled (m c).0 (t.at c h))
    where
      c : Conn AuthDb
      c = record { db = d; faults = faults }

      settled :
          (r : Result AuthError A)
          → Outcome (λ _. IsConsistent) (λ _. IsConsistent) r (m c).1.db
          → IsConsistent (m c).1.db
      settled (ok a) k = k
      settled (err x) k = k

  Call-IsConsistent : {d d' : AuthDb} → Call d d' → IsConsistent d → IsConsistent d'
  Call-IsConsistent (bootstrap_call now salt tb cb name password faults e) h =
      kept faults (bootstrap-IsConsistent now salt tb cb name password) h e
  Call-IsConsistent (login_call dummy now tb cb name password faults e) h =
      kept faults (login-IsConsistent dummy now tb cb name password) h e
  Call-IsConsistent (authenticate_call now token faults e) h =
      kept faults (authenticate-IsConsistent now token) h e
  Call-IsConsistent (logout_call token faults e) h = kept faults (logout-IsConsistent token) h e

  -- Whatever calls of Bootstrap, Login, Authenticate and Logout were made on a new database, with
  -- whatever failures of the random source and of the database: there is at most one administrator
  -- and at most one session, both under the id 1, and a session only where there is an administrator.
  pub Reach-IsConsistent : {d : AuthDb} → Reach d → IsConsistent d
  Reach-IsConsistent fresh = omega arith
  Reach-IsConsistent (after r call) = Call-IsConsistent call (Reach-IsConsistent r)
