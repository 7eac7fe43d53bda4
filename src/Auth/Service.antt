-- ===== src/Auth/Service.antt =====
-- internal/auth/auth.go: the service over the tables `admins` and `sessions` (store/migrations.sql).
-- The clock's reading, and what the random source returns (`none` where it fails), are arguments.
pub mod Consistent
pub mod Reached
pub mod Started
pub mod Refused
pub mod Ended
use Prim.Native.String.{len}
use opendash.Prelude.{
  ℕ, ◌+◌, String, Bool, true, false, ◌&&◌, ◌||◌, not, Option, none, some, List, [], ◌∷◌, Result, ok,
  err, ltb, leb, nat_eq, ◌==◌, if◌then◌else◌, trim_space, keep, exists, find_first, reject_if,
  or_err,
}
use opendash.Prelude.Bytes.{Bytes, bytes_eq}
use opendash.Models.Time.{Time, unix, from_unix}
use opendash.Sql.{Conn, Sql, pure, raise, lift, stmt, query, transaction, try, ◌>>=◌, ◌>>◌}
use opendash.Auth.Password.{Crypto, hash_password, verify_password}

pub data AuthError : Type 0 where
  admin_exists invalid_credentials invalid_input unauthenticated : AuthError
  -- a failure of the random source or of the database
  random_failed database_failed : AuthError

pub record Session : Type 0 where
  pub username : String
  pub csrf_token : String
  pub expires_at : Time

-- CREATE TABLE admins
pub record AdminRow : Type 0 where
  pub id : ℕ
  pub username : String
  pub password_hash : String
  pub created_at : ℕ

-- CREATE TABLE sessions
pub record SessionRow : Type 0 where
  pub token_hash : Bytes
  pub admin_id : ℕ
  pub csrf_token : String
  pub expires_at : ℕ
  pub created_at : ℕ

pub record AuthDb : Type 0 where
  pub admins : List AdminRow
  pub sessions : List SessionRow

abbrev pub Auth : Type 0 → Type 0
Auth = Sql AuthError AuthDb

-- INSERT OR IGNORE INTO admins(id, …) VALUES (1, …), and the rows affected: the key and the unique
-- name ignore the row
unfoldable pub insert_admin : AdminRow → AuthDb → Result AuthError Bool × AuthDb
insert_admin row db =
    if exists (λ a. nat_eq a.id row.id || a.username == row.username) db.admins
    then (ok false, db)
    else (ok true, record db { admins = row ∷ db.admins })

-- INSERT INTO sessions: the key and the foreign key are constraints
unfoldable pub insert_session : SessionRow → AuthDb → Result AuthError (Unit {0}) × AuthDb
insert_session row db =
    if exists (λ s. bytes_eq s.token_hash row.token_hash) db.sessions
      || not (exists (λ a. nat_eq a.id row.admin_id) db.admins)
    then (err database_failed, db)
    else (ok tt, record db { sessions = row ∷ db.sessions })

-- DELETE FROM sessions WHERE …
unfoldable pub delete_sessions : (SessionRow → Bool) → AuthDb → Result AuthError (Unit {0}) × AuthDb
delete_sessions doomed db = (ok tt, record db { sessions = keep (λ s. not (doomed s)) db.sessions })

-- SELECT … FROM sessions s JOIN admins a ON a.id=s.admin_id WHERE s.token_hash=? AND s.expires_at>?
abbrev pub admin_of : SessionRow → Option AdminRow → Option Session
admin_of s none = none
admin_of s (some a) = some (record {
  username = a.username;
  csrf_token = s.csrf_token;
  expires_at = from_unix s.expires_at;
})

abbrev pub join_admin : AuthDb → Option SessionRow → Option Session
join_admin db none = none
join_admin db (some s) = admin_of s (find_first (λ a. nat_eq a.id s.admin_id) db.admins)

unfoldable pub select_session : Bytes → ℕ → AuthDb → Option Session
select_session digest now db =
    join_admin db
      (find_first (λ s. bytes_eq s.token_hash digest && ltb now s.expires_at) db.sessions)

-- newSessionSecrets: the second secret is drawn only if the first was
abbrev session_secrets : (Bytes → String) → Option Bytes → Option Bytes → Option (String × String)
session_secrets encode none _ = none
session_secrets encode (some t) none = none
session_secrets encode (some t) (some c) = some (encode t, encode c)

-- the lengths that `Bootstrap` accepts
unfoldable pub valid_input : String → String → Bool
valid_input username password = not (
    ltb (len username) 3
    || ltb 64 (len username)
    || ltb (len password) 12
    || ltb 1024 (len password))

module _ (crypto : Crypto) (url_encode : Bytes → String) (lifetime : Time) where
  unfoldable pub bootstrap_required : Auth Bool
  bootstrap_required = query database_failed (λ db. ok (not (exists (λ _. true) db.admins)))

  abbrev new_row : String → String → Time → SessionRow
  new_row token csrf now = record {
    token_hash = crypto.sha256 token;
    admin_id = 1;
    csrf_token = csrf;
    expires_at = unix (now + lifetime);
    created_at = unix now;
  }

  -- the body of the transaction of `Bootstrap`
  bootstrap_body : Time → String → String → String → String → Auth (Unit {0})
  bootstrap_body now username hash token csrf = do
    inserted ← stmt database_failed (
        insert_admin
          (record { id = 1; username = username; password_hash = hash; created_at = unix now }))
    lift (reject_if (not inserted) admin_exists)
    stmt database_failed (insert_session (new_row token csrf now))

  unfoldable pub bootstrap :
      Time → Option Bytes → Option Bytes → Option Bytes → String → String → Auth (String × Session)
  unfolding bootstrap_body
  bootstrap now salt token_bytes csrf_bytes name password = do
    let username = trim_space name
    lift (reject_if (not (valid_input username password)) invalid_input)
    hash ← lift (or_err (hash_password crypto salt password) random_failed)
    secrets ← lift (or_err (session_secrets url_encode token_bytes csrf_bytes) random_failed)
    transaction database_failed (bootstrap_body now username hash secrets.0 secrets.1)
    pure (
      secrets.0,
      record { username = username; csrf_token = secrets.1; expires_at = now + lifetime },
    )

  -- the body of the transaction of `Login`
  login_body : Time → String → String → Auth (Unit {0})
  login_body now token csrf = do
    stmt database_failed (delete_sessions (λ s. nat_eq s.admin_id 1 || leb s.expires_at (unix now)))
    stmt database_failed (insert_session (new_row token csrf now))

  abbrev stored_hash : String → Option AdminRow → String
  stored_hash dummy none = dummy
  stored_hash dummy (some a) = a.password_hash

  abbrev accepted : Bool → Option AdminRow → Result AuthError String
  accepted valid none = err invalid_credentials
  accepted valid (some a) = if valid then ok a.username else err invalid_credentials

  -- an unknown name is checked against the dummy hash, and fails whatever that says
  abbrev credentials_ok : String → String → Option AdminRow → Result AuthError String
  credentials_ok dummy password found =
      accepted (verify_password crypto password (stored_hash dummy found)) found

  unfoldable pub login :
      String → Time → Option Bytes → Option Bytes → String → String → Auth (String × Session)
  unfolding login_body
  login dummy now token_bytes csrf_bytes name password = do
    found ←
        query database_failed (λ db. ok (find_first (λ a. a.username == trim_space name) db.admins))
    actual ← lift (credentials_ok dummy password found)
    secrets ← lift (or_err (session_secrets url_encode token_bytes csrf_bytes) random_failed)
    transaction database_failed (login_body now secrets.0 secrets.1)
    pure (
      secrets.0,
      record { username = actual; csrf_token = secrets.1; expires_at = now + lifetime },
    )

  -- a miss also drops what has expired; an error of that statement is ignored
  abbrev pub or_expire : ℕ → Option Session → Auth Session
  or_expire now (some s) = pure s
  or_expire now none = do
    try (stmt database_failed (delete_sessions (λ s. leb s.expires_at now)))
    raise unauthenticated

  unfoldable pub authenticate : Time → String → Auth Session
  authenticate now token = if token == "" then raise unauthenticated else do
    found ← query database_failed (λ db. ok (select_session (crypto.sha256 token) (unix now) db))
    or_expire (unix now) found

  unfoldable pub logout : String → Auth (Unit {0})
  logout token =
      if token == ""
      then pure tt
      else stmt database_failed (delete_sessions (λ s. bytes_eq s.token_hash (crypto.sha256 token)))
