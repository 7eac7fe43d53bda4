-- ===== src/Auth/Tests.antt =====
-- The theorems on the service at a concrete administrator, and runs of its functions. The toy `Crypto`
-- gives every password the same hash.
use opendash.Prelude.{
  ◌*◌, ◌+◌, ap, ℕ, zero, suc, ◌≡◌, ◌≢◌, refl, String, true, false, Option, none, some, [], ◌∷◌,
  Result, ok, err, arith, eq_iff, if◌then◌else◌, length, nat_eq, ◌==◌, keep, exists, find_first,
  trim_space,
}
use opendash.Prelude.Bytes.{Bytes, bytes_eq}
use opendash.Models.Time.{Time, second, from_unix}
use opendash.Sql.{Conn, ◌>>=◌, transaction}
use opendash.Auth.Password.{Crypto, hash_password, verify_password, encode_password_hash, argon2}
use opendash.Auth.Password.RoundTrip.{IsCrypto, verify-hash}
use opendash.Split.{Lacks}
use Prim.Native.Char.{code}
use opendash.Auth.Service.{
  AuthDb, AuthError, Session, unauthenticated, database_failed, bootstrap, login, authenticate,
  logout, insert_admin, insert_session, delete_sessions, valid_input,
}
use opendash.Auth.Service.Consistent.{IsConsistent, empty}
use opendash.Auth.Service.Reached.{Reach, Reach-IsConsistent, Call}
use opendash.Auth.Service.Started.{login-authenticate, bootstrap-authenticate, answer}
use opendash.Auth.Service.Refused.{bootstrap_once}
use opendash.Auth.Service.Ended.{logout-authenticate}

abbrev pub zeros : ℕ → Bytes
zeros zero = []
zeros (suc n) = 0 ∷ zeros n

abbrev pub toy : Crypto
toy = record {
  sha256 = λ s. if s == "t" then 1 ∷ [] else 2 ∷ [];
  id_key = λ _ _ _ _ _ n. zeros n;
  encode = λ b. if nat_eq (length b) 16 then "s" else "h";
  decode = λ s. some (if s == "s" then zeros 16 else zeros 32);
}

abbrev pub url_encode : Bytes → String
url_encode b = if nat_eq (length b) 1 then "t" else "c"

abbrev pub day : Time
day = 86400 * second

abbrev pub noon : Time
noon = from_unix 1700000000

abbrev start : Conn AuthDb
start = record { db = empty; faults = [] }

abbrev ready : Result AuthError (String × Session) × Conn AuthDb
ready =
    bootstrap toy url_encode day noon (some (zeros 16)) (some (zeros 1)) (some (zeros 2)) " admin "
      "correct horse" start

-- the tables that `ready` leaves
abbrev pub hash : String
hash = "$argon2id$v=19$m=65536,t=3,p=2$s$h"

abbrev pub tables : AuthDb
tables = record {
  admins =
      record { id = 1; username = "admin"; password_hash = hash; created_at = 1700000000 } ∷ [];
  sessions =
      record {
        token_hash = 1 ∷ [];
        admin_id = 1;
        csrf_token = "c";
        expires_at = 1700086400;
        created_at = 1700000000;
      }
      ∷ [];
}

abbrev pub session : Session
session = record { username = "admin"; csrf_token = "c"; expires_at = noon + day }

ready_runs : ready ≡ (ok ("t", session), record { db = tables; faults = [] })
unfolding bootstrap ◌>>=◌ transaction hash_password insert_admin insert_session valid_input
    trim_space exists bytes_eq
ready_runs = refl

verify_runs : verify_password toy "any" hash ≡ true
unfolding verify_password bytes_eq
verify_runs = refl

verify_other_parameters : verify_password toy "any" "$argon2id$v=19$m=65536,t=4,p=2$s$h" ≡ false
unfolding verify_password bytes_eq
verify_other_parameters = refl

abbrev signed_in : Result AuthError (String × Session) × Conn AuthDb
signed_in =
    login toy url_encode day hash noon (some (zeros 1)) (some (zeros 2)) "admin" "correct horse"
      (record { db = tables; faults = [] })

signed_in_runs : signed_in ≡ (ok ("t", session), record { db = tables; faults = [] })
unfolding login ◌>>=◌ transaction verify_password delete_sessions insert_session trim_space exists
    find_first keep bytes_eq
signed_in_runs = refl

-- A driver that fails the commit leaves the tables as they were.
commit_fails :
    (login toy url_encode day hash noon
      (some (zeros 1))
      (some (zeros 2))
      "admin"
      "correct horse"
      (record { db = tables; faults = false ∷ false ∷ false ∷ false ∷ true ∷ [] }))
    ≡ (err database_failed, record { db = tables; faults = [] })
unfolding login ◌>>=◌ transaction verify_password delete_sessions insert_session trim_space exists
    find_first keep bytes_eq
commit_fails = refl

pub tables-IsConsistent : IsConsistent tables
tables-IsConsistent = omega arith

pub t_nonempty : ◌≢◌ {A = String} "t" ""
t_nonempty = ground (arith, eq_iff "t" "")

x_nonempty : ◌≢◌ {A = String} "x" ""
x_nonempty = ground (arith, eq_iff "x" "")

Reach-IsConsistent_example : IsConsistent ready.1.db
Reach-IsConsistent_example = Reach-IsConsistent toy url_encode day (
    Reach.after Reach.fresh (
      Call.bootstrap_call noon (some (zeros 16)) (some (zeros 1)) (some (zeros 2)) " admin "
        "correct horse" [] refl))

login-authenticate_example :
    (authenticate toy url_encode day noon "x" (record { db = signed_in.1.db; faults = [] })).0
    ≡ answer toy url_encode day noon "t" session noon "x"
login-authenticate_example =
    login-authenticate toy url_encode day noon hash (some (zeros 1)) (some (zeros 2)) "admin"
      "correct horse" (record { db = tables; faults = [] }) noon "x" tables-IsConsistent
      (ap (λ (z : Result AuthError (String × Session) × Conn AuthDb). z.0) signed_in_runs)
      x_nonempty

bootstrap-authenticate_example :
    (authenticate toy url_encode day noon "t" (record { db = ready.1.db; faults = [] })).0
    ≡ answer toy url_encode day noon "t" session noon "t"
bootstrap-authenticate_example =
    bootstrap-authenticate toy url_encode day noon (some (zeros 16)) (some (zeros 1))
      (some (zeros 2)) " admin " "correct horse" start noon "t" (omega arith)
      (ap (λ (z : Result AuthError (String × Session) × Conn AuthDb). z.0) ready_runs) t_nonempty

bootstrap_once_example :
    let z =
      bootstrap toy url_encode day noon
        (some (zeros 16))
        (some (zeros 1))
        (some (zeros 2))
        "eve"
        "correct horse"
        (record { db = tables; faults = [] }) in
    ((e : AuthError) × (z.0 ≡ err e)) × (z.1.db ≡ tables)
bootstrap_once_example =
    bootstrap_once toy url_encode day noon (some (zeros 16)) (some (zeros 1)) (some (zeros 2)) "eve"
      "correct horse" (record { db = tables; faults = [] }) tables-IsConsistent (omega arith)

logout_runs : (logout toy url_encode day "t" (record { db = tables; faults = [] })).0 ≡ ok tt
unfolding logout ◌>>=◌ delete_sessions
logout_runs = refl

logout-authenticate_example :
    (authenticate toy url_encode day noon "t" (record {
      db = (logout toy url_encode day "t" (record { db = tables; faults = [] })).1.db;
      faults = [];
    })).0
    ≡ err unauthenticated
unfolding bytes_eq
logout-authenticate_example =
    logout-authenticate toy url_encode day "t" (record { db = tables; faults = [] }) noon "t"
      t_nonempty logout_runs t_nonempty

-- Another, with the laws: a byte is written as so many letters "a" and a "b".
abbrev write_byte : ℕ → String → String
write_byte zero s = String.◌∷◌ "b" s
write_byte (suc n) s = String.◌∷◌ "a" (write_byte n s)

abbrev letters : Bytes → String
letters [] = String.[]
letters (n ∷ b) = write_byte n (letters b)

abbrev bump : Option Bytes → Option Bytes
bump (some (n ∷ b)) = some (suc n ∷ b)
bump _ = none

abbrev fresh_byte : Option Bytes → Option Bytes
fresh_byte none = none
fresh_byte (some b) = some (0 ∷ b)

abbrev from_letters : String → Option Bytes
from_letters String.[] = some []
from_letters (String.◌∷◌ c s) =
    let rest = from_letters s in if nat_eq (code c) b'b' then fresh_byte rest else bump rest

abbrev lettered : Crypto
lettered = record toy { encode = letters; decode = from_letters }

write_byte-from_letters :
    (n : ℕ) (b : Bytes) (s : String)
    → from_letters s ≡ some b
    → from_letters (write_byte n s) ≡ some (n ∷ b)
write_byte-from_letters zero b s h = rw h
write_byte-from_letters (suc n) b s h = rw (write_byte-from_letters n b s h)

letters-from_letters : (b : Bytes) → from_letters (letters b) ≡ some b
letters-from_letters [] = refl
letters-from_letters (n ∷ b) = write_byte-from_letters n b (letters b) (letters-from_letters b)

write_byte-Lacks : (n : ℕ) (s : String) → Lacks b'$' s → Lacks b'$' (write_byte n s)
write_byte-Lacks zero s h = (refl, h)
write_byte-Lacks (suc n) s h = (refl, write_byte-Lacks n s h)

letters-Lacks : (b : Bytes) → Lacks b'$' (letters b)
letters-Lacks [] = tt
letters-Lacks (n ∷ b) = write_byte-Lacks n (letters b) (letters-Lacks b)

length-zeros : (n : ℕ) → length (zeros n) ≡ n
length-zeros zero = refl
length-zeros (suc n) = rw (length-zeros n)

lettered-IsCrypto : IsCrypto lettered
lettered-IsCrypto = record {
  decode-encode = letters-from_letters;
  encode-Lacks = letters-Lacks;
  length-id_key = λ _ _ _ _ _ n. length-zeros n;
}

verify-hash_example :
    verify_password lettered "guess"
      (encode_password_hash lettered (zeros 16) (argon2 lettered "secret" (zeros 16)))
    ≡ bytes_eq (argon2 lettered "guess" (zeros 16)) (argon2 lettered "secret" (zeros 16))
unfolding hash_password
verify-hash_example = verify-hash lettered (zeros 16) "secret" "guess" lettered-IsCrypto refl refl
