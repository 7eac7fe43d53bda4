-- ===== src/Auth/Password.antt =====
-- internal/auth/auth.go: hashing and verifying passwords. Argon2 and base64 are not part of the program:
-- they are the fields of `Crypto`, with the laws that the code relies on.

pub mod RoundTrip
use Prim.Native.Char.{code}
use Prim.Native.String.{◌++◌}
use opendash.Prelude.{
  ℕ, ◌+◌, ◌*◌, ◌-◌, String, ◌≡◌, Bool, true, false, ◌&&◌, Option, none, some, List, [], ◌∷◌, length,
  nat_eq, ◌==◌, if◌then◌else◌, split, is_digit, is_space, not,
}
use opendash.Prelude.Bytes.{Bytes, bytes_eq}

-- golang.org/x/crypto/argon2, crypto/sha256 and encoding/base64
pub record Crypto : Type 0 where
  pub sha256 : String → Bytes
  -- argon2.IDKey(password, salt, time, memory, threads, keyLen)
  pub id_key : String → Bytes → ℕ → ℕ → ℕ → ℕ → Bytes
  -- base64.RawStdEncoding.EncodeToString and Strict().DecodeString
  pub encode : Bytes → String
  pub decode : String → Option Bytes

abbrev pub argon_memory : ℕ
argon_memory = 64 * 1024

abbrev pub argon_iterations : ℕ
argon_iterations = 3

abbrev pub argon_parallelism : ℕ
argon_parallelism = 2

abbrev pub argon_salt_length : ℕ
argon_salt_length = 16

abbrev pub argon_key_length : ℕ
argon_key_length = 32

-- the verb %d of fmt.Sscanf for an unsigned number: blanks but the end of a line, then at least one digit
more_digits : ℕ → String → ℕ × String
more_digits n String.[] = (n, String.[])
more_digits n (String.◌∷◌ c s) =
    let rest = more_digits (n * 10 + (code c - 48)) s in
    if is_digit (code c) then rest else (n, String.◌∷◌ c s)

scan_number : String → Option (ℕ × String)
unfolding more_digits is_digit is_space
scan_number String.[] = none
scan_number (String.◌∷◌ c s) =
    let rest = scan_number s in
    if is_space (code c) && not (nat_eq (code c) 10)
    then rest
    else if is_digit (code c)
    then some (more_digits (code c - 48) s)
    else none

-- literal text of the format
scan_text : String → String → Option String
scan_text String.[] s = some s
scan_text (String.◌∷◌ d p) String.[] = none
scan_text (String.◌∷◌ d p) (String.◌∷◌ c s) =
    let rest = scan_text p s in if nat_eq (code d) (code c) then rest else none

abbrev after : {A B : Type 0} → Option A → (A → Option B) → Option B
after none f = none
after (some a) f = f a

-- fmt.Sscanf(s, "m=%d,t=%d,p=%d", …): what follows the last number is not read
scan_params : String → Option (ℕ × ℕ × ℕ)
unfolding scan_number scan_text
scan_params s = after (scan_text "m=" s) λ s1. after (scan_number s1) λ (m, s2).
    after (scan_text ",t=" s2) λ s3.
      after (scan_number s3)
        λ (t, s4). after (scan_text ",p=" s4) λ s5. after (scan_number s5) λ (p, _). some (m, t, p)

-- argon2 parameters that `verifyPassword` accepts
abbrev params_match : Option (ℕ × ℕ × ℕ) → Bool
params_match none = false
params_match (some (m, t, p)) =
    nat_eq m argon_memory && nat_eq t argon_iterations && nat_eq p argon_parallelism

-- the decoded text, if it has the length
abbrev of_length : ℕ → Option Bytes → Option Bytes
of_length n none = none
of_length n (some b) = if nat_eq (length b) n then some b else none

module _ (crypto : Crypto) where
  open crypto use {id_key, encode, decode}

  abbrev pub argon2 : String → Bytes → Bytes
  argon2 password salt =
      id_key password salt argon_iterations argon_memory argon_parallelism argon_key_length

  -- fmt.Sprintf with the constants put in
  abbrev pub encode_password_hash : Bytes → Bytes → String
  encode_password_hash salt hash =
      "$"
      ++ ("argon2id"
          ++ ("$"
              ++ ("v=19"
                  ++ ("$"
                      ++ ("m=65536,t=3,p=2" ++ ("$" ++ (encode salt ++ ("$" ++ encode hash))))))))

  -- the salt is `none` where the random source fails
  unfoldable pub hash_password : Option Bytes → String → Option String
  hash_password none password = none
  hash_password (some salt) password = some (encode_password_hash salt (argon2 password salt))

  abbrev compare_hash : String → Option Bytes → Option Bytes → Bool
  compare_hash password none expected = false
  compare_hash password (some salt) none = false
  compare_hash password (some salt) (some expected) = bytes_eq (argon2 password salt) expected

  abbrev verify_parts : String → List String → Bool
  verify_parts password (p0 ∷ p1 ∷ p2 ∷ p3 ∷ p4 ∷ p5 ∷ []) =
      p1 == "argon2id"
      && p2 == "v=19"
      && params_match (scan_params p3)
      && compare_hash password (of_length argon_salt_length (decode p4))
          (of_length argon_key_length (decode p5))
  verify_parts password _ = false

  unfoldable pub verify_password : String → String → Bool
  unfolding split scan_params
  verify_password password encoded = verify_parts password (split b'$' encoded)
