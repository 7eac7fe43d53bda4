-- ===== src/Auth/Password/RoundTrip.antt =====
-- A hash that the program makes is read back by the program.

use opendash.Prelude.{ℕ, String, ◌≡◌, refl, subst, some, [], ◌∷◌, length, split}
use opendash.Prelude.Bytes.{Bytes, bytes_eq}
use mathlib.Core.Option.{some-injective}
use opendash.Split.{Lacks, lacks-Lacks, split-dollar, split-dollar_first, split-Lacks}
use opendash.Auth.Password.{
  Crypto, argon2, argon_salt_length, encode_password_hash, verify_password, hash_password,
  scan_params,
}

-- The documented behaviour of base64 and argon2 that the program relies on.
pub record IsCrypto (crypto : Crypto) : Type 0 where
  pub decode-encode : (b : Bytes) → crypto.decode (crypto.encode b) ≡ some b
  -- the alphabet of base64 has no dollar sign
  pub encode-Lacks : (b : Bytes) → Lacks b'$' (crypto.encode b)
  pub length-id_key :
      (password : String) (salt : Bytes) (time memory threads n : ℕ)
      → length (crypto.id_key password salt time memory threads n) ≡ n

module _ (crypto : Crypto) where
  split-hash :
      (salt hash : Bytes)
      → IsCrypto crypto
      → split b'$' (encode_password_hash crypto salt hash)
        ≡ ""
          ∷ "argon2id"
          ∷ "v=19"
          ∷ "m=65536,t=3,p=2"
          ∷ crypto.encode salt
          ∷ crypto.encode hash
          ∷ []
  split-hash salt hash law =
      rw
        (
          split-dollar_first,
          split-dollar "argon2id" _ (lacks-Lacks b'$' "argon2id" refl),
          split-dollar "v=19" _ (lacks-Lacks b'$' "v=19" refl),
          split-dollar "m=65536,t=3,p=2" _ (lacks-Lacks b'$' "m=65536,t=3,p=2" refl),
          split-dollar (crypto.encode salt) _ (law.encode-Lacks salt),
          split-Lacks b'$' (crypto.encode hash) (law.encode-Lacks hash),
        )
        refl

  verify-encode :
      (salt : Bytes) (password guess : String)
      → IsCrypto crypto
      → length salt ≡ argon_salt_length
      → verify_password crypto guess
          (encode_password_hash crypto salt (argon2 crypto password salt))
        ≡ bytes_eq (argon2 crypto guess salt) (argon2 crypto password salt)
  unfolding verify_password scan_params
  verify-encode salt password guess law size =
      rw
        (
          split-hash salt (argon2 crypto password salt) law,
          law.decode-encode,
          size,
          law.decode-encode,
          law.length-id_key,
        )
        refl

  -- Under the laws of base64 and argon2, a hash made with a salt of the length of the program accepts
  -- exactly the passwords that argon2 maps, under that salt, to the same key as the hashed one.
  pub verify-hash :
      (salt : Bytes) (password guess : String) {stored : String}
      → IsCrypto crypto
      → length salt ≡ argon_salt_length
      → hash_password crypto (some salt) password ≡ some stored
      → verify_password crypto guess stored
        ≡ bytes_eq (argon2 crypto guess salt) (argon2 crypto password salt)
  unfolding hash_password
  verify-hash salt password guess law size made =
      subst
        (λ (h : String).
          verify_password crypto guess h
          ≡ bytes_eq (argon2 crypto guess salt) (argon2 crypto password salt))
        (some-injective _ _ made) (verify-encode salt password guess law size)
