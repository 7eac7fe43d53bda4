-- ===== src/Catalog/Compose/Named.antt =====
-- The names of the port variables.
use Prim.Native.String.{◌++◌ as ◌<>◌}
use Prim.Native.String.append
use opendash.Prelude.{
  ◌≡◌, refl, ℕ, ◌≤◌, ◌-◌, ◌^◌, String, true, some, has_prefix, trim_prefix, itoa, int_text, arith,
}
use opendash.Prelude.Int.{pos}
use opendash.Prelude.Numbers.{atoi-itoa}
use opendash.Catalog.Compose.{port_env_key, port_from_env_name}

has_prefix-append : (p s : String) → has_prefix (p <> s) p ≡ true
unfolding has_prefix
has_prefix-append String.[] s = refl
has_prefix-append (String.◌∷◌ c p) s = rw append.cons (ground (arith, has_prefix-append p s))

trim_prefix-append : (p s : String) → trim_prefix (p <> s) p ≡ s
unfolding trim_prefix
trim_prefix-append String.[] s = append.nil s
trim_prefix-append (String.◌∷◌ c p) s =
    rw (append.cons, has_prefix-append p s, trim_prefix-append p s) (ground arith)

-- The name of the variable of a container port that fits into 63 bits is read back as the port.
pub port_from_env_name-port_env_key :
    (n : ℕ) → n ≤ 2 ^ 63 - 1 → port_from_env_name (port_env_key (pos n)) ≡ some (pos n)
unfolding port_from_env_name port_env_key int_text
port_from_env_name-port_env_key n h =
    rw
      (
        has_prefix-append "OPENDASH_APP_PORT_" (itoa n),
        trim_prefix-append "OPENDASH_APP_PORT_" (itoa n),
      )
      (atoi-itoa n h)
