-- ===== src/Catalog/Compose/Lines.antt =====
-- The lines of the environment file.
use Prim.Native.String.{◌++◌ as ◌<>◌}
use Prim.Native.String.append
use opendash.Prelude.{
  ◌≡◌, refl, ap, subst, ◌∙◌, ℕ, suc, ◌+◌, String, true, List, [], ◌∷◌, ◌++◌, map, Result, ok, err,
  split, All, arith, Bool-cases, inl, inr, int_text, length,
}
use opendash.Prelude.Maps.{get, text_key, int_key}
use opendash.Split.{split-append, lacks, lacks-Lacks}
use opendash.Models.Manifest.{Manifest, ManifestSecret}
use opendash.Models.Plan.{PlannedPort, PlannedVolume, InstallPlan}
use opendash.Catalog.Allocate.{PortMap}
use opendash.Catalog.Compose.{
  Texts, is_env_key, escape, line, ComposeError, ahead, config_lines, secret_lines, or_empty,
  or_no_port, volume_env_key, port_env_key, volume_line, port_line, first_lines, runtime_lines,
  env_parts, both_lines, env_lines, env_text,
}
use opendash.Catalog.Compose.OneLine.{
  OneLine, ok-injective, escape-OneLine, key-OneLine, int_text-OneLine, line-OneLine,
  append-OneLine,
}

split_line :
    (l rest : String) → OneLine l → split b'\n' (l <> ("\n" <> rest)) ≡ l ∷ split b'\n' rest
split_line l rest h = rw (append.cons, append.nil) (split-append b'\n' l _ rest h refl)

split-env_text :
    (lines : List String) → All OneLine lines → split b'\n' (env_text lines) ≡ lines ++ ("" ∷ [])
unfolding env_text split
split-env_text [] h = refl
split-env_text (l ∷ ls) h = rw (split_line l (env_text ls) h.0, split-env_text ls h.1) refl

All-append : (xs ys : List String) → All OneLine xs → All OneLine ys → All OneLine (xs ++ ys)
All-append [] ys h k = k
All-append (x ∷ xs) ys h k = (h.0, All-append xs ys h.1 k)

length-append : {A : Type 0} (xs ys : List A) → length (xs ++ ys) ≡ length xs + length ys
length-append [] ys = omega arith
length-append (x ∷ xs) ys = omega (arith, length-append xs ys)

length-map : {A B : Type 0} (f : A → B) (xs : List A) → length (map f xs) ≡ length xs
length-map f [] = refl
length-map f (x ∷ xs) = rw (length-map f xs) refl

-- So many lines, each of one line.
abbrev AreLines : ℕ → List String → Type 0
AreLines n ls = All OneLine ls × (length ls ≡ n)

ahead-AreLines :
    (n : ℕ) (l : String) (r : Result ComposeError (List String)) (ls : List String)
    → OneLine l
    → ((ks : List String) → r ≡ ok ks → AreLines n ks)
    → ahead l r ≡ ok ls
    → AreLines (suc n) ls
ahead-AreLines n l (err e) ls h k q = cc
ahead-AreLines n l (ok ks) ls h k q =
    let (one, many) = k ks refl in subst (AreLines (suc n)) (ok-injective q) ((h, one), ap suc many)

config-AreLines :
    (values : Texts) (ls : List String) → config_lines values ≡ ok ls → AreLines (length values) ls
config-AreLines [] ls q = subst (AreLines 0) (ok-injective q) (tt, refl)
config-AreLines ((key, value) ∷ values) ls q = elim (Bool-cases (is_env_key key)) [
  | inl e ↦
      ahead-AreLines (length values) (line key (escape value)) (config_lines values) ls
        (line-OneLine key (escape value) (key-OneLine key e) (escape-OneLine value))
        (λ ks. config-AreLines values ks) (rw e at q)
  | inr e ↦ absurd (let impossible = rw e at q in cc)
]

secret-AreLines :
    (values : Texts) (secs : List ManifestSecret) (ls : List String)
    → secret_lines values secs ≡ ok ls
    → AreLines (length secs) ls
secret-AreLines values [] ls q = subst (AreLines 0) (ok-injective q) (tt, refl)
secret-AreLines values (sec ∷ secs) ls q = elim (Bool-cases (is_env_key sec.name)) [
  | inl e ↦
      ahead-AreLines (length secs) (line sec.name (escape (or_empty (get sec.name values))))
        (secret_lines values secs) ls
        (line-OneLine sec.name (escape (or_empty (get sec.name values))) (key-OneLine sec.name e)
          (escape-OneLine (or_empty (get sec.name values))))
        (λ ks. secret-AreLines values secs ks) (rw e at q)
  | inr e ↦ absurd (let impossible = rw e at q in cc)
]

append-AreLines :
    (n k : ℕ) (xs ys : List String) → AreLines n xs → AreLines k ys → AreLines (n + k) (xs ++ ys)
append-AreLines n k xs ys h j = (All-append xs ys h.0 j.0, length-append xs ys ∙ rw (h.1, j.1) refl)

-- The names and the paths of the planned volumes are of one line.
abbrev pub AreNamed : (String → String) → List PlannedVolume → Type 0
AreNamed to_upper vols =
    All
      (λ (vol : PlannedVolume). OneLine (volume_env_key to_upper vol.name) × OneLine vol.host_path)
      vols

volume-AreLines :
    (to_upper : String → String) (vols : List PlannedVolume)
    → AreNamed to_upper vols
    → AreLines (length vols) (map (volume_line to_upper) vols)
volume-AreLines to_upper [] h = (tt, refl)
volume-AreLines to_upper (vol ∷ vols) ((key, path), h) =
    let (one, many) = volume-AreLines to_upper vols h in
    ((line-OneLine (volume_env_key to_upper vol.name) vol.host_path key path, one), ap suc many)

port-AreLines :
    (host_ports : PortMap) (ports : List PlannedPort)
    → AreLines (length ports) (map (port_line host_ports) ports)
unfolding port_env_key
port-AreLines host_ports [] = (tt, refl)
port-AreLines host_ports (p ∷ ports) =
    let (one, many) = port-AreLines host_ports ports in
    let key =
      append-OneLine "OPENDASH_APP_PORT_" (int_text p.container_port)
        (lacks-Lacks b'\n' "OPENDASH_APP_PORT_" refl) (int_text-OneLine p.container_port) in
    (
      (
        line-OneLine (port_env_key p.container_port) _ key
            (int_text-OneLine (or_no_port (get p.container_port host_ports))),
        one,
      ),
      ap suc many,
    )

both-AreLines :
    (n k : ℕ) (a b : Result ComposeError (List String)) (ls : List String)
    → ((xs : List String) → a ≡ ok xs → AreLines n xs)
    → ((ys : List String) → b ≡ ok ys → AreLines k ys)
    → both_lines a b ≡ ok ls
    → AreLines (n + k) ls
both-AreLines n k (err e) b ls h j q = cc
both-AreLines n k (ok xs) (err e) ls h j q = cc
both-AreLines n k (ok xs) (ok ys) ls h j q =
    subst (AreLines (n + k)) (ok-injective q) (append-AreLines n k xs ys (h xs refl) (j ys refl))

parts-AreLines :
    (n k l : ℕ) (first last : List String) (middle : Result ComposeError (List String))
    (ls : List String)
    → AreLines n first
    → AreLines l last
    → ((xs : List String) → middle ≡ ok xs → AreLines k xs)
    → env_parts first last middle ≡ ok ls
    → AreLines (n + (k + l)) ls
parts-AreLines n k l first last (err e) ls h i j q = cc
parts-AreLines n k l first last (ok xs) ls h i j q =
    subst (AreLines (n + (k + l))) (ok-injective q)
      (append-AreLines n (k + l) first (xs ++ last) h (append-AreLines k l xs last (j xs refl) i))

literal-OneLine :
    (key value : String) → lacks b'\n' key ≡ true → OneLine value → OneLine (line key value)
literal-OneLine key value h k = line-OneLine key value (lacks-Lacks b'\n' key h) k

-- Where the id, the project name, the path and the planned volumes have no end of a line in them, the environment file that is rendered has exactly
-- the lines that were meant: three, and one for each setting, secret, volume and port, whatever the values of the settings and secrets are.
pub split-env_lines :
    (to_upper : String → String) (m : Manifest) (plan : InstallPlan) (host_ports : PortMap)
    (values : Texts) (path : String) (ls : List String)
    → OneLine m.id
    → OneLine plan.project_name
    → OneLine path
    → AreNamed to_upper plan.volumes
    → env_lines to_upper m plan host_ports values path ≡ ok ls
    → (split b'\n' (env_text ls) ≡ ls ++ ("" ∷ []))
      × (length ls
          ≡ 3 + ((length values + length m.secrets) + (length plan.volumes + length plan.ports)))
unfolding env_lines
split-env_lines to_upper m plan host_ports values path ls id project dir named q =
    let (one, many) =
      parts-AreLines 3 (length values + length m.secrets) (length plan.volumes + length plan.ports)
        (first_lines m plan path) (runtime_lines to_upper plan host_ports)
        (both_lines (config_lines values) (secret_lines values m.secrets)) ls
        (
          (
            literal-OneLine "OPENDASH_APP_ID" m.id refl id,
            (
              literal-OneLine "OPENDASH_PROJECT_NAME" plan.project_name refl project,
              (literal-OneLine "OPENDASH_INSTALL_PATH" path refl dir, tt),
            ),
          ),
          refl,
        )
        (append-AreLines (length plan.volumes) (length plan.ports)
          (map (volume_line to_upper) plan.volumes) (map (port_line host_ports) plan.ports)
          (volume-AreLines to_upper plan.volumes named) (port-AreLines host_ports plan.ports))
        (λ xs.
          both-AreLines (length values) (length m.secrets) (config_lines values)
            (secret_lines values m.secrets) xs (λ ks. config-AreLines values ks)
            (λ ks. secret-AreLines values m.secrets ks))
        q in
    (split-env_text ls one, many)
