-- ===== src/Catalog/Validate/Accepted.antt =====
-- The manifests that are accepted, by what they must satisfy.
use opendash.Prelude.{
  ◌≡◌, refl, String, Bool, true, false, ◌&&◌, not, Option, none, some, List, [], ◌∷◌, Result, ok,
  err, reject_if, ◌>>◌, arith, nat_eq, length, ◌==◌, trim_space, exists, All,
}
use opendash.Prelude.Int.{int_eq}
use opendash.Models.Manifest.{
  Manifest, ManifestService, ManifestInlineCompose, ManifestStorage, ManifestConfig,
  ManifestEndpoint,
}
use opendash.Catalog.Ports.{parse_port_mapping}
use opendash.Catalog.Validate.{
  validate_manifest, id_matches, version_matches, is_none, check_ports, check_services,
  check_inline, check_unique, text_eq, ManifestError,
}

seq_ok :
    {E A : Type 0} (m : Result E (Unit {0})) (n : Result E A) {a : A}
    → (m >> n) ≡ ok a
    → (m ≡ ok tt) × (n ≡ ok a)
seq_ok (ok u) n h = (refl, h)
seq_ok (err e) n h = cc

reject-ok : {E : Type 0} (b : Bool) (e : E) → reject_if b e ≡ ok tt → b ≡ false
reject-ok true e h = cc
reject-ok false e h = refl

-- No key comes twice.
abbrev pub AllDistinct : {A K : Type 0} → (K → K → Bool) → (A → K) → List A → Type 0
AllDistinct eq key [] = Unit
AllDistinct eq key (x ∷ xs) = All (λ y. eq (key y) (key x) ≡ false) xs × AllDistinct eq key xs

abbrev pub IsService : String × ManifestService → Type 0
IsService (name, svc) =
    ((svc.image == "") ≡ false) × All (λ p. is_none (parse_port_mapping p) ≡ false) svc.ports

-- Either a file, or an inline document with at least one service.
abbrev pub IsCompose : Bool → Option ManifestInlineCompose → Type 0
IsCompose no_file none = no_file ≡ false
IsCompose no_file (some c) =
    (no_file ≡ true) × (nat_eq (length c.services) 0 ≡ false) × All IsService c.services

pub record IsAccepted (m : Manifest) : Type 0 where
  pub id : id_matches m.id ≡ true
  pub name : (trim_space m.name == "") ≡ false
  pub version : version_matches m.version ≡ true
  pub compose : IsCompose (m.compose.file == "") m.compose.inline
  pub storage : AllDistinct text_eq (λ (s : ManifestStorage). s.name) m.storage
  pub config : AllDistinct text_eq (λ (c : ManifestConfig). c.key) m.config
  pub endpoints : AllDistinct int_eq (λ (e : ManifestEndpoint). e.port) m.endpoints

ports-All :
    (name : String) (ps : List String)
    → check_ports name ps ≡ ok tt
    → All (λ p. is_none (parse_port_mapping p) ≡ false) ps
ports-All name [] h = tt
ports-All name (p ∷ ps) h =
    let f = seq_ok (reject_if (is_none (parse_port_mapping p)) _) (check_ports name ps) h in
    (reject-ok _ _ f.0, ports-All name ps f.1)

services-All :
    (svcs : List (String × ManifestService)) → check_services svcs ≡ ok tt → All IsService svcs
services-All [] h = tt
services-All ((name, svc) ∷ rest) h =
    let f =
      seq_ok (reject_if (svc.image == "") _) (check_ports name svc.ports >> check_services rest)
        h in
    let g = seq_ok (check_ports name svc.ports) (check_services rest) f.1 in
    ((reject-ok _ _ f.0, ports-All name svc.ports g.0), services-All rest g.1)

inline-IsCompose :
    (no_file : Bool) (c : Option ManifestInlineCompose)
    → (no_file && is_none c) ≡ false
    → (not no_file && not (is_none c)) ≡ false
    → check_inline c ≡ ok tt
    → IsCompose no_file c
inline-IsCompose no_file none h k e = ground arith
inline-IsCompose no_file (some c) h k e =
    let f = seq_ok (reject_if (nat_eq (length c.services) 0) _) (check_services c.services) e in
    (ground arith, reject-ok _ _ f.0, services-All c.services f.1)

unseen_head :
    {K : Type 0} (p : K → Bool) (k : K) (ks : List K) → exists p (k ∷ ks) ≡ false → p k ≡ false
unfolding exists
unseen_head p k ks h = ground arith

unseen_tail :
    {K : Type 0} (p : K → Bool) (k : K) (ks : List K)
    → exists p (k ∷ ks) ≡ false
    → exists p ks ≡ false
unfolding exists
unseen_tail p k ks h = ground arith

-- What the loop over `xs` accepts differs from all that was seen before it.
unseen :
    {A K : Type 0} (eq : K → K → Bool) (key : A → K) (e : K → ManifestError) (seen : List K)
    (xs : List A) (k : K)
    → check_unique eq key e seen xs ≡ ok tt
    → ((y : A) → exists (eq (key y)) seen ≡ false → eq (key y) k ≡ false)
    → All (λ y. eq (key y) k ≡ false) xs
unseen eq key e seen [] k h f = tt
unseen eq key e seen (x ∷ xs) k h f =
    let g =
      seq_ok (reject_if (exists (eq (key x)) seen) _) (check_unique eq key e (key x ∷ seen) xs) h in
    (
      f x (reject-ok _ _ g.0),
      unseen eq key e (key x ∷ seen) xs k g.1
          (λ y n. f y (unseen_tail (eq (key y)) (key x) seen n)),
    )

unique-AllDistinct :
    {A K : Type 0} (eq : K → K → Bool) (key : A → K) (e : K → ManifestError) (seen : List K)
    (xs : List A)
    → check_unique eq key e seen xs ≡ ok tt
    → AllDistinct eq key xs
unique-AllDistinct eq key e seen [] h = tt
unique-AllDistinct eq key e seen (x ∷ xs) h =
    let g =
      seq_ok (reject_if (exists (eq (key x)) seen) _) (check_unique eq key e (key x ∷ seen) xs) h in
    (
      unseen eq key e (key x ∷ seen) xs (key x) g.1
          (λ y n. unseen_head (eq (key y)) (key x) seen n),
      unique-AllDistinct eq key e (key x ∷ seen) xs g.1,
    )

-- A manifest that is accepted has an id and a version of the patterns and a name that is not blank; it
-- names a compose file, or has an inline document with at least one service, and not both; each inline
-- service has an image and mappings that can be parsed; and no two volumes share a name, no two
-- settings a key, no two endpoints a port.
pub validate-IsAccepted : (m : Manifest) → validate_manifest m ≡ ok tt → IsAccepted m
unfolding validate_manifest
validate-IsAccepted m h =
    let f1 = seq_ok (reject_if (not (id_matches m.id)) _) _ h in
    let f2 = seq_ok (reject_if (trim_space m.name == "") _) _ f1.1 in
    let f3 = seq_ok (reject_if (not (version_matches m.version)) _) _ f2.1 in
    let f4 = seq_ok (reject_if (m.compose.file == "" && is_none m.compose.inline) _) _ f3.1 in
    let f5 =
      seq_ok (reject_if (not (m.compose.file == "") && not (is_none m.compose.inline)) _) _ f4.1 in
    let f6 = seq_ok (check_inline m.compose.inline) _ f5.1 in
    let f7 =
      seq_ok (check_unique text_eq (λ (s : ManifestStorage). s.name) _ [] m.storage) _ f6.1 in
    let f8 = seq_ok (check_unique text_eq (λ (c : ManifestConfig). c.key) _ [] m.config) _ f7.1 in
    record {
      id = negated (id_matches m.id) (reject-ok _ _ f1.0);
      name = reject-ok _ _ f2.0;
      version = negated (version_matches m.version) (reject-ok _ _ f3.0);
      compose = inline-IsCompose _ _ (reject-ok _ _ f4.0) (reject-ok _ _ f5.0) f6.0;
      storage = unique-AllDistinct text_eq _ _ [] m.storage f7.0;
      config = unique-AllDistinct text_eq _ _ [] m.config f8.0;
      endpoints = unique-AllDistinct int_eq _ _ [] m.endpoints f8.1;
    }
  where
    negated : (b : Bool) → not b ≡ false → b ≡ true
    negated true h = refl
    negated false h = cc
