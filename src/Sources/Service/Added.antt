-- ===== src/Sources/Service/Added.antt =====
-- What the addition of a source stores.
use opendash.Prelude.{◌≡◌, String, Bool, false, Option, some, ◌∷◌, ◌==◌, exists}
use opendash.Models.Time.{Time}
use opendash.Models.Status.{SourceTrust}
use opendash.Models.Source.{ManifestSource}
use opendash.Sql.Triple.{Triple}
use opendash.Store.Rows.{SourceRow, StoreDb}
use opendash.Store.Sources.{source_row}
use opendash.Github.Url.{Url}
use opendash.Github.Url.Safe.{IsSafe}
use opendash.Sources.Service.{Resolved, ServiceLibrary}

-- The source is what the resolver gave for the URL, the URL is safe and was stored for no source, and the source was added.
abbrev pub IsAdded :
    ServiceLibrary
    → (Url → Option Resolved)
    → Time
    → String
    → String
    → StoreDb
    → ManifestSource
    → StoreDb
    → Type 0
IsAdded lib resolve now id raw d0 src d =
    (u : Url) × (res : Resolved) × IsSafe lib.urls u
    × (resolve u ≡ some res)
    × (src ≡ record {
      id = id;
      source_url = raw;
      owner = u.owner;
      repo = u.repo;
      path = u.path;
      ref = u.ref;
      commit_sha = res.commit;
      manifest_json = lib.encode res.manifest;
      checksum = res.checksum;
      trust = SourceTrust.user_trusted;
      created_at = now;
      updated_at = now;
    })
    × (exists (λ (s : SourceRow). s.source_url == raw) d0.sources ≡ false)
    × (d ≡ record d0 { sources = source_row now src ∷ d0.sources })

module _ (lib : ServiceLibrary) (resolve : Url → Option Resolved) (now : Time) (id raw : String)
    (confirmed : Bool) (d0 : StoreDb) where
  abbrev IsSafeAt : Url → StoreDb → Type 0
  IsSafeAt u d = (d ≡ d0) × IsSafe lib.urls u

  abbrev IsFetched : Url → Resolved → StoreDb → Type 0
  IsFetched u res d = (d ≡ d0) × IsSafe lib.urls u × (resolve u ≡ some res)
