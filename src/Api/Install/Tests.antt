-- ===== src/Api/Install/Tests.antt =====
-- The theorem on InstallApp at a concrete application.
use opendash.Prelude.{
  ◌≡◌, ◌==◌, refl, find_first, exists, keep, String, Bool, List, Result, false, true, some, [], ◌∷◌,
  ok,
}
use opendash.Models.Manifest.{Manifest}
use opendash.Sql.{Conn, try, ◌>>=◌}
use opendash.Store.Rows.{StoreDb, StoreError, empty_store}
use opendash.Store.Apps.{list_app_instances, insert_instance, create_app_instance}
use opendash.Store.Operations.{
  get_active_operation_for_app, insert_revision, create_revision, insert_operation,
  create_operation,
}
use opendash.Catalog.Tests.{manifest, plain}
use opendash.Api.Operations.{accepted}
use opendash.Api.Install.{Installer, Answer, install_app}
use opendash.Api.Install.Expected.{IsOutcome}
use opendash.Api.Install.Outcome.{install_app-IsOutcome}

abbrev installer : Installer
installer = record {
  library = plain;
  files = record {
    sort_strings = λ names. names;
    to_upper = λ s. s;
    join = λ a b. a;
    base = λ s. s;
    encode = λ inline. "";
    make_directory = λ s. true;
    read_file = λ s. some "services: {}";
  };
  apps_root = "/srv";
  listeners = λ n. some "40000";
  next_listener = 0;
  by_name = λ rows. rows;
  newest_first = λ rows. rows;
  encode_config = λ values. "";
  now = 0;
  app_id = "app";
  revision_id = "rev";
  operation_id = "op";
}

-- a manifest with one setting, whose key can stand in an environment file
abbrev small : Manifest
small = record manifest {
  config =
      record {
        key = "THEME";
        label = "Theme";
        description = "";
        default_value = "dark";
        required = true;
        secret = false;
      }
      ∷ [];
}

abbrev settings : List (String × String)
settings = ("THEME", "light") ∷ []

abbrev start : Conn StoreDb
start = record { db = empty_store; faults = [] }

install_app-IsOutcome_example :
    (answer : Answer) × ((install_app installer "web" (some (small, "")) settings [] start).0
      ≡ ok answer)
    × IsOutcome installer [] "web"
        (some (small, ""))
        settings
        empty_store
        answer
        (install_app installer "web" (some (small, "")) settings [] start).1.db
install_app-IsOutcome_example =
    install_app-IsOutcome installer [] "web" (some (small, "")) settings start

abbrev is_accepted : Result StoreError Answer → Bool
is_accepted (ok (accepted op inst, reserved)) = inst.catalog_id == "web"
is_accepted _ = false

accepted_runs :
    is_accepted (install_app installer "web" (some (small, "")) settings [] start).0 ≡ true
unfolding install_app ◌>>=◌ try list_app_instances get_active_operation_for_app create_app_instance
    create_revision create_operation insert_instance insert_revision insert_operation find_first
    exists keep
accepted_runs = refl
