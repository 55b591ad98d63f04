-- ===== src/Updates/Catalogs/Tests.antt =====
-- A refresh of the catalog and the package that it names: crates/updater/src/runtime_updates.rs.
use fabdev.Prelude.{
  ◌≡◌, refl, true, none, some, List, [], ◌∷◌, ◌++◌, arith, Text, codes, text_leb, ok, err,
}
use fabdev.Runtimes.Catalog.{RuntimeRelease}
use fabdev.Runtimes.Sample.{semver, digest, decoder, accepted, now}
use fabdev.Updates.Package.{Entry, regular}
use fabdev.Updates.Catalogs.{
  Cache, Client, RuntimeDownloadRequest, DownloadedRuntimeUpdate, verified_cached_runtime_update,
}
use fabdev.Updates.Catalogs.Advance.{Refresh, Advances, IsKnown, run, run-Advances}
use fabdev.Updates.Catalogs.Selected.{Describes, verified_cached_runtime_update-Describes}

abbrev client : Client
client = record { app_version = codes "0.1.4"; protocol_version = 33; now = now }

-- The server of schema 2 cannot be reached.
abbrev refreshes : List Refresh
refreshes =
    record {
      client = client;
      v2 = err (codes "unreachable");
      v1 = ok (codes "{}");
      catalog_write = record { stages = true; removes = true; renames = true };
      state_write = record { stages = true; removes = true; renames = true };
    }
    ∷ []

abbrev cache : Cache
cache = record { catalog_v1 = some (codes "{}"); catalog_v2 = none; accepted = some accepted }

run-Advances_example :
    Advances (some accepted) (run semver decoder refreshes cache).accepted
    × IsKnown (run semver decoder refreshes cache).accepted
run-Advances_example =
    run-Advances semver decoder refreshes cache (refl, tt) (omega arith, omega arith)

abbrev request : RuntimeDownloadRequest
request = record {
  name = codes "php";
  version = codes "8.4.24";
  platform = codes "macos";
  architecture = codes "arm64";
}

abbrev update : DownloadedRuntimeUpdate
update = record {
  catalog_sequence = 2;
  name = codes "php";
  version = codes "8.4.24";
  platform = codes "macos";
  architecture = codes "arm64";
  file_name = codes "php-8.4.24-macos-arm64-community.tar.gz";
  size = 7;
  sha256 = digest;
  path = digest ++ codes ".tar.gz";
}

abbrev files : Text → Entry
files name = regular (codes "runtime")

verified : verified_cached_runtime_update semver decoder client cache files request ≡ ok update
unfolding verified_cached_runtime_update text_leb
verified = refl

verified_cached_runtime_update-Describes_example :
    (r : RuntimeRelease) × Describes semver decoder client cache files request update r
verified_cached_runtime_update-Describes_example =
    verified_cached_runtime_update-Describes semver decoder client cache files request update
      verified
