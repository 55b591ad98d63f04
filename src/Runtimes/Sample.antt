-- ===== src/Runtimes/Sample.antt =====
-- A small runtime catalog, as the tests of crates/updater/src/runtime_updates.rs have it.
use fabdev.Prelude.{ℕ, true, not, none, some, [], ◌∷◌, Semver, Text, codes, text_leb}
use fabdev.Runtimes.Catalog.{
  RuntimeRelease, RuntimeCatalog, RuntimeCatalogValidation, AcceptedRuntimeCatalog,
}
use fabdev.Runtimes.Document.{Decoder}

-- Versions that are compared as texts.
abbrev pub semver : Semver
semver = record {
  Version = Text;
  major = λ v. 8;
  parse = λ t. some t;
  pre_is_empty = λ v. true;
  build_is_empty = λ v. true;
  newer = λ a b. not (text_leb a b);
}

abbrev pub digest : Text
digest = codes "239f59ed55e737c77147cf55ad0c1b030b6d7ee748a7426952f9b852d5a935e5"

abbrev pub release : RuntimeRelease
release = record {
  name = codes "php";
  version = codes "8.4.24";
  platform = codes "macos";
  architecture = codes "arm64";
  minimum_os_version = some (codes "13.0");
  file_name = some (codes "php-8.4.24-macos-arm64-community.tar.gz");
  url =
      codes
        "https://github.com/JimmyWon1028/fabdev/releases/download/v0.1.4/php-8.4.24-macos-arm64-community.tar.gz";
  size = 7;
  sha256 = digest;
  signature = none;
  source_verification = some (record {
    method = codes "pgp";
    fingerprint = some (codes "9D7F99A0CB8F05C8A6958D6256A97AF7600A39A6");
    upstream_sha256 = digest;
  });
  archive_format = some (codes "tar.gz");
  install_mode = some (codes "side-by-side");
  health_check_profile = some (codes "php-runtime-v1");
}

abbrev pub catalog : RuntimeCatalog
catalog = record {
  schema_version = 1;
  product = codes "fabdev-runtime";
  channel = codes "community";
  catalog_sequence = 2;
  generated_at = codes "2026-08-30T00:00:00Z";
  expires_at = codes "2027-02-26T00:00:00Z";
  unsigned_community_build = true;
  integrity = codes "sha256";
  compatibility = record {
    minimum_app_version = codes "0.1.4";
    minimum_agent_protocol_version = 33;
  };
  signature = none;
  runtimes = release ∷ [];
}

-- The catalog's own digest is this too.
abbrev pub decoder : Decoder
decoder = record {
  from_slice = λ contents. some (record {
    is_object = true;
    has_signature = true;
    runtime_signatures = some (true ∷ []);
    from_value = some catalog;
  });
  sha256 = λ contents. digest;
}

abbrev pub accepted : AcceptedRuntimeCatalog
accepted = record { schema_version = 1; sequence = 1; sha256 = digest }

abbrev pub now : ℕ
now = 1788048060

abbrev pub validation : RuntimeCatalogValidation
validation = record {
  current_app_version = codes "0.1.4";
  current_agent_protocol_version = 33;
  now_unix_seconds = now;
  accepted_catalog = some accepted;
}
