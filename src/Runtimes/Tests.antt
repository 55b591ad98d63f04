-- ===== src/Runtimes/Tests.antt =====
-- A catalog that is accepted, and a shelf of PHP versions of crates/runtime.
use fabdev.Prelude.{
  ℕ, ◌+◌, ◌≡◌, refl, Bool, true, false, ◌&&◌, none, some, List, [], ◌∷◌, ltb, if◌then◌else◌, All,
  any, Pairs, map_get, Text, codes, text_eq, text_leb, Result, bail_if, is_ascii_alphanumeric,
  lower, is_empty, ok, err,
}
use fabdev.Runtimes.Catalog.Validate.{validate_runtime_catalog}
use fabdev.Runtimes.Catalog.Trusted.{
  IsTrusted, OtherIdentity, NotRolledBack, validate_runtime_catalog-IsTrusted,
}
use fabdev.Runtimes.Sample.{semver, digest, catalog, accepted, validation}
use fabdev.Runtimes.Installed.{
  io, Package, installed, Shelf, Fallible, validate_identifier, active_version,
}
use fabdev.Runtimes.Installed.Active.{
  IsOrderly, Operation, replace, record_receipt, set_active, remove, deactivate, perform_all,
  active_version-perform_all,
}
use fabdev.Runtimes.Installed.Linked.{IsLinked}
use fabdev.Runtimes.Installed.Replace.{
  Install, Disk, Rollback, RuntimeInstallTransaction, install_or_replace,
}
use fabdev.Runtimes.Installed.Outcome.{IsReversible, install_or_replace-IsReversible}
use fabdev.Runtimes.Installed.Recorded.{IsRecorded, install_or_replace-IsRecorded}
use fabdev.Runtimes.Installed.Listed.{
  list_installed_versions, NotOvertakenBy, is_ok, has_dir, list_installed_versions-Descends,
}
use fabdev.Runtimes.Retry.{ErrorKinds, Returns, retry_permission_denied-Returns}

catalog_valid : validate_runtime_catalog semver catalog digest validation ≡ ok tt
unfolding validate_runtime_catalog text_leb
catalog_valid = refl

validate_runtime_catalog-IsTrusted_example :
    All (IsTrusted semver 1 2) catalog.runtimes
    × Pairs (λ a b. OtherIdentity b a) catalog.runtimes
    × (is_empty catalog.runtimes ≡ false)
    × NotRolledBack catalog digest (some accepted)
validate_runtime_catalog-IsTrusted_example =
    validate_runtime_catalog-IsTrusted semver catalog digest validation catalog_valid

abbrev shelf : Shelf
shelf = record {
  name = codes "php";
  nodes =
      (codes "8.3.9", installed (record { payload = codes "old"; receipt = none }))
      ∷ (codes "8.3.12", installed (record { payload = codes "other"; receipt = none }))
      ∷ [];
  active = some (codes "8.3.9");
  markers = (codes "8.3.9", codes "removed\n") ∷ [];
  backups = [];
}

abbrev health_check : Package → Fallible (Unit {0})
health_check p = bail_if (is_empty p.payload) io

abbrev replacement : Install
replacement = record {
  version = codes "8.3.9";
  expected_sha256 = digest;
  catalog_sequence = 2;
  activate = true;
  artifact_sha256 = digest;
  extracted = some (codes "new");
}

abbrev complete : Rollback
complete = record {
  remains = none;
  moves_back = true;
  clears_staging = true;
  switches = true;
  writes_marker = true;
}

abbrev disk : Bool → Disk
disk switches = record {
  backs_up = true;
  moves = true;
  moves_back = true;
  clears_staging = true;
  switches = switches;
  clears_marker = true;
  rollback = complete;
}

abbrev operations : List Operation
operations =
    replace health_check replacement (disk false)
    ∷ record_receipt (codes "8.3.12") digest 2
    ∷ remove (codes "8.3.9")
    ∷ deactivate
    ∷ set_active (codes "8.3.12")
    ∷ remove (codes "8.3.9")
    ∷ []

shelf-IsLinked : IsLinked shelf
unfolding validate_identifier map_get is_ascii_alphanumeric text_eq
shelf-IsLinked = (refl, refl, (refl, refl))

operations-IsOrderly : All IsOrderly operations
unfolding text_eq
operations-IsOrderly =
    ((refl, (refl, (refl, refl, refl, refl, refl))), (refl, (tt, (tt, (tt, (tt, tt))))))

active_version-perform_all_example :
    (active_version (perform_all operations shelf) ≡ ok (perform_all operations shelf).active)
    × IsLinked (perform_all operations shelf)
active_version-perform_all_example =
    active_version-perform_all operations shelf operations-IsOrderly shelf-IsLinked

install_or_replace-IsReversible_example :
    IsReversible shelf (install_or_replace health_check replacement (disk false) shelf)
install_or_replace-IsReversible_example =
    install_or_replace-IsReversible health_check replacement (disk false) shelf refl
      (refl, refl, refl, refl, refl)

abbrev transaction : RuntimeInstallTransaction
transaction = record {
  version = codes "8.3.9";
  replaced = true;
  active_before = some (codes "8.3.9");
  removal_marker_before = some (codes "removed\n");
}

abbrev replaced_shelf : Shelf
replaced_shelf = (install_or_replace health_check replacement (disk true) shelf).0

replaced :
    install_or_replace health_check replacement (disk true) shelf ≡ (replaced_shelf, ok transaction)
unfolding install_or_replace is_ascii_alphanumeric lower
replaced = refl

install_or_replace-IsRecorded_example :
    (p : Package) × IsRecorded health_check replacement (codes "php") replaced_shelf p
install_or_replace-IsRecorded_example =
    install_or_replace-IsRecorded health_check replacement (disk true) shelf replaced_shelf
      transaction replaced

php_valid : validate_identifier (codes "php") ≡ ok tt
unfolding validate_identifier is_ascii_alphanumeric
php_valid = refl

list_installed_versions-Descends_example :
    (versions : List Text) × (list_installed_versions shelf ≡ ok versions)
    × Pairs NotOvertakenBy versions
    × ((v : Text)
        → any (text_eq v) versions ≡ (is_ok (validate_identifier v) && has_dir v shelf.nodes))
list_installed_versions-Descends_example = list_installed_versions-Descends shelf php_valid

-- Denied twice, and then it works.
abbrev kinds : ErrorKinds Bool
kinds = record { is_permission_denied = λ b. b }

abbrev attempt : ℕ → ℕ × Result Bool ℕ
attempt n = (n + 1, if ltb n 2 then err true else ok n)

retry_permission_denied-Returns_example : Returns kinds attempt 51 0
retry_permission_denied-Returns_example = retry_permission_denied-Returns kinds attempt 50 0
