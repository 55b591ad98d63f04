-- ===== src/Runtimes/Installed/Fresh.antt =====
-- `install_tar_gz_with_health_check` and `record_runtime_package_receipt` of crates/runtime/src/lib.rs. The
-- receipt of a linked directory is written outside the shelf.
use fabdev.Prelude.{
  ◌||◌, text_eq, ℕ, Bool, not, ◌&&◌, none, some, if◌then◌else◌, is_some, map_get, map_remove,
  map_insert, Text, ◌>>=◌, ◌>>◌, bail_if, context, ok, err,
}
use fabdev.Runtimes.Installed.{
  linked, link_name, is_link_free, checksum, io, invalid_archive, invalid_receipt, not_installed,
  already_installed, RuntimePackageReceipt, Package, installed, other, Shelf, Fallible,
  validate_identifier, validate_package_sha256, is_safe_sequence,
}
use fabdev.Runtimes.Installed.Replace.{Install, eq_ignore_ascii_case}

-- Something exists under the version's name; the link has a name too.
abbrev pub is_occupied : Text → Shelf → Bool
is_occupied version s =
    is_some (map_get version s.nodes) || (text_eq version link_name && is_some s.active)

-- The guards, and the package that is unpacked and found healthy; it has no receipt.
unfoldable pub unpack : (Package → Fallible (Unit {0})) → Install → Shelf → Fallible Package
unfolding validate_identifier eq_ignore_ascii_case map_get text_eq
unpack health_check i s = do
  validate_identifier s.name
  validate_identifier i.version
  bail_if (not (eq_ignore_ascii_case i.artifact_sha256 i.expected_sha256)) checksum
  bail_if (is_occupied i.version s) (already_installed i.version)
  payload ← context i.extracted (invalid_archive i.version)
  let fresh : Package = record { payload = payload; receipt = none }
  health_check fresh
  ok fresh

-- A failure after the new version has moved leaves it in its place.
unfoldable pub install_tar_gz :
    (Package → Fallible (Unit {0}))
    → Install
    → (moves clears_staging switches clears_marker : Bool) → Shelf
    → Shelf × Fallible (Unit {0})
unfolding unpack map_insert map_remove
install_tar_gz health_check i moves clears_staging switches clears_marker s =
    elim (unpack health_check i s) [
      | err e ↦ (s, err e)
      | ok p ↦
          let placed = record s { nodes = map_insert i.version (installed p) s.nodes } in
          let linked_to = record placed {
            active = if i.activate then some i.version else s.active;
          } in
          if not moves
          then (s, err io)
          else if not clears_staging || (i.activate && not (switches && is_link_free placed))
          then (placed, err io)
          else if not clears_marker
          then (linked_to, err io)
          else (record linked_to { markers = map_remove i.version s.markers }, ok tt)
    ]

unfoldable pub record_runtime_package_receipt :
    Text → Text → ℕ → Shelf → Shelf × Fallible (Unit {0})
unfolding validate_identifier validate_package_sha256 map_get map_insert
record_runtime_package_receipt version package_sha256 catalog_sequence s =
    elim (validate_identifier s.name
      >> validate_identifier version
      >> validate_package_sha256 package_sha256
      >> bail_if (not (is_safe_sequence catalog_sequence)) invalid_receipt) [
        | err e ↦ (s, err e)
        | ok _ ↦ elim (map_get version s.nodes) [
          | none ↦ (s, err (not_installed version))
          | some other ↦ (s, err (not_installed version))
          | some linked ↦ (s, ok tt)
          | some (installed p) ↦
              let receipt : RuntimePackageReceipt = record {
                schema_version = 1;
                name = s.name;
                version = version;
                package_sha256 = package_sha256;
                catalog_sequence = catalog_sequence;
              } in
              (
                record s {
                  nodes =
                      map_insert version (installed (record p { receipt = some receipt })) s.nodes;
                },
                ok tt,
              )
        ]
      ]
