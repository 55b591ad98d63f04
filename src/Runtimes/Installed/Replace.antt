-- ===== src/Runtimes/Installed/Replace.antt =====
-- `install_or_replace_tar_gz_with_health_check`, its commit and its rollback, of
-- crates/runtime/src/lib.rs. What the archive holds and which renames succeed are arguments.
use fabdev.Prelude.{
  ◌||◌, ℕ, Bool, true, false, not, ◌&&◌, Option, none, some, if◌then◌else◌, is_some, Map, map_get,
  map_remove, map_insert, Text, text_eq, ◌>>=◌, ◌>>◌, bail_if, context, to_ascii_lowercase, ok, err,
}
use fabdev.Runtimes.Installed.{
  link_name, checksum, io, invalid_archive, invalid_receipt, backup_exists, already_installed,
  RuntimePackageReceipt, Package, Node, installed, linked, other, Shelf, Fallible,
  validate_identifier, validate_package_sha256, is_safe_sequence, installed_sha256, active_version,
  is_version,
}

-- The input, with what the artifact is: its digest, and the payload under the version's directory.
pub record Install : Type 0 where
  pub version : Text
  pub expected_sha256 : Text
  pub catalog_sequence : ℕ
  pub activate : Bool
  pub artifact_sha256 : Text
  pub extracted : Option Text

-- The steps of a rollback: what remains of a directory that cannot be removed, and whether the backup
-- moves back, the staging directory is removed, the link is switched or removed, and the marker written.
pub record Rollback : Type 0 where
  pub remains : Option Package
  pub moves_back : Bool
  pub clears_staging : Bool
  pub switches : Bool
  pub writes_marker : Bool

-- The steps of a replacement: whether the old version moves to its backup, the new one to its place, the
-- old one back; whether the staging directory is removed, the link switched and the marker cleared; and
-- the rollback, if one of these last three fails.
pub record Disk : Type 0 where
  pub backs_up : Bool
  pub moves : Bool
  pub moves_back : Bool
  pub clears_staging : Bool
  pub switches : Bool
  pub clears_marker : Bool
  pub rollback : Rollback

pub record RuntimeInstallTransaction : Type 0 where
  pub version : Text
  pub replaced : Bool
  pub active_before : Option Text
  pub removal_marker_before : Option Text

unfoldable pub eq_ignore_ascii_case : Text → Text → Bool
unfolding text_eq
eq_ignore_ascii_case a b = text_eq (to_ascii_lowercase a) (to_ascii_lowercase b)

unfoldable pub receipt_of : Install → Shelf → RuntimePackageReceipt
receipt_of i s = record {
  schema_version = 1;
  name = s.name;
  version = i.version;
  package_sha256 = i.expected_sha256;
  catalog_sequence = i.catalog_sequence;
}

-- The guards before anything is staged: the transaction to be, or an error.
unfoldable pub check_replaced : Install → Shelf → Option Node → Fallible Bool
unfolding installed_sha256 text_eq
check_replaced i s none = ok false
check_replaced i s (some other) = err (already_installed i.version)
check_replaced i s (some linked) = err (already_installed i.version)
check_replaced i s (some (installed p)) = do
  recorded ← installed_sha256 s.name i.version p
  bail_if (is_version i.expected_sha256 recorded) (already_installed i.version)
  ok true

-- The path is the active link, which is there.
abbrev pub is_link : Text → Shelf → Bool
is_link version s = text_eq version link_name && is_some s.active

unfoldable pub begin : Install → Shelf → Fallible RuntimeInstallTransaction
unfolding validate_identifier validate_package_sha256 eq_ignore_ascii_case active_version map_get
    text_eq check_replaced
begin i s = do
  validate_identifier s.name
  validate_identifier i.version
  validate_package_sha256 i.expected_sha256
  bail_if (not (is_safe_sequence i.catalog_sequence)) invalid_receipt
  bail_if (not (eq_ignore_ascii_case i.artifact_sha256 i.expected_sha256)) checksum
  active_before ← active_version s
  bail_if (is_some (map_get i.version s.backups)) backup_exists
  bail_if (is_link i.version s) (already_installed i.version)
  replacing ← check_replaced i s (map_get i.version s.nodes)
  ok (record {
    version = i.version;
    replaced = replacing;
    active_before = active_before;
    removal_marker_before = map_get i.version s.markers;
  })

-- The package with its receipt, once it is healthy.
unfoldable pub stage : (Package → Fallible (Unit {0})) → Install → Shelf → Fallible Package
unfolding receipt_of
stage health_check i s = do
  payload ← context i.extracted (invalid_archive i.version)
  let staged : Package = record { payload = payload; receipt = some (receipt_of i s) }
  health_check staged
  ok staged

-- The old version moves to its backup.
unfoldable pub back_up : RuntimeInstallTransaction → Shelf → Shelf
unfolding map_get map_insert map_remove
back_up t s =
    if t.replaced
    then elim (map_get t.version s.nodes) [
      | none ↦ s
      | some n ↦ record s {
        nodes = map_remove t.version s.nodes;
        backups = map_insert t.version n s.backups;
      }
    ]
    else s

-- The backup moves back, if the disk lets it.
unfoldable pub restore : RuntimeInstallTransaction → Bool → Shelf → Shelf
unfolding map_get map_insert map_remove
restore t moves_back s =
    if t.replaced && moves_back
    then elim (map_get t.version s.backups) [
      | none ↦ s
      | some n ↦ record s {
        nodes = map_insert t.version n s.nodes;
        backups = map_remove t.version s.backups;
      }
    ]
    else s

-- The removal marker that was there before.
unfoldable pub put_marker : Text → Option Text → Map Text → Map Text
unfolding map_insert
put_marker version none markers = markers
put_marker version (some contents) markers = map_insert version contents markers

-- Each step that fails ends the rollback there.
unfoldable pub rollback_runtime_install_transaction :
    Rollback → RuntimeInstallTransaction → Shelf → Shelf × Fallible (Unit {0})
unfolding map_remove map_insert restore put_marker
rollback_runtime_install_transaction u t s =
    let cleared = record s { nodes = map_remove t.version s.nodes } in
    let old = restore t true cleared in
    let switched = record old { active = t.active_before } in
    let marked = record switched {
      markers = put_marker t.version t.removal_marker_before switched.markers;
    } in
    elim u.remains [
      | some p ↦ (record s { nodes = map_insert t.version (installed p) s.nodes }, err io)
      | none ↦
          if t.replaced && not u.moves_back
          then (cleared, err io)
          else if not u.clears_staging
          then (old, err io)
          else if not u.switches
          then (old, err io)
          else if is_some t.removal_marker_before && not u.writes_marker
          then (switched, err io)
          else (marked, ok tt)
    ]

-- The backup is removed, if the disk lets it; `remains` is what is left of it otherwise.
unfoldable pub commit_runtime_install_transaction :
    (remains : Option Node) → RuntimeInstallTransaction → Shelf → Shelf × Fallible (Unit {0})
unfolding map_remove map_insert
commit_runtime_install_transaction remains t s =
    if not t.replaced then (s, ok tt) else elim remains [
      | none ↦ (record s { backups = map_remove t.version s.backups }, ok tt)
      | some n ↦ (record s { backups = map_insert t.version n s.backups }, err io)
    ]

-- The link cannot take the place of a directory of its name.
abbrev pub switches_link : Install → Disk → Bool
switches_link i disk = disk.switches && not (text_eq i.version link_name)

-- Whether all of `finish_result` succeeds, and what the link names when it ends.
abbrev pub finishes : Install → Disk → Bool
finishes i disk =
    disk.clears_staging && ((not i.activate || switches_link i disk) && disk.clears_marker)

abbrev pub switched_to : Install → Disk → Text → Option Text → Option Text
switched_to i disk version active =
    if disk.clears_staging && (i.activate && switches_link i disk) then some version else active

-- The package takes its place; the link is switched and the marker cleared, or all is rolled back.
unfoldable pub place_package :
    Install
    → Disk
    → RuntimeInstallTransaction
    → Package
    → Shelf
    → Shelf × Fallible RuntimeInstallTransaction
unfolding back_up restore map_insert map_remove text_eq rollback_runtime_install_transaction
place_package i disk t p s =
    let backed = back_up t s in
    let placed = record backed { nodes = map_insert t.version (installed p) backed.nodes } in
    if t.replaced && not disk.backs_up
    then (s, err io)
    else if not disk.moves
    then (restore t disk.moves_back backed, err io)
    else if not (finishes i disk)
    then (
      (rollback_runtime_install_transaction disk.rollback t
          (record placed { active = switched_to i disk t.version placed.active })).0,
      err io,
    )
    else (
      record placed {
        active = if i.activate then some t.version else placed.active;
        markers = map_remove t.version placed.markers;
      },
      ok t,
    )

unfoldable pub install_or_replace :
    (Package → Fallible (Unit {0}))
    → Install
    → Disk
    → Shelf
    → Shelf × Fallible RuntimeInstallTransaction
unfolding begin stage place_package
install_or_replace health_check i disk s = elim (begin i s) [
  | err e ↦ (s, err e)
  | ok t ↦ elim (stage health_check i s) [ err e ↦ (s, err e) | ok p ↦ place_package i disk t p s ]
]
