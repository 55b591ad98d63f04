-- ===== src/Runtimes/Installed.antt =====
-- The installed versions of a runtime and their replacement: crates/runtime/src/lib.rs. A shelf is the
-- directory of one runtime under the base directory, on Unix, where the active link is replaced at once.
pub mod Replace
pub mod Restored
pub mod Outcome
pub mod Recorded
pub mod Fresh
pub mod Linked
pub mod Filled
pub mod Kept
pub mod Active
pub mod Listed
use fabdev.Prelude.{
  is_some, ℕ, Bool, true, false, not, ◌&&◌, Option, none, some, [], ◌∷◌, ltb, leb, ◌==◌,
  if◌then◌else◌, all, Map, map_get, map_remove, map_insert, Text, codes, text_eq, Result, ◌>>=◌,
  ◌>>◌, bail_if, is_ascii_alphanumeric, starts_with, is_empty, ok, err, ◌||◌,
}
use fabdev.Runtimes.Fields.{is_lowercase_sha256, max_safe_json_integer}

pub data RuntimeError : Type 0 where
  invalid_identifier invalid_archive not_installed already_installed active_runtime :
      Text → RuntimeError
  invalid_active_link invalid_receipt checksum backup_exists unhealthy io : RuntimeError

pub record RuntimePackageReceipt : Type 0 where
  pub schema_version : ℕ
  pub name : Text
  pub version : Text
  pub package_sha256 : Text
  pub catalog_sequence : ℕ

pub record Package : Type 0 where
  pub payload : Text
  pub receipt : Option RuntimePackageReceipt

-- What a version's path names: a directory, a link to one, or something else that exists.
pub data Node : Type 0 where
  installed : Package → Node
  linked other : Node

-- The versions, what the active link names, the removal markers with their contents, and the backups
-- that a replacement makes, all by version.
pub record Shelf : Type 0 where
  pub name : Text
  pub nodes : Map Node
  pub active : Option Text
  pub markers : Map Text
  pub backups : Map Node

abbrev pub Fallible : Type 0 → Type 0
Fallible A = Result RuntimeError A

abbrev pub is_identifier_char : ℕ → Bool
is_identifier_char c = is_ascii_alphanumeric c || (c == b'.' || (c == b'-' || c == b'_'))

unfoldable pub validate_identifier : Text → Fallible (Unit {0})
unfolding starts_with is_empty
validate_identifier value =
    bail_if
      (not (
        not (is_empty value)
        && (not (starts_with (b'.' ∷ []) value) && all is_identifier_char value)))
      (invalid_identifier value)

abbrev pub is_dir : Option Node → Bool
is_dir none = false
is_dir (some other) = false
is_dir (some linked) = false
is_dir (some (installed p)) = true

-- `Path::is_dir` follows links.
abbrev pub resolves_to_dir : Option Node → Bool
resolves_to_dir (some linked) = true
resolves_to_dir none = false
resolves_to_dir (some other) = false
resolves_to_dir (some (installed p)) = true

-- The name of the active link, which stands among the versions.
abbrev pub link_name : Text
link_name = codes "current"

-- A directory in the place of the link can neither be read as a link nor be replaced by one.
abbrev pub is_link_free : Shelf → Bool
is_link_free s = not (is_some (map_get link_name s.nodes))

unfoldable pub validate_package_sha256 : Text → Fallible (Unit {0})
unfolding is_lowercase_sha256
validate_package_sha256 value = bail_if (not (is_lowercase_sha256 value)) invalid_receipt

abbrev pub is_safe_sequence : ℕ → Bool
is_safe_sequence n = ltb 0 n && leb n max_safe_json_integer

unfoldable pub validate_runtime_package_receipt :
    RuntimePackageReceipt → Text → Text → Fallible (Unit {0})
unfolding text_eq validate_package_sha256
validate_runtime_package_receipt receipt name version = do
  bail_if
      (not (
        receipt.schema_version == 1
        && (text_eq receipt.name name && text_eq receipt.version version)))
      invalid_receipt
  validate_package_sha256 receipt.package_sha256
  bail_if (not (is_safe_sequence receipt.catalog_sequence)) invalid_receipt

-- `installed_runtime_package_sha256` of a package directory
unfoldable pub installed_sha256 : Text → Text → Package → Fallible (Option Text)
unfolding validate_runtime_package_receipt
installed_sha256 name version p = elim p.receipt [
  | none ↦ ok none
  | some receipt ↦ validate_runtime_package_receipt receipt name version >>= λ _.
      ok (some receipt.package_sha256)
]

unfoldable pub active_version : Shelf → Fallible (Option Text)
unfolding validate_identifier map_get
active_version s = do
  validate_identifier s.name
  bail_if (not (is_link_free s)) io
  elim s.active [
    | none ↦ ok none
    | some version ↦ elim (validate_identifier version) [
      | err e ↦ err invalid_active_link
      | ok _ ↦
          if resolves_to_dir (map_get version s.nodes)
          then ok (some version)
          else err invalid_active_link
    ]
  ]

unfoldable pub set_active_version : Text → Shelf → Shelf × Fallible (Unit {0})
unfolding validate_identifier map_get
set_active_version version s = elim (validate_identifier s.name >> validate_identifier version) [
  | err e ↦ (s, err e)
  | ok _ ↦
      if is_dir (map_get version s.nodes)
      then (if is_link_free s then (record s { active = some version }, ok tt) else (s, err io))
      else (s, err (not_installed version))
]

unfoldable pub deactivate_runtime : Shelf → Shelf × Fallible (Option Text)
unfolding active_version
deactivate_runtime s = elim (active_version s) [
  | err e ↦ (s, err e)
  | ok none ↦ (s, ok none)
  | ok (some version) ↦ (record s { active = none }, ok (some version))
]

abbrev pub is_version : Text → Option Text → Bool
is_version version none = false
is_version version (some v) = text_eq v version

unfoldable pub remove_installed_version : Text → Shelf → Shelf × Fallible (Unit {0})
unfolding validate_identifier active_version map_get map_remove text_eq
remove_installed_version version s =
    elim (validate_identifier s.name >> validate_identifier version >> active_version s) [
      | err e ↦ (s, err e)
      | ok active ↦
          if is_version version active
          then (s, err (active_runtime version))
          else if is_dir (map_get version s.nodes)
          then (record s { nodes = map_remove version s.nodes }, ok tt)
          else (s, err (not_installed version))
    ]

unfoldable pub mark_runtime_removed : Text → Shelf → Shelf × Fallible (Unit {0})
unfolding validate_identifier map_insert
mark_runtime_removed version s = elim (validate_identifier s.name >> validate_identifier version) [
  | err e ↦ (s, err e)
  | ok _ ↦ (record s { markers = map_insert version (codes "removed\n") s.markers }, ok tt)
]

unfoldable pub clear_runtime_removal_marker : Text → Shelf → Shelf × Fallible (Unit {0})
unfolding validate_identifier map_remove
clear_runtime_removal_marker version s =
    elim (validate_identifier s.name >> validate_identifier version) [
      | err e ↦ (s, err e)
      | ok _ ↦ (record s { markers = map_remove version s.markers }, ok tt)
    ]
