-- ===== src/Runtimes/Installed/Filled.antt =====
-- A new package or receipt leaves the active version installed: crates/runtime/src/lib.rs.
use fabdev.Prelude.{
  ℕ, ◌≡◌, refl, ◌⊎◌, inl, inr, Bool, true, false, not, ◌&&◌, ◌||◌, Option, none, some,
  if◌then◌else◌, Bool-cases, map_get, map_remove, map_insert, map_get-insert, Text, text_eq,
  text_eq_refl, ◌>>◌, bail_if, >>=-ok, ok, err,
}
use fabdev.Runtimes.Installed.{
  io, Package, Node, installed, linked, other, link_name, is_link_free, Shelf, Fallible,
  validate_identifier, is_dir, not_installed, RuntimePackageReceipt, validate_package_sha256,
  is_safe_sequence, invalid_receipt,
}
use fabdev.Runtimes.Installed.Replace.{Install}
use fabdev.Runtimes.Installed.Fresh.{unpack, install_tar_gz, record_runtime_package_receipt}
use fabdev.Runtimes.Installed.Linked.{IsActiveValid, IsLinked}

abbrev filled : Text → Package → Shelf → Shelf
filled version p s = record s { nodes = map_insert version (installed p) s.nodes }

filled-is_dir :
    (version v : Text) (p : Package) (s : Shelf)
    → (is_dir (map_get v s.nodes) ≡ true) ⊎ (text_eq version v ≡ true)
    → is_dir (map_get v (map_insert version (installed p) s.nodes)) ≡ true
filled-is_dir version v p s h = elim (Bool-cases (text_eq version v)) [
  | inl same ↦ rw (map_get-insert version v (installed p) s.nodes, same)
  | inr differ ↦ elim h [
    | inl dir ↦ rw (map_get-insert version v (installed p) s.nodes, differ) dir
    | inr same ↦ absurd (cc (same, differ))
  ]
]

filled-IsActiveValid :
    (version : Text) (p : Package) (s : Shelf) (a : Option Text)
    → IsActiveValid s a
    → IsActiveValid (filled version p s) a
filled-IsActiveValid version p s none h = tt
filled-IsActiveValid version p s (some v) (valid, dir) =
    (valid, filled-is_dir version v p s (inl dir))

unpack-valid :
    (health_check : Package → Fallible (Unit {0})) (i : Install) (s : Shelf) (p : Package)
    → unpack health_check i s ≡ ok p
    → validate_identifier i.version ≡ ok tt
unfolding unpack
unpack-valid health_check i s p h0 =
    let (_, _, h1) = >>=-ok (validate_identifier s.name) _ p h0 in
    let (_, valid, _) = >>=-ok (validate_identifier i.version) _ p h1 in valid

filled-free :
    (version : Text) (p : Package) (s : Shelf)
    → text_eq version link_name ≡ false
    → map_get link_name s.nodes ≡ none
    → map_get link_name (map_insert version (installed p) s.nodes) ≡ none
filled-free version p s differs free =
    rw (map_get-insert version link_name (installed p) s.nodes, differs) free

pub install-IsLinked :
    (health_check : Package → Fallible (Unit {0})) (i : Install)
    (moves clears_staging switches clears_marker : Bool) (s : Shelf)
    → text_eq i.version link_name ≡ false
    → IsLinked s
    → IsLinked (install_tar_gz health_check i moves clears_staging switches clears_marker s).0
unfolding install_tar_gz
install-IsLinked health_check i moves clears_staging switches clears_marker s differs
      (named, free, active) =
    by_package (unpack health_check i s) refl
  where
    switched : Bool → Option Text
    switched b = if b then some i.version else s.active

    placed : Package → Bool → Bool → Bool → Bool → Shelf × Fallible (Unit {0})
    placed p a b c d =
        if a
        then (s, err io)
        else if b
        then (filled i.version p s, err io)
        else if c
        then (record (filled i.version p s) { active = switched d }, err io)
        else (
          record (filled i.version p s) {
            active = switched d;
            markers = map_remove i.version s.markers;
          },
          ok tt,
        )

    go_on : Fallible Package → Shelf × Fallible (Unit {0})
    go_on m = elim m [
      | err e ↦ (s, err e)
      | ok p ↦
          placed p (not moves)
            (not clears_staging
              || (i.activate && not (switches && is_link_free (filled i.version p s))))
            (not clears_marker) i.activate
    ]

    at_place :
        (p : Package)
        → validate_identifier i.version ≡ ok tt
        → (d : Bool) → IsActiveValid (filled i.version p s) (switched d)
    at_place p valid true =
        (valid, filled-is_dir i.version i.version p s (inr (text_eq_refl i.version)))
    at_place p valid false = filled-IsActiveValid i.version p s s.active active

    by_disk :
        (p : Package)
        → validate_identifier i.version ≡ ok tt
        → (a b c d : Bool) → IsLinked (placed p a b c d).0
    by_disk p valid true b c d = (named, free, active)
    by_disk p valid false true c d =
        (named, filled-free i.version p s differs free, at_place p valid false)
    by_disk p valid false false true d =
        (named, filled-free i.version p s differs free, at_place p valid d)
    by_disk p valid false false false d =
        (named, filled-free i.version p s differs free, at_place p valid d)

    by_package : (m : Fallible Package) → unpack health_check i s ≡ m → IsLinked (go_on m).0
    by_package (err e) h = (named, free, active)
    by_package (ok p) h =
        by_disk p (unpack-valid health_check i s p h) (not moves)
          (not clears_staging
            || (i.activate && not (switches && is_link_free (filled i.version p s))))
          (not clears_marker) i.activate

pub record-IsLinked :
    (version sha256 : Text) (sequence : ℕ) (s : Shelf)
    → text_eq version link_name ≡ false
    → IsLinked s
    → IsLinked (record_runtime_package_receipt version sha256 sequence s).0
unfolding record_runtime_package_receipt
record-IsLinked version sha256 sequence s differs (named, free, active) =
    by_checks
      (validate_identifier s.name
        >> validate_identifier version
        >> validate_package_sha256 sha256
        >> bail_if (not (is_safe_sequence sequence)) invalid_receipt)
      (map_get version s.nodes)
  where
    receipt : RuntimePackageReceipt
    receipt = record {
      schema_version = 1;
      name = s.name;
      version = version;
      package_sha256 = sha256;
      catalog_sequence = sequence;
    }

    by_checks :
        (m : Fallible (Unit {0})) (n : Option Node)
        → IsLinked
            (elim m as (λ x. Shelf × Fallible (Unit {0})) [
              | err e ↦ (s, err e)
              | ok _ ↦ elim n as (λ x. Shelf × Fallible (Unit {0})) [
                | none ↦ (s, err (not_installed version))
                | some other ↦ (s, err (not_installed version))
                | some linked ↦ (s, ok tt)
                | some (installed p) ↦
                    (filled version (record p { receipt = some receipt }) s, ok tt)
              ]
            ]).0
    by_checks (err e) n = (named, free, active)
    by_checks (ok x) none = (named, free, active)
    by_checks (ok x) (some other) = (named, free, active)
    by_checks (ok x) (some linked) = (named, free, active)
    by_checks (ok x) (some (installed p)) = (
      named,
      filled-free version (record p { receipt = some receipt }) s differs free,
      filled-IsActiveValid version (record p { receipt = some receipt }) s s.active active,
    )
