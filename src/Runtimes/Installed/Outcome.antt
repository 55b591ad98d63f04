-- ===== src/Runtimes/Installed/Outcome.antt =====
-- The outcomes of `install_or_replace_tar_gz_with_health_check` of crates/runtime/src/lib.rs.
use fabdev.Prelude.{
  ◌≡◌, refl, sym, ap, ◌∙◌, subst, Bool, true, false, not, ◌&&◌, Option, none, some, if◌then◌else◌,
  is_some, map_get, map_remove, map_insert, Text, bail_if, >>=-ok, ok-injective, ok, err,
}
use fabdev.Runtimes.Installed.{
  Package, Node, installed, other, Shelf, Fallible, validate_identifier, is_link_free,
  resolves_to_dir, linked, active_version, validate_package_sha256, is_safe_sequence, checksum,
  invalid_receipt, invalid_active_link, backup_exists, io, already_installed, is_version,
  installed_sha256,
}
use fabdev.Runtimes.Installed.Replace.{
  Install, Disk, Rollback, is_link, finishes, switched_to, RuntimeInstallTransaction,
  eq_ignore_ascii_case, check_replaced, begin, stage, back_up, restore, put_marker,
  rollback_runtime_install_transaction, place_package, install_or_replace,
}
use fabdev.Runtimes.Installed.Restored.{
  IsComplete, rollback-undo, rollback_complete, Same, Same-refl, IsBegun, put_marker-get,
  put_marker-kept, placed, rollback-Same, restore-Same,
}

active_version-eq : (s : Shelf) (a : Option Text) → active_version s ≡ ok a → a ≡ s.active
unfolding active_version
active_version-eq s a h =
    let (x, named, h1) = >>=-ok (validate_identifier s.name) _ a h in
    let (y, free, h2) = >>=-ok (bail_if (not (is_link_free s)) io) _ a h1 in
    by_active s.active refl h2
  where
    names : Option Text → Fallible (Option Text)
    names o = elim o [
      | none ↦ ok none
      | some version ↦ elim (validate_identifier version) [
        | err e ↦ err invalid_active_link
        | ok _ ↦
            if resolves_to_dir (map_get version s.nodes)
            then ok (some version)
            else err invalid_active_link
      ]
    ]

    by_active : (o : Option Text) → s.active ≡ o → names s.active ≡ ok a → a ≡ s.active
    by_active none e h = sym (ok-injective none a (ap names (sym e) ∙ h)) ∙ sym e
    by_active (some v) e h = by_name (validate_identifier v) (ap names (sym e) ∙ h) ∙ sym e
      where
        by_name :
            (m : Fallible (Unit {0}))
            → Path
                (Fallible (Option Text))
                (elim m [
                  | err e ↦ err invalid_active_link
                  | ok _ ↦
                      if resolves_to_dir (map_get v s.nodes)
                      then ok (some v)
                      else err invalid_active_link
                ])
                (ok a)
            → a ≡ some v
        by_name (err x) h = cc
        by_name (ok x) h = by_dir (resolves_to_dir (map_get v s.nodes)) h
          where
            by_dir :
                (d : Bool)
                → Path
                    (Fallible (Option Text))
                    (if d then ok (some v) else err invalid_active_link)
                    (ok a)
                → a ≡ some v
            by_dir true h = sym (ok-injective (some v) a h)
            by_dir false h = cc

check_replaced-eq :
    (i : Install) (s : Shelf) (o : Option Node) (b : Bool)
    → check_replaced i s o ≡ ok b
    → b ≡ is_some o
unfolding check_replaced
check_replaced-eq i s none b h = sym (ok-injective false b h)
check_replaced-eq i s (some other) b h = cc
check_replaced-eq i s (some linked) b h = cc
check_replaced-eq i s (some (installed p)) b h =
    let (recorded, _, h1) = >>=-ok (installed_sha256 s.name i.version p) _ b h in
    let (_, _, h2) =
      >>=-ok (bail_if (is_version i.expected_sha256 recorded) (already_installed i.version)) _ b
        h1 in
    sym (ok-injective true b h2)

pub bail_if-false : {E : Type 0} (b : Bool) (e : E) → bail_if b e ≡ ok tt → b ≡ false
bail_if-false true e h = cc
bail_if-false false e h = refl

pub begin-IsBegun :
    (i : Install) (s : Shelf) (t : RuntimeInstallTransaction)
    → begin i s ≡ ok t
    → IsBegun t s × (t.version ≡ i.version)
unfolding begin
begin-IsBegun i s t h0 =
    let (_, _, h1) = >>=-ok (validate_identifier s.name) _ t h0 in
    let (_, _, h2) = >>=-ok (validate_identifier i.version) _ t h1 in
    let (_, _, h3) = >>=-ok (validate_package_sha256 i.expected_sha256) _ t h2 in
    let (_, _, h4) =
      >>=-ok (bail_if (not (is_safe_sequence i.catalog_sequence)) invalid_receipt) _ t h3 in
    let (_, _, h5) =
      >>=-ok (bail_if (not (eq_ignore_ascii_case i.artifact_sha256 i.expected_sha256)) checksum) _ t
        h4 in
    let (before, active, h6) = >>=-ok (active_version s) _ t h5 in
    let (_, clean, h7) =
      >>=-ok (bail_if (is_some (map_get i.version s.backups)) backup_exists) _ t h6 in
    let (_, _, h8) = >>=-ok (bail_if (is_link i.version s) (already_installed i.version)) _ t h7 in
    let (replacing, checked, h9) = >>=-ok (check_replaced i s (map_get i.version s.nodes)) _ t h8 in
    let given : RuntimeInstallTransaction = record {
      version = i.version;
      replaced = replacing;
      active_before = before;
      removal_marker_before = map_get i.version s.markers;
    } in
    let no_backup =
      is_none (map_get i.version s.backups)
        (bail_if-false (is_some (map_get i.version s.backups)) backup_exists clean) in
    subst (λ x. IsBegun x s × (x.version ≡ i.version)) (ok-injective given t h9)
      (
        (
          no_backup,
          check_replaced-eq i s (map_get i.version s.nodes) replacing checked,
          active_version-eq s before active,
          refl,
        ),
        refl,
      )
  where
    is_none : (o : Option Node) → is_some o ≡ false → o ≡ none
    is_none none e = refl
    is_none (some n) e = cc

back_up-markers : (t : RuntimeInstallTransaction) (s : Shelf) → (back_up t s).markers ≡ s.markers
unfolding back_up
back_up-markers t s = by_cases t.replaced (map_get t.version s.nodes)
  where
    moved : Bool → Option Node → Shelf
    moved b o =
        if b
        then elim o [
          | none ↦ s
          | some n ↦ record s {
            nodes = map_remove t.version s.nodes;
            backups = map_insert t.version n s.backups;
          }
        ]
        else s

    by_cases : (b : Bool) (o : Option Node) → (moved b o).markers ≡ s.markers
    by_cases true none = refl
    by_cases true (some n) = refl
    by_cases false o = refl

-- A failure leaves the shelf as it was. After a success a rollback that returns without an error leaves
-- it so, and one of which no step fails returns without an error.
abbrev pub IsReversible : Shelf → Shelf × Fallible RuntimeInstallTransaction → Type 0
IsReversible s (next, err e) = Same s next
IsReversible s (next, ok t) =
    (u : Rollback)
    → ((rollback_runtime_install_transaction u t next).1 ≡ ok tt
        → Same s (rollback_runtime_install_transaction u t next).0)
      × (IsComplete u → (rollback_runtime_install_transaction u t next).1 ≡ ok tt)

place_package-IsReversible :
    (i : Install) (disk : Disk) (t : RuntimeInstallTransaction) (p : Package) (s : Shelf)
    → IsBegun t s
    → disk.moves_back ≡ true
    → IsComplete disk.rollback
    → IsReversible s (place_package i disk t p s)
unfolding place_package back_up
place_package-IsReversible i disk t p s begun back complete =
    by_disk (t.replaced && not disk.backs_up) (not disk.moves) (not (finishes i disk))
  where
    kept :
        (v : Text)
        → map_get v (put_marker t.version t.removal_marker_before (back_up t s).markers)
          ≡ map_get v s.markers
    kept v =
        subst
          (λ m. map_get v (put_marker t.version t.removal_marker_before m) ≡ map_get v s.markers)
          (sym (back_up-markers t s))
          (put_marker-kept t.version t.removal_marker_before s.markers begun.3 v)

    failed : Shelf
    failed =
        placed t p (switched_to i disk t.version (back_up t s).active) (back_up t s).markers
          (back_up t s)

    finished : Shelf
    finished =
        placed t p (if i.activate then some t.version else (back_up t s).active)
          (map_remove t.version (back_up t s).markers) (back_up t s)

    outcome : Bool → Bool → Bool → Shelf × Fallible RuntimeInstallTransaction
    outcome a b c =
        if a
        then (s, err io)
        else if b
        then (restore t disk.moves_back (back_up t s), err io)
        else if c
        then ((rollback_runtime_install_transaction disk.rollback t failed).0, err io)
        else (finished, ok t)

    by_disk : (a b c : Bool) → IsReversible s (outcome a b c)
    by_disk true b c = Same-refl s
    by_disk false true c =
        subst (λ x. Same s (restore t x (back_up t s))) (sym back) (restore-Same t s begun)
    by_disk false false true =
        subst (Same s)
          (sym (
            rollback-undo t failed disk.rollback
              (rollback_complete t failed disk.rollback complete)))
          (rollback-Same t s p (switched_to i disk t.version (back_up t s).active)
            (back_up t s).markers begun kept)
    by_disk false false false = λ u. (
      λ h. subst (Same s) (sym (rollback-undo t finished u h)) (
          rollback-Same t s p (if i.activate then some t.version else (back_up t s).active)
            (map_remove t.version (back_up t s).markers) begun
            (λ v.
              subst
                (λ m.
                  map_get v (put_marker t.version t.removal_marker_before (map_remove t.version m))
                  ≡ map_get v s.markers)
                (sym (back_up-markers t s))
                (put_marker-get t.version t.removal_marker_before s.markers begun.3 v))),
      rollback_complete t finished u,
    )

-- Whatever the package, the health check and the disk do, provided that a backup can be moved back and
-- that no step of a rollback within the installation fails: after a failed replacement everything that can
-- be looked up on the shelf is as before: versions, backups, markers and the active link. After a
-- successful one it is so again once a rollback of the transaction has returned without an error, whatever
-- its steps do, and a rollback of which no step fails returns without one.
pub install_or_replace-IsReversible :
    (health_check : Package → Fallible (Unit {0})) (i : Install) (disk : Disk) (s : Shelf)
    → disk.moves_back ≡ true
    → IsComplete disk.rollback
    → IsReversible s (install_or_replace health_check i disk s)
unfolding install_or_replace
install_or_replace-IsReversible health_check i disk s back complete = by_begin (begin i s) refl
  where
    go_on :
        Fallible RuntimeInstallTransaction
        → Fallible Package
        → Shelf × Fallible RuntimeInstallTransaction
    go_on a b = elim a [
      | err e ↦ (s, err e)
      | ok t ↦ elim b [ err e ↦ (s, err e) | ok p ↦ place_package i disk t p s ]
    ]

    by_stage :
        (t : RuntimeInstallTransaction)
        → IsBegun t s
        → (m : Fallible Package) → IsReversible s (go_on (ok t) m)
    by_stage t begun (err e) = Same-refl s
    by_stage t begun (ok p) = place_package-IsReversible i disk t p s begun back complete

    by_begin :
        (m : Fallible RuntimeInstallTransaction)
        → begin i s ≡ m
        → IsReversible s (go_on m (stage health_check i s))
    by_begin (err e) h = Same-refl s
    by_begin (ok t) h = by_stage t (begin-IsBegun i s t h).0 (stage health_check i s)
