-- ===== src/Runtimes/Installed/Recorded.antt =====
-- The receipt that a replacement writes: crates/runtime/src/lib.rs.
use fabdev.Prelude.{
  ◌≡◌, refl, ap, ◌∙◌, subst, Bool, true, false, not, ◌&&◌, none, some, if◌then◌else◌, map_get,
  map_remove, map_get-remove, map_get-insert, Text, text_eq_refl, text_eq_iff, ◌>>=◌, bail_if,
  context, >>=-ok, context-some, ok-injective, to_ascii_lowercase, ok, err,
}
use fabdev.Runtimes.Installed
use fabdev.Runtimes.Installed.{
  RuntimeError, Package, installed, Shelf, Fallible, validate_identifier, validate_package_sha256,
  validate_runtime_package_receipt, is_safe_sequence, checksum, invalid_receipt, io,
  installed_sha256,
}
use fabdev.Runtimes.Installed.Replace.{
  Install, Disk, finishes, switched_to, RuntimeInstallTransaction, receipt_of, eq_ignore_ascii_case,
  begin, stage, back_up, restore, rollback_runtime_install_transaction, place_package,
  install_or_replace,
}
use fabdev.Runtimes.Installed.Restored.{placed}
use fabdev.Runtimes.Installed.Outcome.{begin-IsBegun, bail_if-false}

not-false : (b : Bool) → not b ≡ false → b ≡ true
not-false true h = refl
not-false false h = cc

-- What `begin` checks of the package itself.
begin-IsChecked :
    (i : Install) (s : Shelf) (t : RuntimeInstallTransaction)
    → begin i s ≡ ok t
    → (validate_package_sha256 i.expected_sha256 ≡ ok tt)
      × (is_safe_sequence i.catalog_sequence ≡ true)
      × (to_ascii_lowercase i.artifact_sha256 ≡ to_ascii_lowercase i.expected_sha256)
unfolding begin eq_ignore_ascii_case
begin-IsChecked i s t h0 =
    let (_, _, h1) = >>=-ok (validate_identifier s.name) _ t h0 in
    let (_, _, h2) = >>=-ok (validate_identifier i.version) _ t h1 in
    let (_, valid, h3) = >>=-ok (validate_package_sha256 i.expected_sha256) _ t h2 in
    let (_, safe, h4) =
      >>=-ok (bail_if (not (is_safe_sequence i.catalog_sequence)) invalid_receipt) _ t h3 in
    let (_, same, h5) =
      >>=-ok (bail_if (not (eq_ignore_ascii_case i.artifact_sha256 i.expected_sha256)) checksum) _ t
        h4 in
    (
      valid,
      not-false (is_safe_sequence i.catalog_sequence)
          (bail_if-false (not (is_safe_sequence i.catalog_sequence)) invalid_receipt safe),
      (text_eq_iff (to_ascii_lowercase i.artifact_sha256) (to_ascii_lowercase i.expected_sha256)).0
          (not-false (eq_ignore_ascii_case i.artifact_sha256 i.expected_sha256) (
            bail_if-false (not (eq_ignore_ascii_case i.artifact_sha256 i.expected_sha256)) checksum
              same)),
    )

-- A receipt that the program writes passes its own validation.
receipt_of-valid :
    (i : Install) (s : Shelf)
    → validate_package_sha256 i.expected_sha256 ≡ ok tt
    → is_safe_sequence i.catalog_sequence ≡ true
    → validate_runtime_package_receipt (receipt_of i s) s.name i.version ≡ ok tt
unfolding validate_runtime_package_receipt receipt_of
receipt_of-valid i s valid safe = rw (text_eq_refl s.name, text_eq_refl i.version, valid, safe)

stage-receipt :
    (health_check : Package → Fallible (Unit {0})) (i : Install) (s : Shelf) (p : Package)
    → stage health_check i s ≡ ok p
    → (i.extracted ≡ some p.payload)
      × (p.receipt ≡ some (receipt_of i s))
      × (health_check p ≡ ok tt)
unfolding stage
stage-receipt health_check i s p h =
    let (payload, extracted, h1) =
      >>=-ok (context i.extracted (Installed.invalid_archive i.version)) _ p h in
    let staged : Package = record { payload = payload; receipt = some (receipt_of i s) } in
    let (_, healthy, h2) = >>=-ok (health_check staged) _ p h1 in
    subst
      (λ x.
        (i.extracted ≡ some x.payload)
        × (x.receipt ≡ some (receipt_of i s))
        × (health_check x ≡ ok tt))
      (ok-injective staged p h2)
      (
        context-some i.extracted (Installed.invalid_archive i.version) payload extracted,
        refl,
        healthy,
      )

-- The version's directory holds the healthy package that was unpacked, the receipt with the expected
-- digest is on it and is read back, and the version is not marked as removed.
abbrev pub IsRecorded : (Package → Fallible (Unit {0})) → Install → Text → Shelf → Package → Type 0
IsRecorded health_check i name next p =
    (map_get i.version next.nodes ≡ some (installed p))
    × (i.extracted ≡ some p.payload)
    × (health_check p ≡ ok tt)
    × (installed_sha256 name i.version p ≡ ok (some i.expected_sha256))
    × (to_ascii_lowercase i.artifact_sha256 ≡ to_ascii_lowercase i.expected_sha256)
    × (map_get i.version next.markers ≡ none)

place_package-get :
    (i : Install) (disk : Disk) (t u : RuntimeInstallTransaction) (p : Package) (s next : Shelf)
    → place_package i disk t p s ≡ (next, ok u)
    → (map_get t.version next.nodes ≡ some (installed p)) × (map_get t.version next.markers ≡ none)
unfolding place_package
place_package-get i disk t u p s next h =
    by_disk (t.replaced && not disk.backs_up) (not disk.moves) (not (finishes i disk)) h
  where
    failed : Shelf
    failed =
        placed t p (switched_to i disk t.version (back_up t s).active) (back_up t s).markers
          (back_up t s)

    outcome : Bool → Bool → Bool → Shelf × Fallible RuntimeInstallTransaction
    outcome a b c =
        if a
        then (s, err io)
        else if b
        then (restore t disk.moves_back (back_up t s), err io)
        else if c
        then ((rollback_runtime_install_transaction disk.rollback t failed).0, err io)
        else (
          placed t p (if i.activate then some t.version else (back_up t s).active)
              (map_remove t.version (back_up t s).markers) (back_up t s),
          ok t,
        )

    refused :
        {A : Type 0} (e : RuntimeError) (x : Shelf)
        → Path (Shelf × Fallible RuntimeInstallTransaction) (x, err e) (next, ok u)
        → A
    refused e x h = absurd (cc (ap (λ (y : Shelf × Fallible RuntimeInstallTransaction). y.1) h))

    by_disk :
        (a b c : Bool)
        → outcome a b c ≡ (next, ok u)
        → (map_get t.version next.nodes ≡ some (installed p))
          × (map_get t.version next.markers ≡ none)
    by_disk true b c h = refused io s h
    by_disk false true c h = refused io (restore t disk.moves_back (back_up t s)) h
    by_disk false false true h =
        refused io (rollback_runtime_install_transaction disk.rollback t failed).0 h
    by_disk false false false h =
        subst
          (λ x.
            (map_get t.version x.nodes ≡ some (installed p)) × (map_get t.version x.markers ≡ none))
          (ap (λ (y : Shelf × Fallible RuntimeInstallTransaction). y.0) h)
          (
            map_get-insert t.version t.version (installed p) (back_up t s).nodes
                ∙ rw (text_eq_refl t.version),
            map_get-remove t.version t.version (back_up t s).markers ∙ rw (text_eq_refl t.version),
          )

-- After a successful replacement the version's directory is the package that was unpacked from an
-- artifact of the expected SHA-256, but for the case of letters, and found healthy, its receipt is read back with that SHA-256, and the
-- version is not marked as removed.
pub install_or_replace-IsRecorded :
    (health_check : Package → Fallible (Unit {0})) (i : Install) (disk : Disk) (s next : Shelf)
    (t : RuntimeInstallTransaction)
    → install_or_replace health_check i disk s ≡ (next, ok t)
    → (p : Package) × IsRecorded health_check i s.name next p
unfolding install_or_replace installed_sha256 receipt_of
install_or_replace-IsRecorded health_check i disk s next t h =
    by_parts (begin i s) (stage health_check i s) refl refl h
  where
    go_on :
        Fallible RuntimeInstallTransaction
        → Fallible Package
        → Shelf × Fallible RuntimeInstallTransaction
    go_on a b = elim a [
      | err e ↦ (s, err e)
      | ok t ↦ elim b [ err e ↦ (s, err e) | ok p ↦ place_package i disk t p s ]
    ]

    refused :
        {A : Type 0} (e : RuntimeError)
        → Path (Shelf × Fallible RuntimeInstallTransaction) (s, err e) (next, ok t)
        → A
    refused e h = absurd (cc (ap (λ (y : Shelf × Fallible RuntimeInstallTransaction). y.1) h))

    read_back :
        (p : Package)
        → p.receipt ≡ some (receipt_of i s)
        → validate_runtime_package_receipt (receipt_of i s) s.name i.version ≡ ok tt
        → installed_sha256 s.name i.version p ≡ ok (some i.expected_sha256)
    read_back p receipt valid =
        rw (receipt, installed_sha256)
          (ap (λ (m : Fallible (Unit {0})). m >>= λ _. ok (some i.expected_sha256)) valid)

    by_parts :
        (a : Fallible RuntimeInstallTransaction) (b : Fallible Package)
        → begin i s ≡ a
        → stage health_check i s ≡ b
        → go_on a b ≡ (next, ok t)
        → (p : Package) × IsRecorded health_check i s.name next p
    by_parts (err e) b begun staged h = refused e h
    by_parts (ok u) (err e) begun staged h = refused e h
    by_parts (ok u) (ok p) begun staged h =
        let (valid, safe, same) = begin-IsChecked i s u begun in
        let (_, version) = begin-IsBegun i s u begun in
        let (extracted, receipt, healthy) = stage-receipt health_check i s p staged in
        let (node, marker) = place_package-get i disk u t p s next h in
        (
          p,
          (
            subst (λ v. map_get v next.nodes ≡ some (installed p)) version node,
            extracted,
            healthy,
            read_back p receipt (receipt_of-valid i s valid safe),
            same,
            subst (λ v. map_get v next.markers ≡ none) version marker,
          ),
        )
