-- ===== src/Runtimes/Installed/Active.antt =====
-- The active version is always an installed one: crates/runtime/src/lib.rs.
use fabdev.Prelude.{
  ℕ, ◌≡◌, refl, sym, ap, ◌∙◌, subst, inl, inr, Bool, true, false, Option, none, some, List, [], ◌∷◌,
  if◌then◌else◌, All, Bool-cases, map_get, map_remove, map_get-remove, Text, text_eq, text_eq_sym,
  ◌>>◌, ok, err,
}
use fabdev.Runtimes.Installed
use fabdev.Runtimes.Installed.{
  link_name, Shelf, Fallible, validate_identifier, is_dir, active_version, set_active_version,
  deactivate_runtime, is_version, remove_installed_version, mark_runtime_removed,
  clear_runtime_removal_marker, Package, Node,
}
use fabdev.Runtimes.Installed.Linked.{
  free-IsLinked, IsActiveValid, IsLinked, active_version-IsLinked,
}
use fabdev.Runtimes.Installed.Kept.{IsRecoverable, replace-IsLinked, commit-IsLinked}
use fabdev.Runtimes.Installed.Replace.{
  Install, Disk, RuntimeInstallTransaction, install_or_replace, commit_runtime_install_transaction,
}
use fabdev.Runtimes.Installed.Fresh.{install_tar_gz, record_runtime_package_receipt}
use fabdev.Runtimes.Installed.Filled.{install-IsLinked, record-IsLinked}

-- What the program does to a shelf, but for the rollback of a successful replacement, in any order.
pub data Operation : Type 0 where
  set_active remove mark clear : Text → Operation
  deactivate : Operation
  install :
      (Package → Fallible (Unit {0}))
      → Install
      → (moves clears_staging switches clears_marker : Bool) → Operation
  record_receipt : Text → Text → ℕ → Operation
  replace : (Package → Fallible (Unit {0})) → Install → Disk → Operation
  commit : Option Node → RuntimeInstallTransaction → Operation

unfoldable pub perform : Operation → Shelf → Shelf
unfolding set_active_version remove_installed_version mark_runtime_removed
    clear_runtime_removal_marker deactivate_runtime install_tar_gz record_runtime_package_receipt
    install_or_replace commit_runtime_install_transaction
perform (set_active version) s = (set_active_version version s).0
perform (remove version) s = (remove_installed_version version s).0
perform (mark version) s = (mark_runtime_removed version s).0
perform (clear version) s = (clear_runtime_removal_marker version s).0
perform deactivate s = (deactivate_runtime s).0
perform (install health_check i moves clears_staging switches clears_marker) s =
    (install_tar_gz health_check i moves clears_staging switches clears_marker s).0
perform (record_receipt version sha256 sequence) s =
    (record_runtime_package_receipt version sha256 sequence s).0
perform (replace health_check i disk) s = (install_or_replace health_check i disk s).0
perform (commit remains t) s = (commit_runtime_install_transaction remains t s).0

-- It does not give a version the name of the link, and what it takes back can be taken back.
abbrev pub IsOrderly : Operation → Type 0
IsOrderly (install health_check i moves clears_staging switches clears_marker) =
    text_eq i.version link_name ≡ false
IsOrderly (record_receipt version sha256 sequence) = text_eq version link_name ≡ false
IsOrderly (set_active version) = Unit
IsOrderly (remove version) = Unit
IsOrderly (mark version) = Unit
IsOrderly (clear version) = Unit
IsOrderly deactivate = Unit
IsOrderly (replace health_check i disk) = (text_eq i.version link_name ≡ false) × IsRecoverable disk
IsOrderly (commit remains t) = Unit

unfoldable pub perform_all : List Operation → Shelf → Shelf
unfolding perform
perform_all [] s = s
perform_all (o ∷ os) s = perform_all os (perform o s)

set_active-IsLinked :
    (version : Text) (s : Shelf) → IsLinked s → IsLinked (set_active_version version s).0
unfolding set_active_version
set_active-IsLinked version s (named, free, h) = by_name (validate_identifier version) refl
  where
    by_name :
        (m : Fallible (Unit {0}))
        → validate_identifier version ≡ m
        → IsLinked (set_active_version version s).0
    by_name (err e) bad = rw (named, bad, set_active_version, IsLinked) (named, free, h)
    by_name (ok x) good = elim (Bool-cases (is_dir (map_get version s.nodes))) [
      | inl dir ↦
          rw (named, good, set_active_version, IsLinked)
            (rw (dir, free-IsLinked s free, IsLinked) (named, free, (good, dir)))
      | inr no_dir ↦
          rw (named, good, set_active_version, IsLinked) (rw (no_dir, IsLinked) (named, free, h))
    ]

deactivate-IsLinked : (s : Shelf) → IsLinked s → IsLinked (deactivate_runtime s).0
unfolding deactivate_runtime
deactivate-IsLinked s linked = by_active s.active (active_version-IsLinked s linked)
  where
    by_active : (a : Option Text) → active_version s ≡ ok a → IsLinked (deactivate_runtime s).0
    by_active none e = rw (e, deactivate_runtime, IsLinked) linked
    by_active (some v) e = rw (e, deactivate_runtime, IsLinked) (linked.0, linked.1, tt)

-- Removing another version leaves the active one.
remove-IsActiveValid :
    (version : Text) (s : Shelf) (a : Option Text)
    → is_version version a ≡ false
    → IsActiveValid s a
    → IsActiveValid (record s { nodes = map_remove version s.nodes }) a
remove-IsActiveValid version s none differs h = tt
remove-IsActiveValid version s (some v) differs (valid, dir) =
    let apart : text_eq version v ≡ false = rw (text_eq_sym version v) differs in
    (valid, rw (map_get-remove version v s.nodes, apart) dir)

remove-IsLinked :
    (version : Text) (s : Shelf) → IsLinked s → IsLinked (remove_installed_version version s).0
unfolding remove_installed_version
remove-IsLinked version s linked = by_name (validate_identifier version) refl
  where
    found : active_version s ≡ ok s.active
    found = active_version-IsLinked s linked

    by_name :
        (m : Fallible (Unit {0}))
        → validate_identifier version ≡ m
        → IsLinked (remove_installed_version version s).0
    by_name (err e) bad = rw (linked.0, bad, remove_installed_version, IsLinked) linked
    by_name (ok x) good =
        subst (λ m. IsLinked (go_on m).0) (sym (chain_eq good))
          (by_tests (is_version version s.active) (is_dir (map_get version s.nodes)) refl)
      where
        outcome : Bool → Bool → Shelf × Fallible (Unit {0})
        outcome same dir =
            if same
            then (s, err (Installed.active_runtime version))
            else if dir
            then (record s { nodes = map_remove version s.nodes }, ok tt)
            else (s, err (Installed.not_installed version))

        go_on : Fallible (Option Text) → Shelf × Fallible (Unit {0})
        go_on m = elim m [
          | err e ↦ (s, err e)
          | ok active ↦ outcome (is_version version active) (is_dir (map_get version s.nodes))
        ]

        chain_eq :
            validate_identifier version ≡ ok tt
            → (validate_identifier s.name >> validate_identifier version >> active_version s)
              ≡ ok s.active
        chain_eq good =
            ap (λ (m : Fallible (Unit {0})). m >> validate_identifier version >> active_version s)
              linked.0
            ∙ ap (λ (m : Fallible (Unit {0})). m >> active_version s) good
            ∙ found

        removed-free : map_get link_name (map_remove version s.nodes) ≡ none
        removed-free = elim (Bool-cases (text_eq version link_name)) [
          | inl same ↦ rw (map_get-remove version link_name s.nodes, same)
          | inr differs ↦ rw (map_get-remove version link_name s.nodes, differs) linked.1
        ]

        by_tests :
            (same dir : Bool) → is_version version s.active ≡ same → IsLinked (outcome same dir).0
        by_tests true dir e = linked
        by_tests false true e =
            (linked.0, removed-free, remove-IsActiveValid version s s.active e linked.2)
        by_tests false false e = linked

mark-IsLinked :
    (version : Text) (s : Shelf) → IsLinked s → IsLinked (mark_runtime_removed version s).0
unfolding mark_runtime_removed
mark-IsLinked version s linked = by_name (validate_identifier version) refl
  where
    by_name :
        (m : Fallible (Unit {0}))
        → validate_identifier version ≡ m
        → IsLinked (mark_runtime_removed version s).0
    by_name (err e) bad = rw (linked.0, bad, mark_runtime_removed, IsLinked) linked
    by_name (ok x) good = rw (linked.0, good, mark_runtime_removed, IsLinked) linked

clear-IsLinked :
    (version : Text) (s : Shelf) → IsLinked s → IsLinked (clear_runtime_removal_marker version s).0
unfolding clear_runtime_removal_marker
clear-IsLinked version s linked = by_name (validate_identifier version) refl
  where
    by_name :
        (m : Fallible (Unit {0}))
        → validate_identifier version ≡ m
        → IsLinked (clear_runtime_removal_marker version s).0
    by_name (err e) bad = rw (linked.0, bad, clear_runtime_removal_marker, IsLinked) linked
    by_name (ok x) good = rw (linked.0, good, clear_runtime_removal_marker, IsLinked) linked

perform-IsLinked : (o : Operation) (s : Shelf) → IsOrderly o → IsLinked s → IsLinked (perform o s)
unfolding perform
perform-IsLinked (set_active version) s apart linked = set_active-IsLinked version s linked
perform-IsLinked (remove version) s apart linked = remove-IsLinked version s linked
perform-IsLinked (mark version) s apart linked = mark-IsLinked version s linked
perform-IsLinked (clear version) s apart linked = clear-IsLinked version s linked
perform-IsLinked deactivate s apart linked = deactivate-IsLinked s linked
perform-IsLinked (install health_check i moves clears_staging switches clears_marker) s apart
      linked =
    install-IsLinked health_check i moves clears_staging switches clears_marker s apart linked
perform-IsLinked (record_receipt version sha256 sequence) s apart linked =
    record-IsLinked version sha256 sequence s apart linked
perform-IsLinked (replace health_check i disk) s apart linked =
    replace-IsLinked health_check i disk s apart.0 apart.1 linked
perform-IsLinked (commit remains t) s apart linked = commit-IsLinked remains t s linked

perform_all-IsLinked :
    (os : List Operation) (s : Shelf) → All IsOrderly os → IsLinked s → IsLinked (perform_all os s)
unfolding perform_all
perform_all-IsLinked [] s apart linked = linked
perform_all-IsLinked (o ∷ os) s (apart, rest) linked =
    perform_all-IsLinked os (perform o s) rest (perform-IsLinked o s apart linked)

-- From a shelf of a valid name whose active version, if any, is an installed one of a valid name, and
-- where no directory has the name of the link: after any operations but the rollback of a successful
-- replacement, whether they succeed or fail, none of which gives a version the name `current`, and where a
-- replacement that fails can move its backup back and end its rollback, `active_version` succeeds with what
-- the link names, and that is again an installed version of a valid name.
pub active_version-perform_all :
    (os : List Operation) (s : Shelf)
    → All IsOrderly os
    → IsLinked s
    → (active_version (perform_all os s) ≡ ok (perform_all os s).active)
      × IsLinked (perform_all os s)
active_version-perform_all os s apart linked =
    let after = perform_all-IsLinked os s apart linked in
    (active_version-IsLinked (perform_all os s) after, after)
