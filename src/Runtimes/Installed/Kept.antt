-- ===== src/Runtimes/Installed/Kept.antt =====
-- A replacement leaves the active version installed: crates/runtime/src/lib.rs.
use fabdev.Prelude.{
  ◌≡◌, refl, sym, ◌∙◌, subst, ◌⊎◌, inl, inr, Bool, true, false, not, ◌&&◌, Option, none, some,
  if◌then◌else◌, Bool-cases, Map, map_get, map_remove, map_insert, map_get-remove, map_get-insert,
  Text, text_eq, text_eq_refl, >>=-ok, ok, err,
}
use fabdev.Runtimes.Installed.{
  io, Package, Node, installed, link_name, Shelf, Fallible, validate_identifier, is_dir,
}
use fabdev.Runtimes.Installed.Replace.{
  Install, Disk, finishes, switched_to, RuntimeInstallTransaction, begin, stage, back_up, restore,
  rollback_runtime_install_transaction, commit_runtime_install_transaction, place_package,
  install_or_replace,
}
use fabdev.Runtimes.Installed.Restored.{Same, IsComplete, placed}
use fabdev.Runtimes.Installed.Outcome.{IsReversible, begin-IsBegun, install_or_replace-IsReversible}
use fabdev.Runtimes.Installed.Linked.{IsActiveValid, IsLinked}

module _ (t : RuntimeInstallTransaction) (s : Shelf) where
  abbrev moved : Bool → Option Node → Shelf
  moved b o =
      if b
      then elim o [
        | none ↦ s
        | some n ↦ record s {
          nodes = map_remove t.version s.nodes;
          backups = map_insert t.version n s.backups;
        }
      ]
      else s

  moved-keeps :
      (b : Bool) (o : Option Node)
      → ((moved b o).name ≡ s.name)
        × ((moved b o).active ≡ s.active)
        × ((v : Text)
            → text_eq t.version v ≡ false
            → map_get v (moved b o).nodes ≡ map_get v s.nodes)
  moved-keeps false o = (refl, refl, λ v d. refl)
  moved-keeps true none = (refl, refl, λ v d. refl)
  moved-keeps true (some n) = (refl, refl, λ v d. map_get-remove t.version v s.nodes ∙ rw d)

  back_up-keeps :
      ((back_up t s).name ≡ s.name)
      × ((back_up t s).active ≡ s.active)
      × ((v : Text)
          → text_eq t.version v ≡ false
          → map_get v (back_up t s).nodes ≡ map_get v s.nodes)
  unfolding back_up
  back_up-keeps = moved-keeps t.replaced (map_get t.version s.nodes)

  -- With the new package in its place, whether the link is switched or not.
  placed-IsLinked :
      (p : Package) (activate : Bool) (markers : Map Text)
      → validate_identifier t.version ≡ ok tt
      → text_eq t.version link_name ≡ false
      → IsLinked s
      → IsLinked (
          placed t p
            (if activate then some t.version else (back_up t s).active)
            markers
            (back_up t s))
  placed-IsLinked p activate markers valid apart (named, free, linked) = (
    rw back_up-keeps.0 named,
    rw (map_get-insert t.version link_name (installed p) (back_up t s).nodes, apart)
        (back_up-keeps.2 link_name apart ∙ free),
    by_activate activate,
  )
    where
      nodes : Map Node
      nodes = map_insert t.version (installed p) (back_up t s).nodes

      is_dir_at :
          (v : Text)
          → (is_dir (map_get v s.nodes) ≡ true) ⊎ (text_eq t.version v ≡ true)
          → is_dir (map_get v nodes) ≡ true
      is_dir_at v h = elim (Bool-cases (text_eq t.version v)) [
        | inl same ↦ rw (map_get-insert t.version v (installed p) (back_up t s).nodes, same)
        | inr differ ↦ elim h [
          | inl dir ↦
              rw (map_get-insert t.version v (installed p) (back_up t s).nodes, differ)
                (rw (back_up-keeps.2 v differ) dir)
          | inr same ↦ absurd (cc (same, differ))
        ]
      ]

      by_active :
          (a : Option Text)
          → IsActiveValid s a
          → IsActiveValid (placed t p a markers (back_up t s)) a
      by_active none h = tt
      by_active (some v) (ok_name, dir) = (ok_name, is_dir_at v (inl dir))

      by_activate :
          (b : Bool)
          → IsActiveValid
              (placed t p
                (if b then some t.version else (back_up t s).active)
                markers
                (back_up t s))
              (if b then some t.version else (back_up t s).active)
      by_activate true = (valid, is_dir_at t.version (inr (text_eq_refl t.version)))
      by_activate false =
          by_active (back_up t s).active (subst (IsActiveValid s) (sym back_up-keeps.1) linked)

begin-valid :
    (i : Install) (s : Shelf) (t : RuntimeInstallTransaction)
    → begin i s ≡ ok t
    → validate_identifier i.version ≡ ok tt
unfolding begin
begin-valid i s t h0 =
    let (_, _, h1) = >>=-ok (validate_identifier s.name) _ t h0 in
    let (_, valid, _) = >>=-ok (validate_identifier i.version) _ t h1 in valid

pub commit-IsLinked :
    (remains : Option Node) (t : RuntimeInstallTransaction) (s : Shelf)
    → IsLinked s
    → IsLinked (commit_runtime_install_transaction remains t s).0
unfolding commit_runtime_install_transaction
commit-IsLinked remains t s linked = by_cases (not t.replaced) remains
  where
    committed : Bool → Option Node → Shelf × Fallible (Unit {0})
    committed b o = if b then (s, ok tt) else elim o [
      | none ↦ (record s { backups = map_remove t.version s.backups }, ok tt)
      | some n ↦ (record s { backups = map_insert t.version n s.backups }, err io)
    ]

    by_cases : (b : Bool) (o : Option Node) → IsLinked (committed b o).0
    by_cases true o = linked
    by_cases false none = linked
    by_cases false (some n) = linked

abbrev pub IsKept : Shelf × Fallible RuntimeInstallTransaction → Type 0
IsKept (next, ok t) = IsLinked next
IsKept (next, err e) = Unit

place_package-IsKept :
    (i : Install) (disk : Disk) (t : RuntimeInstallTransaction) (p : Package) (s : Shelf)
    → validate_identifier t.version ≡ ok tt
    → text_eq t.version link_name ≡ false
    → IsLinked s
    → IsKept (place_package i disk t p s)
unfolding place_package
place_package-IsKept i disk t p s valid apart linked =
    by_disk (t.replaced && not disk.backs_up) (not disk.moves) (not (finishes i disk))
  where
    failed : Shelf
    failed =
        placed t p (switched_to i disk t.version (back_up t s).active) (back_up t s).markers
          (back_up t s)

    outcome : Bool → Bool → Bool → Shelf × Fallible RuntimeInstallTransaction
    outcome a b c =
        if a
        then (s, err io)
        else if b
        then (restore t disk.moves_back (back_up t s), err io)
        else if c
        then ((rollback_runtime_install_transaction disk.rollback t failed).0, err io)
        else (
          placed t p (if i.activate then some t.version else (back_up t s).active)
              (map_remove t.version (back_up t s).markers) (back_up t s),
          ok t,
        )

    by_disk : (a b c : Bool) → IsKept (outcome a b c)
    by_disk true b c = tt
    by_disk false true c = tt
    by_disk false false true = tt
    by_disk false false false =
        placed-IsLinked t s p i.activate (map_remove t.version (back_up t s).markers) valid apart
          linked

pub install_or_replace-IsKept :
    (health_check : Package → Fallible (Unit {0})) (i : Install) (disk : Disk) (s : Shelf)
    → text_eq i.version link_name ≡ false
    → IsLinked s
    → IsKept (install_or_replace health_check i disk s)
unfolding install_or_replace
install_or_replace-IsKept health_check i disk s apart linked = by_begin (begin i s) refl
  where
    go_on :
        Fallible RuntimeInstallTransaction
        → Fallible Package
        → Shelf × Fallible RuntimeInstallTransaction
    go_on a b = elim a [
      | err e ↦ (s, err e)
      | ok t ↦ elim b [ err e ↦ (s, err e) | ok p ↦ place_package i disk t p s ]
    ]

    by_stage :
        (t : RuntimeInstallTransaction)
        → validate_identifier t.version ≡ ok tt
        → text_eq t.version link_name ≡ false
        → (m : Fallible Package) → IsKept (go_on (ok t) m)
    by_stage t valid other (err e) = tt
    by_stage t valid other (ok p) = place_package-IsKept i disk t p s valid other linked

    by_begin :
        (m : Fallible RuntimeInstallTransaction)
        → begin i s ≡ m
        → IsKept (go_on m (stage health_check i s))
    by_begin (err e) h = tt
    by_begin (ok t) h =
        let same : i.version ≡ t.version = sym (begin-IsBegun i s t h).1 in
        by_stage t (subst (λ v. validate_identifier v ≡ ok tt) same (begin-valid i s t h))
          (subst (λ v. text_eq v link_name ≡ false) same apart) (stage health_check i s)

Same-IsLinked : (s t : Shelf) → Same s t → IsLinked s → IsLinked t
Same-IsLinked s t (name, active, nodes, backups, markers) (named, free, linked) =
    (rw name named, nodes link_name ∙ free, by_active t.active active)
  where
    by_active : (a : Option Text) → a ≡ s.active → IsActiveValid t a
    by_active none e = tt
    by_active (some v) e =
        let (valid, dir) : IsActiveValid s (some v) = subst (IsActiveValid s) (sym e) linked in
        (valid, rw (nodes v) dir)

-- The disk lets a backup move back and a rollback end.
abbrev pub IsRecoverable : Disk → Type 0
IsRecoverable disk = (disk.moves_back ≡ true) × IsComplete disk.rollback

pub replace-IsLinked :
    (health_check : Package → Fallible (Unit {0})) (i : Install) (disk : Disk) (s : Shelf)
    → text_eq i.version link_name ≡ false
    → IsRecoverable disk
    → IsLinked s
    → IsLinked (install_or_replace health_check i disk s).0
replace-IsLinked health_check i disk s apart (back, complete) linked =
    from (install_or_replace health_check i disk s)
      (install_or_replace-IsReversible health_check i disk s back complete)
      (install_or_replace-IsKept health_check i disk s apart linked)
  where
    from :
        (got : Shelf × Fallible RuntimeInstallTransaction)
        → IsReversible s got
        → IsKept got
        → IsLinked got.0
    from (next, err e) same kept = Same-IsLinked s next same linked
    from (next, ok t) same kept = kept
