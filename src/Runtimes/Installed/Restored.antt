-- ===== src/Runtimes/Installed/Restored.antt =====
-- What a failed or a rolled back replacement leaves: crates/runtime/src/lib.rs.
use fabdev.Prelude.{
  if◌then◌else◌, not, ◌&&◌, is_some, err, ok, Bool, ◌≡◌, refl, sym, ap, ◌∙◌, subst, inl, inr, true,
  false, Option, none, some, arith, Option-cases, Map, map_get, map_remove, map_insert,
  map_get-remove, map_get-insert, Text, text_eq_refl, text_eq_iff,
}
use fabdev.Runtimes.Installed.{Package, Fallible, io, installed, Node, Shelf}
use fabdev.Runtimes.Installed.Replace.{
  Rollback, rollback_runtime_install_transaction, RuntimeInstallTransaction, back_up, restore,
  put_marker,
}

-- Nothing that can be looked up differs.
abbrev pub Same : Shelf → Shelf → Type 0
Same s t =
    (t.name ≡ s.name)
    × (t.active ≡ s.active)
    × ((v : Text) → map_get v t.nodes ≡ map_get v s.nodes)
    × ((v : Text) → map_get v t.backups ≡ map_get v s.backups)
    × ((v : Text) → map_get v t.markers ≡ map_get v s.markers)

pub Same-refl : (s : Shelf) → Same s s
Same-refl s = (refl, refl, λ v. refl, λ v. refl, λ v. refl)

module _ {A : Type 0} (k : Text) (m : Map A) where
  remove-insert :
      (n : A) (v : Text)
      → map_get k m ≡ none
      → map_get v (map_remove k (map_insert k n m)) ≡ map_get v m
  remove-insert n v h =
      ground (arith, map_get-remove k v (map_insert k n m), map_get-insert k v n m, text_eq_iff k v)

  insert-remove :
      (n : A) (v : Text)
      → map_get k m ≡ some n
      → map_get v (map_insert k n (map_remove k m)) ≡ map_get v m
  insert-remove n v h =
      ground (arith, map_get-insert k v n (map_remove k m), map_get-remove k v m, text_eq_iff k v)

  remove-none : (v : Text) → map_get k m ≡ none → map_get v (map_remove k m) ≡ map_get v m
  remove-none v h = ground (arith, map_get-remove k v m, text_eq_iff k v)

  -- What stood there before comes back over what was placed.
  swap-back :
      (n x : A) (v : Text)
      → map_get k m ≡ some n
      → map_get v (map_insert k n (map_remove k (map_insert k x (map_remove k m)))) ≡ map_get v m
  swap-back n x v h = ground (
    arith,
    map_get-insert k v n (map_remove k (map_insert k x (map_remove k m))),
    map_get-remove k v (map_insert k x (map_remove k m)),
    map_get-insert k v x (map_remove k m),
    map_get-remove k v m,
    text_eq_iff k v,
  )

-- What `begin` found out.
abbrev pub IsBegun : RuntimeInstallTransaction → Shelf → Type 0
IsBegun t s =
    (map_get t.version s.backups ≡ none)
    × (t.replaced ≡ is_some (map_get t.version s.nodes))
    × (t.active_before ≡ s.active)
    × (t.removal_marker_before ≡ map_get t.version s.markers)

pub put_marker-get :
    (k : Text) (o : Option Text) (m : Map Text)
    → o ≡ map_get k m
    → (v : Text) → map_get v (put_marker k o (map_remove k m)) ≡ map_get v m
unfolding put_marker
put_marker-get k none m h v = remove-none k m v (sym h)
put_marker-get k (some c) m h v = insert-remove k m c v (sym h)

pub put_marker-kept :
    (k : Text) (o : Option Text) (m : Map Text)
    → o ≡ map_get k m
    → (v : Text) → map_get v (put_marker k o m) ≡ map_get v m
unfolding put_marker
put_marker-kept k none m h v = refl
put_marker-kept k (some c) m h v = ground (arith, map_get-insert k v c m, text_eq_iff k v)

-- A rollback of which every step succeeds.
unfoldable pub undo : RuntimeInstallTransaction → Shelf → Shelf
unfolding map_remove restore put_marker
undo t s =
    let old = restore t true (record s { nodes = map_remove t.version s.nodes }) in
    record old {
      active = t.active_before;
      markers = put_marker t.version t.removal_marker_before old.markers;
    }

abbrev pub IsComplete : Rollback → Type 0
IsComplete u =
    (u.remains ≡ none)
    × (u.moves_back ≡ true)
    × (u.clears_staging ≡ true)
    × (u.switches ≡ true)
    × (u.writes_marker ≡ true)

-- A rollback of which every step succeeds returns so, and one that returns so has taken every step that
-- there was to take.
module _ (t : RuntimeInstallTransaction) (s : Shelf) where
  steps : Option Package → (a b c d : Bool) → Shelf × Fallible (Unit {0})
  unfolding restore put_marker map_remove map_insert
  steps o a b c d =
      let cleared = record s { nodes = map_remove t.version s.nodes } in
      let old = restore t true cleared in
      let switched = record old { active = t.active_before } in
      let marked = record switched {
        markers = put_marker t.version t.removal_marker_before switched.markers;
      } in
      elim o [
        | some p ↦ (record s { nodes = map_insert t.version (installed p) s.nodes }, err io)
        | none ↦
            if a
            then (cleared, err io)
            else if b
            then (old, err io)
            else if c
            then (old, err io)
            else if d
            then (switched, err io)
            else (marked, ok tt)
      ]

  steps-undo :
      (o : Option Package) (a b c d : Bool)
      → (steps o a b c d).1 ≡ ok tt
      → (steps o a b c d).0 ≡ undo t s
  unfolding steps undo
  steps-undo (some p) a b c d h = cc
  steps-undo none true b c d h = cc
  steps-undo none false true c d h = cc
  steps-undo none false false true d h = cc
  steps-undo none false false false true h = cc
  steps-undo none false false false false h = refl

  pub rollback-undo :
      (u : Rollback)
      → (rollback_runtime_install_transaction u t s).1 ≡ ok tt
      → (rollback_runtime_install_transaction u t s).0 ≡ undo t s
  unfolding rollback_runtime_install_transaction steps
  rollback-undo u h =
      steps-undo u.remains (t.replaced && not u.moves_back) (not u.clears_staging) (not u.switches)
        (is_some t.removal_marker_before && not u.writes_marker) h

  steps_complete : (a d : Bool) → (steps none (a && false) false false (d && false)).1 ≡ ok tt
  unfolding steps
  steps_complete true true = refl
  steps_complete true false = refl
  steps_complete false true = refl
  steps_complete false false = refl

  pub rollback_complete :
      (u : Rollback) → IsComplete u → (rollback_runtime_install_transaction u t s).1 ≡ ok tt
  unfolding rollback_runtime_install_transaction steps
  rollback_complete u (gone, back, staging, link, marker) =
      rw (gone, back, staging, link, marker, rollback_runtime_install_transaction)
        (steps_complete t.replaced (is_some t.removal_marker_before))

module _ (t : RuntimeInstallTransaction) where
  pub back_up-new : (s : Shelf) → t.replaced ≡ false → back_up t s ≡ s
  unfolding back_up
  back_up-new s h = rw (h, back_up)

  abbrev backed : Node → Shelf → Shelf
  backed n s = record s {
    nodes = map_remove t.version s.nodes;
    backups = map_insert t.version n s.backups;
  }

  pub back_up-old :
      (s : Shelf) (n : Node)
      → t.replaced ≡ true
      → map_get t.version s.nodes ≡ some n
      → back_up t s ≡ backed n s
  unfolding back_up
  back_up-old s n h found = rw (h, back_up) (rw found)

  restore-new : (s : Shelf) (b : Bool) → t.replaced ≡ false → restore t b s ≡ s
  unfolding restore
  restore-new s b h = rw (h, restore)

  restore-old :
      (s : Shelf) (n : Node)
      → t.replaced ≡ true
      → map_get t.version s.backups ≡ some n
      → restore t true s ≡ record s {
        nodes = map_insert t.version n s.nodes;
        backups = map_remove t.version s.backups;
      }
  unfolding restore
  restore-old s n h found = rw (h, restore) (rw found)

  -- The end of a rollback.
  abbrev undone : Shelf → Shelf
  undone old = record old {
    active = t.active_before;
    markers = put_marker t.version t.removal_marker_before old.markers;
  }

  -- The new package in its place, whatever became of the link and of the markers.
  abbrev pub placed : Package → Option Text → Map Text → Shelf → Shelf
  placed p active markers s = record s {
    nodes = map_insert t.version (installed p) s.nodes;
    active = active;
    markers = markers;
  }

  rollback-new :
      (s : Shelf) (p : Package) (active : Option Text) (markers : Map Text)
      → IsBegun t s
      → map_get t.version s.nodes ≡ none
      → ((v : Text)
          → map_get v (put_marker t.version t.removal_marker_before markers) ≡ map_get v s.markers)
      → Same s (undo t (placed p active markers (back_up t s)))
  unfolding undo
  rollback-new s p active markers (clean, replaced, before, marker) missing marked =
      let kept : t.replaced ≡ false = rw missing at replaced in
      let start = placed p active markers s in
      let cleared : Shelf = record start { nodes = map_remove t.version start.nodes } in
      subst (λ x. Same s (undo t (placed p active markers x))) (sym (back_up-new s kept))
        (subst (λ x. Same s (undone x)) (sym (restore-new cleared true kept))
          (
            refl,
            before,
            λ v. remove-insert t.version s.nodes (installed p) v missing,
            λ v. refl,
            marked,
          ))

  rollback-old :
      (s : Shelf) (p : Package) (n : Node) (active : Option Text) (markers : Map Text)
      → IsBegun t s
      → map_get t.version s.nodes ≡ some n
      → ((v : Text)
          → map_get v (put_marker t.version t.removal_marker_before markers) ≡ map_get v s.markers)
      → Same s (undo t (placed p active markers (back_up t s)))
  unfolding undo
  rollback-old s p n active markers (clean, replaced, before, marker) found marked =
      let moved : t.replaced ≡ true = rw found at replaced in
      let start = placed p active markers (backed n s) in
      let cleared : Shelf = record start { nodes = map_remove t.version start.nodes } in
      let stored : map_get t.version cleared.backups ≡ some n =
        map_get-insert t.version t.version n s.backups ∙ rw (text_eq_refl t.version) in
      subst (λ x. Same s (undo t (placed p active markers x))) (sym (back_up-old s n moved found))
        (subst (λ x. Same s (undone x)) (sym (restore-old cleared n moved stored))
          (
            refl,
            before,
            λ v. swap-back t.version s.nodes n (installed p) v found,
            λ v. remove-insert t.version s.backups n v clean,
            marked,
          ))

  pub rollback-Same :
      (s : Shelf) (p : Package) (active : Option Text) (markers : Map Text)
      → IsBegun t s
      → ((v : Text)
          → map_get v (put_marker t.version t.removal_marker_before markers) ≡ map_get v s.markers)
      → Same s (undo t (placed p active markers (back_up t s)))
  rollback-Same s p active markers begun marked = elim (Option-cases (map_get t.version s.nodes)) [
    | inl missing ↦ rollback-new s p active markers begun missing marked
    | inr (n, found) ↦ rollback-old s p n active markers begun found marked
  ]

  pub restore-Same : (s : Shelf) → IsBegun t s → Same s (restore t true (back_up t s))
  restore-Same s (clean, replaced, before, marker) =
      elim (Option-cases (map_get t.version s.nodes)) [
        | inl missing ↦
            let kept : t.replaced ≡ false = rw missing at replaced in
            subst (Same s)
              (sym (ap (restore t true) (back_up-new s kept) ∙ restore-new s true kept))
              (Same-refl s)
        | inr (n, found) ↦
            let moved : t.replaced ≡ true = rw found at replaced in
            let stored : map_get t.version (map_insert t.version n s.backups) ≡ some n =
              map_get-insert t.version t.version n s.backups ∙ rw (text_eq_refl t.version) in
            subst (Same s)
              (sym (
                ap (restore t true) (back_up-old s n moved found)
                ∙ restore-old (backed n s) n moved stored))
              (
                refl,
                refl,
                λ v. insert-remove t.version s.nodes n v found,
                λ v. remove-insert t.version s.backups n v clean,
                λ v. refl,
              )
      ]
