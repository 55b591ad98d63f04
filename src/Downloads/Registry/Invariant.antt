-- ===== src/Downloads/Registry/Invariant.antt =====
-- The invariant of the registry of crates/agent/src/main.rs, and that every call keeps it.
use fabdev.Prelude.{
  ℕ, ◌≤◌, ◌<◌, ◌≡◌, refl, inl, inr, true, false, not, Option, List, arith, ◌==◌, if◌then◌else◌,
  Bool-cases, All, length, any, length-retain-le, retain-All, Pairs, All-map, All-both, All-map-imp,
  Pairs-map, length-map, Text,
}
use fabdev.Downloads.Task
use fabdev.Downloads.Task.{is_active, is_installing}
use fabdev.Downloads.Registry.{
  Entry, Manager, Artifact, queue, queue_entry, insert, prune, modify, status_of, is_kept, shutdown,
  cancel_entry, install_entry, max_runtime_update_operations, init,
}
use fabdev.Downloads.Registry.Calls.{Call, run, work_entry, holds_install}
use fabdev.Downloads.Registry.Cases.{CanAdd, Keeps, settle, run_keeps, with_operations}
use fabdev.Downloads.Registry.Entries.{
  IsSound, Sound, act-IsSound, cancel-IsSound, install-IsSound, settle-IsSound, queue_entry-IsSound,
  modify-All,
}
use fabdev.Downloads.Registry.Apart.{
  Apart, Calm, Calm-Apart, cancel-Calm, settle-Calm, act-Calm, modify-Calm, modify-install,
  prune-Pairs, prune-All, insert-Pairs, holds-All,
}

abbrev pub IsIdle : Entry → Type 0
IsIdle e = is_active (status_of e) ≡ false

pub record IsValid (m : Manager) : Type 0 where
  pub sound : Sound m.operations
  pub apart : Pairs Apart m.operations
  pub bounded : length m.operations ≤ max_runtime_update_operations
  pub closed : m.shutting_down ≡ true → All IsIdle m.operations

length-modify : (id : ℕ) (f : Entry → Entry) (es : List Entry) → length (modify id f es) ≡ length es
unfolding modify
length-modify id f es = length-map _ es

length-prune-le : (es : List Entry) → length (prune es) ≤ length es
unfolding prune
length-prune-le es = ground (arith, length-retain-le is_kept es)

cancel-IsIdle : (e : Entry) → IsIdle (cancel_entry e)
unfolding Task.cancel is_active
cancel-IsIdle e = ground arith

Calm-IsIdle : (e f : Entry) → Calm e f → IsIdle e → IsIdle f
Calm-IsIdle e f c h = ground (arith, c.active)

modify-IsIdle :
    (f : Entry → Entry) (id : ℕ) (es : List Entry)
    → ((e : Entry) → IsSound e → Calm e (f e))
    → Sound es
    → All IsIdle es
    → All IsIdle (modify id f es)
unfolding modify
modify-IsIdle f id es calm v h =
    All-map-imp (λ e. IsSound e × IsIdle e) IsIdle _ edit es (All-both IsSound IsIdle es v h)
  where
    edit : (e : Entry) → IsSound e × IsIdle e → IsIdle (if e.id == id then f e else e)
    edit e p = elim (Bool-cases (e.id == id)) [
      | inl same ↦ rw same (Calm-IsIdle e (f e) (calm e p.0) p.1)
      | inr other ↦ rw other p.1
    ]

-- A change that keeps each task sound and calm keeps the invariant.
modify-IsValid :
    (f : Entry → Entry) (id : ℕ) (m : Manager)
    → ((e : Entry) → IsSound e → Calm e (f e))
    → Sound (modify id f m.operations)
    → IsValid m
    → IsValid (with_operations m (modify id f m.operations))
modify-IsValid f id m calm sound v = record {
  sound = sound;
  apart = modify-Calm f id m.operations calm v.sound v.apart;
  bounded = omega (arith, length-modify id f m.operations, v.bounded);
  closed = λ shut. modify-IsIdle f id m.operations calm v.sound (v.closed shut);
}

insert-Sound :
    (id : ℕ) (a : Artifact) (m : Manager)
    → IsValid m
    → Sound (insert (queue_entry (queue id a)) (prune m.operations))
unfolding insert
insert-Sound id a m v = (
  queue_entry-IsSound id a,
  retain-All IsSound _ (prune m.operations) (prune-All IsSound m.operations v.sound),
)

insert-bounded :
    (e : Entry) (es : List Entry)
    → length es < max_runtime_update_operations
    → length (insert e es) ≤ max_runtime_update_operations
unfolding insert
insert-bounded e es h = omega (arith, length-retain-le (λ x. not (x.id == e.id)) es)

added-IsValid :
    (id : ℕ) (a : Artifact) (m : Manager)
    → CanAdd id a m
    → IsValid m
    → IsValid (with_operations m (insert (queue_entry (queue id a)) (prune m.operations)))
added-IsValid id a m c v = record {
  sound = insert-Sound id a m v;
  apart = insert-Pairs id a m.operations c.1 v.apart;
  bounded = insert-bounded _ (prune m.operations) c.2;
  closed = λ shut. cc (c.0, shut);
}

pruned-IsValid : (m : Manager) → IsValid m → IsValid (with_operations m (prune m.operations))
pruned-IsValid m v = record {
  sound = prune-All IsSound m.operations v.sound;
  apart = prune-Pairs m.operations v.apart;
  bounded = omega (arith, length-prune-le m.operations, v.bounded);
  closed = λ shut. prune-All IsIdle m.operations (v.closed shut);
}

install-IsIdle : (e : Entry) → IsIdle e → IsIdle (install_entry e)
unfolding Task.begin_install is_active
install-IsIdle e h = ground arith

installed-IsValid :
    (id : ℕ) (m : Manager)
    → any (λ x. is_installing (status_of x)) m.operations ≡ false
    → IsValid m
    → IsValid (with_operations m (modify id install_entry m.operations))
installed-IsValid id m none_yet v = record {
  sound = modify-All IsSound install_entry id m.operations install-IsSound v.sound;
  apart = modify-install id m.operations none_yet v.apart;
  bounded = omega (arith, length-modify id install_entry m.operations, v.bounded);
  closed = λ shut. modify-All IsIdle install_entry id m.operations install-IsIdle (v.closed shut);
}

settled-Sound :
    (id : ℕ) (error : Option Text) (m : Manager)
    → any (holds_install id) m.operations ≡ true
    → IsValid m
    → Sound (modify id (settle error) m.operations)
unfolding modify
settled-Sound id error m held v =
    All-map-imp (λ e. IsSound e × ((e.id == id) ≡ true → is_installing (status_of e) ≡ true))
      IsSound _ edit m.operations
      (All-both IsSound _ m.operations v.sound (holds-All id m.operations v.apart held))
  where
    edit :
        (e : Entry)
        → IsSound e × ((e.id == id) ≡ true → is_installing (status_of e) ≡ true)
        → IsSound (if e.id == id then settle error e else e)
    edit e p = elim (Bool-cases (e.id == id)) [
      | inl same ↦ rw same (settle-IsSound error e (p.1 same) p.0)
      | inr other ↦ rw other p.0
    ]

shut-IsValid : (m : Manager) → IsValid m → IsValid (shutdown m)
unfolding shutdown
shut-IsValid m v = record {
  sound = All-map IsSound cancel_entry cancel-IsSound m.operations v.sound;
  apart =
      Pairs-map IsSound Apart Apart cancel_entry
        (λ x y p q r. Calm-Apart x y _ _ (cancel-Calm x) (cancel-Calm y) r) m.operations v.sound
        v.apart;
  bounded = omega (arith, length-map cancel_entry m.operations, v.bounded);
  closed =
      λ shut. All-map-imp IsSound IsIdle cancel_entry (λ e p. cancel-IsIdle e) m.operations v.sound;
}

pub IsValid-Keeps : Keeps IsValid
IsValid-Keeps = record {
  same = λ m v. v;
  pruned = pruned-IsValid;
  added = λ id a m n. added-IsValid id a m;
  cancelled = λ id m v.
      modify-IsValid cancel_entry id m (λ e p. cancel-Calm e)
        (modify-All IsSound cancel_entry id m.operations cancel-IsSound v.sound) v;
  installed = installed-IsValid;
  settled = λ id error m held v.
      modify-IsValid (settle error) id m (λ e p. settle-Calm error e)
        (settled-Sound id error m held v) v;
  worked = λ id a m v.
      modify-IsValid (work_entry a) id m (λ e p. act-Calm a e.worker e refl p)
        (modify-All IsSound (work_entry a) id m.operations (λ e p. act-IsSound a e.worker e refl p)
          v.sound)
        v;
  shut = shut-IsValid;
}

init-IsValid : IsValid init
init-IsValid = record { sound = tt; apart = tt; bounded = omega arith; closed = λ h. tt }

pub run-IsValid : (cs : List Call) → IsValid (run init cs)
run-IsValid cs = run_keeps IsValid-Keeps init cs init-IsValid
