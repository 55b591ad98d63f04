-- ===== src/Downloads/Registry/Cases.antt =====
-- The writes to the registry that crates/agent/src/main.rs makes, one by one: a property of the
-- manager that each of them keeps is kept by every call and by every history of calls.
use fabdev.Prelude.{
  ℕ, ◌<◌, ◌≡◌, inl, inr, true, false, Option, List, arith, leb, Bool-cases, Option-cases, length,
  any, find, Text,
}
use fabdev.Downloads.Task.{is_installing, set_status}
use fabdev.Downloads.Registry.{
  Entry, Manager, Artifact, status_of, is_duplicate, is_pending_cleanup, modify, insert,
  queue_entry, prune, queue, register, start, cancel, begin_install, finish_install, shutdown,
  cancel_entry, install_entry, finish_status, lookup, max_runtime_update_operations,
}
use fabdev.Downloads.Registry.Calls.{
  Action, Call, starts, cancels, begins_install, finishes_install, shuts_down, works, step, run,
  run_induction, work_entry, holds_install,
}

abbrev pub with_operations : Manager → List Entry → Manager
with_operations m es = record m { operations = es }

abbrev pub settle : Option Text → Entry → Entry
settle error x = record x { task = set_status (finish_status error) error x.task }

abbrev pub CanAdd : ℕ → Artifact → Manager → Type 0
CanAdd id a m =
    (m.shutting_down ≡ false)
    × (any (is_duplicate (queue id a)) m.operations ≡ false)
    × (length (prune m.operations) < max_runtime_update_operations)

-- `R` covers each write from a manager with `Q`; only keys with `New` are registered.
pub record Covers {ℓ κ} (New : ℕ → Type 0) (Q : Manager → Type ℓ) (R : Manager → Manager → Type κ)
    : Type (ℓ ⊔ κ) where
  pub same : (m : Manager) → Q m → R m m
  pub pruned : (m : Manager) → Q m → R m (with_operations m (prune m.operations))
  pub added :
      (id : ℕ) (a : Artifact) (m : Manager)
      → New id
      → CanAdd id a m
      → Q m
      → R m (with_operations m (insert (queue_entry (queue id a)) (prune m.operations)))
  pub cancelled :
      (id : ℕ) (m : Manager) → Q m → R m (with_operations m (modify id cancel_entry m.operations))
  pub installed :
      (id : ℕ) (m : Manager)
      → any (λ x. is_installing (status_of x)) m.operations ≡ false
      → Q m
      → R m (with_operations m (modify id install_entry m.operations))
  pub settled :
      (id : ℕ) (error : Option Text) (m : Manager)
      → any (holds_install id) m.operations ≡ true
      → Q m
      → R m (with_operations m (modify id (settle error) m.operations))
  pub worked :
      (id : ℕ) (a : Action) (m : Manager)
      → Q m
      → R m (with_operations m (modify id (work_entry a) m.operations))
  pub shut : (m : Manager) → Q m → R m (shutdown m)

abbrev pub Registers : (ℕ → Type 0) → Call → Type 0
Registers New (starts id a) = New id
Registers New _ = Unit

module _ {ℓ κ} {New : ℕ → Type 0} {Q : Manager → Type ℓ} {R : Manager → Manager → Type κ}
    (k : Covers New Q R) (m : Manager) (h : Q m) where
  register_covers :
      (id : ℕ) (a : Artifact)
      → New id
      → m.shutting_down ≡ false
      → any (is_duplicate (queue id a)) m.operations ≡ false
      → R m (register (queue id a) m).0
  unfolding register
  register_covers id a n s d =
      elim (Bool-cases (leb max_runtime_update_operations (length (prune m.operations)))) [
        | inl full ↦ rw full (k.pruned m h)
        | inr room ↦ rw room (k.added id a m n (s, d, ground arith) h)
      ]

  start_covers : (id : ℕ) (a : Artifact) → New id → R m (start id a m).0
  unfolding start
  start_covers id a n = elim (Bool-cases m.shutting_down) [
    | inl shut ↦ simp shut (k.same m h)
    | inr open_ ↦ elim (Option-cases (find (is_pending_cleanup (queue id a)) m.operations)) [
      | inr (e, waiting) ↦ simp (open_, waiting) (k.same m h)
      | inl clear ↦ elim (Bool-cases (any (is_duplicate (queue id a)) m.operations)) [
        | inl dup ↦ simp (open_, clear, dup) (k.same m h)
        | inr fresh ↦ simp (open_, clear, fresh) (register_covers id a n open_ fresh)
      ]
    ]
  ]

  cancel_covers : (id : ℕ) → R m (cancel id m).0
  unfolding cancel
  cancel_covers id = elim (Option-cases (lookup id m.operations)) [
    | inl gone ↦ rw (gone, cancel) (k.same m h)
    | inr (e, here) ↦ rw (here, cancel) (k.cancelled id m h)
  ]

  begin_install_covers : (id : ℕ) → R m (begin_install id m).0
  unfolding begin_install
  begin_install_covers id = elim (Option-cases (lookup id m.operations)) [
    | inl gone ↦ rw (gone, begin_install) (k.same m h)
    | inr (e, here) ↦ elim (Bool-cases (any (λ x. is_installing (status_of x)) m.operations)) [
      | inl taken ↦ rw (here, taken, begin_install) (k.same m h)
      | inr free ↦ rw (here, free, begin_install) (k.installed id m free h)
    ]
  ]

  finish_install_covers :
      (id : ℕ) (error : Option Text)
      → any (holds_install id) m.operations ≡ true
      → R m (finish_install id error m).0
  unfolding finish_install
  finish_install_covers id error held = elim (Option-cases (lookup id m.operations)) [
    | inl gone ↦ rw (gone, finish_install) (k.same m h)
    | inr (e, here) ↦ rw (here, finish_install) (k.settled id error m held h)
  ]

pub step_covers {ℓ κ} :
    {New : ℕ → Type 0} {Q : Manager → Type ℓ} {R : Manager → Manager → Type κ} (k : Covers New Q R)
    (m : Manager) (c : Call)
    → Registers New c
    → Q m
    → R m (step m c)
unfolding step
step_covers k m (starts id a) n h = start_covers k m h id a n
step_covers k m (cancels id) n h = cancel_covers k m h id
step_covers k m (begins_install id) n h = begin_install_covers k m h id
step_covers k m (finishes_install id error) n h =
    elim (Bool-cases (any (holds_install id) m.operations)) [
      | inl held ↦ rw held (finish_install_covers k m h id error held)
      | inr idle ↦ rw idle (k.same m h)
    ]
step_covers k m shuts_down n h = k.shut m h
step_covers k m (works id a) n h = k.worked id a m h

-- A property that each write keeps.
abbrev pub Keeps {ℓ} : (Manager → Type ℓ) → Type ℓ
Keeps P = Covers (λ id. Unit) P (λ m m'. P m')

pub step_keeps {ℓ} :
    {P : Manager → Type ℓ} (k : Keeps P) (m : Manager) (c : Call) → P m → P (step m c)
step_keeps k m (starts id a) h = step_covers k m (starts id a) tt h
step_keeps k m c h = step_covers k m c tt h

pub run_keeps {ℓ} :
    {P : Manager → Type ℓ} (k : Keeps P) (m : Manager) (cs : List Call) → P m → P (run m cs)
run_keeps {P} k m cs h = run_induction P (step_keeps k) m cs h
