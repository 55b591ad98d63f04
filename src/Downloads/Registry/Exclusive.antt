-- ===== src/Downloads/Registry/Exclusive.antt =====
-- Installations and downloads in the registry of crates/agent/src/main.rs exclude one another.
use fabdev.Prelude.{
  ℕ, ◌≤◌, ◌≡◌, inl, inr, false, some, List, arith, ◌==◌, Option-cases, All, length, any, Pairs,
  find-All, ok,
}
use fabdev.Downloads.Task
use fabdev.Downloads.Task.{
  Status, queued, downloading, verified, installing, cancelled, is_active, is_verified,
  is_installing,
}
use fabdev.Downloads.Registry.{
  Entry, Manager, Operation, status_of, max_runtime_update_operations, init, begin_install, lookup,
}
use fabdev.Downloads.Registry.Calls.{Call, run}
use fabdev.Downloads.Registry.Entries.{IsSound, Sound, is_whole}
use fabdev.Downloads.Registry.Apart.{Apart}
use fabdev.Downloads.Registry.Invariant.{IsValid, run-IsValid}

-- After every history of calls and worker steps, any two registered tasks have different keys, do
-- not both install, and are not both queued or downloading for the same package.
pub run-Apart : (cs : List Call) → Pairs Apart (run init cs).operations
run-Apart cs = (run-IsValid cs).apart

-- After every history at most 64 tasks are registered.
pub run_bounded : (cs : List Call) → length (run init cs).operations ≤ max_runtime_update_operations
run_bounded cs = (run-IsValid cs).bounded

-- After every history a task with the cancellation flag is in state cancelled, and one that is
-- verified, installing or completed has counted all of its bytes.
pub run-Sound : (cs : List Call) → All IsSound (run init cs).operations
run-Sound cs = (run-IsValid cs).sound

pub lookup-IsSound :
    (id : ℕ) (es : List Entry) (e : Entry) → Sound es → lookup id es ≡ some e → IsSound e
unfolding lookup
lookup-IsSound id es e s h = find-All IsSound (λ x. x.id == id) es e h s

-- In a valid registry, an installation that begins is of a registered task under that key which was
-- verified, whole and not cancelled, while no task was installing.
pub begin_install-ok :
    (id : ℕ) (m : Manager) (o : Operation)
    → IsValid m
    → (begin_install id m).1 ≡ ok o
    → (e : Entry) × (lookup id m.operations ≡ some e)
      × (status_of e ≡ verified)
      × (e.task.is_cancelled ≡ false)
      × (e.task.bytes ≡ e.task.operation.total_bytes)
      × (any (λ x. is_installing (status_of x)) m.operations ≡ false)
      × (o.status ≡ installing)
unfolding begin_install is_verified Task.begin_install Task.snapshot is_whole
begin_install-ok id m o v h = elim (Option-cases (lookup id m.operations)) [
  | inl gone ↦ absurd (ground arith)
  | inr (e, here) ↦
      let s : IsSound e = lookup-IsSound id m.operations e v.sound here in
      (e, here, ground arith, ground arith, ground (arith, s.whole), ground arith, ground arith)
]
