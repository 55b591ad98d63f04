-- ===== src/Downloads/Registry/Shutdown.antt =====
-- `RuntimeUpdateManager::shutdown` of crates/agent/src/main.rs against calls that come after it.
use fabdev.Prelude.{ℕ, ◌≡◌, refl, true, List, All}
use fabdev.Downloads.Registry.{
  Manager, Artifact, shutdown, init, start, refused, agent_shutting_down,
}
use fabdev.Downloads.Registry.Calls.{Call, shuts_down, step, run}
use fabdev.Downloads.Registry.Cases.{Keeps, run_keeps, step_keeps}
use fabdev.Downloads.Registry.Invariant.{IsValid, IsIdle, IsValid-Keeps, run-IsValid}

IsShut : Manager → Type 0
IsShut m = m.shutting_down ≡ true

IsShut-Keeps : Keeps IsShut
unfolding IsShut shutdown
IsShut-Keeps = record {
  same = λ m h. h;
  pruned = λ m h. h;
  added = λ id a m n c h. h;
  cancelled = λ id m h. h;
  installed = λ id m n h. h;
  settled = λ id error m held h. h;
  worked = λ id a m h. h;
  shut = λ m h. refl;
}

start-shut :
    (id : ℕ) (a : Artifact) (m : Manager)
    → IsShut m
    → (start id a m).1 ≡ refused agent_shutting_down
unfolding start IsShut
start-shut id a m h = simp h

abbrev pub IsClosed : Manager → Type 0
IsClosed m =
    All IsIdle m.operations
    × ((id : ℕ) (a : Artifact) → (start id a m).1 ≡ refused agent_shutting_down)

shutdown-IsShut : (m : Manager) → IsShut (step m shuts_down)
unfolding step shutdown IsShut
shutdown-IsShut m = refl

-- After a shutdown, and after whatever calls and worker steps follow it, no registered task is
-- queued or downloading, and every start is refused because the agent shuts down.
pub shutdown_final : (cs ds : List Call) → IsClosed (run (step (run init cs) shuts_down) ds)
unfolding IsShut
shutdown_final cs ds =
    let m = step (run init cs) shuts_down in
    let shut : IsShut (run m ds) = run_keeps IsShut-Keeps m ds (shutdown-IsShut (run init cs)) in
    let v : IsValid (run m ds) =
      run_keeps IsValid-Keeps m ds (step_keeps IsValid-Keeps _ shuts_down (run-IsValid cs)) in
    (v.closed shut, λ id a. start-shut id a (run m ds) shut)
