-- ===== src/Downloads/Tests.antt =====
-- Runs of the download registry of crates/agent/src/main.rs on small inputs.
use fabdev.Prelude.{
  ◌==◌, inr, ℕ, ◌≤◌, ◌≡◌, refl, true, false, none, some, List, [], ◌∷◌, arith, All, length, any,
  Pairs, codes, text_eq, ok,
}
use fabdev.Downloads.Task
use fabdev.Downloads.Task.{Status, queued, verified, installing, cancelled, is_installing}
use fabdev.Downloads.Registry.{
  wait_for, running, ended, Artifact, DownloadedRuntimeUpdate, Entry, Manager, status_of, init,
  start, lookup, begin_install, queue, queue_entry, register, is_kept,
  max_runtime_update_operations,
}
use fabdev.Downloads.Registry.Calls.{
  Call, starts, cancels, begins_install, shuts_down, works, begin, progress, finish, drop, step,
  run,
}
use fabdev.Downloads.Registry.Entries.{IsSound}
use fabdev.Downloads.Registry.Apart.{Apart}
use fabdev.Downloads.Registry.Invariant.{run-IsValid}
use fabdev.Downloads.Registry.Exclusive.{run-Apart, run_bounded, run-Sound, begin_install-ok}
use fabdev.Downloads.Registry.Lifecycle.{may_move, step-lifecycle, cancelled_final, StatusUnder}
use fabdev.Downloads.Registry.Shutdown.{IsClosed, shutdown_final}
use fabdev.Downloads.Registry.Starting.{IsAwaited, start_keeps_live, start_waits}

abbrev php : Artifact
php = record {
  name = codes "php";
  version = codes "8.4.24";
  platform = codes "macos";
  architecture = codes "arm64";
  minimum_os_version = codes "14.0";
  file_name = codes "php.tar.gz";
  size = 100;
  sha256 = codes "aa";
  unsigned_community_build = true;
  installed = false;
  package_update_available = false;
  active_version = none;
}

abbrev node : Artifact
node = record php { name = codes "node"; version = codes "22.1.0" }

abbrev downloaded : DownloadedRuntimeUpdate
downloaded = record {
  catalog_sequence = 7;
  name = codes "php";
  version = codes "8.4.24";
  platform = codes "macos";
  architecture = codes "arm64";
  file_name = codes "php.tar.gz";
  size = 100;
  sha256 = codes "aa";
  path = codes "/cache/php.tar.gz";
}

-- A download from its start to an installation in progress, while another package is queued.
abbrev install_history : List Call
install_history =
    starts 1 php
    ∷ works 1 begin
    ∷ works 1 (progress 40)
    ∷ works 1 (finish (ok downloaded))
    ∷ works 1 drop
    ∷ starts 2 node
    ∷ begins_install 1
    ∷ []

abbrev cancel_history : List Call
cancel_history = starts 1 php ∷ works 1 begin ∷ cancels 1 ∷ []

abbrev list_statuses : List Entry → List (ℕ × Status)
list_statuses [] = []
list_statuses (e ∷ es) = (e.id, status_of e) ∷ list_statuses es

abbrev statuses : Manager → List (ℕ × Status)
statuses m = list_statuses m.operations

install_statuses : statuses (run init install_history) ≡ (2, queued) ∷ (1, installing) ∷ []
unfolding run register text_eq
install_statuses = refl

-- A second start of the same package is refused while it downloads, and waits once it is cancelled.
cancel_statuses :
    statuses (
      run init (
        starts 1 php
        ∷ starts 2 php
        ∷ works 1 begin
        ∷ cancels 1
        ∷ starts 3 php
        ∷ works 1 (finish (ok downloaded))
        ∷ works 1 drop
        ∷ starts 4 php
        ∷ []))
    ≡ (4, queued) ∷ (1, cancelled) ∷ []
unfolding run register text_eq
cancel_statuses = refl

run-Apart_example : Pairs Apart (run init install_history).operations
run-Apart_example = run-Apart install_history

run_bounded_example : length (run init install_history).operations ≤ max_runtime_update_operations
run_bounded_example = run_bounded install_history

run-Sound_example : All IsSound (run init install_history).operations
run-Sound_example = run-Sound install_history

abbrev cancelled_registry : Manager
cancelled_registry = run init cancel_history

cancelled_one : StatusUnder 1 cancelled cancelled_registry
unfolding run lookup register text_eq
cancelled_one e p = ground arith

-- The worker of the cancelled download still reports a whole package.
abbrev late_calls : List Call
late_calls = works 1 (finish (ok downloaded)) ∷ begins_install 1 ∷ starts 2 php ∷ works 1 drop ∷ []

cancelled_final_example : StatusUnder 1 cancelled (run cancelled_registry late_calls)
cancelled_final_example =
    cancelled_final cancelled_registry late_calls 1 (run-IsValid cancel_history)
      (tt, (tt, (refl, (tt, tt)))) cancelled_one

abbrev installing_php : Entry
installing_php = record {
  id = 1;
  task = record {
    operation = record (queue 1 php) { status = installing };
    is_cancelled = false;
    bytes = 100;
    download_finished = true;
  };
  worker = ended;
}

abbrev verified_history : List Call
verified_history =
    starts 1 php ∷ works 1 begin ∷ works 1 (finish (ok downloaded)) ∷ works 1 drop ∷ []

step-lifecycle_example :
    (e : Entry) × (lookup 1 (run init verified_history).operations ≡ some e)
    × (may_move (status_of e) installing ≡ true)
unfolding run lookup register text_eq queue
step-lifecycle_example =
    step-lifecycle (run init verified_history) (begins_install 1) 1 installing_php
      (run-IsValid verified_history) tt refl

shutdown_final_example :
    IsClosed (run (step (run init install_history) shuts_down) (starts 3 node ∷ works 2 begin ∷ []))
shutdown_final_example = shutdown_final install_history (starts 3 node ∷ works 2 begin ∷ [])

begin_install-ok_example :
    (e : Entry) × (lookup 1 (run init verified_history).operations ≡ some e)
    × (status_of e ≡ verified)
    × (e.task.is_cancelled ≡ false)
    × (e.task.bytes ≡ e.task.operation.total_bytes)
    × (any (λ x. is_installing (status_of x)) (run init verified_history).operations ≡ false)
    × (◌≡◌ {A = Status} installing installing)
unfolding run register text_eq lookup queue begin_install
begin_install-ok_example =
    begin_install-ok 1 (run init verified_history) (Task.snapshot installing_php.task)
      (run-IsValid verified_history) refl

abbrev queued_node : Entry
queued_node = queue_entry (queue 2 node)

start_keeps_live_example :
    lookup 2 (start 3 php (run init install_history)).0.operations ≡ some queued_node
unfolding run register text_eq lookup is_kept
start_keeps_live_example =
    start_keeps_live 3 2 php (run init install_history) queued_node refl (inr tt)
      (run-IsValid install_history) refl

abbrev cancelled_php : Entry
cancelled_php = record {
  id = 1;
  task = record {
    operation = record (queue 1 php) { status = cancelled };
    is_cancelled = true;
    bytes = 0;
    download_finished = false;
  };
  worker = running;
}

start_waits_example :
    ((start 2 php cancelled_registry).0 ≡ cancelled_registry)
    × IsAwaited php cancelled_php
    × ((f : Entry)
        → (start 3 php (step cancelled_registry (works 1 drop))).1 ≡ wait_for f
        → (f.id == 1) ≡ false)
unfolding run register text_eq lookup
start_waits_example =
    start_waits 2 3 php cancelled_registry cancelled_php (run-IsValid cancel_history) refl
