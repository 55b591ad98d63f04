-- ===== src/Downloads/Registry/Calls.antt =====
-- The download worker that `RuntimeUpdateManager::start` spawns, and histories of calls:
-- crates/agent/src/main.rs. A worker runs between the calls of the manager, one atomic step of its
-- task at a time, so a history is a list of calls and worker steps in any order.
use fabdev.Prelude.{
  ℕ, Bool, ◌&&◌, Option, none, some, List, [], ◌∷◌, ◌==◌, if◌then◌else◌, any, Result, ok, err, Text,
  codes, text_eq,
}
use fabdev.Downloads.Task.{
  Operation, is_installing, set_progress, begin_download, finish_download, complete,
}
use fabdev.Downloads.Registry.{
  Artifact, DownloadedRuntimeUpdate, Worker, starting, running, leaving, ended, Entry, Manager,
  status_of, modify, start, cancel, begin_install, finish_install, shutdown,
}

-- `validate_runtime_operation_package`
unfoldable pub validate_runtime_operation_package : Operation → DownloadedRuntimeUpdate → Bool
validate_runtime_operation_package o d =
    text_eq o.name d.name
    && (text_eq o.version d.version
        && (text_eq o.platform d.platform
            && (text_eq o.architecture d.architecture
                && (text_eq o.file_name d.file_name
                    && (o.total_bytes == d.size && text_eq o.sha256 d.sha256)))))

abbrev pub package_changed : Text
package_changed =
    codes
      "Runtime package no longer matches the requested download; refresh the Runtime list and download it again"

-- `result.and_then(..)`, then `.err().map(..)`: what is handed to `finish_download`.
unfoldable pub download_error : Operation → Result Text DownloadedRuntimeUpdate → Option Text
unfolding validate_runtime_operation_package
download_error o (ok d) =
    if validate_runtime_operation_package o d then none else some package_changed
download_error o (err e) = some e

-- The file that a cancelled worker removes.
unfoldable pub discarded : Entry → Result Text DownloadedRuntimeUpdate → Option Text
unfolding finish_download download_error
discarded e (err x) = none
discarded e (ok d) =
    if (finish_download (download_error e.task.operation (ok d)) e.task).1
      && validate_runtime_operation_package e.task.operation d
    then some d.path
    else none

-- What a worker does: begin, report progress, finish with the result of the updater, and drop its
-- guard. An abort of the future drops the guard at any point.
pub data Action : Type 0 where
  begin : Action
  progress : ℕ → Action
  finish : Result Text DownloadedRuntimeUpdate → Action
  drop : Action

unfoldable pub act : Action → Worker → Entry → Entry
unfolding begin_download set_progress finish_download complete download_error
act begin starting e =
    let (t, go) = begin_download e.task in
    record e { task = t; worker = if go then running else leaving }
act (progress n) running e = record e { task = set_progress n e.task }
act (finish r) running e = record e {
  task = (finish_download (download_error e.task.operation r) e.task).0;
  worker = leaving;
}
act drop starting e = record e { task = complete e.task; worker = ended }
act drop running e = record e { task = complete e.task; worker = ended }
act drop leaving e = record e { task = complete e.task; worker = ended }
act _ _ e = e

abbrev pub work_entry : Action → Entry → Entry
work_entry a e = act a e.worker e

pub data Call : Type 0 where
  starts : ℕ → Artifact → Call
  cancels : ℕ → Call
  begins_install : ℕ → Call
  finishes_install : ℕ → Option Text → Call
  shuts_down : Call
  works : ℕ → Action → Call

-- `install_downloaded_runtime` finishes only the installation that it began.
abbrev pub holds_install : ℕ → Entry → Bool
holds_install id e = e.id == id && is_installing (status_of e)

unfoldable pub step : Manager → Call → Manager
unfolding act is_installing start cancel begin_install finish_install shutdown modify
step m (starts id a) = (start id a m).0
step m (cancels id) = (cancel id m).0
step m (begins_install id) = (begin_install id m).0
step m (finishes_install id error) =
    if any (holds_install id) m.operations then (finish_install id error m).0 else m
step m shuts_down = shutdown m
step m (works id a) = record m { operations = modify id (work_entry a) m.operations }

unfoldable pub run : Manager → List Call → Manager
unfolding step
run m [] = m
run m (c ∷ cs) = run (step m c) cs

-- An invariant of every call holds after every history.
pub run_induction {ℓ} :
    (P : Manager → Type ℓ)
    → ((m : Manager) (c : Call) → P m → P (step m c))
    → (m : Manager) (cs : List Call) → P m
    → P (run m cs)
unfolding run
run_induction P keep m [] h = h
run_induction P keep m (c ∷ cs) h = run_induction P keep (step m c) cs (keep m c h)
