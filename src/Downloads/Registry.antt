-- ===== src/Downloads/Registry.antt =====
-- `RuntimeUpdateManager` of crates/agent/src/main.rs. Every function is what one holder of the
-- registry's lock does, or one step of a download worker; calls interleave as a list of `Call`s.
pub mod Calls
mod Cases
pub mod Entries
pub mod Apart
mod Lookup
pub mod Invariant
pub mod Exclusive
pub mod Lifecycle
pub mod Shutdown
pub mod Starting
use fabdev.Prelude.{
  ℕ, zero, suc, ◌+◌, ◌-◌, ◌*◌, ◌/◌, ◌%◌, ◌^◌, ◌≤◌, ◌<◌, min, String, ◌≡◌, refl, sym, ap, ◌∙◌, subst,
  ◌≢◌, ◌↔◌, ◌⊎◌, inl, inr, Bool, true, false, not, ◌&&◌, ◌||◌, Option, none, some, List, [], ◌∷◌,
  ◌++◌, map, arith, ltb, leb, ◌==◌, if◌then◌else◌, ltb→lt, lt→ltb, leb→le, le→leb, ==→eq, ==_refl,
  Bool-cases, Option-cases, &&-true, is_some, All, length, length-append, any, all, find, retain,
  length-retain-le, retain-All, Result, ok, err, ◌>>=◌, ◌>>◌, bail_if, context, Result-cases, Text,
  codes, text_eq, text_eq_refl, text_eq_iff, text_leb, text_leb_total, is_text,
}
use fabdev.Downloads.Task.{
  Status, queued, downloading, verified, installing, completed, failed, cancelled, Operation, Task,
  is_active, is_verified, is_installing, new, snapshot, set_status, set_progress, begin_download,
  finish_download, complete,
}
use fabdev.Downloads.Task

pub record Artifact : Type 0 where
  pub name : Text
  pub version : Text
  pub platform : Text
  pub architecture : Text
  pub minimum_os_version : Text
  pub file_name : Text
  pub size : ℕ
  pub sha256 : Text
  pub unsigned_community_build : Bool
  pub installed : Bool
  pub package_update_available : Bool
  pub active_version : Option Text

-- `fabdev_updater::DownloadedRuntimeUpdate`
pub record DownloadedRuntimeUpdate : Type 0 where
  pub catalog_sequence : ℕ
  pub name : Text
  pub version : Text
  pub platform : Text
  pub architecture : Text
  pub file_name : Text
  pub size : ℕ
  pub sha256 : Text
  pub path : Text

-- Where the spawned future of `start` stands: before `begin_download`, in the download, or past it.
-- `ended` is after the drop of its completion guard.
pub data Worker : Type 0 where
  starting running leaving ended : Worker

pub record Entry : Type 0 where
  pub id : ℕ
  pub task : Task
  pub worker : Worker

pub record Manager : Type 0 where
  pub operations : List Entry
  pub shutting_down : Bool

pub data ManagerError : Type 0 where
  agent_shutting_down already_downloading too_many not_found install_in_progress not_verified
        not_cancellable :
      ManagerError

-- What `start` does next: it waits for a cancelled worker, fails, or has registered its task.
pub data Admission : Type 0 where
  wait_for : Entry → Admission
  refused : ManagerError → Admission
  admitted : Operation → Admission

abbrev pub max_runtime_update_operations : ℕ
max_runtime_update_operations = 64

abbrev pub init : Manager
init = record { operations = []; shutting_down = false }

unfoldable pub same_target : Operation → Operation → Bool
same_target a b =
    text_eq a.name b.name
    && (text_eq a.version b.version
        && (text_eq a.platform b.platform && text_eq a.architecture b.architecture))

abbrev pub status_of : Entry → Status
status_of e = e.task.operation.status

-- The predicate of `find_map`: the same package, cancelled, and its worker not gone yet.
unfoldable pub is_pending_cleanup : Operation → Entry → Bool
unfolding same_target
is_pending_cleanup o e =
    same_target e.task.operation o && (e.task.is_cancelled && not e.task.download_finished)

unfoldable pub is_duplicate : Operation → Entry → Bool
unfolding same_target is_active
is_duplicate o e = same_target e.task.operation o && is_active (status_of e)

-- The predicate of `retain`.
unfoldable pub is_kept : Entry → Bool
unfolding is_active is_verified is_installing
is_kept e =
    not e.task.download_finished
    || (is_active (status_of e) || (is_verified (status_of e) || is_installing (status_of e)))

unfoldable pub prune : List Entry → List Entry
unfolding is_kept
prune es = if leb max_runtime_update_operations (length es) then retain is_kept es else es

-- `HashMap::insert`: an entry under the same key is replaced.
unfoldable pub insert : Entry → List Entry → List Entry
insert e es = e ∷ retain (λ x. not (x.id == e.id)) es

unfoldable pub queue : ℕ → Artifact → Operation
queue id a = record {
  operation_id = id;
  status = queued;
  name = a.name;
  version = a.version;
  platform = a.platform;
  architecture = a.architecture;
  file_name = a.file_name;
  bytes_downloaded = 0;
  total_bytes = a.size;
  sha256 = a.sha256;
  error = none;
}

unfoldable pub queue_entry : Operation → Entry
unfolding new
queue_entry o = record { id = o.operation_id; task = new o; worker = starting }

-- The end of `start`'s loop body: prune, check the limit, register.
unfoldable pub register : Operation → Manager → Manager × Admission
unfolding prune insert queue_entry
register o m =
    let kept = prune m.operations in
    if leb max_runtime_update_operations (length kept)
    then (record m { operations = kept }, refused too_many)
    else (record m { operations = insert (queue_entry o) kept }, admitted o)

-- One round of `start`'s loop, under the registry's lock.
unfoldable pub start : ℕ → Artifact → Manager → Manager × Admission
unfolding queue is_pending_cleanup is_duplicate
start id a m =
    let o = queue id a in
    if m.shutting_down
    then (m, refused agent_shutting_down)
    else elim (find (is_pending_cleanup o) m.operations) [
      | some e ↦ (m, wait_for e)
      | none ↦
          if any (is_duplicate o) m.operations
          then (m, refused already_downloading)
          else register o m
    ]

-- A change of the task under one key; the tasks are shared by `Arc`.
unfoldable pub modify : ℕ → (Entry → Entry) → List Entry → List Entry
modify id f = map (λ e. if e.id == id then f e else e)

unfoldable pub lookup : ℕ → List Entry → Option Entry
lookup id = find (λ e. e.id == id)

unfoldable pub get : ℕ → Manager → Result ManagerError Operation
unfolding lookup snapshot
get id m = do e ← context (lookup id m.operations) not_found; ok (snapshot e.task)

abbrev pub cancel_entry : Entry → Entry
cancel_entry e = record e { task = (Task.cancel e.task).1 }

abbrev pub install_entry : Entry → Entry
install_entry e = record e { task = (Task.begin_install e.task).1 }

unfoldable pub cancel : ℕ → Manager → Manager × Result ManagerError Operation
unfolding lookup modify Task.cancel
cancel id m = elim (lookup id m.operations) [
  | none ↦ (m, err not_found)
  | some e ↦ (
    record m { operations = modify id cancel_entry m.operations },
    elim (Task.cancel e.task).0 [ ok o ↦ ok o | err _ ↦ err not_cancellable ],
  )
]

unfoldable pub begin_install : ℕ → Manager → Manager × Result ManagerError Operation
unfolding lookup modify Task.begin_install
begin_install id m = elim (lookup id m.operations) [
  | none ↦ (m, err not_found)
  | some e ↦
      if any (λ x. is_installing (status_of x)) m.operations
      then (m, err install_in_progress)
      else (
        record m { operations = modify id install_entry m.operations },
        elim (Task.begin_install e.task).0 [ ok o ↦ ok o | err _ ↦ err not_verified ],
      )
]

abbrev pub finish_status : Option Text → Status
finish_status none = completed
finish_status (some e) = failed

unfoldable pub finish_install : ℕ → Option Text → Manager → Manager × Result ManagerError Operation
unfolding lookup modify set_status snapshot
finish_install id error m = elim (lookup id m.operations) [
  | none ↦ (m, err not_found)
  | some e ↦ (
    record m {
      operations =
          modify id (λ x. record x { task = set_status (finish_status error) error x.task })
            m.operations;
    },
    ok (snapshot (set_status (finish_status error) error e.task)),
  )
]

unfoldable pub shutdown : Manager → Manager
shutdown m = record { operations = map cancel_entry m.operations; shutting_down = true }
