-- ===== src/Downloads/Registry/Entries.antt =====
-- What every registered task of `RuntimeUpdateManager` keeps (crates/agent/src/main.rs): how its
-- status, its cancellation flag, its counter and its worker hang together.
use fabdev.Prelude.{ℕ, ◌≡◌, Bool, true, false, Option, List, arith, All, All-map, Text}
use fabdev.Downloads.Task.{
  Status, queued, downloading, verified, installing, completed, failed, cancelled, Task,
  is_installing, finish_download,
}
use fabdev.Downloads.Task
use fabdev.Downloads.Registry.{
  Worker, starting, running, ended, Entry, Artifact, status_of, modify, queue_entry, queue,
  cancel_entry, install_entry,
}
use fabdev.Downloads.Registry.Cases.{settle}
use fabdev.Downloads.Registry.Calls.{Action, begin, progress, finish, drop, act}

-- `verified`, `installing` and `completed` come after a whole download.
unfoldable pub is_whole : Status → Bool
is_whole verified = true
is_whole installing = true
is_whole completed = true
is_whole _ = false

pub record IsSound (e : Entry) : Type 0 where
  pub flagged : e.task.is_cancelled ≡ true → status_of e ≡ cancelled
  pub flag : status_of e ≡ cancelled → e.task.is_cancelled ≡ true
  pub not_begun : e.worker ≡ starting → e.task.is_cancelled ≡ false → status_of e ≡ queued
  pub busy : e.worker ≡ running → e.task.is_cancelled ≡ false → status_of e ≡ downloading
  pub whole : is_whole (status_of e) ≡ true → e.task.bytes ≡ e.task.operation.total_bytes
  pub dropped : e.worker ≡ ended → e.task.download_finished ≡ true

pub act-IsSound :
    (a : Action) (w : Worker) (e : Entry) → e.worker ≡ w → IsSound e → IsSound (act a w e)
unfolding act is_whole
act-IsSound begin starting e q v = ground arith
act-IsSound (progress n) running e q v = ground arith
act-IsSound (finish r) running e q v = ground arith
act-IsSound drop starting e q v = ground arith
act-IsSound _ _ e q v = ground arith

pub cancel-IsSound : (e : Entry) → IsSound e → IsSound (cancel_entry e)
unfolding Task.cancel is_whole
cancel-IsSound e v = ground arith

pub install-IsSound : (e : Entry) → IsSound e → IsSound (install_entry e)
unfolding Task.begin_install is_whole
install-IsSound e v = ground arith

pub settle-IsSound :
    (error : Option Text) (e : Entry)
    → is_installing (status_of e) ≡ true
    → IsSound e
    → IsSound (settle error e)
unfolding Task.set_status is_whole is_installing
settle-IsSound error e i v = ground arith

pub queue_entry-IsSound : (id : ℕ) (a : Artifact) → IsSound (queue_entry (queue id a))
unfolding queue_entry queue is_whole
queue_entry-IsSound id a = ground arith

abbrev pub Sound : List Entry → Type 0
Sound = All IsSound

pub modify-All :
    (P : Entry → Type 0) (f : Entry → Entry) (id : ℕ) (es : List Entry)
    → ((e : Entry) → P e → P (f e))
    → All P es
    → All P (modify id f es)
unfolding modify
modify-All P f id es keep h = All-map P _ (λ x p. ground (arith, keep x)) es h
