-- ===== src/Downloads/Task.antt =====
-- `RuntimeDownloadTask` of crates/agent/src/main.rs, with the records that it holds from
-- crates/core/src/protocol.rs. Each method that locks the snapshot is one function: the mutex makes
-- it one step. A poisoned lock is entered all the same, as in the source.
use fabdev.Prelude.{
  ℕ, Bool, true, false, not, Option, none, Text, if◌then◌else◌, Result, ok, err, is_some,
}

pub data Status : Type 0 where
  queued downloading verified installing completed failed cancelled : Status

pub record Operation : Type 0 where
  pub operation_id : ℕ
  pub status : Status
  pub name : Text
  pub version : Text
  pub platform : Text
  pub architecture : Text
  pub file_name : Text
  pub bytes_downloaded : ℕ
  pub total_bytes : ℕ
  pub sha256 : Text
  pub error : Option Text

-- `snapshot.status` and the fields beside it; `cancelled`, `bytes_downloaded` and
-- `download_finished` are the task's atomics and its watch channel.
pub record Task : Type 0 where
  pub operation : Operation
  pub is_cancelled : Bool
  pub bytes : ℕ
  pub download_finished : Bool

pub data TaskError : Type 0 where
  not_verified not_cancellable : TaskError

-- `matches!(status, Queued | Downloading)`
unfoldable pub is_active : Status → Bool
is_active queued = true
is_active downloading = true
is_active _ = false

unfoldable pub is_verified : Status → Bool
is_verified verified = true
is_verified _ = false

unfoldable pub is_installing : Status → Bool
is_installing installing = true
is_installing _ = false

unfoldable pub new : Operation → Task
unfolding is_active
new operation = record {
  operation = operation;
  is_cancelled = false;
  bytes = operation.bytes_downloaded;
  download_finished = not (is_active operation.status);
}

unfoldable pub snapshot : Task → Operation
snapshot t = record t.operation { bytes_downloaded = t.bytes }

unfoldable pub set_status : Status → Option Text → Task → Task
set_status status error t = record t {
  operation = record t.operation { status = status; error = error };
}

unfoldable pub set_progress : ℕ → Task → Task
set_progress downloaded t = record t { bytes = downloaded }

unfoldable pub begin_download : Task → Task × Bool
unfolding set_status
begin_download t = if t.is_cancelled then (t, false) else (set_status downloading none t, true)

-- The Boolean says that the download was cancelled.
unfoldable pub finish_download : Option Text → Task → Task × Bool
unfolding set_status set_progress
finish_download error t =
    if t.is_cancelled
    then (set_status cancelled none t, true)
    else if is_some error
    then (set_status failed error t, false)
    else (set_status verified none (set_progress t.operation.total_bytes t), false)

unfoldable pub begin_install : Task → Result TaskError Operation × Task
unfolding set_status snapshot is_verified
begin_install t =
    if is_verified t.operation.status
    then (ok (snapshot (set_status installing none t)), set_status installing none t)
    else (err not_verified, t)

unfoldable pub cancel : Task → Result TaskError Operation × Task
unfolding set_status snapshot is_active
cancel t =
    let t' = set_status cancelled none (record t { is_cancelled = true }) in
    if is_active t.operation.status then (ok (snapshot t'), t') else (err not_cancellable, t)

-- `Drop for RuntimeDownloadCompletion`
unfoldable pub complete : Task → Task
complete t = record t { download_finished = true }
