-- ===== src/Downloads/Registry/Starting.antt =====
-- What `RuntimeUpdateManager::start` of crates/agent/src/main.rs admits, and what it makes room with.
use fabdev.Prelude.{
  ℕ, ◌⊎◌, Bool-cases, if◌then◌else◌, &&-true, text_eq_iff, All, All-map-imp, find-All, ◌≡◌, refl,
  ◌≢◌, inl, inr, true, false, some, List, arith, ◌==◌, Option-cases, find, find-true,
}
use fabdev.Downloads.Task.{
  Status, queued, downloading, verified, installing, completed, failed, cancelled,
}
use fabdev.Downloads.Registry.{
  same_target, status_of, Entry, Worker, starting, running, leaving, ended, Manager, Operation,
  Artifact, queue, queue_entry, prune, is_kept, is_pending_cleanup, modify, lookup, start, register,
  wait_for,
}
use fabdev.Downloads.Registry.Calls.{works, step, act, drop, work_entry}
use fabdev.Downloads.Registry.Entries.{IsSound}
use fabdev.Downloads.Registry.Lookup.{lookup-prune, lookup-insert_ne}
use fabdev.Downloads.Registry.Lifecycle.{act-id}
use fabdev.Downloads.Registry.Invariant.{IsValid}

register-keeps :
    (o : Operation) (j : ℕ) (m : Manager) (e : Entry)
    → (o.operation_id == j) ≡ false
    → is_kept e ≡ true
    → IsValid m
    → lookup j m.operations ≡ some e
    → lookup j (register o m).0.operations ≡ some e
unfolding register queue_entry
register-keeps o j m e n k v p = elim (lookup-prune j m.operations e v.apart p) [
  | inr gone ↦ absurd (cc (gone.1, k))
  | inl kept ↦ ground (arith, lookup-insert_ne j (queue_entry o) (prune m.operations) n)
]

-- A status that a task goes on from.
abbrev pub IsOpen : Status → Type 0
IsOpen queued = Unit
IsOpen downloading = Unit
IsOpen verified = Unit
IsOpen installing = Unit
IsOpen completed = true ≡ false
IsOpen failed = true ≡ false
IsOpen cancelled = true ≡ false

-- A task whose worker is not gone yet, or that goes on.
abbrev pub IsLive : Entry → Type 0
IsLive e = (e.task.download_finished ≡ false) ⊎ IsOpen (status_of e)

open-is_kept : (e : Entry) (s : Status) → status_of e ≡ s → IsOpen s → is_kept e ≡ true
unfolding is_kept
open-is_kept e queued q h = ground arith
open-is_kept e downloading q h = ground arith
open-is_kept e verified q h = ground arith
open-is_kept e installing q h = ground arith
open-is_kept e completed q h = absurd (cc h)
open-is_kept e failed q h = absurd (cc h)
open-is_kept e cancelled q h = absurd (cc h)

live-is_kept : (e : Entry) → IsLive e → is_kept e ≡ true
unfolding is_kept
live-is_kept e (inl working) = ground arith
live-is_kept e (inr open_status) = open-is_kept e (status_of e) refl open_status

-- Whatever a start answers in a valid registry, it removes no task that is still worked on, queued,
-- downloading, verified or installing: under every key but the new one such a task stays as it was.
pub start_keeps_live :
    (id j : ℕ) (a : Artifact) (m : Manager) (e : Entry)
    → (id == j) ≡ false
    → IsLive e
    → IsValid m
    → lookup j m.operations ≡ some e
    → lookup j (start id a m).0.operations ≡ some e
unfolding start queue
start_keeps_live id j a m e n live v p =
    let k = live-is_kept e live in ground (arith, register-keeps (queue id a) j m e)

drop_finishes :
    (o : Operation) (w : Worker) (e : Entry)
    → e.worker ≡ w
    → IsSound e
    → is_pending_cleanup o (act drop w e) ≡ false
unfolding act is_pending_cleanup
drop_finishes o starting e q s = ground arith
drop_finishes o running e q s = ground arith
drop_finishes o leaving e q s = ground arith
drop_finishes o ended e q s = ground (arith, s.dropped q)

register-ne-wait : (o : Operation) (m : Manager) (e : Entry) → (register o m).1 ≢ wait_for e
unfolding register
register-ne-wait o m e h = ground arith

start-wait :
    (id : ℕ) (a : Artifact) (m : Manager) (e : Entry)
    → (start id a m).1 ≡ wait_for e
    → ((start id a m).0 ≡ m) × (find (is_pending_cleanup (queue id a)) m.operations ≡ some e)
unfolding start
start-wait id a m e h = elim (Option-cases (find (is_pending_cleanup (queue id a)) m.operations)) [
  | inl clear ↦ absurd (ground (arith, register-ne-wait (queue id a) m e))
  | inr (x, found) ↦ (ground arith, ground arith)
]

-- The package of the entry is the artifact's, and its cancelled download has a worker.
abbrev pub IsAwaited : Artifact → Entry → Type 0
IsAwaited a e =
    (e.task.operation.name ≡ a.name)
    × (e.task.operation.version ≡ a.version)
    × (e.task.operation.platform ≡ a.platform)
    × (e.task.operation.architecture ≡ a.architecture)
    × (status_of e ≡ cancelled)
    × (e.task.download_finished ≡ false)

pending-IsAwaited :
    (id : ℕ) (a : Artifact) (e : Entry)
    → IsSound e
    → is_pending_cleanup (queue id a) e ≡ true
    → IsAwaited a e
unfolding is_pending_cleanup same_target queue
pending-IsAwaited id a e v h =
    let (target, rest) = &&-true _ _ h in
    let (flag, working) = &&-true _ _ rest in
    let (name, t1) = &&-true _ _ target in
    let (version, t2) = &&-true _ _ t1 in
    let (platform, architecture) = &&-true _ _ t2 in
    (
      (text_eq_iff e.task.operation.name a.name).0 name,
      (text_eq_iff e.task.operation.version a.version).0 version,
      (text_eq_iff e.task.operation.platform a.platform).0 platform,
      (text_eq_iff e.task.operation.architecture a.architecture).0 architecture,
      v.flagged flag,
      ground arith,
    )

-- Under this key there is nothing to wait for.
abbrev IsClear : Operation → ℕ → Entry → Type 0
IsClear o id f = (f.id == id) ≡ true → is_pending_cleanup o f ≡ false

act-id_drop : (e : Entry) → (work_entry drop e).id ≡ e.id
act-id_drop e = act-id drop e.worker e

drop-IsClear :
    (o : Operation) (id : ℕ) (e : Entry)
    → IsSound e
    → IsClear o id (if e.id == id then work_entry drop e else e)
drop-IsClear o id e v = elim (Bool-cases (e.id == id)) [
  | inl same ↦ rw same (λ h. drop_finishes o e.worker e refl v)
  | inr other ↦ rw other (λ h. absurd (cc (h, other)))
]

dropped-All :
    (o : Operation) (id : ℕ) (es : List Entry)
    → All IsSound es
    → All (IsClear o id) (modify id (work_entry drop) es)
unfolding modify
dropped-All o id es v =
    All-map-imp IsSound (IsClear o id) (λ e. if e.id == id then work_entry drop e else e)
      (λ e s. drop-IsClear o id e s) es v

-- A start that waits in a valid registry changes nothing, and waits for a cancelled download of the same
-- package whose worker is not gone yet; once that worker has dropped its guard, no start of the package
-- waits for a download under that key.
pub start_waits :
    (id next : ℕ) (a : Artifact) (m : Manager) (e : Entry)
    → IsValid m
    → (start id a m).1 ≡ wait_for e
    → ((start id a m).0 ≡ m)
      × IsAwaited a e
      × ((f : Entry)
          → (start next a (step m (works e.id drop))).1 ≡ wait_for f
          → (f.id == e.id) ≡ false)
unfolding step
start_waits id next a m e v w =
    let pending = is_pending_cleanup (queue id a) in
    let (same, found) = start-wait id a m e w in
    let sound = find-All IsSound pending m.operations e found v.sound in
    (
      same,
      pending-IsAwaited id a e sound (find-true pending m.operations e found),
      λ f again. released f again,
    )
  where
    released :
        (f : Entry)
        → (start next a (step m (works e.id drop))).1 ≡ wait_for f
        → (f.id == e.id) ≡ false
    released f again =
        let test = is_pending_cleanup (queue next a) in
        let left = modify e.id (work_entry drop) m.operations in
        let (_, found) = start-wait next a (step m (works e.id drop)) f again in
        let clear =
          find-All (IsClear (queue next a) e.id) test left f found
            (dropped-All (queue next a) e.id m.operations v.sound) in
        elim (Bool-cases (f.id == e.id)) [
          | inl same ↦ absurd (cc (find-true test left f found, clear same))
          | inr other ↦ other
        ]
