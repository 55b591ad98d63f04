-- ===== src/Downloads/Registry/Apart.antt =====
-- Pairs of registered tasks (crates/agent/src/main.rs): different keys, never two downloads of one
-- package, never two installations.
use fabdev.Prelude.{
  ℕ, ◌≡◌, refl, inl, inr, Bool, true, false, not, ◌&&◌, Option, List, [], ◌∷◌, arith, ◌==◌,
  if◌then◌else◌, Bool-cases, All, any, retain, retain-All, Pairs, All-imp, Pairs-map, Pairs-retain,
  any-false, Text, text_eq_sym,
}
use fabdev.Downloads.Task.{
  Status, queued, downloading, verified, installing, completed, failed, cancelled, Task,
  is_installing, finish_download, is_active,
}
use fabdev.Downloads.Task
use fabdev.Downloads.Registry.{
  Worker, starting, running, Entry, Artifact, Operation, status_of, modify, insert, queue_entry,
  prune, queue, is_duplicate, same_target, is_kept, cancel_entry, install_entry,
}
use fabdev.Downloads.Registry.Cases.{settle}
use fabdev.Downloads.Registry.Calls.{Action, begin, progress, finish, drop, act, holds_install}
use fabdev.Downloads.Registry.Entries.{IsSound, Sound}

-- Both download the same package.
unfoldable pub clash : Entry → Entry → Bool
clash a b =
    same_target a.task.operation b.task.operation
    && (is_active (status_of a) && is_active (status_of b))

unfoldable pub both_installing : Entry → Entry → Bool
both_installing a b = is_installing (status_of a) && is_installing (status_of b)

pub record Apart (a b : Entry) : Type 0 where
  pub keys : (a.id == b.id) ≡ false
  pub downloads : clash a b ≡ false
  pub installs : both_installing a b ≡ false

-- What a change of one task may do: it keeps the key and the package, and starts neither a download
-- nor an installation.
pub record Calm (e f : Entry) : Type 0 where
  pub id : f.id ≡ e.id
  pub name : f.task.operation.name ≡ e.task.operation.name
  pub version : f.task.operation.version ≡ e.task.operation.version
  pub platform : f.task.operation.platform ≡ e.task.operation.platform
  pub architecture : f.task.operation.architecture ≡ e.task.operation.architecture
  pub active : is_active (status_of f) ≡ true → is_active (status_of e) ≡ true
  pub install : is_installing (status_of f) ≡ true → is_installing (status_of e) ≡ true

Calm-refl : (e : Entry) → Calm e e
Calm-refl e = ground arith

pub Calm-Apart : (a b c d : Entry) → Calm a c → Calm b d → Apart a b → Apart c d
unfolding clash both_installing same_target
Calm-Apart a b c d p q h = ground arith

pub cancel-Calm : (e : Entry) → Calm e (cancel_entry e)
unfolding Task.cancel is_active is_installing
cancel-Calm e = ground arith

pub settle-Calm : (error : Option Text) (e : Entry) → Calm e (settle error e)
unfolding Task.set_status is_active is_installing
settle-Calm error e = ground arith

pub act-Calm : (a : Action) (w : Worker) (e : Entry) → e.worker ≡ w → IsSound e → Calm e (act a w e)
unfolding act is_active is_installing
act-Calm begin starting e q v = ground (arith, v.not_begun q)
act-Calm (progress n) running e q v = ground arith
act-Calm (finish r) running e q v = ground arith
act-Calm drop starting e q v = ground arith
act-Calm _ _ e q v = ground arith

pub modify-Calm :
    (f : Entry → Entry) (id : ℕ) (es : List Entry)
    → ((e : Entry) → IsSound e → Calm e (f e))
    → Sound es
    → Pairs Apart es
    → Pairs Apart (modify id f es)
unfolding modify
modify-Calm f id es calm v h =
    Pairs-map IsSound Apart Apart _ (λ x y p q r. Calm-Apart x y _ _ (edit x p) (edit y q) r) es v h
  where
    edit : (x : Entry) → IsSound x → Calm x (if x.id == id then f x else x)
    edit x p = elim (Bool-cases (x.id == id)) [
      | inl same ↦ rw same (calm x p)
      | inr other ↦ rw other (Calm-refl x)
    ]

install-Apart :
    (id : ℕ) (x y : Entry)
    → is_installing (status_of x) ≡ false
    → is_installing (status_of y) ≡ false
    → Apart x y
    → Apart (if x.id == id then install_entry x else x) (if y.id == id then install_entry y else y)
unfolding Task.begin_install clash both_installing same_target is_active is_installing
install-Apart id x y p q h = ground (arith, h.keys, h.downloads)

pub modify-install :
    (id : ℕ) (es : List Entry)
    → any (λ x. is_installing (status_of x)) es ≡ false
    → Pairs Apart es
    → Pairs Apart (modify id install_entry es)
unfolding modify
modify-install id es none_yet h =
    Pairs-map (λ x. is_installing (status_of x) ≡ false) Apart Apart _
      (λ x y p q r. install-Apart id x y p q r) es (any-false _ es none_yet) h

same_target_sym : (a b : Operation) → same_target a b ≡ same_target b a
unfolding same_target
same_target_sym a b = cc (
  text_eq_sym a.name b.name,
  text_eq_sym a.version b.version,
  text_eq_sym a.platform b.platform,
  text_eq_sym a.architecture b.architecture,
)

queue_entry-Apart :
    (o : Operation) (y : Entry)
    → is_installing o.status ≡ false
    → is_duplicate o y ≡ false
    → not (y.id == o.operation_id) ≡ true
    → Apart (queue_entry o) y
unfolding queue_entry is_duplicate clash both_installing
queue_entry-Apart o y i d k = ground (arith, same_target_sym y.task.operation o)

retain-Apart :
    (o : Operation) (es : List Entry)
    → is_installing o.status ≡ false
    → All (λ y. is_duplicate o y ≡ false) es
    → All (Apart (queue_entry o)) (retain (λ x. not (x.id == o.operation_id)) es)
retain-Apart o [] i d = tt
retain-Apart o (y ∷ ys) i d = elim (Bool-cases (not (y.id == o.operation_id))) [
  | inl k ↦ rw k (queue_entry-Apart o y i d.0 k, retain-Apart o ys i d.1)
  | inr k ↦ rw k (retain-Apart o ys i d.1)
]

pub prune-Pairs : (es : List Entry) → Pairs Apart es → Pairs Apart (prune es)
unfolding prune
prune-Pairs es h = ground (arith, Pairs-retain Apart is_kept es h)

pub prune-All : (P : Entry → Type 0) (es : List Entry) → All P es → All P (prune es)
unfolding prune
prune-All P es h = ground (arith, retain-All P is_kept es h)

pub insert-Pairs :
    (id : ℕ) (a : Artifact) (es : List Entry)
    → any (is_duplicate (queue id a)) es ≡ false
    → Pairs Apart es
    → Pairs Apart (insert (queue_entry (queue id a)) (prune es))
unfolding insert queue_entry queue
insert-Pairs id a es d h = (
  retain-Apart (queue id a) (prune es) (unfold queue is_installing in refl)
      (prune-All _ es (any-false _ es d)),
  Pairs-retain Apart _ (prune es) (prune-Pairs es h),
)

not_held :
    (id : ℕ) (y : Entry) (ys : List Entry)
    → All (Apart y) ys
    → any (holds_install id) ys ≡ true
    → (y.id == id) ≡ false
not_held id y [] h held = cc
not_held id y (x ∷ xs) h held = elim (Bool-cases (holds_install id x)) [
  | inl here ↦ ground (arith, h.0.keys)
  | inr there ↦ not_held id y xs h.1 (rw there at held)
]

-- The keys differ, so the task whose installation is held is the only one under its key.
pub holds-All :
    (id : ℕ) (es : List Entry)
    → Pairs Apart es
    → any (holds_install id) es ≡ true
    → All (λ e. (e.id == id) ≡ true → is_installing (status_of e) ≡ true) es
holds-All id [] h held = tt
holds-All id (y ∷ ys) h held = elim (Bool-cases (any (holds_install id) ys)) [
  | inl later ↦ (λ same. absurd (cc (same, not_held id y ys h.0 later)), holds-All id ys h.1 later)
  | inr first ↦
      let here : holds_install id y ≡ true = ground arith in
      (λ same. ground arith, All-imp (Apart y) _ (λ x r same. ground (arith, r.keys)) ys h.0)
]
