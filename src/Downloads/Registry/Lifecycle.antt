-- ===== src/Downloads/Registry/Lifecycle.antt =====
-- The life of one registered download of crates/agent/src/main.rs, as a relation on its status.
use fabdev.Prelude.{
  ℕ, ◌≡◌, refl, sym, ap, ◌∙◌, subst, inl, inr, Bool, true, false, Option, none, some, List, [], ◌∷◌,
  arith, ◌==◌, Bool-cases, Option-cases, All, any, find-All, Text,
}
use fabdev.Downloads.Task
use fabdev.Downloads.Task.{
  Status, queued, downloading, verified, installing, completed, failed, cancelled, is_active,
  is_verified, is_installing,
}
use fabdev.Downloads.Registry.{
  Entry, Manager, Artifact, Worker, starting, running, queue, queue_entry, insert, prune, modify,
  status_of, shutdown, cancel_entry, install_entry, lookup,
}
use fabdev.Downloads.Registry.Calls.{
  holds_install, Call, step, run, Action, begin, progress, finish, drop, act, work_entry,
}
use fabdev.Downloads.Registry.Cases.{
  Covers, step_covers, Registers, settle, step_keeps, with_operations,
}
use fabdev.Downloads.Registry.Entries.{IsSound}
use fabdev.Downloads.Registry.Lookup.{
  edit, change, lookup-modify, lookup-prune, lookup-insert_ne, lookup-map, lookup-prune-none,
}
use fabdev.Downloads.Registry.Exclusive.{lookup-IsSound}
use fabdev.Downloads.Registry.Apart.{cancel-Calm, holds-All}
use fabdev.Downloads.Registry.Invariant.{IsValid, IsValid-Keeps}

-- The states that one call may lead to; a call may also leave the state alone.
unfoldable pub may_move : Status → Status → Bool
may_move queued queued = true
may_move queued downloading = true
may_move queued cancelled = true
may_move downloading downloading = true
may_move downloading verified = true
may_move downloading failed = true
may_move downloading cancelled = true
may_move verified verified = true
may_move verified installing = true
may_move installing installing = true
may_move installing completed = true
may_move installing failed = true
may_move completed completed = true
may_move failed failed = true
may_move cancelled cancelled = true
may_move _ _ = false

abbrev Moves : Entry → Entry → Type 0
Moves e f = may_move (status_of e) (status_of f) ≡ true

Moves-refl : (e : Entry) → Moves e e
unfolding may_move
Moves-refl e = ground arith

cancel-Moves : (e : Entry) → Moves e (cancel_entry e)
unfolding Task.cancel is_active may_move
cancel-Moves e = ground arith

install-Moves : (e : Entry) → Moves e (install_entry e)
unfolding Task.begin_install is_verified may_move
install-Moves e = ground arith

settle-Moves :
    (error : Option Text) (e : Entry)
    → is_installing (status_of e) ≡ true
    → Moves e (settle error e)
unfolding Task.set_status is_installing may_move
settle-Moves error e i = ground arith

act-Moves : (a : Action) (w : Worker) (e : Entry) → e.worker ≡ w → IsSound e → Moves e (act a w e)
unfolding act may_move
act-Moves begin starting e q v = ground (arith, v.not_begun q)
act-Moves (progress n) running e q v = ground arith
act-Moves (finish r) running e q v = ground (arith, v.busy q, v.flagged)
act-Moves drop starting e q v = ground arith
act-Moves _ _ e q v = ground arith

-- Under one key: what is registered afterwards comes by one move from what was registered before.
abbrev Follows : ℕ → Manager → Manager → Type 0
Follows id m m' =
    (e f : Entry) → lookup id m.operations ≡ some e → lookup id m'.operations ≡ some f → Moves e f

-- `f` is asked to move the entry under `id` only.
modify-Follows :
    (id j : ℕ) (g : Entry → Entry) (m : Manager)
    → ((e : Entry) → (g e).id ≡ e.id)
    → ((e : Entry) → lookup id m.operations ≡ some e → (e.id == j) ≡ true → Moves e (g e))
    → Follows id m (with_operations m (modify j g m.operations))
modify-Follows id j g m keeps moves e f p q =
    let found : some f ≡ some (edit j g e) =
      sym q ∙ lookup-modify j id g m.operations keeps ∙ ap (change (edit j g)) p in
    elim (Bool-cases (e.id == j)) [
      | inl same ↦ let moved : g e ≡ f = ground arith in subst (Moves e) moved (moves e p same)
      | inr other ↦ let kept : e ≡ f = ground arith in subst (Moves e) kept (Moves-refl e)
    ]

pruned-Follows :
    (id : ℕ) (m : Manager) → IsValid m → Follows id m (with_operations m (prune m.operations))
pruned-Follows id m v e f p q = elim (lookup-prune id m.operations e v.apart p) [
  | inl kept ↦ let s : e ≡ f = ground arith in subst (Moves e) s (Moves-refl e)
  | inr gone ↦ absurd (cc (gone.0, q))
]

pub act-id : (a : Action) (w : Worker) (e : Entry) → (act a w e).id ≡ e.id
unfolding act
act-id begin starting e = ground arith
act-id (progress n) running e = refl
act-id (finish r) running e = refl
act-id drop starting e = refl
act-id _ _ e = refl

added-Follows :
    (id j : ℕ) (a : Artifact) (m : Manager)
    → (j == id) ≡ false
    → IsValid m
    → Follows id m (with_operations m (insert (queue_entry (queue j a)) (prune m.operations)))
unfolding queue_entry queue
added-Follows id j a m n v e f p q =
    let r = lookup-insert_ne id (queue_entry (queue j a)) (prune m.operations) n in
    pruned-Follows id m v e f p (sym r ∙ q)

settle_one :
    (id j : ℕ) (error : Option Text) (m : Manager)
    → any (holds_install j) m.operations ≡ true
    → IsValid m
    → (e : Entry) → lookup id m.operations ≡ some e
    → (e.id == j) ≡ true
    → Moves e (settle error e)
unfolding lookup
settle_one id j error m held v e p same =
    settle-Moves error e
      (find-All _ (λ x. x.id == id) m.operations e p (holds-All j m.operations v.apart held) same)

shut-Follows : (id : ℕ) (m : Manager) → Follows id m (shutdown m)
unfolding shutdown
shut-Follows id m e f p q =
    let found : some f ≡ some (cancel_entry e) =
      sym q ∙ lookup-map id cancel_entry m.operations (λ x. refl) ∙ ap (change cancel_entry) p in
    let moved : cancel_entry e ≡ f = ground arith in subst (Moves e) moved (cancel-Moves e)

Follows-Covers : (id : ℕ) → Covers (λ j. (j == id) ≡ false) IsValid (Follows id)
Follows-Covers id = record {
  same = λ m v e f p q. let s : e ≡ f = ground arith in subst (Moves e) s (Moves-refl e);
  pruned = pruned-Follows id;
  added = λ j a m n c v. added-Follows id j a m n v;
  cancelled = λ j m v.
      modify-Follows id j cancel_entry m (λ e. (cancel-Calm e).id) (λ e p q. cancel-Moves e);
  installed = λ j m n v. modify-Follows id j install_entry m (λ e. refl) (λ e p q. install-Moves e);
  settled = λ j error m held v.
      modify-Follows id j (settle error) m (λ e. refl) (settle_one id j error m held v);
  worked = λ j a m v.
      modify-Follows id j (work_entry a) m (λ e. act-id a e.worker e)
        (λ e p q. act-Moves a e.worker e refl (lookup-IsSound id m.operations e v.sound p));
  shut = λ m v. shut-Follows id m;
}

abbrev StaysAbsent : ℕ → Manager → Manager → Type 0
StaysAbsent id m m' = lookup id m.operations ≡ none → lookup id m'.operations ≡ none

modify-StaysAbsent :
    (id j : ℕ) (g : Entry → Entry) (m : Manager)
    → ((e : Entry) → (g e).id ≡ e.id)
    → StaysAbsent id m (with_operations m (modify j g m.operations))
modify-StaysAbsent id j g m keeps h =
    lookup-modify j id g m.operations keeps ∙ ap (change (edit j g)) h

added-StaysAbsent :
    (id j : ℕ) (a : Artifact) (m : Manager)
    → (j == id) ≡ false
    → StaysAbsent id m (with_operations m (insert (queue_entry (queue j a)) (prune m.operations)))
unfolding queue_entry queue
added-StaysAbsent id j a m n h =
    lookup-insert_ne id (queue_entry (queue j a)) (prune m.operations) n
    ∙ lookup-prune-none id m.operations h

shut-StaysAbsent : (id : ℕ) (m : Manager) → StaysAbsent id m (shutdown m)
unfolding shutdown
shut-StaysAbsent id m h =
    lookup-map id cancel_entry m.operations (λ e. refl) ∙ ap (change cancel_entry) h

StaysAbsent-Covers : (id : ℕ) → Covers (λ j. (j == id) ≡ false) IsValid (StaysAbsent id)
StaysAbsent-Covers id = record {
  same = λ m v h. h;
  pruned = λ m v. lookup-prune-none id m.operations;
  added = λ j a m n c v. added-StaysAbsent id j a m n;
  cancelled = λ j m v. modify-StaysAbsent id j cancel_entry m (λ e. refl);
  installed = λ j m n v. modify-StaysAbsent id j install_entry m (λ e. refl);
  settled = λ j error m held v. modify-StaysAbsent id j (settle error) m (λ e. refl);
  worked = λ j a m v. modify-StaysAbsent id j (work_entry a) m (λ e. act-id a e.worker e);
  shut = λ m v. shut-StaysAbsent id m;
}

-- A call that does not register the key `id`.
abbrev pub Leaves : ℕ → Call → Type 0
Leaves id = Registers (λ j. (j == id) ≡ false)

-- In a valid registry, if a call does not register this key: a download that is under the key after
-- the call was under it before, in a state from which `may_move`, its documented life, leads on.
pub step-lifecycle :
    (m : Manager) (c : Call) (id : ℕ) (f : Entry)
    → IsValid m
    → Leaves id c
    → lookup id (step m c).operations ≡ some f
    → (e : Entry) × (lookup id m.operations ≡ some e)
      × (may_move (status_of e) (status_of f) ≡ true)
step-lifecycle m c id f v l q = elim (Option-cases (lookup id m.operations)) [
  | inl gone ↦ absurd (cc (step_covers (StaysAbsent-Covers id) m c l v gone, q))
  | inr (e, p) ↦ (e, p, step_covers (Follows-Covers id) m c l v e f p q)
]

abbrev pub StatusUnder : ℕ → Status → Manager → Type 0
StatusUnder id s m = (e : Entry) → lookup id m.operations ≡ some e → status_of e ≡ s

step-cancelled :
    (m : Manager) (c : Call) (id : ℕ)
    → IsValid m
    → Leaves id c
    → StatusUnder id cancelled m
    → StatusUnder id cancelled (step m c)
unfolding may_move
step-cancelled m c id v l h f q =
    let (e, p, moved) = step-lifecycle m c id f v l q in ground (arith, h e p)

-- A cancelled download stays cancelled in a valid registry, whatever calls follow that do not
-- register its key anew: it is never verified, installed or resumed.
pub cancelled_final :
    (m : Manager) (cs : List Call) (id : ℕ)
    → IsValid m
    → All (Leaves id) cs
    → StatusUnder id cancelled m
    → StatusUnder id cancelled (run m cs)
unfolding run
cancelled_final m [] id v l h = h
cancelled_final m (c ∷ cs) id v l h =
    cancelled_final (step m c) cs id (step_keeps IsValid-Keeps m c v) l.1
      (step-cancelled m c id v l.0 h)
