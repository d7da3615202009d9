-- ===== src/Kqueue/Block.antt =====
-- kqueue_event, create_kqueue and kqueue_block (sys/common/kqueue.c).
use akaris_old.Base.{
  ℕ, zero, suc, ◌≤◌, ◌<◌, ◌≡◌, ◌∙◌, Bool, true, false, ◌||◌, Option, none, some, List, [], ◌∷◌,
  ◌==◌, if◌then◌else◌, arith, Outcome, returns, ◌>>=◌, length, get_elem?, contains, ==_refl,
}
use akaris_old.State.{
  Kevent, Kqueue, Kernel, Filter, Flag, Regs, Context, waiting, update_context, find_kqueue,
  get_process,
}
use akaris_old.Trigger.Calm.{NextChain}
use akaris_old.Kqueue.{Error, success, kqueue_event, kqueue_block, any_triggered}
use akaris_old.Scheduler.{schedule}
use akaris_old.Trigger.Wake.{Fired}

-- However kqueue_event ends, the lock of the queues is free, also where another holder had it.
kqueue_event_unlocks :
    (k k' : Kernel) (q mypid ident : ℕ) (filter : Filter) (flag : Flag) (e : Error)
    → kqueue_event k q mypid ident filter flag ≡ returns (e, k')
    → k'.kqueue_lock ≡ 0
unfolding kqueue_event
kqueue_event_unlocks k k' q mypid ident filter flag e h = ground arith

-- One of the events is marked.
abbrev pub marked : List Kevent → List ℕ → Bool
marked es [] = false
marked es (b ∷ bs) = elim (get_elem? es b) [
  | none ↦ false
  | some ke ↦ (ke.triggered == 1) || marked es bs
]

-- The walk of kqueue_block tells whether an event of the queue is marked.
pub any_triggered_lem :
    (rounds : ℕ) (es : List Kevent) (p : Option ℕ) (bs : List ℕ)
    → length bs < rounds
    → NextChain es p bs
    → any_triggered rounds es p ≡ returns (marked es bs)
unfolding any_triggered
any_triggered_lem zero es p bs l h = absurd (omega arith)
any_triggered_lem (suc n) es p [] l h = rw (h, any_triggered)
any_triggered_lem (suc n) es p (b ∷ bs) l (kb, s, t, r) =
    rw (s, any_triggered) (ground (arith, any_triggered_lem n es kb.next bs))

abbrev pub answer : Regs → Kernel → Outcome (Error × Regs × Kernel)
answer regs k = returns (success, regs, k)

abbrev pub answered : Regs × Kernel → Outcome (Error × Regs × Kernel)
answered (regs, k) = answer regs k

-- The owner of a queue that blocks on it, with its process and the events of the queue.
pub record Blocks (k : Kernel) (i : ℕ) (bs : List ℕ) : Type 0 where
  pub curproc : Context
  pub current : get_process k k.current ≡ some curproc
  pub curkq : Kqueue
  pub found : find_kqueue i k.kqueues ≡ some curkq
  pub owner : curkq.pid ≡ curproc.pid
  pub chain : NextChain k.events curkq.event_list bs
  pub room : length bs ≤ length k.events

-- The kernel in which the current process waits on the queue.
unfoldable pub sleeping : Kernel → ℕ → Kernel
sleeping k i = record k {
  contexts =
      update_context k.current (λ c. record c { kqueue_block = i; status = waiting }) k.contexts;
}

-- kqueue_block returns at once, with nothing changed, exactly if an event of the queue is marked;
-- otherwise the process waits on the queue and the scheduler picks the next one.
pub kqueue_block_lem :
    (halts : List (Kernel → Kernel)) (k : Kernel) (i : ℕ) (regs : Regs) (bs : List ℕ)
    → Blocks k i bs
    → (regs.ebp == 0) ≡ false
    → kqueue_block halts k i regs ≡ (
        if marked k.events bs
        then answer regs k
        else (schedule halts (sleeping k i) regs >>= answered))
unfolding kqueue_block sleeping
kqueue_block_lem halts k i regs bs b e =
    rw (b.current, kqueue_block, b.found)
      (simp (
        b.owner,
        ==_refl,
        any_triggered_lem (suc (length k.events)) k.events b.curkq.event_list bs
            (omega (arith, b.room)) b.chain,
        e,
      ))

marked_member :
    (es : List Kevent) (p : Option ℕ) (bs : List ℕ) (a : ℕ) (ke : Kevent)
    → NextChain es p bs
    → contains bs a ≡ true
    → get_elem? es a ≡ some ke
    → ke.triggered ≡ 1
    → marked es bs ≡ true
marked_member es p [] a ke h c e t = cc
marked_member es p (b ∷ bs) a ke (kb, s, u, r) c e t =
    ground (arith, marked_member es kb.next bs a ke r)

-- No wake-up is lost: a process that blocks on its queue after an event of the queue has fired
-- returns at once.
pub kqueue_block-Fired :
    (halts : List (Kernel → Kernel)) (k : Kernel) (i : ℕ) (regs : Regs) (bs : List ℕ) (a : ℕ)
    → Blocks k i bs
    → (regs.ebp == 0) ≡ false
    → contains bs a ≡ true
    → Fired k a
    → kqueue_block halts k i regs ≡ returns (success, regs, k)
kqueue_block-Fired halts k i regs bs a b e c f =
    kqueue_block_lem halts k i regs bs b e
    ∙ rw (marked_member k.events b.curkq.event_list bs a f.event b.chain c f.at f.marked)
