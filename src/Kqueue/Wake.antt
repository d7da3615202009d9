-- ===== src/Kqueue/Wake.antt =====
-- No wake-up is lost between kfifo_write_fifo (sys/common/kfifo.c) and kqueue_block
-- (sys/common/kqueue.c).
use akaris_old.Base.{
  ℕ, ◌≤◌, ◌≡◌, ap, ◌∙◌, true, false, Option, some, List, [], ◌∷◌, ◌==◌, arith, Bool-cases, inl, inr,
  ==_iff, returns, length, get_elem?, contains,
}
use mathlib.Core.Path.{subst}
use akaris_old.State.{Regs, Context, Kevent, Kqueue, Fifo, Kernel, get_process, find_kqueue}
use akaris_old.Ring.{cur_free}
use akaris_old.Ring.Refine.{IsRing}
use akaris_old.Trigger.{is_readable_flag}
use akaris_old.Trigger.Wake.{SameLinks, Fired, AllFired, IsWired, Chain}
use akaris_old.Trigger.Calm.{NextChain}
use akaris_old.Kfifo
use akaris_old.Kfifo.{write_fifo}
use akaris_old.Kfifo.Write.{Open, Endpoint, Sent, write_fifo-Sent}
use akaris_old.Kqueue.{success, kqueue_block}
use akaris_old.Kqueue.Block.{Blocks, kqueue_block-Fired}

linked-NextChain :
    (k k' : Kernel) (p : Option ℕ) (cs : List ℕ)
    → SameLinks k k'
    → NextChain k.events p cs
    → NextChain k'.events p cs
linked-NextChain k k' p [] s h = h
linked-NextChain k k' p (a ∷ cs) s (ke, e, at, rest) =
    let (kn, at', next) = s a ke at in
    (kn, e, at', rw next (linked-NextChain k k' ke.next cs s rest))

AllFired-at :
    (es : List Kevent) (k : Kernel) (bs : List ℕ) (a : ℕ) (ke : Kevent)
    → AllFired es k bs
    → contains bs a ≡ true
    → get_elem? es a ≡ some ke
    → is_readable_flag ke.flag ≡ true
    → Fired k a
AllFired-at es k [] a ke all c at flag = cc
AllFired-at es k (b ∷ bs) a ke (first, all) c at flag = elim (Bool-cases (b == a)) [
  | inl same ↦
      subst (Fired k) ((==_iff b a).0 same)
        (first ke (ap (get_elem? es) ((==_iff b a).0 same) ∙ at) flag)
  | inr other ↦ AllFired-at es k bs a ke all (ground arith) at flag
]

-- The owner of a queue is current.
abbrev pub running_owner : Kernel → Kqueue → Kernel
running_owner k q = record k { current = q.pid }

-- An event that is on the list of a FIFO and on that of a queue, for what can be read.
pub record Watches (k : Kernel) (i : ℕ) (bs cs : List ℕ) : Type 0 where
  pub queue : Kqueue
  pub found : find_kqueue i k.kqueues ≡ some queue
  pub owner : Context
  pub living : get_process k queue.pid ≡ some owner
  pub same_pid : owner.pid ≡ queue.pid
  pub chain : NextChain k.events queue.event_list cs
  pub room : length cs ≤ length k.events
  pub place : ℕ
  pub event : Kevent
  pub at : get_elem? k.events place ≡ some event
  pub readable : is_readable_flag event.flag ≡ true
  pub of_fifo : contains bs place ≡ true
  pub of_queue : contains cs place ≡ true

Sent-Blocks :
    (k k' : Kernel) (f : Fifo) (b : ℕ) (buf : List ℕ) (len i : ℕ) (bs cs : List ℕ)
    → Sent k k' f b buf len bs
    → (w : Watches k i bs cs) → Blocks (running_owner k' w.queue) i cs
Sent-Blocks k k' f b buf len i bs cs t w =
    let (owner, living, same) = t.processes w.queue.pid w.owner w.living in
    record {
      curproc = owner;
      current = living;
      curkq = w.queue;
      found = rw t.kqueues w.found;
      owner = cc;
      chain = linked-NextChain k k' w.queue.event_list cs t.links w.chain;
      room = omega (arith, t.events, w.room);
    }

Sent-Fired :
    (k k' : Kernel) (f : Fifo) (b : ℕ) (buf : List ℕ) (len i : ℕ) (bs cs : List ℕ)
    → Sent k k' f b buf len bs
    → (w : Watches k i bs cs) → Fired (running_owner k' w.queue) w.place
Sent-Fired k k' f b buf len i bs cs t w =
    let h = AllFired-at k.events k' bs w.place w.event t.fired w.of_fifo w.at w.readable in
    record {
      event = h.event;
      at = h.at;
      marked = h.marked;
      queue = h.queue;
      parent = h.parent;
      awake = h.awake;
    }

-- No wake-up is lost: where a queue has an event for what can be read from a FIFO, and a sender's write
-- to the FIFO goes through, a block on the queue by its owner, before any read or poll, returns at once
-- with nothing changed. The write is as in write_fifo-Sent, the events of the queue are a chain and no
-- more than there are, its owner exists, and EBP is not 0.
pub write_wakes :
    (k : Kernel) (mypid : ℕ) (f : Fifo) (buf : List ℕ) (len i : ℕ) (bs cs : List ℕ)
    (halts : List (Kernel → Kernel)) (regs : Regs)
    → Open k f.fifo_id f
    → (e : Endpoint k f mypid) → IsRing (k.memory e.region.backing) f.size f.start f.end
    → contains f.sendlist mypid ≡ true
    → len ≤ cur_free f.size f.start f.end
    → IsWired k
    → Chain k.events f.ke_list bs
    → length bs ≤ length k.events
    → (w : Watches k i bs cs) → (regs.ebp == 0) ≡ false
    → (k' : Kernel) × (write_fifo k f.fifo_id mypid buf len ≡ returns (Kfifo.success, k'))
      × (kqueue_block halts (running_owner k' w.queue) i regs
          ≡ returns (success, regs, running_owner k' w.queue))
write_wakes k mypid f buf len i bs cs halts regs o e v s l wired chain n w framed =
    let (k', done, sent) = write_fifo-Sent k mypid f buf len o e v bs s l wired chain n in
    (
      k',
      done,
      kqueue_block-Fired halts (running_owner k' w.queue) i regs cs w.place
          (Sent-Blocks k k' f e.region.backing buf len i bs cs sent w) framed w.of_queue
          (Sent-Fired k k' f e.region.backing buf len i bs cs sent w),
    )
