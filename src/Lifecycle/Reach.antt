-- ===== src/Lifecycle/Reach.antt =====
-- Whatever the kernel does, no process is lost, and the list of processes stays well formed.
use akaris_old.Base.{
  ℕ, suc, ◌+◌, ◌^◌, ◌<◌, ◌≡◌, refl, not, Option-cases, none, some, inl, inr, List, ◌++◌, ◌==◌,
  arith, Returns, Returns-bind, Returns-if, Returns-returned, Returns-then, length, get_elem?,
}
use akaris_old.State.{
  Regs, Region, Context, waiting, Kernel, get_process, find_kqueue, update_context,
}
use akaris_old.Scheduler.{schedule}
use akaris_old.Scheduler.Rotation.{pids}
use akaris_old.Process.{create_process, set_current_process, new_context}
use akaris_old.Process.Roster.{IsRoster}
use akaris_old.Space.{Mapping}
use akaris_old.Fork.{fork, fork_regions, with_child, new_child}
use akaris_old.Exec.{execve_elf}
use akaris_old.Exec.Effect.{execve_elf-SamePids}
use akaris_old.Kfifo.{create_fifo, write_fifo, read_fifo, store_bytes}
use akaris_old.Kfifo.Acl.{close_fifo}
use akaris_old.Kfifo.Hook.{delete_kqueue_event}
use akaris_old.Kqueue
use akaris_old.Kqueue.{any_triggered, create_kqueue, kqueue_event, kqueue_poll, kqueue_block}
use akaris_old.Lifecycle.{
  Runs, none_yet, one_more, created, forked, selected, scheduled, opened, wrote, read, closed,
  unhooked, queued, registered, polled, blocked, executed, stored, Interrupts, no_more, and_then,
}
use akaris_old.Lifecycle.Pids.{SamePids, pids-update}
use akaris_old.Lifecycle.Fifos.{
  KeepsPids, KeepsBoth, create_fifo-SamePids, write_fifo-SamePids, read_fifo-SamePids,
  close_fifo-SamePids,
}
use akaris_old.Lifecycle.Queues.{
  create_kqueue-SamePids, kqueue_event-SamePids, kqueue_poll-SamePids, fork_regions-SamePids,
}
use akaris_old.Lifecycle.Kept.{
  find_context-grown, Kept, KeptWith, Kept-SamePids, Kept-trans, Kept-appended, then-Kept, AllKept,
  schedule-Kept,
}

create_process-Kept :
    (old : Context) (old_free old_stack : Region) (k : Kernel)
    → k.next_avail_pid + 1 < 2 ^ 32
    → Kept k (create_process old old_free old_stack k).1
unfolding create_process new_context
create_process-Kept old old_free old_stack k l =
    Kept-appended k (new_context old old_free old_stack k.next_avail_pid) refl l

fork-Kept :
    (mapping : Mapping) (old : Context) (old_free old_stack : Region) (k : Kernel) (regs : Regs)
    → k.next_avail_pid + 1 < 2 ^ 32
    → Returns (KeptWith k) (fork mapping old old_free old_stack k regs)
unfolding fork new_child
fork-Kept mapping old old_free old_stack k regs l = elim (Option-cases (get_process k k.current)) [
  | inl e ↦ rw (fork, e) tt
  | inr (parent, e) ↦
      let c = new_child old old_free old_stack regs k.next_avail_pid in
      rw (fork, e)
        (Returns-bind (SamePids (with_child k c)) (KeptWith k)
          (fork_regions mapping (with_child k c) k.current k.next_avail_pid parent.space) _
          (fork_regions-SamePids mapping (with_child k c) k.current k.next_avail_pid parent.space)
          (λ k' s.
            Kept-trans k (with_child k c) k' (Kept-appended k c refl l)
              (Kept-SamePids (with_child k c) k' s)))
]

set_current_process-SamePids :
    (k k' : Kernel) (pid : ℕ) → set_current_process k pid ≡ some k' → SamePids k k'
unfolding set_current_process
set_current_process-SamePids k k' pid e = ground arith

delete_kqueue_event-SamePids :
    (k : Kernel) (a : ℕ) → Returns (KeepsPids k) (delete_kqueue_event k a)
unfolding delete_kqueue_event
delete_kqueue_event-SamePids k a = elim (Option-cases (get_elem? k.events a)) [
  | inl e ↦ rw (delete_kqueue_event, e) tt
  | inr (ke, e) ↦ rw (delete_kqueue_event, e) (refl, refl)
]

-- The result of kqueue_block.
abbrev KeptLast : Kernel → Kqueue.Error × Regs × Kernel → Type 0
KeptLast k (e, r, k') = Kept k k'

kqueue_block-Kept :
    (halts : List (Kernel → Kernel)) (k : Kernel) (q : ℕ) (regs : Regs)
    → AllKept halts
    → Returns (KeptLast k) (kqueue_block halts k q regs)
unfolding kqueue_block
kqueue_block-Kept halts k q regs a = elim (Option-cases (get_process k k.current)) [
  | inl e ↦ rw (kqueue_block, e) tt
  | inr (c, e) ↦ elim (Option-cases (find_kqueue q k.kqueues)) [
    | inl f ↦ rw (kqueue_block, e, f) same
    | inr (kq, f) ↦
        rw (kqueue_block, e, f)
          (Returns-if (KeptLast k) (not (kq.pid == c.pid)) _ _ same (
            Returns-then (KeptLast k) (any_triggered (suc (length k.events)) k.events kq.event_list)
              _
              (λ level. Returns-if (KeptLast k) level _ _ same (
                Returns-if (KeptLast k) (regs.ebp == 0) _ _ tt (
                  Returns-bind (KeptWith k) (KeptLast k) (schedule halts sleeping regs) _
                    (then-Kept k sleeping (schedule halts sleeping regs)
                      (Kept-SamePids k sleeping (asleep, refl))
                      (schedule-Kept halts sleeping regs a))
                    (λ (r, k') s. s))))))
  ]
]
  where
    same : Kept k k
    same = Kept-SamePids k k (refl, refl)

    sleeping : Kernel
    sleeping = record k {
      contexts =
          update_context k.current (λ c. record c { kqueue_block = q; status = waiting })
            k.contexts;
    }

    asleep : pids sleeping.contexts ≡ pids k.contexts
    asleep =
        pids-update k.current (λ c. record c { kqueue_block = q; status = waiting }) k.contexts
          (λ c. refl)

mutual
  Runs-Kept : {k k' : Kernel} → Runs k k' → Kept k k'
  Runs-Kept (none_yet k) = Kept-SamePids k k (refl, refl)
  Runs-Kept (one_more {k} {l} {m} r t) = Kept-trans k l m (Runs-Kept r) (Runs-Kept t)
  Runs-Kept (created old f s k l) = create_process-Kept old f s k l
  Runs-Kept (forked mapping old f s k k' regs pid l e) =
      Returns-returned (KeptWith k) (fork mapping old f s k regs) (pid, k')
        (fork-Kept mapping old f s k regs l) e
  Runs-Kept (selected k k' pid e) = Kept-SamePids k k' (set_current_process-SamePids k k' pid e)
  Runs-Kept (scheduled hs k k' regs regs' i e) =
      Returns-returned (KeptWith k) (schedule hs k regs) (regs', k')
        (schedule-Kept hs k regs (Interrupts-AllKept i)) e
  Runs-Kept (opened stale k k' recv send size e i h) = Kept-SamePids k k' (
      Returns-returned (KeepsBoth k) (create_fifo stale k recv send size) (e, i, k')
        (create_fifo-SamePids stale k recv send size) h)
  Runs-Kept (wrote k k' i p buf len e h) = Kept-SamePids k k' (
      Returns-returned (KeepsPids k) (write_fifo k i p buf len) (e, k')
        (write_fifo-SamePids k i p buf len) h)
  Runs-Kept (read k k' i p buf buf' len e h) = Kept-SamePids k k' (
      Returns-returned (KeepsBoth k) (read_fifo k i p buf len) (e, buf', k')
        (read_fifo-SamePids k i p buf len) h)
  Runs-Kept (closed k k' i p e h) =
      Kept-SamePids k k'
        (Returns-returned (KeepsPids k) (close_fifo k i p) (e, k') (close_fifo-SamePids k i p) h)
  Runs-Kept (unhooked k k' a e h) = Kept-SamePids k k' (
      Returns-returned (KeepsPids k) (delete_kqueue_event k a) (e, k')
        (delete_kqueue_event-SamePids k a) h)
  Runs-Kept (queued k p) = Kept-SamePids k (create_kqueue k p).2 (create_kqueue-SamePids k p)
  Runs-Kept (registered k k' q p ident filter flag e h) = Kept-SamePids k k' (
      Returns-returned (KeepsPids k) (kqueue_event k q p ident filter flag) (e, k')
        (kqueue_event-SamePids k q p ident filter flag) h)
  Runs-Kept (polled k k' q max changes e h) = Kept-SamePids k k' (
      Returns-returned (KeepsBoth k) (kqueue_poll k q max) (e, changes, k')
        (kqueue_poll-SamePids k q max) h)
  Runs-Kept (blocked hs k k' q regs regs' e i h) =
      Returns-returned (KeptLast k) (kqueue_block hs k q regs) (e, regs', k')
        (kqueue_block-Kept hs k q regs (Interrupts-AllKept i)) h
  Runs-Kept (executed old mapping k k' pid image len code h) = Kept-SamePids k k' (
      Returns-returned (λ (c, l). SamePids k l) (execve_elf old mapping k pid image len) (code, k')
        (execve_elf-SamePids old mapping k pid image len) h)
  Runs-Kept (stored k b bytes) = Kept-SamePids k (store_bytes k b bytes) (refl, refl)

  Interrupts-AllKept : {hs : List (Kernel → Kernel)} → Interrupts hs → AllKept hs
  Interrupts-AllKept no_more = tt
  Interrupts-AllKept (and_then r i) = (λ k. Runs-Kept (r k), Interrupts-AllKept i)

-- Whatever operations take the kernel from `k` to `k'`, and whatever interrupts end the halts of its
-- idle loop: the pids of `k` are those of `k'` up to where new ones follow, in the same order; each
-- process that get_process finds in `k` it finds in `k'`; and where the pids of `k` are distinct and
-- below the next one, so are those of `k'`.
pub reach_lem :
    (k k' : Kernel)
    → Runs k k'
    → ((more : List ℕ) × (pids k'.contexts ≡ pids k.contexts ++ more))
      × ((p : ℕ) → get_process k' p ≡ none → get_process k p ≡ none)
      × (IsRoster k → IsRoster k')
reach_lem k k' r =
    let h = Runs-Kept r in
    (
      (h.created, h.grown),
      (λ p e. find_context-grown p k.contexts k'.contexts h.created h.grown e),
      h.roster,
    )
