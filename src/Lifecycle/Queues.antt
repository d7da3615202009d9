-- ===== src/Lifecycle/Queues.antt =====
-- The operations on kernel queues and on the lists of pids of FIFOs leave the pids as they are, and so
-- does each step of fork behind the creation of the child.
use akaris_old.Base.{
  ℕ, suc, refl, not, Bool-cases, Option-cases, inl, inr, List, [], ◌∷◌, ◌==◌, Returns, Returns-bind,
  Returns-if, Returns-then, length,
}
use akaris_old.State.{
  Region, RegionType, stack, core, library, anon, ipc, sentinel, free, kernel, Filter, fifo, proc,
  Flag, Kqueue, Kernel, get_process, find_fifo, find_kqueue,
}
use akaris_old.Space.{clone_region}
use akaris_old.Space.Carve.{create_region_at}
use akaris_old.Kfifo.{put_space}
use akaris_old.Kfifo.Hook.{add_kqueue_event}
use akaris_old.Kfifo.Acl.{clone_fifo, update_senders}
use akaris_old.Kqueue.{create_kqueue, kqueue_event, kqueue_poll, poll_events, new_event}
use akaris_old.Space.{Mapping}
use akaris_old.Fork.{copy_region, share_region, fork_region, fork_regions}
use akaris_old.Lifecycle.Pids.{SamePids, SamePids-trans, then-SamePids}
use akaris_old.Lifecycle.Fifos.{KeepsPids, KeepsBoth, put_space-SamePids}

pub create_kqueue-SamePids : (k : Kernel) (p : ℕ) → KeepsBoth k (create_kqueue k p)
unfolding create_kqueue
create_kqueue-SamePids k p = elim (Bool-cases (k.kqueue_lock == 0)) [
  | inl e ↦ rw (create_kqueue, e) (refl, refl)
  | inr e ↦ rw (create_kqueue, e) (refl, refl)
]

add_kqueue_event-SamePids :
    (k : Kernel) (a ident : ℕ) (kq : Kqueue) (flag : Flag)
    → SamePids k (add_kqueue_event k a (new_event kq ident fifo flag)).1
unfolding add_kqueue_event
add_kqueue_event-SamePids k a ident kq flag = elim (Option-cases (find_fifo ident k.fifos)) [
  | inl e ↦ rw (add_kqueue_event, e) (refl, refl)
  | inr (f, e) ↦ rw (add_kqueue_event, e) (refl, refl)
]

pub kqueue_event-SamePids :
    (k : Kernel) (q mypid ident : ℕ) (filter : Filter) (flag : Flag)
    → Returns (KeepsPids k) (kqueue_event k q mypid ident filter flag)
unfolding kqueue_event
kqueue_event-SamePids k q mypid ident proc flag =
    Returns-if (KeepsPids k) (not (k.kqueue_lock == 0)) _ _ (refl, refl)
      (elim (Option-cases (find_kqueue q k.kqueues)) [
        | inl e ↦ rw e (refl, refl)
        | inr (kq, e) ↦
            rw e (Returns-if (KeepsPids k) (not (kq.pid == mypid)) _ _ (refl, refl) (tt))
      ])
kqueue_event-SamePids k q mypid ident fifo flag =
    Returns-if (KeepsPids k) (not (k.kqueue_lock == 0)) _ _ (refl, refl)
      (elim (Option-cases (find_kqueue q k.kqueues)) [
        | inl e ↦ rw e (refl, refl)
        | inr (kq, e) ↦ rw e (
            Returns-if (KeepsPids k) (not (kq.pid == mypid)) _ _ (refl, refl)
              (add_kqueue_event-SamePids _ (length k.events) ident kq flag))
      ])

pub kqueue_poll-SamePids : (k : Kernel) (q max : ℕ) → Returns (KeepsBoth k) (kqueue_poll k q max)
unfolding kqueue_poll
kqueue_poll-SamePids k q max = elim (Option-cases (find_kqueue q k.kqueues)) [
  | inl e ↦ rw (kqueue_poll, e) (refl, refl)
  | inr (kq, e) ↦
      rw (kqueue_poll, e)
        (Returns-if (KeepsBoth k) (not (kq.pid == k.current)) _ _ (refl, refl)
          (Returns-then (KeepsBoth k)
            (poll_events (suc (length k.events)) k.events kq.event_list 0 max) _
            (λ a. (refl, refl))))
]

pub clone_fifo-SamePids : (k : Kernel) (i p : ℕ) → SamePids k (clone_fifo k i p).1
unfolding clone_fifo
clone_fifo-SamePids k i p = elim (Bool-cases (k.fifo_list_mutex == 0)) [
  | inr e ↦ rw (clone_fifo, e) (refl, refl)
  | inl e ↦ elim (Option-cases (find_fifo i k.fifos)) [
    | inl m ↦ rw (clone_fifo, e, m) (refl, refl)
    | inr (f, m) ↦ elim (Bool-cases (f.lock == 0)) [
      | inl l ↦ rw (clone_fifo, e, m, l) (refl, refl)
      | inr l ↦ rw (clone_fifo, e, m, l) (refl, refl)
    ]
  ]
]

pub update_senders-SamePids : (k : Kernel) (p q : ℕ) → SamePids k (update_senders k p q).1
unfolding update_senders
update_senders-SamePids k p q = elim (Bool-cases (k.fifo_list_mutex == 0)) [
  | inl e ↦ rw (update_senders, e) (refl, refl)
  | inr e ↦ rw (update_senders, e) (refl, refl)
]

copy_region-SamePids :
    (mapping : Mapping) (k : Kernel) (child : ℕ) (mr : Region)
    → Returns (SamePids k) (copy_region mapping k child mr)
unfolding copy_region
copy_region-SamePids mapping k child mr = elim (Option-cases (get_process k child)) [
  | inl e ↦ rw (copy_region, e) tt
  | inr (c, e) ↦
      rw (copy_region, e)
        (Returns-then (SamePids k)
          (create_region_at c.space mr.virtual_address mr.length mr.type mr.attributes mr.parameter
            k.next_backing)
          _
          (λ space.
            Returns-then (SamePids k) (mapping mr.virtual_address mr.length) _
              (λ stale. put_space-SamePids k child space)))
]

share_region-SamePids :
    (k : Kernel) (child : ℕ) (mr : Region) → Returns (SamePids k) (share_region k child mr)
unfolding share_region
share_region-SamePids k child mr = elim (Option-cases (get_process k child)) [
  | inl e ↦ rw (share_region, e) tt
  | inr (c, e) ↦
      rw (share_region, e)
        (Returns-then (SamePids k) (clone_region c.space mr) _ (λ space.
          SamePids-trans k (put_space k child space)
            (clone_fifo (put_space k child space) mr.parameter child).1
            (put_space-SamePids k child space)
            (clone_fifo-SamePids (put_space k child space) mr.parameter child)))
]

fork_region-SamePids :
    (mapping : Mapping) (k : Kernel) (child : ℕ) (mr : Region) (type : RegionType)
    → Returns (SamePids k) (fork_region mapping k child mr type)
unfolding fork_region
fork_region-SamePids mapping k child mr anon = copy_region-SamePids mapping k child mr
fork_region-SamePids mapping k child mr core = copy_region-SamePids mapping k child mr
fork_region-SamePids mapping k child mr library = copy_region-SamePids mapping k child mr
fork_region-SamePids mapping k child mr stack = copy_region-SamePids mapping k child mr
fork_region-SamePids mapping k child mr ipc = share_region-SamePids k child mr
fork_region-SamePids mapping k child mr sentinel = (refl, refl)
fork_region-SamePids mapping k child mr free = (refl, refl)
fork_region-SamePids mapping k child mr kernel = (refl, refl)

pub fork_regions-SamePids :
    (mapping : Mapping) (k : Kernel) (parent child : ℕ) (mrs : List Region)
    → Returns (SamePids k) (fork_regions mapping k parent child mrs)
unfolding fork_regions
fork_regions-SamePids mapping k parent child [] = (refl, refl)
fork_regions-SamePids mapping k parent child (mr ∷ mrs) =
    Returns-bind (SamePids k) (SamePids k) (fork_region mapping k child mr mr.type) _
      (fork_region-SamePids mapping k child mr mr.type)
      (λ k' s.
        then-SamePids k (update_senders k' parent child).1 _
          (SamePids-trans k k' (update_senders k' parent child).1 s
            (update_senders-SamePids k' parent child))
          (fork_regions-SamePids mapping (update_senders k' parent child).1 parent child mrs))
