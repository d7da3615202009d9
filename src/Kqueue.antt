-- ===== src/Kqueue.antt =====
-- The kernel queues of sys/common/kqueue.c: creation, registration of events, blocking, polling.
-- Slab objects are always granted.
pub mod Poll
pub mod Block
pub mod Switch
pub mod Wake
mod Tests
use akaris_old.Base.{
  ℕ, zero, suc, ◌+◌, Bool, true, false, not, ◌||◌, ◌&&◌, Option, none, some, List, [], ◌∷◌, ◌++◌,
  leb, ◌==◌, if◌then◌else◌, Outcome, returns, fault, hang, ◌>>=◌, length, get_elem?, set, add32,
}
use akaris_old.State.{
  Regs, Context, Status, waiting, Kevent, Filter, fifo, proc, Flag, Kqueue, Kernel, test_and_set,
  find_kqueue, update_kqueue, find_context, update_context, get_process,
}
use akaris_old.Scheduler.{schedule}
use akaris_old.Kfifo.Hook.{add_kqueue_event}

-- kqueue_error
pub data Error : Type 0 where
  success mem lock exist perm : Error

abbrev pub with_lock : Kernel → ℕ → Kernel
with_lock k l = record k { kqueue_lock = l }

-- create_kqueue, with the id that it stores.
unfoldable pub create_kqueue : Kernel → (mypid : ℕ) → Error × ℕ × Kernel
create_kqueue k mypid =
    let (old, l) = test_and_set 1 k.kqueue_lock in
    if not (old == 0) then (lock, 0, with_lock k l) else (
      success,
      k.next_kqueue_id,
      record k {
        kqueues =
            record { pid = mypid; kqueue_id = k.next_kqueue_id; event_list = none } ∷ k.kqueues;
        next_kqueue_id = add32 k.next_kqueue_id 1;
        kqueue_lock = 0;
      },
    )

-- The event that kqueue_event puts at the head of the queue's list. Its `hook_next` is left as it
-- was, and written by the hook if the FIFO exists.
abbrev pub new_event : Kqueue → ℕ → Filter → Flag → Kevent
new_event kq ident filter flag = record {
  filter = filter;
  flag = flag;
  next = kq.event_list;
  hook_next = none;
  parent = kq.kqueue_id;
  ident = ident;
  triggered = 0;
}

-- kqueue_event. The test at its head releases the lock instead of taking it. An event with the
-- filter KEVENT_PROC has no hook, and calling it follows a stale pointer. The result of the hook is
-- ignored.
unfoldable pub kqueue_event :
    Kernel → (kqueue_id mypid ident : ℕ) → Filter → Flag → Outcome (Error × Kernel)
unfolding find_kqueue update_kqueue add_kqueue_event
kqueue_event k kqueue_id mypid ident filter flag =
    let (old, l) = test_and_set 0 k.kqueue_lock in
    if not (old == 0)
    then returns (lock, with_lock k l)
    else elim (find_kqueue kqueue_id k.kqueues) [
      | none ↦ returns (exist, with_lock k 0)
      | some kq ↦ if not (kq.pid == mypid) then returns (perm, with_lock k 0) else elim filter [
        | proc ↦ fault
        | fifo ↦
            let a = length k.events in
            let ke = new_event kq ident fifo flag in
            let k' = record (with_lock k l) {
              events = k.events ++ ke ∷ [];
              kqueues = update_kqueue kqueue_id (λ q. record q { event_list = some a }) k.kqueues;
            } in
            returns (success, with_lock (add_kqueue_event k' a ke).1 0)
      ]
    ]

-- The walk of kqueue_block over the events of the queue.
unfoldable pub any_triggered : ℕ → List Kevent → Option ℕ → Outcome Bool
any_triggered zero events p = hang
any_triggered (suc rounds) events none = returns false
any_triggered (suc rounds) events (some a) = elim (get_elem? events a) [
  | none ↦ fault
  | some ke ↦
      any_triggered rounds events ke.next >>= λ later. returns ((ke.triggered == 1) || later)
]

-- kqueue_block, with the registers that go on running.
unfoldable pub kqueue_block :
    List (Kernel → Kernel) → Kernel → (kqueue_id : ℕ) → Regs → Outcome (Error × Regs × Kernel)
unfolding find_kqueue find_context update_context any_triggered schedule
kqueue_block halts k kqueue_id regs = elim (get_process k k.current) [
  | none ↦ fault
  | some curproc ↦ elim (find_kqueue kqueue_id k.kqueues) [
    | none ↦ returns (exist, regs, k)
    | some curkq ↦
        if not (curkq.pid == curproc.pid)
        then returns (perm, regs, k)
        else (any_triggered (suc (length k.events)) k.events curkq.event_list >>= λ level.
            if level
            then returns (success, regs, k)
            else if regs.ebp == 0
            then hang
            else (schedule halts
                  (record k {
                    contexts =
                        update_context k.current
                          (λ c. record c { kqueue_block = kqueue_id; status = waiting }) k.contexts;
                  })
                  regs
                >>= λ (regs', k'). returns (success, regs', k')))
  ]
]

-- What kqueue_poll reports of an event.
pub record Change : Type 0 where
  pub filter : Filter
  pub flag : Flag
  pub ident : ℕ

abbrev change_of : Kevent → Change
change_of ke = record { filter = ke.filter; flag = ke.flag; ident = ke.ident }

-- The walk of kqueue_poll: the changes found, and the events with their marks taken off. The bound
-- is tested after an event is reported.
unfoldable pub poll_events :
    ℕ → List Kevent → Option ℕ → (curchange max : ℕ) → Outcome (List Change × List Kevent)
poll_events zero events p curchange max = hang
poll_events (suc rounds) events none curchange max = returns ([], events)
poll_events (suc rounds) events (some a) curchange max = elim (get_elem? events a) [
  | none ↦ fault
  | some ke ↦
      let hit = not (ke.triggered == 0) in
      let events' = if hit then set events a (record ke { triggered = 0 }) else events in
      let found = if hit then change_of ke ∷ [] else [] in
      let curchange' = if hit then curchange + 1 else curchange in
      let rest = poll_events rounds events' ke.next curchange' max in
      if leb max curchange'
      then returns (found, events')
      else (rest >>= λ (more, events''). returns (found ++ more, events''))
]

-- kqueue_poll, with the list of changes; its length is stored in `*nchanges`.
unfoldable pub kqueue_poll : Kernel → (kq max : ℕ) → Outcome (Error × List Change × Kernel)
unfolding find_kqueue poll_events
kqueue_poll k kq max = elim (find_kqueue kq k.kqueues) [
  | none ↦ returns (exist, [], k)
  | some curkq ↦
      if not (curkq.pid == k.current)
      then returns (perm, [], k)
      else (poll_events (suc (length k.events)) k.events curkq.event_list 0 max
          >>= λ (changes, events). returns (success, changes, record k { events = events }))
]
