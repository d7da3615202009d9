-- ===== src/Trigger.antt =====
-- kqueue_trigger_event and kqueue_untrigger_event (sys/common/kqueue.c), and the walks over an
-- event list on which the FIFO code calls them.
pub mod Calm
pub mod Wake
use akaris_old.Base.{
  ℕ, zero, suc, Bool, true, false, ◌&&◌, Option, none, some, List, ◌==◌, if◌then◌else◌, Outcome,
  returns, fault, hang, ◌>>=◌, length, get_elem?, set,
}
use akaris_old.State.{
  Context, Kevent, Flag, fifo_readable, fifo_writable, proc_quit, Fifo, Kernel, running, is_waiting,
  find_kqueue, find_context, update_context, get_process,
}

abbrev pub is_readable_flag : Flag → Bool
is_readable_flag fifo_readable = true
is_readable_flag _ = false

-- The owner of the event's kqueue wakes if it is blocked on that kqueue.
unfoldable pub kqueue_trigger_event : Kernel → ℕ → Outcome Kernel
unfolding find_kqueue find_context update_context
kqueue_trigger_event k a = elim (get_elem? k.events a) [
  | none ↦ fault
  | some ke ↦ elim (find_kqueue ke.parent k.kqueues) [
    | none ↦ fault
    | some parent ↦ elim (get_process k parent.pid) [
      | none ↦ fault
      | some curproc ↦ returns (record k {
        events = set k.events a (record ke { triggered = 1 });
        contexts =
            if is_waiting curproc.status && (curproc.kqueue_block == parent.kqueue_id)
            then update_context parent.pid (λ c. record c { status = running }) k.contexts
            else k.contexts;
      })
    ]
  ]
]

unfoldable pub kqueue_untrigger_event : Kernel → ℕ → Outcome Kernel
kqueue_untrigger_event k a = elim (get_elem? k.events a) [
  | none ↦ fault
  | some ke ↦ returns (record k { events = set k.events a (record ke { triggered = 0 }) })
]

-- The loop at the end of kfifo_write_fifo, along `hook_next`. A walk with more rounds than there
-- are events goes in a circle.
unfoldable pub trigger_events : ℕ → Kernel → Option ℕ → Outcome Kernel
trigger_events zero k ke = hang
trigger_events (suc rounds) k none = returns k
trigger_events (suc rounds) k (some a) = elim (get_elem? k.events a) [
  | none ↦ fault
  | some ke ↦ (if is_readable_flag ke.flag then kqueue_trigger_event k a else returns k) >>= λ k'.
      trigger_events rounds k' ke.hook_next
]

-- The loop at the end of kfifo_read_fifo, along `next`: it goes on in the event list of the
-- kqueue, not in that of the FIFO.
unfoldable pub untrigger_events : ℕ → Kernel → (empty : Bool) → Option ℕ → Outcome Kernel
untrigger_events zero k empty ke = hang
untrigger_events (suc rounds) k empty none = returns k
untrigger_events (suc rounds) k empty (some a) = elim (get_elem? k.events a) [
  | none ↦ fault
  | some ke ↦
      (if is_readable_flag ke.flag && empty then kqueue_untrigger_event k a else returns k)
      >>= λ k'. untrigger_events rounds k' empty ke.next
]
