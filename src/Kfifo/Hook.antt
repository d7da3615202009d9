-- ===== src/Kfifo/Hook.antt =====
-- kfifo_add_kqueue_event and kfifo_delete_kqueue_event (sys/common/kfifo.c): events on the list of a
-- FIFO.
use akaris_old.Base.{
  ℕ, not, ◌&&◌, none, some, ◌==◌, if◌then◌else◌, Outcome, returns, fault, get_elem?, set,
}
use akaris_old.State.{Kevent, Kernel, find_fifo, update_fifo}
use akaris_old.Trigger.{is_readable_flag}
use akaris_old.Kfifo.{put}

-- The event at the place `a` goes to the head of the FIFO's list. It is marked at once if bytes
-- wait. The result is 1 if there is no such FIFO.
unfoldable pub add_kqueue_event : Kernel → (a : ℕ) → Kevent → ℕ × Kernel
unfolding find_fifo update_fifo
add_kqueue_event k a ke = elim (find_fifo ke.ident k.fifos) [
  | none ↦ (1, k)
  | some fifo ↦ (
    0,
    record (put k ke.ident (λ f. record f { ke_list = some a })) {
      events = set k.events a (record ke {
        hook_next = fifo.ke_list;
        triggered =
            if is_readable_flag ke.flag && not (fifo.end == fifo.start) then 1 else ke.triggered;
      });
    },
  )
]

unfoldable pub delete_kqueue_event : Kernel → (a : ℕ) → Outcome (ℕ × Kernel)
delete_kqueue_event k a = elim (get_elem? k.events a) [
  | none ↦ fault
  | some ke ↦ returns (0, record k { events = set k.events a (record ke { triggered = 0 }) })
]
