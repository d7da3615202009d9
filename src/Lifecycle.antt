-- ===== src/Lifecycle.antt =====
-- The kernel from its start: every sequence of the operations of sys/common/process.c,
-- sys/common/kfifo.c and sys/common/kqueue.c on the shared state, in any order and with any arguments.
-- An operation that does not return (a NULL pointer, a loop that is never left) ends the sequence.
pub mod Pids
mod Fifos
mod Queues
pub mod Kept
pub mod Reach
mod Tests
use akaris_old.Base.{ℕ, ◌+◌, ◌^◌, ◌<◌, ◌≡◌, Option, some, List, [], ◌∷◌, returns}
use akaris_old.State.{Regs, Region, Context, Filter, Flag, Kernel}
use akaris_old.Scheduler.{schedule}
use akaris_old.Process.{create_process, set_current_process}
use akaris_old.Fork.{fork}
use akaris_old.Space.{Mapping}
use akaris_old.Exec.{Reader, execve_elf}
use akaris_old.Kfifo
use akaris_old.Kfifo.{Stale, create_fifo, write_fifo, read_fifo, store_bytes}
use akaris_old.Kfifo.Acl.{close_fifo}
use akaris_old.Kfifo.Hook.{delete_kqueue_event}
use akaris_old.Kqueue
use akaris_old.Kqueue.{Change, create_kqueue, kqueue_event, kqueue_poll, kqueue_block}

-- `Runs k k'`: operations take the kernel from `k` to `k'`. The next pid does not wrap. The interrupts
-- that end the halts of an idle loop are sequences of operations themselves.
mutual
  pub data Runs : Kernel → Kernel → Type 0 where
    none_yet : (k : Kernel) → Runs k k
    one_more : {k l m : Kernel} → Runs k l → Runs l m → Runs k m
    created :
        (old : Context) (old_free old_stack : Region) (k : Kernel)
        → k.next_avail_pid + 1 < 2 ^ 32
        → Runs k (create_process old old_free old_stack k).1
    forked :
        (mapping : Mapping) (old : Context) (old_free old_stack : Region) (k k' : Kernel)
        (regs : Regs) (pid : ℕ)
        → k.next_avail_pid + 1 < 2 ^ 32
        → fork mapping old old_free old_stack k regs ≡ returns (pid, k')
        → Runs k k'
    selected : (k k' : Kernel) (pid : ℕ) → set_current_process k pid ≡ some k' → Runs k k'
    scheduled :
        (halts : List (Kernel → Kernel)) (k k' : Kernel) (regs regs' : Regs)
        → Interrupts halts
        → schedule halts k regs ≡ returns (regs', k')
        → Runs k k'
    opened :
        (stale : Stale) (k k' : Kernel) (recv send : List ℕ) (size : ℕ) (e : Kfifo.Error) (i : ℕ)
        → create_fifo stale k recv send size ≡ returns (e, i, k')
        → Runs k k'
    wrote :
        (k k' : Kernel) (i mypid : ℕ) (buf : List ℕ) (len : ℕ) (e : Kfifo.Error)
        → write_fifo k i mypid buf len ≡ returns (e, k')
        → Runs k k'
    read :
        (k k' : Kernel) (i mypid : ℕ) (buf buf' : List ℕ) (len : ℕ) (e : Kfifo.Error)
        → read_fifo k i mypid buf len ≡ returns (e, buf', k')
        → Runs k k'
    closed :
        (k k' : Kernel) (i mypid : ℕ) (e : Kfifo.Error)
        → close_fifo k i mypid ≡ returns (e, k')
        → Runs k k'
    unhooked : (k k' : Kernel) (a e : ℕ) → delete_kqueue_event k a ≡ returns (e, k') → Runs k k'
    queued : (k : Kernel) (mypid : ℕ) → Runs k (create_kqueue k mypid).2
    registered :
        (k k' : Kernel) (q mypid ident : ℕ) (filter : Filter) (flag : Flag) (e : Kqueue.Error)
        → kqueue_event k q mypid ident filter flag ≡ returns (e, k')
        → Runs k k'
    polled :
        (k k' : Kernel) (q max : ℕ) (changes : List Change) (e : Kqueue.Error)
        → kqueue_poll k q max ≡ returns (e, changes, k')
        → Runs k k'
    blocked :
        (halts : List (Kernel → Kernel)) (k k' : Kernel) (q : ℕ) (regs regs' : Regs)
        (e : Kqueue.Error)
        → Interrupts halts
        → kqueue_block halts k q regs ≡ returns (e, regs', k')
        → Runs k k'
    executed :
        (old : Reader) (mapping : Mapping) (k k' : Kernel) (pid : Option ℕ) (image : Option (ℕ → ℕ))
        (length code : ℕ)
        → execve_elf old mapping k pid image length ≡ returns (code, k')
        → Runs k k'
    stored : (k : Kernel) (backing : ℕ) (bytes : List ℕ) → Runs k (store_bytes k backing bytes)

  pub data Interrupts : List (Kernel → Kernel) → Type 0 where
    no_more : Interrupts []
    and_then :
        {h : Kernel → Kernel} {hs : List (Kernel → Kernel)}
        → ((k : Kernel) → Runs k (h k))
        → Interrupts hs
        → Interrupts (h ∷ hs)
