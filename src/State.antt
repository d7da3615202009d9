-- ===== src/State.antt =====
-- The kernel's shared state: contexts and address spaces (common/process.h, i386/context.h),
-- kernel queues and events (common/kqueue.h), FIFOs (common/kfifo.h), registers
-- (i386/interrupt.h), and the lookups that walk these lists.
use akaris_old.Base.{ℕ, Bool, true, false, Option, none, some, List, [], ◌∷◌, ◌==◌, if◌then◌else◌}

-- isr_regs
pub record Regs : Type 0 where
  pub gs : ℕ
  pub fs : ℕ
  pub es : ℕ
  pub ds : ℕ
  pub edi : ℕ
  pub esi : ℕ
  pub ebp : ℕ
  pub esp : ℕ
  pub ebx : ℕ
  pub edx : ℕ
  pub ecx : ℕ
  pub eax : ℕ
  pub int_no : ℕ
  pub err_code : ℕ
  pub eip : ℕ
  pub cs : ℕ
  pub eflags : ℕ
  pub useresp : ℕ
  pub ss : ℕ

-- memory_region_type
pub data RegionType : Type 0 where
  stack core library anon ipc sentinel free kernel : RegionType

abbrev pub is_free : RegionType → Bool
is_free free = true
is_free _ = false

abbrev pub is_ipc : RegionType → Bool
is_ipc ipc = true
is_ipc _ = false

-- memory_region_t. `backing` names the physical pages that the page tables give the region: a
-- clone has the backing of its original.
pub record Region : Type 0 where
  pub virtual_address : ℕ
  pub length : ℕ
  pub type : RegionType
  pub attributes : ℕ
  pub parameter : ℕ
  pub backing : ℕ

-- PROCESS_STATUS_RUNNING, _WAITING, _YIELDING
pub data Status : Type 0 where
  running waiting yielding : Status

abbrev pub is_running : Status → Bool
is_running running = true
is_running _ = false

abbrev pub is_waiting : Status → Bool
is_waiting waiting = true
is_waiting _ = false

-- context_t. `space` is the list of regions between the sentinels of the address space.
pub record Context : Type 0 where
  pub registers : Regs
  pub space : List Region
  pub pid : ℕ
  pub status : Status
  pub kqueue_block : ℕ

-- kevent_filter_t and kevent_flag_t
pub data Filter : Type 0 where
  fifo proc : Filter

pub data Flag : Type 0 where
  fifo_readable fifo_writable proc_quit : Flag

-- kevent_t. A pointer to an event is its index in the kernel's events; a kqueue's address is its
-- id. The status field is always KEVENT_STATUS_ENABLED.
pub record Kevent : Type 0 where
  pub filter : Filter
  pub flag : Flag
  pub next : Option ℕ
  pub hook_next : Option ℕ
  pub parent : ℕ
  pub ident : ℕ
  pub triggered : ℕ

-- kqueue_t
pub record Kqueue : Type 0 where
  pub pid : ℕ
  pub kqueue_id : ℕ
  pub event_list : Option ℕ

-- kfifo_t, with its lists of pids.
pub record Fifo : Type 0 where
  pub recvlist : List ℕ
  pub sendlist : List ℕ
  pub size : ℕ
  pub start : ℕ
  pub end : ℕ
  pub lock : ℕ
  pub fifo_id : ℕ
  pub ke_list : Option ℕ

-- The globals of process.c, kqueue.c and kfifo.c. `current` is the pid of `cur_process`, and
-- `memory` gives the bytes behind a backing.
pub record Kernel : Type 0 where
  pub contexts : List Context
  pub current : ℕ
  pub next_avail_pid : ℕ
  pub events : List Kevent
  pub kqueues : List Kqueue
  pub kqueue_lock : ℕ
  pub next_kqueue_id : ℕ
  pub fifos : List Fifo
  pub fifo_list_mutex : ℕ
  pub cur_fifo_id : ℕ
  pub memory : ℕ → List ℕ
  pub next_backing : ℕ
  pub kernel_reenter : ℕ

-- test_and_set of i386/asmutil.s: the old value, and the new one.
abbrev pub test_and_set : ℕ → ℕ → ℕ × ℕ
test_and_set new_value lock = (lock, new_value)

-- get_process: the first context with the pid.
unfoldable pub find_context : ℕ → List Context → Option Context
find_context p [] = none
find_context p (c ∷ cs) = if c.pid == p then some c else find_context p cs

abbrev pub get_process : Kernel → ℕ → Option Context
get_process k p = find_context p k.contexts

-- A write through the pointer that `get_process` returns.
unfoldable pub update_context : ℕ → (Context → Context) → List Context → List Context
update_context p f [] = []
update_context p f (c ∷ cs) = if c.pid == p then f c ∷ cs else c ∷ update_context p f cs

unfoldable pub find_kqueue : ℕ → List Kqueue → Option Kqueue
find_kqueue q [] = none
find_kqueue q (x ∷ xs) = if x.kqueue_id == q then some x else find_kqueue q xs

unfoldable pub update_kqueue : ℕ → (Kqueue → Kqueue) → List Kqueue → List Kqueue
update_kqueue q f [] = []
update_kqueue q f (x ∷ xs) = if x.kqueue_id == q then f x ∷ xs else x ∷ update_kqueue q f xs

-- The walk of every FIFO operation to the FIFO with the id.
unfoldable pub find_fifo : ℕ → List Fifo → Option Fifo
find_fifo i [] = none
find_fifo i (x ∷ xs) = if x.fifo_id == i then some x else find_fifo i xs

-- A write through the pointer to that FIFO.
unfoldable pub update_fifo : ℕ → (Fifo → Fifo) → List Fifo → List Fifo
update_fifo i f [] = []
update_fifo i f (x ∷ xs) = if x.fifo_id == i then f x ∷ xs else x ∷ update_fifo i f xs
