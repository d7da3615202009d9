-- ===== src/Syscalls.antt =====
-- System calls: the requests of sys/include/i386/syscall.h, and the kernel as the handler of
-- sys/i386/syscall.c sees it. The structures that user code passes stand at an address of a process,
-- which holds one of each kind; a buffer is the list of its bytes.
pub mod Handler
use akaris_old.Base.{
  ℕ, Bool, true, false, ◌&&◌, Option, some, List, [], ◌∷◌, ◌==◌, if◌then◌else◌, Outcome, get_elem?,
}
use akaris_old.State.{Context, Region, Filter, Flag, Kernel}
use akaris_old.Gates.{Machine}
use akaris_old.Kfifo.{Stale}
use akaris_old.Kfifo
use akaris_old.Space.{Mapping}
use akaris_old.Devices.{Devnode, Devices, Frame}
use akaris_old.Devices
use akaris_old.Kqueue.{Change}
use akaris_old.Kqueue

-- syscall_number
pub data SyscallNumber : Type 0 where
  syscall_kdebug fifo_pipe fork fifo_op devnode_op kqueue_op link_irq request_io request_mmap :
      SyscallNumber

abbrev pub code : SyscallNumber → ℕ
code syscall_kdebug = 0
code fifo_pipe = 1
code fork = 2
code fifo_op = 3
code devnode_op = 4
code kqueue_op = 5
code link_irq = 6
code request_io = 7
code request_mmap = 8

abbrev numbers : List SyscallNumber
numbers =
    syscall_kdebug ∷ fifo_pipe ∷ fork ∷ fifo_op ∷ devnode_op ∷ kqueue_op ∷ link_irq ∷ request_io
    ∷ request_mmap ∷ []

-- The number in EAX.
abbrev pub number : (eax : ℕ) → Option SyscallNumber
number eax = get_elem? numbers eax

pub data FifoOperation : Type 0 where
  fifo_op_read fifo_op_write fifo_op_block fifo_op_close : FifoOperation

-- fifo_op_t; num_waits and waitlist are never used.
pub record FifoOp : Type 0 where
  pub fifo_id : ℕ
  pub buf : List ℕ
  pub length : ℕ
  pub operation : FifoOperation
  pub err : Kfifo.Error

pub data DevnodeOperation : Type 0 where
  devnode_op_register devnode_op_connect devnode_op_accept devnode_op_link_irq : DevnodeOperation

-- devnode_op_t
pub record DevnodeOp : Type 0 where
  pub operation : DevnodeOperation
  pub devname : ℕ → ℕ
  pub irq : ℕ
  pub fifos : ℕ × ℕ
  pub err : Devices.Error

pub data KqueueOperation : Type 0 where
  kqueue_op_create kqueue_op_event kqueue_op_poll kqueue_op_block : KqueueOperation

-- kqueue_op_t; of an event only the filter, the flag and the ident are used.
pub record KqueueOp : Type 0 where
  pub operation : KqueueOperation
  pub kqueue_id : ℕ
  pub err : Kqueue.Error
  pub newevent : Change
  pub changedevents : List Change
  pub max_events : ℕ

pub data MmapOperation : Type 0 where
  mmap_op_anon mmap_op_directed mmap_op_fifo : MmapOperation

-- mmap_op_t; its field `fifo` is never used.
pub record MmapOp : Type 0 where
  pub operation : MmapOperation
  pub virt : ℕ
  pub phys : ℕ
  pub size : ℕ

-- What stands at an address, as each of the structures.
pub record Structs : Type 0 where
  pub fop : FifoOp
  pub dop : DevnodeOp
  pub kop : KqueueOp
  pub mop : MmapOp

-- The calls of bootvideo_printf.
pub data Message : Type 0 where
  text : ℕ → Message
  locked_when_it_should_not : Message
  undefined_syscall : Message

-- The kernel with its interrupts, its devices, the structures of each process by address, and what
-- the kernel has printed.
pub record System : Type 0 where
  pub machine : Machine
  pub devlist : List Devnode
  pub devlock : ℕ
  pub user : (pid addr : ℕ) → Structs
  pub printed : List Message

-- What new objects, new pages and the stack held before, what inportb reads, the interrupts that end
-- an idle loop, and the name of the physical pages from an address on.
pub record Before : Type 0 where
  pub mapping : Mapping
  pub context : Context
  pub free_region : Region
  pub stack_region : Region
  pub devnode : Devnode
  pub stale0 : Stale
  pub stale1 : Stale
  pub frame : Frame
  pub fifos : ℕ × ℕ
  pub inportb : ℕ → ℕ
  pub halts : List (Kernel → Kernel)
  pub backing_at : ℕ → ℕ

abbrev pub kernel_of : System → Kernel
kernel_of s = s.machine.kernel

abbrev pub with_kernel : System → Kernel → System
with_kernel s k = record s { machine = record s.machine { kernel = k } }

abbrev pub devices_of : System → Devices
devices_of s = record { kernel = kernel_of s; devlist = s.devlist; devlock = s.devlock }

abbrev pub with_devices : System → Devices → System
with_devices s d = record (with_kernel s d.kernel) { devlist = d.devlist; devlock = d.devlock }

-- A write through a pointer to a structure, in the address space of a process.
abbrev pub store_at : System → (pid addr : ℕ) → (Structs → Structs) → System
store_at s pid addr f = record s {
  user = λ p a. if (p == pid) && (a == addr) then f (s.user p a) else s.user p a;
}
