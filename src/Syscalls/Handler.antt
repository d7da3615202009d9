-- ===== src/Syscalls/Handler.antt =====
-- syscall_handler of sys/i386/syscall.c, case by case. `c` is the context of the current process, and
-- `addr` the pointer in EDX; the results are written into the structure there. Only schedule changes
-- the address space, so the results of all but a blocking call go to the caller.
use akaris_old.Base.{
  ℕ, ◌+◌, ◌-◌, ◌/◌, ◌%◌, ◌^◌, Bool, true, false, Option, none, some, List, [], ◌∷◌, ◌++◌, ◌==◌,
  if◌then◌else◌, Outcome, returns, fault, ◌>>=◌, page_size, add32, length,
}
use akaris_old.State.{Regs, Context, RegionType, Kernel, find_context, get_process}
use akaris_old.Space.{create_region}
use akaris_old.Gates.{outportb, link_irq_to_fifo}
use akaris_old.Kfifo.{kernel_pid, put_space, store_bytes, write_fifo, read_fifo}
use akaris_old.Kfifo
use akaris_old.Kfifo.Acl.{close_fifo}
use akaris_old.Kqueue.{Change, create_kqueue, kqueue_event, kqueue_block, kqueue_poll}
use akaris_old.Kqueue
use akaris_old.Devices.{devnode_register, devnode_connect, devnode_accept, make_pipe}
use akaris_old.Fork
use akaris_old.Syscalls.{
  SyscallNumber, number, FifoOp, FifoOperation, DevnodeOp, DevnodeOperation, KqueueOp,
  KqueueOperation, MmapOp, MmapOperation, Message, text, locked_when_it_should_not,
  undefined_syscall, System, Before, kernel_of, with_kernel, devices_of, with_devices, store_at,
}

abbrev print : System → Message → System
print s m = record s { printed = s.printed ++ m ∷ [] }

-- REQUEST_IO: input, if the high byte is not 0.
unfoldable pub request_io : Before → System → Regs → Regs × System
request_io b s regs =
    if (regs.edx / 2 ^ 24) % 256 == 0
    then (
      regs,
      record s { machine = outportb s.machine (regs.edx % 2 ^ 16) ((regs.edx / 2 ^ 16) % 256) },
    )
    else (record regs { edx = b.inportb (regs.edx % 2 ^ 16) }, s)

-- FORK
unfoldable pub fork_call : Before → System → Regs → Outcome (Regs × System)
unfolding Fork.fork
fork_call b s regs =
    Fork.fork b.mapping b.context b.free_region b.stack_region (kernel_of s) regs >>= λ (pid, k).
    returns (record regs { edx = pid }, with_kernel s k)

-- FIFO_PIPE
unfoldable pub pipe_call : Before → System → Regs → Outcome (Regs × System)
unfolding make_pipe
pipe_call b s regs =
    let me = (kernel_of s).current ∷ 0 ∷ [] in
    make_pipe b.stale0 (kernel_of s) b.fifos.0 me me 4096 >>= λ (p0, k0).
    make_pipe b.stale1 k0 b.fifos.1 me me 4096 >>= λ (p1, k1).
    returns (record regs { ecx = p0; edx = p1 }, with_kernel s k1)

-- map_user_region_to_physical for a new region: its pages, and the kernel after it.
abbrev map_region : Before → Kernel → (phys : ℕ) → ℕ × Kernel
map_region b k phys =
    if phys == 0
    then (
      k.next_backing,
      record (store_bytes k k.next_backing b.stale0.page_bytes) {
        next_backing = k.next_backing + 1;
      },
    )
    else (b.backing_at phys, k)

-- One mapping: create_region, map_user_region_to_physical and the address for the caller.
unfoldable pub map_call :
    Before → System → Context → (addr size : ℕ) → RegionType → (phys : ℕ) → Outcome System
unfolding create_region
map_call b s c addr size type phys =
    let (backing, k) = map_region b (kernel_of s) phys in
    elim (create_region c.space (add32 size (page_size - 1) / page_size) type 0 0 backing) [
      | none ↦ fault
      | some [] ↦ fault
      | some (mr ∷ space) ↦ returns (
          store_at (with_kernel s (put_space k c.pid (mr ∷ space))) c.pid addr
            (λ t. record t { mop = record t.mop { virt = mr.virtual_address } }))
    ]

-- REQUEST_MMAP
unfoldable pub mmap_call : Before → System → Context → (addr : ℕ) → MmapOp → Outcome System
unfolding map_call
mmap_call b s c addr mop = elim mop.operation [
  | MmapOperation.mmap_op_anon ↦ map_call b s c addr mop.size RegionType.anon 0
  | MmapOperation.mmap_op_directed ↦ map_call b s c addr mop.size RegionType.core mop.phys
  | MmapOperation.mmap_op_fifo ↦ returns s
]

-- DEVNODE_OP. The code of linking an interrupt is not stored.
unfoldable pub devnode_call : Before → System → (addr : ℕ) → DevnodeOp → Outcome System
unfolding devnode_register devnode_connect devnode_accept make_pipe
devnode_call b s addr dop =
    let me = (kernel_of s).current in
    elim dop.operation [
      | DevnodeOperation.devnode_op_register ↦
          let (e, d) = devnode_register b.devnode (devices_of s) dop.devname me in
          returns
            (store_at (with_devices s d) me addr (λ t. record t { dop = record t.dop { err = e } }))
      | DevnodeOperation.devnode_op_connect ↦
          devnode_connect b.stale0 b.stale1 b.frame (devices_of s) dop.devname dop.fifos me
          >>= λ (e, pipes, d). returns (
              store_at (with_devices s d) me addr
                (λ t. record t { dop = record t.dop { fifos = pipes; err = e } }))
      | DevnodeOperation.devnode_op_accept ↦
          devnode_accept b.stale0 (devices_of s) dop.devname dop.fifos.0 me >>= λ (e, id, d).
          returns (
            store_at (with_devices s d) me addr
              (λ t. record t { dop = record t.dop { fifos = (id, t.dop.fifos.1); err = e } }))
      | DevnodeOperation.devnode_op_link_irq ↦
          make_pipe b.stale0 (kernel_of s) dop.fifos.0 (me ∷ 0 ∷ []) (kernel_pid ∷ 0 ∷ []) page_size
          >>= λ (id, k). returns (
              store_at
                (record s { machine = link_irq_to_fifo (with_kernel s k).machine dop.irq id }) me
                addr (λ t. record t { dop = record t.dop { fifos = (id, t.dop.fifos.1) } }))
    ]

abbrev pub store_kop : System → (pid addr : ℕ) → (KqueueOp → KqueueOp) → System
store_kop s pid addr f = store_at s pid addr (λ t. record t { kop = f t.kop })

abbrev created : Kqueue.Error → (id : ℕ) → KqueueOp → KqueueOp
created Kqueue.Error.success id kop = record kop { kqueue_id = id; err = Kqueue.Error.success }
created e id kop = record kop { err = e }

abbrev overwrite : List Change → List Change → List Change
overwrite [] old = old
overwrite (c ∷ cs) [] = c ∷ cs
overwrite (c ∷ cs) (o ∷ old) = c ∷ overwrite cs old

abbrev polled : Kqueue.Error → List Change → KqueueOp → KqueueOp
polled Kqueue.Error.success found kop = record kop {
  changedevents = overwrite found kop.changedevents;
  max_events = length found;
  err = Kqueue.Error.success;
}
polled e found kop = record kop { err = e }

-- KQUEUE_OP. The code of a blocking call is written once another process may have been chosen.
unfoldable pub kqueue_call :
    Before → System → Regs → Context → (addr : ℕ) → KqueueOp → Outcome (Regs × System)
unfolding create_kqueue kqueue_event kqueue_block kqueue_poll
kqueue_call b s regs c addr kop = elim kop.operation [
  | KqueueOperation.kqueue_op_create ↦
      let (e, id, k) = create_kqueue (kernel_of s) c.pid in
      returns (regs, store_kop (with_kernel s k) c.pid addr (created e id))
  | KqueueOperation.kqueue_op_event ↦
      kqueue_event (kernel_of s) kop.kqueue_id c.pid kop.newevent.ident kop.newevent.filter
        kop.newevent.flag
      >>= λ (e, k).
          returns (regs, store_kop (with_kernel s k) c.pid addr (λ t. record t { err = e }))
  | KqueueOperation.kqueue_op_block ↦
      kqueue_block b.halts (kernel_of s) kop.kqueue_id regs >>= λ (e, regs', k).
      returns (regs', store_kop (with_kernel s k) k.current addr (λ t. record t { err = e }))
  | KqueueOperation.kqueue_op_poll ↦
      kqueue_poll (kernel_of s) kop.kqueue_id kop.max_events >>= λ (e, found, k).
      returns (regs, store_kop (with_kernel s k) c.pid addr (polled e found))
]

abbrev pub store_fop : System → (pid addr : ℕ) → (FifoOp → FifoOp) → System
store_fop s pid addr f = store_at s pid addr (λ t. record t { fop = f t.fop })

abbrev pub is_locked : Kfifo.Error → Bool
is_locked Kfifo.Error.locked = true
is_locked _ = false

-- The test behind the inner switch of FIFO_OP.
abbrev pub report : Kfifo.Error → System → System
report e s = if is_locked e then print s locked_when_it_should_not else s

-- FIFO_OP. FIFO_OP_BLOCK does nothing, and the code that is tested is the caller's.
unfoldable pub fifo_call : System → (addr : ℕ) → FifoOp → Outcome System
unfolding write_fifo read_fifo close_fifo
fifo_call s addr fop =
    let me = (kernel_of s).current in
    elim fop.operation [
      | FifoOperation.fifo_op_write ↦
          write_fifo (kernel_of s) fop.fifo_id me fop.buf fop.length >>= λ (e, k).
          returns (report e (store_fop (with_kernel s k) me addr (λ t. record t { err = e })))
      | FifoOperation.fifo_op_read ↦
          read_fifo (kernel_of s) fop.fifo_id me fop.buf fop.length >>= λ (e, buf, k).
          returns
            (report e (store_fop (with_kernel s k) me addr (λ t. record t { buf = buf; err = e })))
      | FifoOperation.fifo_op_block ↦ returns (report fop.err s)
      | FifoOperation.fifo_op_close ↦ close_fifo (kernel_of s) fop.fifo_id me >>= λ (e, k).
          returns (report e (store_fop (with_kernel s k) me addr (λ t. record t { err = e })))
    ]

-- The outer switch.
unfoldable pub dispatch :
    Before → System → Regs → Context → Option SyscallNumber → Outcome (Regs × System)
unfolding request_io fork_call pipe_call mmap_call devnode_call kqueue_call fifo_call
dispatch b s regs c which =
    let at = s.user c.pid regs.edx in
    elim which [
      | some SyscallNumber.syscall_kdebug ↦ returns (regs, print s (text regs.edx))
      | some SyscallNumber.request_io ↦ returns (request_io b s regs)
      | some SyscallNumber.fork ↦ fork_call b s regs
      | some SyscallNumber.fifo_pipe ↦ pipe_call b s regs
      | some SyscallNumber.request_mmap ↦
          mmap_call b s c regs.edx at.mop >>= λ s'. returns (regs, s')
      | some SyscallNumber.devnode_op ↦
          devnode_call b s regs.edx at.dop >>= λ s'. returns (regs, s')
      | some SyscallNumber.kqueue_op ↦ kqueue_call b s regs c regs.edx at.kop
      | some SyscallNumber.fifo_op ↦ fifo_call s regs.edx at.fop >>= λ s'. returns (regs, s')
      | some SyscallNumber.link_irq ↦ returns (regs, print s undefined_syscall)
      | none ↦ returns (regs, print s undefined_syscall)
    ]

-- syscall_handler
unfoldable pub syscall_handler : Before → System → Regs → Outcome (Regs × System)
unfolding find_context dispatch
syscall_handler b s regs = elim (get_process (kernel_of s) (kernel_of s).current) [
  | none ↦ fault
  | some c ↦ dispatch b s regs c (number regs.eax)
]
