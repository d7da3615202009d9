-- ===== src/UserLibrary.antt =====
-- The system calls of sys/servers/libak/syscall.c: each fills a structure of its own at the address
-- `sp` of its stack, raises interrupt 0x80 with the number in EAX and the argument in EDX, and reads
-- the results. It runs in the current process; what the structure held before is left in the
-- other fields. The interrupt runs c_isr of sys/i386/interrupt.c with syscall_handler as its handler.
pub mod Blocking
pub mod Calls
pub mod DeviceCalls
pub mod Ports
pub mod Queues
mod Tests
use akaris_old.Base.{
  ◌≡◌, refl, ℕ, ◌+◌, ◌*◌, ◌/◌, ◌%◌, ◌^◌, ◌==◌, List, [], ◌∷◌, if◌then◌else◌, Outcome, returns,
  fault, hang, ◌>>=◌, or_bits,
}
use akaris_old.State.{Regs, Filter, Flag}
use akaris_old.Kfifo
use akaris_old.Kqueue.{Change}
use akaris_old.Kqueue
use akaris_old.Devices
use akaris_old.Gates.{send_blank, acknowledge}
use akaris_old.Syscalls.{
  with_kernel, SyscallNumber, code, FifoOp, FifoOperation, DevnodeOp, DevnodeOperation, KqueueOp,
  KqueueOperation, MmapOp, MmapOperation, Structs, System, Before, kernel_of, store_at,
}
use akaris_old.Syscalls.Handler.{syscall_handler}

-- The current process, whose code runs.
abbrev pub me : System → ℕ
me s = (kernel_of s).current

-- The rest of c_isr behind the handler.
unfoldable pub end_interrupt : Regs × System → Outcome (Regs × System)
unfolding send_blank acknowledge
end_interrupt (regs, s) = send_blank (s.machine.int_to_pid regs.int_no) (kernel_of s) >>= λ k.
    returns (regs, record s { machine = acknowledge (with_kernel s k).machine regs.int_no })

-- The same where the interrupt has no FIFO.
abbrev pub acknowledged : System → (int_no : ℕ) → System
acknowledged s int_no = record s { machine = acknowledge s.machine int_no }

pub end_interrupt-quiet :
    (regs : Regs) (s : System)
    → s.machine.int_to_pid regs.int_no ≡ 0
    → end_interrupt (regs, s) ≡ returns (regs, acknowledged s regs.int_no)
unfolding end_interrupt send_blank
end_interrupt-quiet regs s quiet = rw (end_interrupt, quiet) refl

-- `int $0x80`: the stub pushes the number of the interrupt.
unfoldable pub trap : Before → System → Regs → SyscallNumber → (edx : ℕ) → Outcome (Regs × System)
unfolding syscall_handler end_interrupt
trap b s regs n edx =
    syscall_handler b s (record regs { eax = code n; edx = edx; int_no = 0x80 }) >>= end_interrupt

-- puts
unfoldable pub puts : Before → System → Regs → (string : ℕ) → Outcome System
unfolding trap
puts b s regs string =
    trap b s regs SyscallNumber.syscall_kdebug string >>= λ (regs', s'). returns s'

-- ak_pipe, with the two ids.
unfoldable pub ak_pipe : Before → System → Regs → Outcome ((ℕ × ℕ) × System)
unfolding trap
ak_pipe b s regs = trap b s regs SyscallNumber.fifo_pipe regs.edx >>= λ (regs', s').
    returns ((regs'.edx, regs'.ecx), s')

-- ak_fork
unfoldable pub ak_fork : Before → System → Regs → Outcome (ℕ × System)
unfolding trap
ak_fork b s regs =
    trap b s regs SyscallNumber.fork regs.edx >>= λ (regs', s'). returns (regs'.edx, s')

-- ak_mmap
unfoldable pub ak_mmap : Before → System → Regs → (sp phys size : ℕ) → Outcome (ℕ × System)
unfolding trap
ak_mmap b s regs sp phys size =
    let filled = store_at s (me s) sp (λ t. record t {
      mop =
          if phys == 0
          then record t.mop { operation = MmapOperation.mmap_op_anon; size = size }
          else record t.mop {
            operation = MmapOperation.mmap_op_directed;
            phys = phys;
            size = size;
          };
    }) in
    trap b filled regs SyscallNumber.request_mmap sp >>= λ (regs', s').
    returns ((s'.user (me s) sp).mop.virt, s')

-- ak_inb
unfoldable pub ak_inb : Before → System → Regs → (port : ℕ) → Outcome (ℕ × System)
unfolding trap
ak_inb b s regs port =
    trap b s regs SyscallNumber.request_io (or_bits 32 0xFF00_0000 port) >>= λ (regs', s').
    returns (regs'.edx % 256, s')

-- ak_outb
unfoldable pub ak_outb : Before → System → Regs → (port a : ℕ) → Outcome System
unfolding trap
ak_outb b s regs port a =
    trap b s regs SyscallNumber.request_io (or_bits 32 (a * 2 ^ 16) port) >>= λ (regs', s').
    returns s'

abbrev pub fill_fop : System → (sp : ℕ) → (FifoOp → FifoOp) → System
fill_fop s sp f = store_at s (me s) sp (λ t. record t { fop = f t.fop })

-- ak_write
unfoldable pub ak_write :
    Before
    → System
    → Regs
    → (sp pipe : ℕ) → (buf : List ℕ) → (length : ℕ) → Outcome (Kfifo.Error × System)
unfolding trap
ak_write b s regs sp pipe buf length =
    let filled = fill_fop s sp (λ f. record f {
      buf = buf;
      fifo_id = pipe;
      length = length;
      operation = FifoOperation.fifo_op_write;
    }) in
    trap b filled regs SyscallNumber.fifo_op sp >>= λ (regs', s').
    returns ((s'.user (me s) sp).fop.err, s')

-- ak_read, with the buffer after it.
unfoldable pub ak_read :
    Before
    → System
    → Regs
    → (sp pipe : ℕ) → (buf : List ℕ) → (length : ℕ) → Outcome (Kfifo.Error × List ℕ × System)
unfolding trap
ak_read b s regs sp pipe buf length =
    let filled = fill_fop s sp (λ f. record f {
      buf = buf;
      fifo_id = pipe;
      length = length;
      operation = FifoOperation.fifo_op_read;
    }) in
    trap b filled regs SyscallNumber.fifo_op sp >>= λ (regs', s').
    let fop = (s'.user (me s) sp).fop in returns (fop.err, fop.buf, s')

-- ak_close
unfoldable pub ak_close : Before → System → Regs → (sp pipe : ℕ) → Outcome (Kfifo.Error × System)
unfolding trap
ak_close b s regs sp pipe =
    let filled =
      fill_fop s sp (λ f. record f { operation = FifoOperation.fifo_op_close; fifo_id = pipe }) in
    trap b filled regs SyscallNumber.fifo_op sp >>= λ (regs', s').
    returns ((s'.user (me s) sp).fop.err, s')

abbrev pub fill_dop : System → (sp : ℕ) → (DevnodeOp → DevnodeOp) → System
fill_dop s sp f = store_at s (me s) sp (λ t. record t { dop = f t.dop })

-- ak_register
unfoldable pub ak_register :
    Before → System → Regs → (sp : ℕ) → (devname : ℕ → ℕ) → Outcome (Devices.Error × System)
unfolding trap
ak_register b s regs sp devname =
    let filled =
      fill_dop s sp
        (λ d. record d { operation = DevnodeOperation.devnode_op_register; devname = devname }) in
    trap b filled regs SyscallNumber.devnode_op sp >>= λ (regs', s').
    returns ((s'.user (me s) sp).dop.err, s')

-- ak_link_irq, with the id. `irq` is a uint8, and the code is always DEV_SUCCESS.
unfoldable pub ak_link_irq :
    Before → System → Regs → (sp irq : ℕ) → Outcome (Devices.Error × ℕ × System)
unfolding trap
ak_link_irq b s regs sp irq =
    let filled =
      fill_dop s sp
        (λ d. record d { operation = DevnodeOperation.devnode_op_link_irq; irq = irq % 2 ^ 8 }) in
    trap b filled regs SyscallNumber.devnode_op sp >>= λ (regs', s').
    returns (Devices.Error.success, (s'.user (me s) sp).dop.fifos.0, s')

-- ak_accept, with the id.
unfoldable pub ak_accept :
    Before → System → Regs → (sp : ℕ) → (devname : ℕ → ℕ) → Outcome (Devices.Error × ℕ × System)
unfolding trap
ak_accept b s regs sp devname =
    let filled =
      fill_dop s sp
        (λ d. record d { operation = DevnodeOperation.devnode_op_accept; devname = devname }) in
    trap b filled regs SyscallNumber.devnode_op sp >>= λ (regs', s').
    let dop = (s'.user (me s) sp).dop in returns (dop.err, dop.fifos.0, s')

-- ak_connect, with the two ids.
unfoldable pub ak_connect :
    Before
    → System
    → Regs
    → (sp : ℕ) → (devname : ℕ → ℕ) → Outcome (Devices.Error × (ℕ × ℕ) × System)
unfolding trap
ak_connect b s regs sp devname =
    let filled =
      fill_dop s sp
        (λ d. record d { operation = DevnodeOperation.devnode_op_connect; devname = devname }) in
    trap b filled regs SyscallNumber.devnode_op sp >>= λ (regs', s').
    let dop = (s'.user (me s) sp).dop in returns (dop.err, dop.fifos, s')
