-- ===== src/Gates.antt =====
-- Interrupts: the descriptor table, the tables of handlers and the interrupt controller of
-- sys/i386/interrupt.c and sys/i386/pic.c. The addresses of the entry stubs are arguments.
pub mod Deliver
mod Tests
use akaris_old.Base.{
  ℕ, zero, suc, ◌+◌, ◌*◌, ◌/◌, ◌%◌, ◌^◌, ◌≡◌, Option, none, some, List, [], ◌∷◌, ◌++◌, ◌==◌, leb,
  if◌then◌else◌, Outcome, returns, fault, hang, ◌>>=◌, set, or_bits,
}
use akaris_old.State.{Regs, Kernel}
use akaris_old.Kfifo.{kernel_pid, write_fifo}

-- idt_entry
pub record Gate : Type 0 where
  pub offset_low : ℕ
  pub selector : ℕ
  pub zero : ℕ
  pub type : ℕ
  pub offset_high : ℕ

-- set_idt_entry, which writes all fields.
unfoldable pub new_gate : (offset : ℕ) → Gate
new_gate offset = record {
  offset_low = offset % 2 ^ 16;
  offset_high = (offset / 2 ^ 16) % 2 ^ 16;
  zero = 0;
  selector = 8;
  type = or_bits 8 (or_bits 8 128 14) (3 * 2 ^ 5);
}

-- The lines of initialize_idt for the gates `start`, …, `start + count - 1`.
unfoldable pub set_gates : (count start : ℕ) → (intr : ℕ → ℕ) → List Gate → List Gate
unfolding new_gate
set_gates zero start intr idt = idt
set_gates (suc n) start intr idt =
    set_gates n (start + 1) intr (set idt start (new_gate (intr start)))

-- initialize_idt
unfoldable pub initialize_idt : (intr : ℕ → ℕ) → (intx80 : ℕ) → List Gate → List Gate
unfolding set_gates new_gate
initialize_idt intr intx80 idt = set (set_gates 48 0 intr idt) 128 (new_gate intx80)

-- A handler of link_irq: it may change the kernel, and the registers that it is given.
abbrev pub Handler : Type 0
Handler = Kernel → Regs → Outcome (Regs × Kernel)

-- int_handler, int_to_pid, and the bytes written to ports, in order.
pub record Machine : Type 0 where
  pub kernel : Kernel
  pub int_handler : ℕ → Option Handler
  pub int_to_pid : ℕ → ℕ
  pub ports : List (ℕ × ℕ)
  pub idt : List Gate

-- outportb
abbrev pub outportb : Machine → (port value : ℕ) → Machine
outportb m port value = record m { ports = m.ports ++ (port, value) ∷ [] }

-- picRemapIRQs
unfoldable pub pic_remap_irqs : Machine → Machine
pic_remap_irqs m =
    let m1 = outportb (outportb m 32 17) 160 17 in
    let m2 = outportb (outportb m1 33 32) 161 40 in
    let m3 = outportb (outportb m2 33 4) 161 2 in
    let m4 = outportb (outportb m3 33 1) 161 1 in outportb (outportb m4 33 0) 161 0

-- initialize_interrupts; picAvailable returns 1. The loop clears all of both tables.
unfoldable pub initialize_interrupts : (intr : ℕ → ℕ) → (intx80 : ℕ) → Machine → Machine
unfolding initialize_idt pic_remap_irqs
initialize_interrupts intr intx80 m =
    let cleared = record m {
      idt = initialize_idt intr intx80 m.idt;
      int_handler = λ a. none;
      int_to_pid = λ a. 0;
    } in
    let remapped = pic_remap_irqs cleared in
    record remapped { kernel = record remapped.kernel { kernel_reenter = 0 } }

-- link_irq
unfoldable pub link_irq : Machine → (irq : ℕ) → Handler → Machine
link_irq m irq func = record m {
  int_handler = λ a. if a == irq then some func else m.int_handler a;
}

-- link_irq_to_fifo
unfoldable pub link_irq_to_fifo : Machine → (irq fifo : ℕ) → Machine
link_irq_to_fifo m irq fifo = record m {
  int_to_pid = λ a. if a == irq then fifo else m.int_to_pid a;
}

abbrev pub handle : Option Handler → Kernel → Regs → Outcome (Regs × Kernel)
handle none k regs = returns (regs, k)
handle (some func) k regs = func k regs

-- The first part of c_isr.
unfoldable pub run_handler : Machine → Regs → Outcome (Regs × Kernel)
run_handler m regs = handle (m.int_handler regs.int_no) m.kernel regs

-- The second part: a blank byte for the FIFO of the interrupt. A refusal is only printed.
unfoldable pub send_blank : (fifo : ℕ) → Kernel → Outcome Kernel
unfolding write_fifo
send_blank fifo k =
    if fifo == 0
    then returns k
    else (write_fifo k fifo kernel_pid (0 ∷ []) 1 >>= λ (e, k'). returns k')

-- The third part.
unfoldable pub acknowledge : Machine → (int_no : ℕ) → Machine
acknowledge m int_no = outportb (if leb 40 int_no then outportb m 160 32 else m) 32 32

-- c_isr: the registers are read again after the handler, which may have changed them.
unfoldable pub c_isr : Machine → Regs → Outcome (Regs × Machine)
unfolding run_handler send_blank acknowledge
c_isr m regs = run_handler m regs >>= λ (regs', k').
    send_blank (m.int_to_pid regs'.int_no) k' >>= λ k''.
    returns (regs', acknowledge (record m { kernel = k'' }) regs'.int_no)
