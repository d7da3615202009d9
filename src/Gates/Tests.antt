-- ===== src/Gates/Tests.antt =====
-- A descriptor table of blanks, and a timer interrupt that switches to a process which a device
-- interrupted last.
use akaris_old.Base.{
  ℕ, ◌≡◌, ◌≤◌, ◌<◌, ◌==◌, if◌then◌else◌, refl, [], ◌∷◌, none, some, replicate, get_elem?, returns,
  arith,
}
use akaris_old.State.{Regs, Context, Kernel}
use akaris_old.Gates.{Gate, Machine, initialize_idt, link_irq, c_isr}
use akaris_old.Gates.Deliver.{gate_offset, initialize_idt_lem, c_isr-schedule}
use akaris_old.Scheduler.{schedule}
use akaris_old.Kfifo.{perm, kernel_pid, write_fifo}
use akaris_old.Examples.{regs, sender, pipe, kernel_with}

abbrev old_gate : Gate
old_gate = record { offset_low = 1; selector = 2; zero = 3; type = 4; offset_high = 5 }

abbrev stubs : ℕ → ℕ
stubs i = 1048576

initialize_idt_lem_small :
    ((i : ℕ)
      → i < 48
      → (g : Gate) × (get_elem? (initialize_idt stubs 2097152 (replicate 129 old_gate)) i ≡ some g)
        × (gate_offset g ≡ stubs i))
    × ((g : Gate) × (get_elem? (initialize_idt stubs 2097152 (replicate 129 old_gate)) 128 ≡ some g)
        × (gate_offset g ≡ 2097152))
    × ((i : ℕ)
        → 48 ≤ i
        → i < 128
        → get_elem? (initialize_idt stubs 2097152 (replicate 129 old_gate)) i
          ≡ get_elem? (replicate 129 old_gate) i)
initialize_idt_lem_small =
    initialize_idt_lem stubs 2097152 (replicate 129 old_gate) refl (λ i. omega arith) (omega arith)

-- Process 5 was last interrupted by the keyboard, whose FIFO is 1; process 2 runs now.
abbrev typist : Context
typist = record sender { pid = 5; registers = record regs { int_no = 33 } }

abbrev timer_regs : Regs
timer_regs = record regs { int_no = 32 }

abbrev machine : Machine
machine = record {
  kernel = record (kernel_with (pipe 0 0)) { contexts = typist ∷ sender ∷ [] };
  int_handler = λ a. none;
  int_to_pid = λ a. if a == 33 then 1 else 0;
  ports = [];
  idt = [];
}

abbrev switched : Kernel
switched = record machine.kernel {
  contexts = typist ∷ record sender { registers = timer_regs } ∷ [];
  current = 5;
}

abbrev linked : Machine
linked = link_irq machine 32 (schedule [])

switch : schedule [] machine.kernel timer_regs ≡ returns (typist.registers, switched)
unfolding schedule
switch = refl

refusal : write_fifo switched 1 kernel_pid (0 ∷ []) 1 ≡ returns (perm, switched)
unfolding write_fifo
refusal = refl

c_isr-schedule_small :
    c_isr linked timer_regs
    ≡ returns (typist.registers, record linked { kernel = switched; ports = (32, 32) ∷ [] })
c_isr-schedule_small =
    c_isr-schedule [] machine timer_regs typist.registers switched switched perm switch
      (omega arith) refusal
