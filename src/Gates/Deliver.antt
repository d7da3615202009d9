-- ===== src/Gates/Deliver.antt =====
-- The gates lead to their stubs, and what an interrupt does from its handler to its acknowledgement.
use akaris_old.Base.{
  ℕ, zero, suc, ◌+◌, ◌*◌, ◌^◌, ◌≤◌, ◌<◌, ◌≡◌, ◌≢◌, refl, ◌∙◌, some, List, [], ◌∷◌, ◌++◌, ◌==◌, leb,
  ltb, ◌⊎◌, inl, inr, true, false, Bool-cases, ==_refl, ap, if◌then◌else◌, returns, set, length,
  get_elem?, get_elem?-set_self, get_elem?-set_ne, length-set, arith,
}
use mathlib.Core.List.{append_assoc}
use akaris_old.State.{Regs, Kernel}
use akaris_old.Kfifo.{Error, kernel_pid, write_fifo}
use akaris_old.Gates.{
  Gate, new_gate, set_gates, initialize_idt, Handler, Machine, link_irq, c_isr, acknowledge, handle,
  run_handler, send_blank,
}
use akaris_old.Scheduler.{schedule}

abbrev pub gate_offset : Gate → ℕ
gate_offset g = g.offset_low + g.offset_high * 2 ^ 16

length-set_gates :
    (n s : ℕ) (intr : ℕ → ℕ) (idt : List Gate) → length (set_gates n s intr idt) ≡ length idt
unfolding set_gates
length-set_gates zero s intr idt = refl
length-set_gates (suc n) s intr idt =
    length-set_gates n (s + 1) intr (set idt s (new_gate (intr s)))
    ∙ length-set idt s (new_gate (intr s))

get_elem?-set_gates_out :
    (n s : ℕ) (intr : ℕ → ℕ) (idt : List Gate) (j : ℕ)
    → (ltb j s ≡ true) ⊎ (leb (s + n) j ≡ true)
    → get_elem? (set_gates n s intr idt) j ≡ get_elem? idt j
unfolding set_gates
get_elem?-set_gates_out zero s intr idt j h = refl
get_elem?-set_gates_out (suc n) s intr idt j h =
    get_elem?-set_gates_out n (s + 1) intr (set idt s (new_gate (intr s))) j (ground arith)
    ∙ get_elem?-set_ne idt s j (new_gate (intr s)) (ground arith)

get_elem?-set_gates :
    (n s : ℕ) (intr : ℕ → ℕ) (idt : List Gate) (j : ℕ)
    → s + n ≤ length idt
    → s ≤ j
    → j < s + n
    → get_elem? (set_gates n s intr idt) j ≡ some (new_gate (intr j))
unfolding set_gates
get_elem?-set_gates zero s intr idt j h l u = absurd (omega arith)
get_elem?-set_gates (suc n) s intr idt j h l u = elim (Bool-cases (s == j)) [
  | inl e ↦
      get_elem?-set_gates_out n (s + 1) intr (set idt s (new_gate (intr s))) j (inl (ground arith))
      ∙ ground (arith, get_elem?-set_self idt s (new_gate (intr s)))
  | inr e ↦
      get_elem?-set_gates n (s + 1) intr (set idt s (new_gate (intr s))) j
        (omega (arith, length-set idt s (new_gate (intr s)))) (ground arith) (omega arith)
]

-- initialize_idt gives each of the interrupts 0 to 47 a gate to its stub and 0x80 one to the stub of
-- system calls, open to user code; the gates 48 to 0x7f stay. The table has its 0x81 entries, and
-- the addresses fit 32 bits.
pub initialize_idt_lem :
    (intr : ℕ → ℕ) (intx80 : ℕ) (idt : List Gate)
    → length idt ≡ 129
    → ((i : ℕ) → intr i < 2 ^ 32)
    → intx80 < 2 ^ 32
    → ((i : ℕ)
        → i < 48
        → (g : Gate) × (get_elem? (initialize_idt intr intx80 idt) i ≡ some g)
          × (gate_offset g ≡ intr i))
      × ((g : Gate) × (get_elem? (initialize_idt intr intx80 idt) 128 ≡ some g)
          × (gate_offset g ≡ intx80))
      × ((i : ℕ)
          → 48 ≤ i
          → i < 128
          → get_elem? (initialize_idt intr intx80 idt) i ≡ get_elem? idt i)
unfolding initialize_idt new_gate
initialize_idt_lem intr intx80 idt h b c = (
  (λ i l. (
    new_gate (intr i),
    get_elem?-set_ne (set_gates 48 0 intr idt) 128 i (new_gate intx80) (ground arith)
        ∙ get_elem?-set_gates 48 0 intr idt i (omega arith) (omega arith) l,
    omega (arith, b i),
  )),
  (
    new_gate intx80,
    get_elem?-set_self (set_gates 48 0 intr idt) 128 (new_gate intx80)
        (omega (arith, length-set_gates 48 0 intr idt)),
    omega arith,
  ),
  (λ i l u.
      get_elem?-set_ne (set_gates 48 0 intr idt) 128 i (new_gate intx80) (ground arith)
      ∙ get_elem?-set_gates_out 48 0 intr idt i (inr (ground arith))),
)

-- The acknowledgement of an interrupt: both controllers from 40 on, else the first one.
abbrev pub end_of_interrupt : ℕ → List (ℕ × ℕ)
end_of_interrupt n = if leb 40 n then (160, 32) ∷ (32, 32) ∷ [] else (32, 32) ∷ []

acknowledge_lem :
    (m : Machine) (n : ℕ) → acknowledge m n ≡ record m { ports = m.ports ++ end_of_interrupt n }
unfolding acknowledge
acknowledge_lem m n = elim (Bool-cases (leb 40 n)) [
  | inl high ↦
      rw high
        (ap (λ l. record m { ports = l }) (append_assoc m.ports ((160, 32) ∷ []) ((32, 32) ∷ [])))
  | inr low ↦ rw low
]

run_handler-link_irq :
    (m : Machine) (regs : Regs) (func : Handler)
    → run_handler (link_irq m regs.int_no func) regs ≡ func m.kernel regs
unfolding run_handler link_irq
run_handler-link_irq m regs func =
    ap (λ b. handle (if b then some func else m.int_handler regs.int_no) m.kernel regs)
      (==_refl regs.int_no)

send_blank_lem :
    (f : ℕ) (k k' : Kernel) (e : Error)
    → f ≢ 0
    → write_fifo k f kernel_pid (0 ∷ []) 1 ≡ returns (e, k')
    → send_blank f k ≡ returns k'
unfolding send_blank
send_blank_lem f k k' e n w = rw (not-zero, w)
  where
    not-zero : (f == 0) ≡ false
    not-zero = ground arith

-- A timer interrupt that the scheduler handles continues with the registers of the chosen process,
-- but the FIFO that gets a byte and the controllers that are acknowledged are those of the
-- interrupt by which that process was interrupted last. The FIFO is written, whatever it answers.
pub c_isr-schedule :
    (halts : List (Kernel → Kernel)) (m : Machine) (regs next : Regs) (k' k'' : Kernel) (e : Error)
    → schedule halts m.kernel regs ≡ returns (next, k')
    → m.int_to_pid next.int_no ≢ 0
    → write_fifo k' (m.int_to_pid next.int_no) kernel_pid (0 ∷ []) 1 ≡ returns (e, k'')
    → c_isr (link_irq m regs.int_no (schedule halts)) regs
      ≡ returns (
        next,
        record (link_irq m regs.int_no (schedule halts)) {
          kernel = k'';
          ports = m.ports ++ end_of_interrupt next.int_no;
        },
      )
unfolding c_isr link_irq
c_isr-schedule halts m regs next k' k'' e s n w =
    let m' = link_irq m regs.int_no (schedule halts) in
    simp (
      run_handler-link_irq m regs (schedule halts),
      s,
      send_blank_lem (m.int_to_pid next.int_no) k' k'' e n w,
      acknowledge_lem (record m' { kernel = k'' }) next.int_no,
    )
