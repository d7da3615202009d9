-- ===== src/Process.antt =====
-- The creation of a process: create_process of sys/common/process.c and create_address_space of
-- sys/i386/context.c. What the slab objects held before is an argument. The page directory is
-- made in Pages/Directory; the change to it is left out.
pub mod Roster
mod Tests
use akaris_old.Base.{ℕ, Option, none, some, ◌≡◌, List, [], ◌∷◌, ◌++◌, ◌-◌, ◌/◌, add32}
use akaris_old.State.{Region, RegionType, Context, Status, Regs, Kernel, get_process}

-- create_address_space: a free block below the stack, in front of it.
unfoldable pub create_address_space : (old_free old_stack : Region) → List Region
create_address_space old_free old_stack =
    record old_free {
      virtual_address = 0x4000_0000;
      length = (0xB000_0000 - 0x4000_0000) / 4096;
      attributes = 0;
      type = RegionType.free;
    }
    ∷ record old_stack {
      virtual_address = 0xB000_0000;
      length = 0x10000;
      type = RegionType.stack;
      attributes = 0;
    }
    ∷ []

abbrev pub initial_registers : Regs → Regs
initial_registers old = record old {
  eax = 0xDEAD_BEEF;
  gs = 0x23;
  fs = 0x23;
  es = 0x23;
  ds = 0x23;
  ss = 0x23;
  eip = 0x4000_0000;
  cs = 0x1B;
  eflags = 0x200;
  useresp = 0xBFFF_FFF0;
}

-- The object that create_process fills in.
unfoldable pub new_context : Context → (old_free old_stack : Region) → (pid : ℕ) → Context
unfolding create_address_space
new_context old old_free old_stack pid = record old {
  registers = initial_registers old.registers;
  space = create_address_space old_free old_stack;
  pid = pid;
  status = Status.running;
}

-- create_process
unfoldable pub create_process : Context → (old_free old_stack : Region) → Kernel → ℕ × Kernel
unfolding new_context
create_process old old_free old_stack k = (
  k.next_avail_pid,
  record k {
    contexts = k.contexts ++ new_context old old_free old_stack k.next_avail_pid ∷ [];
    next_avail_pid = add32 k.next_avail_pid 1;
  },
)

-- set_current_process; with no such process cur_process is NULL.
unfoldable pub set_current_process : Kernel → (pid : ℕ) → Option Kernel
set_current_process k pid = elim (get_process k pid) [
  | none ↦ none
  | some c ↦ some (record k { current = c.pid })
]

-- get_current_process; cur_process is NULL before a process is set.
abbrev pub get_current_process : Kernel → Option ℕ
get_current_process k = elim (get_process k k.current) [ none ↦ none | some c ↦ some c.pid ]

-- initialize_scheduler
unfoldable pub initialize_scheduler : Kernel → Kernel
initialize_scheduler k = record k { contexts = []; next_avail_pid = 1 }
