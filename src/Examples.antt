-- ===== src/Examples.antt =====
-- A small kernel for the tests: process 1 owns a FIFO of eight bytes that is watched by its kqueue,
-- and is blocked on that queue; process 2 may send to the FIFO.
use akaris_old.Base.{ℕ, none, some, List, [], ◌∷◌, ◌==◌, if◌then◌else◌}
use akaris_old.State.{
  Regs, Region, stack, ipc, free, Context, running, waiting, Kevent, fifo, fifo_readable, Kqueue,
  Fifo, Kernel,
}

abbrev pub regs : Regs
regs = record {
  gs = 35;
  fs = 35;
  es = 35;
  ds = 35;
  edi = 0;
  esi = 0;
  ebp = 1;
  esp = 0;
  ebx = 0;
  edx = 0;
  ecx = 0;
  eax = 0;
  int_no = 0;
  err_code = 0;
  eip = 0x4000_0000;
  cs = 27;
  eflags = 0x200;
  useresp = 0xBFFF_FFF0;
  ss = 35;
}

abbrev pub inbox : Region
inbox = record {
  virtual_address = 0xAFFF_E000;
  length = 2;
  type = ipc;
  attributes = 2;
  parameter = 1;
  backing = 5;
}

abbrev pub block : ℕ → Region
block n = record {
  virtual_address = 0x4000_0000;
  length = n;
  type = free;
  attributes = 0;
  parameter = 0;
  backing = 0;
}

abbrev pub stack_region : Region
stack_region = record {
  virtual_address = 0xB000_0000;
  length = 0x10000;
  type = stack;
  attributes = 0;
  parameter = 0;
  backing = 0;
}

abbrev pub receiver : Context
receiver = record {
  registers = regs;
  space = inbox ∷ block 0x6FFFE ∷ stack_region ∷ [];
  pid = 1;
  status = waiting;
  kqueue_block = 1;
}

abbrev pub sender : Context
sender = record {
  registers = regs;
  space = block 0x70000 ∷ stack_region ∷ [];
  pid = 2;
  status = running;
  kqueue_block = 0;
}

abbrev pub event : Kevent
event = record {
  filter = fifo;
  flag = fifo_readable;
  next = none;
  hook_next = none;
  parent = 1;
  ident = 1;
  triggered = 0;
}

abbrev pub queue : Kqueue
queue = record { pid = 1; kqueue_id = 1; event_list = some 0 }

abbrev pub pipe : ℕ → ℕ → Fifo
pipe start end = record {
  recvlist = 1 ∷ [];
  sendlist = 2 ∷ [];
  size = 8;
  start = start;
  end = end;
  lock = 0;
  fifo_id = 1;
  ke_list = some 0;
}

abbrev pub bytes : List ℕ
bytes = 10 ∷ 11 ∷ 12 ∷ 13 ∷ 14 ∷ 15 ∷ 16 ∷ 17 ∷ []

abbrev pub kernel_with : Fifo → Kernel
kernel_with f = record {
  contexts = receiver ∷ sender ∷ [];
  current = 2;
  next_avail_pid = 3;
  events = event ∷ [];
  kqueues = queue ∷ [];
  kqueue_lock = 0;
  next_kqueue_id = 2;
  fifos = f ∷ [];
  fifo_list_mutex = 0;
  cur_fifo_id = 2;
  memory = λ b. if b == 5 then bytes else [];
  next_backing = 6;
  kernel_reenter = 0;
}
