-- ===== src/Fork/Tests.antt =====
-- Process 2 of the small kernel forks.
use akaris_old.Base.{[], ◌∷◌, ◌==◌, if◌then◌else◌, returns}
use akaris_old.State.{Context, Kernel, running}
use akaris_old.Space.{Mapping}
use akaris_old.Examples.{regs, block, stack_region, receiver, sender, pipe, kernel_with}

abbrev forking : Kernel
forking = kernel_with (pipe 0 0)

abbrev child : Context
child = record {
  registers = regs;
  space = record stack_region { backing = 6 } ∷ block 0x70000 ∷ [];
  pid = 3;
  status = running;
  kqueue_block = 0;
}

abbrev forked : Kernel
forked = record forking {
  contexts = receiver ∷ sender ∷ child ∷ [];
  next_avail_pid = 4;
  fifos = record (pipe 0 0) { sendlist = 2 ∷ 3 ∷ 3 ∷ [] } ∷ [];
  memory = λ b. if b == 6 then forking.memory 0 else forking.memory b;
  next_backing = 7;
}

-- Frames are always found.
abbrev mapped : Mapping
mapped virtual_address pages = returns []
