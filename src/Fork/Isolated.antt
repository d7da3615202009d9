-- ===== src/Fork/Isolated.antt =====
-- What fork leaves alone.
use akaris_old.Base.{ℕ, ◌≤◌, ◌<◌, ◌≡◌, ◌≢◌, some}
use akaris_old.State.{Regs, Context, running, Kernel, get_process}

-- `k'` is `k` with a child that starts with these registers, and nothing else has changed in the
-- processes, and in the bytes behind the pages that were in use.
pub record Forked (k k' : Kernel) (child : ℕ) (regs : Regs) : Type 0 where
  pub current : k'.current ≡ k.current
  pub others : (p : ℕ) → p ≢ child → get_process k' p ≡ get_process k p
  pub made :
      (c : Context) × (get_process k' child ≡ some c) × (c.registers ≡ regs) × (c.status ≡ running)
  pub backings : k.next_backing ≤ k'.next_backing
  pub memory : (b : ℕ) → b < k.next_backing → k'.memory b ≡ k.memory b

-- The two kernels differ in their FIFOs only.
abbrev Keeps : Kernel → Kernel → Type 0
Keeps k k' =
    (k'.contexts ≡ k.contexts)
    × (k'.current ≡ k.current)
    × (k'.next_backing ≡ k.next_backing)
    × (k'.memory ≡ k.memory)
