-- ===== src/Fork.antt =====
-- fork of sys/common/process.c: the child gets the parent's registers and a copy of each of its
-- regions, and may receive from the parent's FIFOs and send where the parent may. Pages are copied
-- as the bytes behind a region; what slab objects held before is an argument.
pub mod Isolated
mod Tests
use akaris_old.Base.{
  ℕ, zero, suc, ◌+◌, ◌*◌, Option, none, some, List, [], ◌∷◌, ◌++◌, ◌==◌, if◌then◌else◌, Outcome,
  returns, fault, hang, ◌>>=◌, add32,
}
use akaris_old.State.{
  Regs, Region, RegionType, stack, core, library, anon, ipc, sentinel, free, kernel, Context,
  Status, running, Kernel, find_context, update_context, get_process,
}
use akaris_old.Space.{Mapping, clone_region}
use akaris_old.Space.Carve.{create_region_at}
use akaris_old.Kfifo.{put_space, store_bytes}
use akaris_old.Kfifo.Acl.{clone_fifo, update_senders}
use akaris_old.Process.{create_address_space}

-- The new address space once its stack is unlinked from the list.
abbrev pub without_stack : List Region → List Region
without_stack [] = []
without_stack (r ∷ []) = []
without_stack (r ∷ s ∷ rs) = r ∷ without_stack (s ∷ rs)

-- The child that fork fills in.
unfoldable pub new_child : Context → (old_free old_stack : Region) → Regs → (pid : ℕ) → Context
unfolding create_address_space
new_child old old_free old_stack regs pid = record old {
  registers = record regs { edx = 0 };
  space = without_stack (create_address_space old_free old_stack);
  pid = pid;
  status = running;
}

-- A region with frames of its own, at the same address. Of a stack only the pages that the parent has
-- are mapped, one by one with map_user_address; here they are mapped together.
unfoldable pub copy_region : Mapping → Kernel → (child : ℕ) → Region → Outcome Kernel
unfolding find_context update_context create_region_at
copy_region mapping k child mr = elim (get_process k child) [
  | none ↦ fault
  | some c ↦
      create_region_at c.space mr.virtual_address mr.length mr.type mr.attributes mr.parameter
        k.next_backing
      >>= λ space. mapping mr.virtual_address mr.length >>= λ stale.
          returns
            (record (put_space (store_bytes k k.next_backing (k.memory mr.backing)) child space) {
              next_backing = k.next_backing + 1;
            })
]

-- The clone of an IPC region, and the child among the receivers of its FIFO.
unfoldable pub share_region : Kernel → (child : ℕ) → Region → Outcome Kernel
unfolding find_context update_context clone_region clone_fifo
share_region k child mr = elim (get_process k child) [
  | none ↦ fault
  | some c ↦ clone_region c.space mr >>= λ space.
      returns (clone_fifo (put_space k child space) mr.parameter child).1
]

-- The `switch` of the loop.
unfoldable pub fork_region : Mapping → Kernel → (child : ℕ) → Region → RegionType → Outcome Kernel
unfolding copy_region share_region
fork_region mapping k child mr anon = copy_region mapping k child mr
fork_region mapping k child mr core = copy_region mapping k child mr
fork_region mapping k child mr library = copy_region mapping k child mr
fork_region mapping k child mr stack = copy_region mapping k child mr
fork_region mapping k child mr ipc = share_region k child mr
fork_region mapping k child mr sentinel = returns k
fork_region mapping k child mr free = returns k
fork_region mapping k child mr kernel = returns k

-- The loop over the parent's regions; the code of kfifo_update_senders is ignored.
unfoldable pub fork_regions : Mapping → Kernel → (parent child : ℕ) → List Region → Outcome Kernel
unfolding fork_region update_senders
fork_regions mapping k parent child [] = returns k
fork_regions mapping k parent child (mr ∷ mrs) = fork_region mapping k child mr mr.type >>= λ k'.
    fork_regions mapping (update_senders k' parent child).1 parent child mrs

abbrev pub with_child : Kernel → Context → Kernel
with_child k c = record k {
  contexts = k.contexts ++ c ∷ [];
  next_avail_pid = add32 k.next_avail_pid 1;
}

-- fork, with the child's pid for the parent.
unfoldable pub fork :
    Mapping → Context → (old_free old_stack : Region) → Kernel → Regs → Outcome (ℕ × Kernel)
unfolding find_context new_child fork_regions
fork mapping old old_free old_stack k regs = elim (get_process k k.current) [
  | none ↦ fault
  | some parent ↦
      let child = k.next_avail_pid in
      fork_regions mapping (with_child k (new_child old old_free old_stack regs child)) k.current
        child parent.space
      >>= λ k'. returns (child, k')
]
