-- ===== src/Space/Tests.antt =====
-- Cloning and deleting at the sender's address space.
use akaris_old.Base.{
  ℕ, zero, suc, ◌+◌, ◌*◌, ◌≡◌, refl, true, false, page_size, some, arith, returns, ◌>>=◌, get_elem?,
}
use akaris_old.State.{Region, is_free}
use akaris_old.Space.{
  in_region, determine_memory_region, find_smallest, clone_region, delete_region,
}
use akaris_old.Space.Clone.{IsSpace, clone_delete}
use akaris_old.Examples.{inbox, block, stack_region, sender}

sender-IsSpace : IsSpace sender.space
unfolding determine_memory_region
sender-IsSpace = record { disjoint = disjoint; merged = merged }
  where
    disjoint :
        (i addr : ℕ) (m : Region)
        → get_elem? sender.space i ≡ some m
        → in_region addr m ≡ true
        → determine_memory_region sender.space addr ≡ some i
    disjoint zero addr m e h = ground arith
    disjoint (suc zero) addr m e h = ground arith
    disjoint (suc (suc i)) addr m e h = cc

    merged :
        (i : ℕ) (m : Region)
        → get_elem? sender.space i ≡ some m
        → is_free m.type ≡ true
        → (j : ℕ) × (r : Region) × (determine_memory_region sender.space
              (m.virtual_address + page_size * m.length + 1)
            ≡ some j)
          × (get_elem? sender.space j ≡ some r)
          × (is_free r.type ≡ false)
    merged zero m e f = (1, stack_region, ground arith, refl, refl)
    merged (suc zero) m e f = absurd (ground arith)
    merged (suc (suc i)) m e f = absurd (ground arith)

clone_delete_example :
    (clone_region sender.space inbox >>= λ s. delete_region s 0) ≡ returns sender.space
unfolding find_smallest
clone_delete_example =
    clone_delete sender.space inbox 0 0x70000 (block 0x70000) sender-IsSpace refl refl (omega arith)
      (omega arith)
