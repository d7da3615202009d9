-- ===== src/Space/Carve/Tests.antt =====
-- Two pages in the middle of the free block of the sender's address space.
use akaris_old.Base.{◌+◌, ◌*◌, ◌≡◌, inr, [], ◌∷◌, arith, returns, page_size}
use akaris_old.State.{anon}
use akaris_old.Space.Carve.{below_part, above_part, create_region_at}
use akaris_old.Space.Carve.Apart.{made, create_region_at-split}
use akaris_old.Examples.{block, stack_region, sender}

create_region_at-split_example :
    create_region_at sender.space 0x5000_0000 2 anon 0 0 7
    ≡ returns (
        made 0x5000_0000 2 anon 0 0 7
        ∷ below_part (block 0x70000) 0x5000_0000
        ∷ above_part (block 0x70000) (0x5000_0000 + 2 * page_size)
        ∷ stack_region
        ∷ [])
create_region_at-split_example =
    create_region_at-split [] (block 0x70000) (stack_region ∷ []) 0x5000_0000 2 (omega arith) tt
      ((omega arith, inr (omega arith)), tt) anon 0 0 7 (omega arith) (omega arith) (omega arith)
