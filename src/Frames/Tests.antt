-- ===== src/Frames/Tests.antt =====
-- A bitmap of two words: the first is full, and of the second the frames 32 and 33 are used.
use akaris_old.Base.{
  ℕ, zero, suc, ◌+◌, ◌*◌, ◌<◌, ◌≡◌, refl, true, false, [], ◌∷◌, ◌==◌, if◌then◌else◌, returns, hang,
  arith, replicate, length, get_or,
}
use akaris_old.Frames.{Domain, allocate_page, deallocate_page}
use akaris_old.Frames.Memory.{MemoryMap, map_entries, first_free_page, initialize_memory}
use akaris_old.Frames.Start.{initialize_memory-returns}
use akaris_old.Frames.First.{IsBitmap, Grants, is_used, allocate_page_lem, deallocate_page_lem}

abbrev domain : Domain
domain = record {
  start_page = 100;
  bitmap = replicate 32 true ∷ (true ∷ true ∷ replicate 30 false) ∷ [];
  lock = 1;
  total_pages = 60;
  free_pages = 5;
}

domain-IsBitmap : IsBitmap domain
domain-IsBitmap = record { words = refl; wide = widths }
  where
    widths : (r : ℕ) → r < 2 → length (get_or domain.bitmap r []) ≡ 32
    widths zero l = refl
    widths (suc zero) l = refl
    widths (suc (suc r)) l = absurd (omega arith)

allocate_page_lem_example :
    (q : ℕ) × (d' : Domain) × (allocate_page domain ≡ returns (q + 100, d')) × Grants domain d' q
allocate_page_lem_example = allocate_page_lem domain 40 domain-IsBitmap (omega arith) refl

deallocate_page_lem_example :
    (d' : Domain) × (deallocate_page domain 133 ≡ returns d')
    × ((r : ℕ) → is_used d'.bitmap r ≡ (if r == 33 then false else is_used domain.bitmap r))
    × (d'.free_pages ≡ 6)
    × (d'.lock ≡ 0)
deallocate_page_lem_example = deallocate_page_lem domain 33 domain-IsBitmap (omega arith)

-- The grant: the third frame of the second word.
grants_34 :
    allocate_page domain
    ≡ returns (
      134,
      record domain {
        bitmap = replicate 32 true ∷ (true ∷ true ∷ true ∷ replicate 29 false) ∷ [];
        free_pages = 4;
      },
    )
unfolding allocate_page
grants_34 = refl

-- The same entry at each address.
abbrev entries : (base length : ℕ) → ℕ → MemoryMap
entries base length addr = record { size = 20; base_addr_low = base; length_low = length; type = 1 }

-- A map of one entry, in a bitmap of two words.
initialize_memory-returns_example :
    (d' : Domain) × (initialize_memory 25 4000 0x9000 24 (entries 0 0x8000) domain ≡ returns d')
    × ((r : ℕ) → r < first_free_page d' → r < 32 * 2 → is_used d'.bitmap r ≡ true)
initialize_memory-returns_example =
    initialize_memory-returns 4000 0x9000 24 (entries 0 0x8000) domain (omega arith)
      (λ addr l. omega arith) (λ r l. domain-IsBitmap.wide r l)

-- Two kilobytes of usable memory at 0x5000 are three pages here, from 20 on.
three_pages :
    map_entries 2 1000 (entries 0x5000 0x800) 0x9000 0x9018 (record {
      start_page = 0;
      bitmap = replicate 32 true ∷ [];
      lock = 0;
      total_pages = 0;
      free_pages = 0;
    })
    ≡ returns (record {
      start_page = 0;
      bitmap =
          (true
            ∷ true
            ∷ true
            ∷ true
            ∷ true
            ∷ true
            ∷ true
            ∷ true
            ∷ true
            ∷ true
            ∷ true
            ∷ true
            ∷ true
            ∷ true
            ∷ true
            ∷ true
            ∷ true
            ∷ true
            ∷ true
            ∷ true
            ∷ false
            ∷ false
            ∷ false
            ∷ replicate 9 true)
          ∷ [];
      lock = 0;
      total_pages = 3;
      free_pages = 3;
    })
unfolding map_entries
three_pages = refl

-- With a size of 2^32 - 4 the walk stays where it is, and is never left.
stays :
    map_entries 50 1000
      (λ addr. record (entries 0x5000 0 addr) { size = 0xFFFF_FFFC })
      0x9000
      0x9018
      domain
    ≡ hang
unfolding map_entries
stays = refl
