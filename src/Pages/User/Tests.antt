-- ===== src/Pages/User/Tests.antt =====
-- A page directory in frame 5 without a table, and a domain of which frame 3 is the lowest free one.
use akaris_old.Base.{
  ℕ, ◌+◌, ◌*◌, ◌/◌, ◌≡◌, ◌≢◌, ◌⊎◌, inr, refl, true, false, [], ◌∷◌, ◌==◌, ltb, if◌then◌else◌,
  returns, arith, zero, suc, add32, page_size, ◌^◌, ◌<◌, has_flag,
}
use akaris_old.Frames.{Domain, allocate_page}
use akaris_old.Pages.{Tables, frame_bits, pte_present_bit}
use akaris_old.Pages.User.{
  Mmu, pde_of, pte_of, map_user_address, user_address_to_physical, clone_pages,
}
use akaris_old.Pages.User.Share.{Shares, clone_pages_lem}
use akaris_old.Pages.User.Mapped.{IsReady}
use akaris_old.Pages.User.Translate.{HasTable, map_user_address_lem}

abbrev tables : Tables
tables q = if ltb q 1024 then q * 4096 + 259 else if q == 1024 then 5 * 4096 + 771 else 0

abbrev domain : Domain
domain = record {
  start_page = 0;
  bitmap = (true ∷ true ∷ true ∷ false ∷ false ∷ true ∷ []) ∷ [];
  lock = 0;
  total_pages = 6;
  free_pages = 2;
}

abbrev mmu : Mmu
mmu = record { tables = tables; domain = domain; words = λ f i. 0 }

ready : IsReady tables
ready = record {
  spare = 2000;
  from = omega arith;
  below = omega arith;
  unused = refl;
  clean = λ q l h u. ground arith;
}

table : HasTable mmu 1024 0xBFFF_E000 3
unfolding allocate_page
table = record {
  above = omega arith;
  directory = (omega arith, refl);
  identity = ((omega arith, refl), refl);
  apart = λ e. omega arith;
  table = inr (
    refl,
    (
      record domain {
        bitmap = (true ∷ true ∷ true ∷ true ∷ false ∷ true ∷ []) ∷ [];
        free_pages = 1;
      },
      refl,
    ),
  );
}

map_user_address_lem_example :
    (m' : Mmu) × (map_user_address mmu (1024 * 4096) 0xBFFF_E000 0x0060_0000 0 ≡ returns m')
    × (user_address_to_physical m' (1024 * 4096) 0xBFFF_E000 ≡ returns (frame_bits 0x0060_0000, m'))
    × (m'.tables ≡ mmu.tables)
    × ((g i : ℕ)
        → (g ≢ 3) ⊎ (i ≢ pte_of 0xBFFF_E000)
        → (g ≢ mmu.tables 1024 / 4096) ⊎ (i ≢ pde_of 0xBFFF_E000)
        → m'.words g i ≡ mmu.words g i)
map_user_address_lem_example =
    map_user_address_lem mmu 1024 0xBFFF_E000 0x0060_0000 0 3 ready table (omega arith)
      (omega arith)

-- A second directory in frame 6, whose table in frame 7 has two pages at 0x50000000, and a table in
-- frame 3 for the addresses below 0xB0000000 of the first one.
abbrev two_tables : Tables
two_tables q = if q == 1025 then 6 * 4096 + 771 else tables q

abbrev sharing : Mmu
sharing = record {
  tables = two_tables;
  domain = domain;
  words = λ f i.
      if f == 5
      then (if i == 703 then 3 * 4096 + 7 else 0)
      else if f == 6
      then (if i == 320 then 7 * 4096 + 7 else 0)
      else if f == 7
      then 0x0060_0007 + i * 4096
      else 0;
}

two_tables-IsReady : IsReady two_tables
two_tables-IsReady = record {
  spare = 2000;
  from = omega arith;
  below = omega arith;
  unused = refl;
  clean = λ q l h u. ground arith;
}

shares : Shares sharing 1024 1025 0xAFFF_E000 0xA000_2000 2 (λ i. 3) (λ i. 7)
shares = record {
  ready = two_tables-IsReady;
  original = (omega arith, refl);
  above = λ i l. omega arith;
  tables = λ i l. record {
    above = omega arith;
    directory = (omega arith, refl);
    identity = ((omega arith, refl), refl);
    there = there i l;
    frame = frame i l;
  };
  from = from;
  words = words;
  apart = λ i l. ((λ e. omega arith), (λ e. omega arith));
  unshared = λ i j l k e. omega arith;
  distinct = λ i j l k. inr (λ e. omega arith);
}
  where
    there :
        (i : ℕ)
        → i < 2
        → has_flag (sharing.words 5 (pde_of (0xAFFF_E000 + i * page_size))) pte_present_bit ≡ true
    there zero l = refl
    there (suc zero) l = refl
    there (suc (suc i)) l = absurd (omega arith)

    frame : (i : ℕ) → i < 2 → sharing.words 5 (pde_of (0xAFFF_E000 + i * page_size)) / 4096 ≡ 3
    frame zero l = refl
    frame (suc zero) l = refl
    frame (suc (suc i)) l = absurd (omega arith)

    from :
        (i : ℕ)
        → i < 2
        → (sharing.words 6 (pde_of (add32 (0xAFFF_E000 + i * page_size) 0xA000_2000)) ≢ 0)
          × (sharing.words 6 (pde_of (add32 (0xAFFF_E000 + i * page_size) 0xA000_2000)) / 4096 ≡ 7)
          × (7 < 2 ^ 20)
    from zero l = ((λ e. omega arith), refl, omega arith)
    from (suc zero) l = ((λ e. omega arith), refl, omega arith)
    from (suc (suc i)) l = absurd (omega arith)

    words :
        (i : ℕ)
        → i < 2
        → sharing.words 7 (pte_of (add32 (0xAFFF_E000 + i * page_size) 0xA000_2000)) < 2 ^ 32
    words i l = omega arith

clone_pages_lem_example :
    (m' : Mmu) × (clone_pages 2 sharing (1024 * 4096) (1025 * 4096) 0xAFFF_E000 0xA000_2000 0
      ≡ returns m')
    × ((i : ℕ)
        → i < 2
        → let frame =
            frame_bits
              (sharing.words 7 (pte_of (add32 (0xAFFF_E000 + i * page_size) 0xA000_2000))) in
          (user_address_to_physical m' (1024 * 4096) (0xAFFF_E000 + i * page_size)
            ≡ returns (frame, m'))
          × (user_address_to_physical m'
                (1025 * 4096)
                (add32 (0xAFFF_E000 + i * page_size) 0xA000_2000)
              ≡ returns (frame, m')))
    × (m'.tables ≡ two_tables)
    × (m'.domain ≡ domain)
clone_pages_lem_example =
    clone_pages_lem sharing 1024 1025 0xAFFF_E000 0xA000_2000 0 2 (λ i. 3) (λ i. 7) shares
      (omega arith)
