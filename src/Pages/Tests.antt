-- ===== src/Pages/Tests.antt =====
-- Tables in which the pages below 1030 are used, a start with 64 free frames, and a program that reaches
-- below its stack.
use akaris_old.Base.{
  ◌/◌, some, ℕ, ◌*◌, ◌≤◌, ◌<◌, ◌≡◌, ◌≢◌, refl, true, false, ◌==◌, ltb, if◌then◌else◌, returns,
  arith, has_flag, replicate, [], ◌∷◌, ◌+◌, inr, Outcome, fault, hang, page_size,
}
use akaris_old.Pages.{
  set_pte, Tables, frame_bits, get_unused_kernel_virtual_page, free_kernel_virtual_page,
  pte_kused_bit,
}
use akaris_old.Frames.{Domain, allocate_page}
use akaris_old.State.{Region, core, Context, Kernel, find_context}
use akaris_old.Space.{determine_memory_region}
use akaris_old.Space.Carve.Apart.{made}
use akaris_old.Pages.User.{Mmu, pde_of, user_address_to_physical}
use akaris_old.Pages.User.Mapped.{IsReady, IsUsable}
use akaris_old.Pages.Directory.{create_directory}
use akaris_old.Pages.Directory.Link.{create_directory_lem}
use akaris_old.Pages.User.Translate.{HasTable}
use akaris_old.Pages.Start.{
  kernel_bits, Paging, initialize_kernel_paging, IsMapped, initialize_kernel_paging_lem,
}
use akaris_old.Pages.Fault.{page_fault_handler, Reaches, page_fault_lem}
use akaris_old.Examples.{receiver, sender, block, stack_region, pipe, kernel_with}
use akaris_old.Pages.Unused.{get_unused_kernel_virtual_page_lem}

abbrev half_used : Tables
half_used q = if ltb q 1030 then 771 else 0

get_unused_kernel_virtual_page_lem_small :
    (q : ℕ) × (tables' : Tables) × (get_unused_kernel_virtual_page half_used
      ≡ returns (q * 4096, tables'))
    × (has_flag (half_used q) pte_kused_bit ≡ false)
    × ((r : ℕ) → 1024 ≤ r → r < q → has_flag (half_used r) pte_kused_bit ≡ true)
    × ((r : ℕ) → r ≢ q → tables' r ≡ half_used r)
    × ((r : ℕ)
        → free_kernel_virtual_page tables' (q * 4096) r ≡ (if r == q then 0 else half_used r))
get_unused_kernel_virtual_page_lem_small =
    get_unused_kernel_virtual_page_lem half_used 2000 (omega arith) (omega arith) refl

abbrev free_domain : Domain
free_domain = record {
  start_page = 0;
  bitmap = replicate 32 false ∷ replicate 32 false ∷ [];
  lock = 0;
  total_pages = 64;
  free_pages = 64;
}

abbrev paging_after : Outcome Paging → Paging
paging_after (returns p) = p
paging_after fault = record {
  kernel_pd = 0;
  entries = λ i. 0;
  tables = λ q. 0;
  domain = free_domain;
}
paging_after hang = record {
  kernel_pd = 0;
  entries = λ i. 0;
  tables = λ q. 0;
  domain = free_domain;
}

abbrev paging : Paging
paging = paging_after (initialize_kernel_paging free_domain)

paging_lem : initialize_kernel_paging free_domain ≡ returns paging
unfolding initialize_kernel_paging
paging_lem = refl

initialize_kernel_paging_lem_small : IsMapped paging.tables
initialize_kernel_paging_lem_small = initialize_kernel_paging_lem free_domain paging paging_lem

-- The tables at the start, with a page directory behind page 1024, in frame 5.
abbrev mapped_tables : Tables
mapped_tables q = if ltb q 1024 then q * 4096 + 259 else if q == 1024 then 5 * 4096 + 771 else 0

abbrev mmu : Mmu
mmu = record {
  tables = mapped_tables;
  domain = record {
    start_page = 0;
    bitmap = (true ∷ true ∷ true ∷ false ∷ false ∷ true ∷ []) ∷ [];
    lock = 0;
    total_pages = 6;
    free_pages = 2;
  };
  words = λ f i. 0;
}

abbrev program : Region
program = made 0x4000_0000 1 core 0 0 9

abbrev running_program : Context
running_program = record sender { space = program ∷ block 0x6FFFF ∷ stack_region ∷ [] }

abbrev kernel : Kernel
kernel = record (kernel_with (pipe 0 0)) { contexts = receiver ∷ running_program ∷ [] }

reaches : Reaches kernel running_program 2 0xBFFF_FFE0 0x4000_0010
unfolding find_context determine_memory_region
reaches = record {
  current = refl;
  code = 0;
  in_code = refl;
  program = program;
  runs = refl;
  is_program = refl;
  other = λ e. omega arith;
  in_stack = refl;
}

-- Frame 3 becomes the page and frame 4 its table.
abbrev left : Domain
left = record mmu.domain {
  bitmap = (true ∷ true ∷ true ∷ true ∷ false ∷ true ∷ []) ∷ [];
  free_pages = 1;
}

mmu-IsReady : IsReady mapped_tables
mmu-IsReady = record {
  spare = 2000;
  from = omega arith;
  below = omega arith;
  unused = refl;
  clean = λ q l h u. ground arith;
}

granted : allocate_page mmu.domain ≡ returns (3, left)
unfolding allocate_page
granted = refl

table : HasTable (record mmu { domain = left }) 1024 (frame_bits 0xBFFF_FFE0) 4
unfolding allocate_page
table = record {
  above = omega arith;
  directory = (omega arith, refl);
  identity = ((omega arith, refl), refl);
  apart = λ e. omega arith;
  table = inr (
    refl,
    (
      record left { bitmap = (true ∷ true ∷ true ∷ true ∷ true ∷ true ∷ []) ∷ []; free_pages = 0 },
      refl,
    ),
  );
}

page_fault_lem_example :
    (m' : Mmu) × (page_fault_handler mmu kernel (λ p. 1024 * 4096) (λ p. 2) 0xBFFF_FFE0 0x4000_0010
      ≡ returns m')
    × (user_address_to_physical m' (1024 * 4096) (frame_bits 0xBFFF_FFE0)
        ≡ returns (3 * page_size, m'))
page_fault_lem_example =
    page_fault_lem mmu kernel running_program (λ p. 1024 * 4096) (λ p. 2) 0xBFFF_FFE0 0x4000_0010
      1024 3 4 left reaches refl mmu-IsReady granted (omega arith) table

create_directory_lem_example :
    (q : ℕ) × (m' : Mmu) × (create_directory mmu (λ c. c * 4096)
      ≡ returns (some (3 * page_size), q * 4096, m'))
    × (has_flag (mmu.tables q) pte_kused_bit ≡ false)
    × IsUsable m'.tables q
    × (m'.tables q / 4096 ≡ 3)
    × ((r : ℕ) → r ≢ q → m'.tables r ≡ mmu.tables r)
    × ((c : ℕ) → c < 16 → m'.words 3 c ≡ set_pte (c * 4096) kernel_bits)
    × ((virtaddr : ℕ)
        → 16 ≤ pde_of virtaddr
        → user_address_to_physical m' (q * 4096) virtaddr ≡ returns (0, m'))
    × ((g i : ℕ) → g ≢ 3 → m'.words g i ≡ mmu.words g i)
create_directory_lem_example =
    create_directory_lem mmu (λ c. c * 4096) 3 left mmu-IsReady granted (λ e. omega arith)
      (omega arith)
