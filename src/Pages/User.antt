-- ===== src/Pages/User.antt =====
-- The page tables of users (sys/i386/paging.c). An entry of a table is a word of a physical frame, and
-- the code reaches it through the kernel's virtual pages: an address below 64 MB is translated by the
-- kernel's tables, and where they have no page for it the access is a page fault in the kernel.
-- `virt_cr3` is the kernel address of a page directory. The flushes of the translation buffer are
-- left out.
pub mod Words
pub mod Mapped
pub mod Translate
pub mod Share
mod Tests
use akaris_old.Base.{
  ℕ, zero, suc, ◌+◌, ◌*◌, ◌/◌, ◌%◌, ◌-◌, ◌^◌, ◌==◌, ◌&&◌, if◌then◌else◌, Outcome, returns, fault,
  hang, ◌>>=◌, Bool, Option, none, some, has_flag, or_bits, page_size, ltb, not, add32, List,
  get_elem?,
}
use akaris_old.State.{Region, stack, core, RegionType, Kernel, find_context, get_process}
use akaris_old.Space.{determine_memory_region}
use akaris_old.Frames.{Domain, allocate_page, deallocate_page}
use akaris_old.Process.{get_current_process}
use akaris_old.Pages.{
  Tables, pte_present_bit, pte_rw_bit, pte_global_bit, num_kernel_pdes, frame_bits, set_pte,
  get_mapped_kernel_virtual_page, free_kernel_virtual_page,
}

-- PTE_US_BIT
abbrev pub pte_us_bit : ℕ
pte_us_bit = 4

-- The kernel's tables, the physical frames, and the words that each frame holds. The frames of the
-- kernel's tables stand in `tables` and not in `words`: an address below 64 MB has its entry there, and
-- what is said of a process' page needs an address above.
pub record Mmu : Type 0 where
  pub tables : Tables
  pub domain : Domain
  pub words : (frame index : ℕ) → ℕ

-- The kernel may use the address.
abbrev pub is_mapped : Tables → (addr : ℕ) → Bool
is_mapped tables addr =
    ltb (addr / 4096) (num_kernel_pdes * 1024) && has_flag (tables (addr / 4096)) pte_present_bit

-- The frame behind an address of the kernel.
abbrev pub frame_at : Tables → (addr : ℕ) → ℕ
frame_at tables addr = tables (addr / 4096) / 4096

-- `table[index]`
unfoldable pub load : Mmu → (table index : ℕ) → Outcome ℕ
load m table index =
    if is_mapped m.tables table then returns (m.words (frame_at m.tables table) index) else fault

-- `table[index] = entry`
unfoldable pub save : Mmu → (table index entry : ℕ) → Outcome Mmu
save m table index entry =
    if is_mapped m.tables table
    then returns (record m {
      words = λ f i. if (f == frame_at m.tables table) && (i == index) then entry else m.words f i;
    })
    else fault

abbrev pub user_bits : ℕ
user_bits = or_bits 32 (or_bits 32 pte_present_bit pte_rw_bit) pte_us_bit

-- A page table for an entry of the directory that has none. The words that it holds are not cleared.
unfoldable pub ensure_table : Mmu → (virt_cr3 cur_pde : ℕ) → Outcome Mmu
unfolding load save allocate_page
ensure_table m virt_cr3 cur_pde = load m virt_cr3 cur_pde >>= λ pde.
    if has_flag pde pte_present_bit
    then returns m
    else (allocate_page m.domain >>= λ (frame, d).
        save (record m { domain = d }) virt_cr3 cur_pde (set_pte (frame * page_size) user_bits))

abbrev pub pde_of : (virtaddr : ℕ) → ℕ
pde_of virtaddr = (virtaddr / page_size) / 1024

abbrev pub pte_of : (virtaddr : ℕ) → ℕ
pte_of virtaddr = (virtaddr / page_size) % 1024

-- map_user_address. The physical address of the page table is used as a pointer.
unfoldable pub map_user_address : Mmu → (virt_cr3 virtaddr physaddr flags : ℕ) → Outcome Mmu
unfolding ensure_table load save
map_user_address m virt_cr3 virtaddr physaddr flags =
    ensure_table m virt_cr3 (pde_of virtaddr) >>= λ m'.
    load m' virt_cr3 (pde_of virtaddr) >>= λ pde.
    save m' (frame_bits pde) (pte_of virtaddr) (set_pte physaddr (or_bits 32 user_bits flags))

abbrev pub with_tables : Mmu → Tables → Mmu
with_tables m tables = record m { tables = tables }

-- user_address_to_physical
unfoldable pub user_address_to_physical : Mmu → (virt_cr3 virtaddr : ℕ) → Outcome (ℕ × Mmu)
unfolding load get_mapped_kernel_virtual_page free_kernel_virtual_page
user_address_to_physical m virt_cr3 virtaddr = load m virt_cr3 (pde_of virtaddr) >>= λ pde.
    if pde == 0
    then returns (0, m)
    else (get_mapped_kernel_virtual_page m.tables (frame_bits pde) >>= λ (pt, tables).
        load (with_tables m tables) pt (pte_of virtaddr) >>= λ pte.
        returns (frame_bits pte, with_tables m (free_kernel_virtual_page tables pt)))

-- map_user_virtual_to_kernel. The flags of the directory's entry go into the kernel's table with its
-- frame, and the entry of the page table is read without a look at its flags.
unfoldable pub map_user_virtual_to_kernel : Mmu → (virt_cr3 addr : ℕ) → Outcome (ℕ × Mmu)
unfolding load get_mapped_kernel_virtual_page free_kernel_virtual_page
map_user_virtual_to_kernel m virt_cr3 addr = load m virt_cr3 (pde_of addr) >>= λ pde.
    get_mapped_kernel_virtual_page m.tables pde >>= λ (list, tables).
    load (with_tables m tables) list (pte_of addr) >>= λ pte.
    get_mapped_kernel_virtual_page (free_kernel_virtual_page tables list) (frame_bits pte)
    >>= λ (page, tables'). returns (page, with_tables m tables')

-- The frame that a page of a region gets: a new one if no physical address is given.
abbrev pub next_frame : Mmu → (phys_addr cur_phys : ℕ) → Outcome (ℕ × Mmu)
next_frame m phys_addr cur_phys =
    if phys_addr == 0
    then (allocate_page m.domain >>= λ (frame, d).
        returns ((frame * page_size) % 2 ^ 32, record m { domain = d }))
    else returns (cur_phys, m)

-- The loop of map_user_region_to_physical. The kernel page of each round is not released.
unfoldable pub map_pages :
    (pages : ℕ) → Mmu → (virt_cr3 cur_virt phys_addr cur_phys : ℕ) → Outcome Mmu
unfolding ensure_table load save allocate_page get_mapped_kernel_virtual_page
map_pages zero m virt_cr3 cur_virt phys_addr cur_phys = returns m
map_pages (suc n) m virt_cr3 cur_virt phys_addr cur_phys =
    next_frame m phys_addr cur_phys >>= λ (phys, m1).
    ensure_table m1 virt_cr3 (pde_of cur_virt) >>= λ m2.
    load m2 virt_cr3 (pde_of cur_virt) >>= λ pde.
    get_mapped_kernel_virtual_page m2.tables (frame_bits pde) >>= λ (pt, tables).
    save (with_tables m2 tables) pt (pte_of cur_virt) (set_pte phys user_bits) >>= λ m3.
    map_pages n m3 virt_cr3 (cur_virt + page_size) phys_addr (add32 phys page_size)

-- map_user_region_to_physical. The loop goes on while `cur_virt` is below the end of the region, a
-- 32-bit sum, so it has a round for each page up to there.
unfoldable pub map_user_region_to_physical :
    Mmu → (virt_cr3 : ℕ) → Region → (phys_addr : ℕ) → Outcome Mmu
unfolding map_pages
map_user_region_to_physical m virt_cr3 mr phys_addr =
    if not (mr.virtual_address % 4096 == 0)
    then returns m
    else let end = (mr.virtual_address + mr.length * page_size) % 2 ^ 32 in
      map_pages ((end - mr.virtual_address) / page_size) m virt_cr3 mr.virtual_address phys_addr
        phys_addr

-- The loop of clone_region (sys/i386/context.c) over the pages of the clone, from `virt` on: each is
-- mapped to the frame of the original's page, which stands `delta` further.
unfoldable pub clone_pages :
    (pages : ℕ) → Mmu → (dest_cr3 parent_cr3 virt delta flags : ℕ) → Outcome Mmu
unfolding user_address_to_physical map_user_address
clone_pages zero m dest_cr3 parent_cr3 virt delta flags = returns m
clone_pages (suc n) m dest_cr3 parent_cr3 virt delta flags =
    user_address_to_physical m parent_cr3 (add32 virt delta) >>= λ (phys, m').
    map_user_address m' dest_cr3 virt phys flags >>= λ m''.
    clone_pages n m'' dest_cr3 parent_cr3 (virt + page_size) delta flags

-- The loop of delete_region (sys/i386/context.c) over the pages of the region. The address of the
-- frame is handed on where deallocate_page takes a page number.
unfoldable pub delete_pages :
    (pages : ℕ) → Mmu → (virt_cr3 cur_address : ℕ) → (shared : Bool) → Outcome Mmu
unfolding load save get_mapped_kernel_virtual_page deallocate_page free_kernel_virtual_page
delete_pages zero m virt_cr3 cur_address shared = returns m
delete_pages (suc n) m virt_cr3 cur_address shared = load m virt_cr3 (pde_of cur_address) >>= λ pde.
    get_mapped_kernel_virtual_page m.tables (frame_bits pde) >>= λ (pt, tables).
    load (with_tables m tables) pt (pte_of cur_address) >>= λ pte.
    (if shared then returns m.domain else deallocate_page m.domain (frame_bits pte)) >>= λ d.
    save (record m { tables = tables; domain = d }) pt (pte_of cur_address) 0 >>= λ m'.
    delete_pages n (with_tables m' (free_kernel_virtual_page m'.tables pt)) virt_cr3
      (cur_address + page_size) shared
