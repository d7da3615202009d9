-- ===== src/Pages.antt =====
-- The kernel's virtual pages (sys/i386/paging.c): a table entry for each page of the kernel's part of
-- the address space, by page number, and the physical frames of Frames behind them. The flushes of
-- the translation buffer are left out. Addresses are below 0x40000000.
pub mod Unused
pub mod User
pub mod Start
pub mod Fault
pub mod Directory
pub mod Expand
mod Tests
use akaris_old.Base.{
  ℕ, zero, suc, ◌+◌, ◌*◌, ◌/◌, ◌%◌, ◌-◌, ◌^◌, ◌==◌, if◌then◌else◌, Outcome, returns, fault, hang,
  ◌>>=◌, Bool, not, false, has_flag, or_bits, page_size, ltb, Option, none, some,
}
use akaris_old.Frames.{Domain, allocate_page, set_page_status}

-- PTE_PRESENT_BIT, PTE_RW_BIT, PTE_GLOBAL_BIT, PTE_KUSED_BIT
abbrev pub pte_present_bit : ℕ
pte_present_bit = 1

abbrev pub pte_rw_bit : ℕ
pte_rw_bit = 2

abbrev pub pte_global_bit : ℕ
pte_global_bit = 256

abbrev pub pte_kused_bit : ℕ
pte_kused_bit = 512

abbrev pub num_kernel_pdes : ℕ
num_kernel_pdes = 16

-- kernel_page_tables[page / 1024][page % 1024]
abbrev pub Tables : Type 0
Tables = ℕ → ℕ

abbrev pub store : Tables → (page entry : ℕ) → Tables
store tables page entry q = if q == page then entry else tables q

-- `address & 0xFFFFF000`
abbrev pub frame_bits : ℕ → ℕ
frame_bits address = (address / 4096) * 4096

-- set_pte and set_pde
abbrev pub set_pte : (address flags : ℕ) → ℕ
set_pte address flags = (frame_bits address + flags) % 2 ^ 32

-- The two loops of get_unused_kernel_virtual_page, over `pages` pages from `page` on.
unfoldable pub first_unused : Tables → (pages page : ℕ) → Option ℕ
first_unused tables zero page = none
first_unused tables (suc n) page =
    let rest = first_unused tables n (page + 1) in
    if has_flag (tables page) pte_kused_bit then rest else some page

abbrev pub unused_bits : ℕ
unused_bits =
    or_bits 32 (or_bits 32 (or_bits 32 pte_kused_bit pte_present_bit) pte_global_bit) pte_rw_bit

-- get_unused_kernel_virtual_page: the page tables 1 to NUM_KERNEL_PDES - 1. With no page left the
-- entry is written behind the last table.
unfoldable pub get_unused_kernel_virtual_page : Tables → Outcome (ℕ × Tables)
unfolding first_unused
get_unused_kernel_virtual_page tables =
    elim (first_unused tables ((num_kernel_pdes - 1) * 1024) 1024) [
      | none ↦ fault
      | some page ↦ returns (page * 4096, store tables page (or_bits 32 (tables page) unused_bits))
    ]

-- get_usable_kernel_virtual_page; without memory the kernel stops.
unfoldable pub get_usable_kernel_virtual_page : Tables → Domain → Outcome (ℕ × Tables × Domain)
unfolding get_unused_kernel_virtual_page allocate_page
get_usable_kernel_virtual_page tables d =
    get_unused_kernel_virtual_page tables >>= λ (address, tables').
    allocate_page d >>= λ (frame, d').
    let page = address / page_size in
    let phys_addr = frame * page_size in
    if phys_addr == 0
    then hang
    else returns (page * page_size, store tables' page (or_bits 32 (tables' page) phys_addr), d')

-- get_mapped_kernel_virtual_page
unfoldable pub get_mapped_kernel_virtual_page : Tables → (addr : ℕ) → Outcome (ℕ × Tables)
unfolding get_unused_kernel_virtual_page
get_mapped_kernel_virtual_page tables addr =
    get_unused_kernel_virtual_page tables >>= λ (address, tables').
    let page = address / page_size in
    returns (page * page_size, store tables' page (or_bits 32 (tables' page) addr))

-- get_physical_address_from_kernel_virtual; `none` is its -1.
unfoldable pub get_physical_address_from_kernel_virtual : Tables → (addr : ℕ) → Option ℕ
get_physical_address_from_kernel_virtual tables addr =
    if ltb (num_kernel_pdes * 4 * 1024 * 1024) addr
    then none
    else some (frame_bits (tables (addr / page_size)))

-- free_kernel_virtual_page
unfoldable pub free_kernel_virtual_page : Tables → (addr : ℕ) → Tables
free_kernel_virtual_page tables addr = store tables (addr / 4096) 0

-- free_kernel_physical_page, which hands on an address where set_page_status takes a page number.
unfoldable pub free_kernel_physical_page : Tables → Domain → (virtaddr : ℕ) → Outcome Domain
unfolding set_page_status
free_kernel_physical_page tables d virtaddr =
    let page = virtaddr / page_size in
    if ltb (page * page_size) 0x4000_0000
    then set_page_status d (frame_bits (tables page)) false
    else returns d
