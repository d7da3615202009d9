-- ===== src/Pages/Directory.antt =====
-- The page directory of a new address space: create_address_space of sys/i386/context.c. `kpt` gives
-- the physical addresses of the kernel's page tables.
pub mod Link
use akaris_old.Base.{
  ℕ, zero, suc, ◌+◌, ◌*◌, ◌/◌, ◌^◌, ◌≤◌, ◌<◌, ◌≡◌, ◌≢◌, ◌⊎◌, inl, inr, refl, sym, ap, ◌∙◌, Option,
  none, some, true, false, Bool-cases, ◌==◌, ltb, if◌then◌else◌, arith, Outcome, returns, fault,
  hang, ◌>>=◌, or_bits, page_size, ==_refl, ==_ne, ==_iff,
}
use akaris_old.Frames.{Domain, allocate_page}
use akaris_old.Pages.{
  Tables, store, set_pte, first_unused, num_kernel_pdes, get_unused_kernel_virtual_page,
  get_usable_kernel_virtual_page, get_physical_address_from_kernel_virtual,
}
use akaris_old.Pages.Unused.{IsFirst, first_unused-IsFirst}
use akaris_old.Pages.User.{Mmu, is_mapped, frame_at, load, save, pde_of, user_address_to_physical}
use akaris_old.Pages.User.Mapped.{
  IsReady, IsSpare, IsUsable, usable, opened, open_page, IsFirst-high, write, load_lem, save_lem,
}
use akaris_old.Pages.User.Translate.{write_others, opened_at, mapped_present}
use akaris_old.Pages.Start.{kernel_bits}

-- `memset (pages, 0, PAGE_SIZE)`
unfoldable pub clear_page : Mmu → (page : ℕ) → Outcome Mmu
clear_page m page =
    if is_mapped m.tables page
    then returns
        (record m { words = λ f i. if f == frame_at m.tables page then 0 else m.words f i })
    else fault

-- The loop that links in the kernel's tables, over `n` of them from the place `c` on.
unfoldable pub link_tables : (n c : ℕ) → Mmu → (pages : ℕ) → (kpt : ℕ → ℕ) → Outcome Mmu
unfolding save
link_tables zero c m pages kpt = returns m
link_tables (suc n) c m pages kpt =
    save m pages c (set_pte (kpt c) kernel_bits) >>= λ m'. link_tables n (c + 1) m' pages kpt

-- The fields cr3 and virt_cr3 of the new address space; `none` is -1.
unfoldable pub create_directory : Mmu → (kpt : ℕ → ℕ) → Outcome (Option ℕ × ℕ × Mmu)
unfolding get_usable_kernel_virtual_page clear_page link_tables
    get_physical_address_from_kernel_virtual
create_directory m kpt = get_usable_kernel_virtual_page m.tables m.domain >>= λ (pages, tables, d).
    clear_page (record m { tables = tables; domain = d }) pages >>= λ m'.
    link_tables num_kernel_pdes 0 m' pages kpt >>= λ m''.
    returns (get_physical_address_from_kernel_virtual m''.tables pages, pages, m'')
