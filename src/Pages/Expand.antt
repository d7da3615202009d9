-- ===== src/Pages/Expand.antt =====
-- expand_region of sys/i386/context.c, which nothing calls. The region is the one at the place `i` of
-- the list, and the size is the bit pattern of an int.
pub mod Stack
use akaris_old.Base.{
  ℕ, zero, suc, ◌+◌, ◌-◌, ◌*◌, ◌/◌, ◌%◌, ◌^◌, ◌==◌, not, if◌then◌else◌, Bool, true, false, Option,
  none, some, List, Outcome, returns, fault, hang, ◌>>=◌, get_elem?, set, has_flag, is_neg, add32,
  sub32, mul32, page_size,
}
use akaris_old.State.{Region, RegionType, stack, is_free}
use akaris_old.Space.{determine_memory_region}
use akaris_old.Frames.{allocate_page}
use akaris_old.Pages.{
  store, set_pte, frame_bits, pte_present_bit, get_unused_kernel_virtual_page,
  get_usable_kernel_virtual_page, get_physical_address_from_kernel_virtual,
  free_kernel_virtual_page,
}
use akaris_old.Pages.User.{Mmu, load, save, with_tables, user_bits}

abbrev pub is_stack : RegionType → Bool
is_stack stack = true
is_stack _ = false

-- The int that get_physical_address_from_kernel_virtual returns.
abbrev pub physical_or_minus_one : Option ℕ → ℕ
physical_or_minus_one none = 2 ^ 32 - 1
physical_or_minus_one (some address) = address

-- The page table of a page number, in a page of the kernel. A table that is there is mapped with the
-- flags of a user's page, which drop the mark that the kernel's page is used.
unfoldable pub open_table : Mmu → (virt_cr3 page : ℕ) → Outcome (ℕ × Mmu)
unfolding load save get_usable_kernel_virtual_page get_unused_kernel_virtual_page
    get_physical_address_from_kernel_virtual
open_table m virt_cr3 page = load m virt_cr3 (page / 1024) >>= λ pde.
    if has_flag pde pte_present_bit
    then (get_unused_kernel_virtual_page m.tables >>= λ (pt, tables).
        returns (pt, with_tables m (store tables (pt / 4096) (set_pte (frame_bits pde) user_bits))))
    else (get_usable_kernel_virtual_page m.tables m.domain >>= λ (pt, tables, d).
        save (record m { tables = tables; domain = d }) virt_cr3 (page / 1024)
          (set_pte (physical_or_minus_one (get_physical_address_from_kernel_virtual tables pt))
            user_bits)
        >>= λ m'. returns (pt, m'))

-- A new frame for a page number.
unfoldable pub expand_page : Mmu → (virt_cr3 page : ℕ) → Outcome Mmu
unfolding open_table allocate_page save free_kernel_virtual_page
expand_page m virt_cr3 page = open_table m virt_cr3 page >>= λ (pt, m').
    allocate_page m'.domain >>= λ (frame, d).
    save (record m' { domain = d }) pt (page % 1024) (set_pte (frame * page_size) user_bits)
    >>= λ m''. returns (with_tables m'' (free_kernel_virtual_page m''.tables pt))

-- The free region that gives a page away, at its front or at its end.
abbrev pub give_page : (up : Bool) → Region → Region
give_page true r = record r {
  length = sub32 r.length 1;
  virtual_address = add32 r.virtual_address 4096;
}
give_page false r = record r { length = sub32 r.length 1 }

abbrev pub next_page : (up : Bool) → (curpage : ℕ) → ℕ
next_page true curpage = add32 curpage 1
next_page false curpage = sub32 curpage 1

-- One round of the loop. A NULL from determine_memory_region is followed; where the address is not
-- free the kernel stops.
unfoldable pub expand_round :
    Mmu → (virt_cr3 : ℕ) → List Region → (i curpage : ℕ) → (up : Bool) → Outcome (List Region × Mmu)
unfolding determine_memory_region expand_page
expand_round m virt_cr3 space i curpage up = elim (get_elem? space i) [
  | none ↦ fault
  | some mr ↦ elim (determine_memory_region space (add32 mr.virtual_address (mul32 curpage 4096))) [
    | none ↦ fault
    | some j ↦ elim (get_elem? space j) [
      | none ↦ fault
      | some newrange ↦
          if not (is_free newrange.type)
          then hang
          else (expand_page m virt_cr3 (add32 (mr.virtual_address / page_size) curpage) >>= λ m'.
              returns (set space j (give_page up newrange), m'))
    ]
  ]
]

unfoldable pub expand_pages :
    (pages : ℕ)
    → Mmu
    → (virt_cr3 : ℕ) → List Region
    → (i curpage : ℕ) → (up : Bool) → Outcome (List Region × Mmu)
unfolding expand_round
expand_pages zero m virt_cr3 space i curpage up = returns (space, m)
expand_pages (suc n) m virt_cr3 space i curpage up =
    expand_round m virt_cr3 space i curpage up >>= λ (space', m').
    expand_pages n m' virt_cr3 space' i (next_page up curpage) up

-- `mr->length += size`
abbrev pub resize : List Region → (i size : ℕ) → List Region
resize space i size = elim (get_elem? space i) [
  | none ↦ space
  | some mr ↦ set space i (record mr { length = add32 mr.length size })
]

unfoldable pub expand_region :
    Mmu → (virt_cr3 : ℕ) → List Region → (i size : ℕ) → Outcome (List Region × Mmu)
unfolding expand_pages
expand_region m virt_cr3 space i size = elim (get_elem? space i) [
  | none ↦ fault
  | some mr ↦
      if is_neg size
      then if not (is_stack mr.type)
        then hang
        else (expand_pages (2 ^ 32 - size) m virt_cr3 space i (sub32 mr.length 1) false
            >>= λ (space', m'). returns (resize space' i size, m'))
      else (expand_pages size m virt_cr3 space i mr.length true >>= λ (space', m').
          returns (resize space' i size, m'))
]
