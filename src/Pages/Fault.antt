-- ===== src/Pages/Fault.antt =====
-- page_fault_handler of sys/i386/paging.c: a program that reaches below its stack gets a new page
-- there. `stack` is the place of the stack among the regions of the process.

use akaris_old.Base.{
  ℕ, ◌*◌, ◌^◌, ◌<◌, ◌≡◌, ◌≢◌, refl, ap, ◌∙◌, List, Option, none, some, ◌==◌, if◌then◌else◌, Outcome,
  returns, fault, hang, ◌>>=◌, get_elem?, page_size, ==_refl, ==_ne, arith,
}
use akaris_old.State.{Region, core, Context, Kernel, find_context, get_process}
use akaris_old.Space.{determine_memory_region}
use akaris_old.Frames.{Domain, allocate_page}
use akaris_old.Process.{get_current_process}
use akaris_old.Kfifo.Lookup.{find_context_pid}
use akaris_old.Exec.{is_core}
use akaris_old.Pages.{frame_bits}
use akaris_old.Pages.User.{Mmu, map_user_address, user_address_to_physical}
use akaris_old.Pages.User.Mapped.{IsReady}
use akaris_old.Pages.User.Translate.{HasTable, map_user_address_lem}

-- The page that is added.
unfoldable pub add_page : Mmu → (virt_cr3 address : ℕ) → Outcome Mmu
unfolding allocate_page map_user_address
add_page m virt_cr3 address = allocate_page m.domain >>= λ (frame, d).
    map_user_address (record m { domain = d }) virt_cr3 (frame_bits address) (frame * page_size) 0

-- The region at EIP: the process hangs if it is the stack; a program hangs if the address is not in
-- the stack; for all else the handler returns, and the same fault comes again. A NULL from
-- determine_memory_region is followed for EIP, and is not the stack for the address.
unfoldable pub handle_fault :
    Mmu → (virt_cr3 : ℕ) → List Region → (stack address : ℕ) → (at_eip : Option ℕ) → Outcome Mmu
unfolding determine_memory_region add_page
handle_fault m virt_cr3 space stack address none = fault
handle_fault m virt_cr3 space stack address (some i) =
    if i == stack then hang else elim (get_elem? space i) [
      | none ↦ fault
      | some mr ↦
          if is_core mr.type
          then elim (determine_memory_region space address) [
            | none ↦ hang
            | some j ↦ if j == stack then add_page m virt_cr3 address else hang
          ]
          else returns m
    ]

-- page_fault_handler; before there are processes it hangs.
unfoldable pub page_fault_handler :
    Mmu → Kernel → (virt_cr3 : ℕ → ℕ) → (stack : ℕ → ℕ) → (address eip : ℕ) → Outcome Mmu
unfolding find_context determine_memory_region handle_fault
page_fault_handler m k virt_cr3 stack address eip = elim (get_current_process k) [
  | none ↦ hang
  | some pid ↦ elim (get_process k pid) [
    | none ↦ fault
    | some context ↦
        handle_fault m (virt_cr3 pid) context.space (stack pid) address
          (determine_memory_region context.space eip)
  ]
]

-- A program that is current, and an address of its stack.
pub record Reaches (k : Kernel) (c : Context) (stack address eip : ℕ) : Type 0 where
  pub current : get_process k k.current ≡ some c
  pub code : ℕ
  pub in_code : determine_memory_region c.space eip ≡ some code
  pub program : Region
  pub runs : get_elem? c.space code ≡ some program
  pub is_program : program.type ≡ core
  pub other : code ≢ stack
  pub in_stack : determine_memory_region c.space address ≡ some stack

add_page_lem :
    (m : Mmu) (d address frame f : ℕ) (domain : Domain)
    → IsReady m.tables
    → allocate_page m.domain ≡ returns (frame, domain)
    → frame < 2 ^ 20
    → HasTable (record m { domain = domain }) d (frame_bits address) f
    → (m' : Mmu) × (add_page m (d * 4096) address ≡ returns m')
      × (user_address_to_physical m' (d * 4096) (frame_bits address)
          ≡ returns (frame * page_size, m'))
unfolding add_page
add_page_lem m d address frame f domain r a l h =
    let (m', run, back, same, others) =
      map_user_address_lem (record m { domain = domain }) d (frame_bits address) (frame * page_size)
        0 f r h (omega arith) (omega arith) in
    (m', rw (add_page, a) run, back ∙ rw (frame_back frame) refl)
  where
    frame_back : (f : ℕ) → frame_bits (f * page_size) ≡ f * page_size
    frame_back f = omega arith

handle_fault_lem :
    (m : Mmu) (virt_cr3 : ℕ) (k : Kernel) (c : Context) (stack address eip : ℕ)
    → (h : Reaches k c stack address eip)
    → handle_fault m virt_cr3 c.space stack address (some h.code) ≡ add_page m virt_cr3 address
unfolding handle_fault
handle_fault_lem m virt_cr3 k c stack address eip h =
    rw (handle_fault, ==_ne h.code stack h.other, h.runs, h.is_program, h.in_stack, ==_refl stack)
      refl

-- The stack grows on demand: where a program that is current reaches for an address of its stack, and
-- a frame is free, page_fault_handler returns, and from then on user_address_to_physical returns that
-- frame for the page of the address, provided that the page table is there or gets the next frame, in a
-- frame that the kernel reaches at its own address, that the address is above the kernel's 64 MB, that
-- some page of the kernel is unused, and that the entries of unused ones are 0.
pub page_fault_lem :
    (m : Mmu) (k : Kernel) (c : Context) (virt_cr3 stack : ℕ → ℕ) (address eip d frame f : ℕ)
    (domain : Domain)
    → Reaches k c (stack c.pid) address eip
    → virt_cr3 c.pid ≡ d * 4096
    → IsReady m.tables
    → allocate_page m.domain ≡ returns (frame, domain)
    → frame < 2 ^ 20
    → HasTable (record m { domain = domain }) d (frame_bits address) f
    → (m' : Mmu) × (page_fault_handler m k virt_cr3 stack address eip ≡ returns m')
      × (user_address_to_physical m' (virt_cr3 c.pid) (frame_bits address)
          ≡ returns (frame * page_size, m'))
unfolding page_fault_handler
page_fault_lem m k c virt_cr3 stack address eip d frame f domain h e r a l t =
    let (m', run, back) = add_page_lem m d address frame f domain r a l t in
    (
      m',
      rw (page_fault_handler, h.current, found, h.in_code)
          (handle_fault_lem m (virt_cr3 c.pid) k c (stack c.pid) address eip h ∙ rw e run),
      rw e back,
    )
  where
    found : get_process k c.pid ≡ some c
    found =
        ap (λ p. get_process k p) (find_context_pid k.current k.contexts c h.current) ∙ h.current
