-- ===== src/Pages/Expand/Stack.antt =====
-- expand_region (sys/i386/context.c) of the stack of a new process.
use akaris_old.Base.{
  ℕ, zero, suc, ◌-◌, ◌^◌, ◌<◌, ◌≡◌, refl, true, false, Bool-cases, inl, inr, List, ◌==◌,
  if◌then◌else◌, arith, returns, fault, hang, is_neg, ==_iff,
}
use akaris_old.State.{Region}
use akaris_old.Space.{determine_memory_region}
use akaris_old.Process.{create_address_space}
use akaris_old.Pages.User.{Mmu}
use akaris_old.Pages.Expand.{expand_round, expand_pages, expand_region}

module _ (m : Mmu) (virt_cr3 : ℕ) (old_free old_stack : Region) where
  abbrev space : List Region
  space = create_address_space old_free old_stack

  round_down :
      expand_round m virt_cr3 (create_address_space old_free old_stack) 1 0xFFFF false ≡ hang
  unfolding expand_round create_address_space determine_memory_region
  round_down = refl

  round_up :
      expand_round m virt_cr3 (create_address_space old_free old_stack) 1 0x10000 true ≡ fault
  unfolding expand_round create_address_space determine_memory_region
  round_up = refl

  down :
      (n : ℕ)
      → 0 < n
      → expand_pages n m virt_cr3 (create_address_space old_free old_stack) 1 0xFFFF false ≡ hang
  unfolding expand_pages
  down zero l = absurd (omega arith)
  down (suc n) l = rw round_down refl

  up :
      (n : ℕ)
      → 0 < n
      → expand_pages n m virt_cr3 (create_address_space old_free old_stack) 1 0x10000 true ≡ fault
  unfolding expand_pages
  up zero l = absurd (omega arith)
  up (suc n) l = rw round_up refl

  nothing : (size : ℕ) → size ≡ 0 → expand_region m virt_cr3 space 1 size ≡ returns (space, m)
  unfolding expand_region expand_pages create_address_space
  nothing size e = rw e refl

  downwards :
      (size : ℕ) → size < 2 ^ 32 → is_neg size ≡ true → expand_region m virt_cr3 space 1 size ≡ hang
  unfolding expand_region create_address_space
  downwards size l e = rw (expand_region, e) (rw (down (2 ^ 32 - size) (omega arith)) refl)

  upwards :
      (size : ℕ) → 0 < size → is_neg size ≡ false → expand_region m virt_cr3 space 1 size ≡ fault
  unfolding expand_region create_address_space
  upwards size l e = rw (expand_region, e) (rw (up size l) refl)

-- expand_region of the stack of a new process never makes it larger: with a size of 0 nothing changes,
-- with a negative one, for which it has a case of its own, the kernel stops, and with a positive one a
-- NULL pointer is followed.
pub expand_stack_lem :
    (m : Mmu) (virt_cr3 : ℕ) (old_free old_stack : Region) (size : ℕ)
    → size < 2 ^ 32
    → expand_region m virt_cr3 (create_address_space old_free old_stack) 1 size ≡ (
        if size == 0
        then returns (create_address_space old_free old_stack, m)
        else if is_neg size
        then hang
        else fault)
expand_stack_lem m virt_cr3 old_free old_stack size l = elim (Bool-cases (size == 0)) [
  | inl e ↦ rw e (nothing m virt_cr3 old_free old_stack size ((==_iff size 0).0 e))
  | inr e ↦ elim (Bool-cases (is_neg size)) [
    | inl n ↦ rw (e, n) (downwards m virt_cr3 old_free old_stack size l n)
    | inr n ↦ rw (e, n) (upwards m virt_cr3 old_free old_stack size (some_pages e) n)
  ]
]
  where
    some_pages : (size == 0) ≡ false → 0 < size
    some_pages e = ground arith
