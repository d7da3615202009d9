-- ===== src/Frames.antt =====
-- The bitmap allocator of page frames of sys/i386/physical_memory.c. A word of the bitmap is the
-- list of its bits, lowest first.
mod Scan
pub mod First
pub mod Memory
pub mod Start
mod Tests
use akaris_old.Base.{
  ℕ, zero, suc, ◌+◌, ◌*◌, ◌/◌, ◌%◌, ◌-◌, ◌≡◌, Bool, true, false, ◌&&◌, List, [], ◌∷◌, ◌==◌,
  if◌then◌else◌, Outcome, returns, fault, hang, ◌>>=◌, set, get_or, add32,
}
use akaris_old.State.{test_and_set}

-- memory_domain
pub record Domain : Type 0 where
  pub start_page : ℕ
  pub bitmap : List (List Bool)
  pub lock : ℕ
  pub total_pages : ℕ
  pub free_pages : ℕ

-- `while (test_and_set (1, &lock) != 1)`
unfoldable pub spin : (rounds lock : ℕ) → Outcome ℕ
spin zero lock = hang
spin (suc n) lock =
    let (old, lock') = test_and_set 1 lock in
    let rest = spin n lock' in if old == 1 then returns lock' else rest

-- The word is 0xFFFFFFFF.
unfoldable pub is_full : List Bool → Bool
is_full [] = true
is_full (b ∷ bs) = b && is_full bs

-- The loop over `words` words from the place `i` on; behind the last one the kernel stops.
unfoldable pub find_word : (words : ℕ) → List (List Bool) → (i : ℕ) → Outcome ℕ
unfolding is_full
find_word zero bitmap i = hang
find_word (suc n) [] i = fault
find_word (suc n) (w ∷ ws) i =
    let rest = find_word n ws (i + 1) in if is_full w then rest else returns i

-- The loop over the bits of a word.
unfoldable pub find_bit : List Bool → ℕ
find_bit [] = 0
find_bit (false ∷ bs) = 0
find_bit (true ∷ bs) = suc (find_bit bs)

abbrev pub set_bit : List (List Bool) → (word bit : ℕ) → Bool → List (List Bool)
set_bit bitmap word bit b = set bitmap word (set (get_or bitmap word []) bit b)

-- allocate_page
unfoldable pub allocate_page : Domain → Outcome (ℕ × Domain)
unfolding find_word find_bit
allocate_page d =
    if d.free_pages == 0
    then returns (0, d)
    else (find_word (d.total_pages / 32 + 1) d.bitmap 0 >>= λ curint.
        let offset = find_bit (get_or d.bitmap curint []) in
        returns (
          curint * 32 + offset + d.start_page,
          record d { bitmap = set_bit d.bitmap curint offset true; free_pages = d.free_pages - 1 },
        ))

-- set_page_status: two rounds of the spin loop are enough, see `spin_lem`.
unfoldable pub set_page_status : Domain → (p : ℕ) → (used : Bool) → Outcome Domain
unfolding spin
set_page_status d p used =
    let page = p - d.start_page in
    spin 2 d.lock >>= λ lock.
    returns (record d { bitmap = set_bit d.bitmap (page / 32) (page % 32) used; lock = 0 })

-- deallocate_page, with its count of 32 bits and with the one domain that there is.
unfoldable pub deallocate_page : Domain → (page : ℕ) → Outcome Domain
unfolding set_page_status
deallocate_page d page = set_page_status d page false >>= λ d'.
    returns (record d' { free_pages = add32 d'.free_pages 1 })
