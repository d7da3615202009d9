-- ===== src/Frames/Memory.antt =====
-- initialize_memory of sys/i386/physical_memory.c: the bitmap is filled from the memory map of the
-- boot loader, and the pages in use are marked. `read` gives the entry of the map at an address.
use akaris_old.Base.{
  ℕ, zero, suc, ◌+◌, ◌-◌, ◌*◌, ◌/◌, ◌^◌, true, false, ◌==◌, leb, ltb, hang, if◌then◌else◌, Outcome,
  returns, ◌>>=◌, add32, sub32,
}
use akaris_old.Frames.{Domain, set_page_status}

-- The fields of memory_map_t that are used: 64-bit values by their low words.
pub record MemoryMap : Type 0 where
  pub size : ℕ
  pub base_addr_low : ℕ
  pub length_low : ℕ
  pub type : ℕ

-- The body of the inner loop.
unfoldable pub map_page : (mem_upper type page : ℕ) → Domain → Outcome Domain
unfolding set_page_status
map_page mem_upper type page d =
    let counted = record d { total_pages = add32 d.total_pages 1 } in
    if leb page (mem_upper / 4)
    then (if type == 1
        then (set_page_status counted page false >>= λ d'.
            returns (record d' { free_pages = add32 d'.free_pages 1 }))
        else set_page_status counted page true)
    else returns d

-- The inner loop, over `count` pages from `page` on.
unfoldable pub map_pages : (count mem_upper type page : ℕ) → Domain → Outcome Domain
unfolding map_page
map_pages zero mem_upper type page d = returns d
map_pages (suc n) mem_upper type page d =
    map_page mem_upper type page d >>= λ d'. map_pages n mem_upper type (page + 1) d'

-- The address behind an entry of the map: its size does not count the field `size`.
abbrev pub behind : MemoryMap → (addr : ℕ) → ℕ
behind m addr = add32 addr (add32 m.size 4)

-- The loop over the memory map, from the entry at `addr` on.
unfoldable pub map_entries :
    (rounds mem_upper : ℕ) → (read : ℕ → MemoryMap) → (addr stop : ℕ) → Domain → Outcome Domain
unfolding map_pages
map_entries zero mem_upper read addr stop d = hang
map_entries (suc n) mem_upper read addr stop d =
    if ltb addr stop
    then (let m = read addr in
        let first = m.base_addr_low / 2 ^ 10 in
        let last = add32 m.base_addr_low m.length_low / 2 ^ 10 + 1 in
        map_pages (last - first) mem_upper m.type first d >>= λ d'.
        map_entries n mem_upper read (behind m addr) stop d')
    else returns d

-- The loop that marks `count` pages from `page` on.
unfoldable pub mark_used : (count page : ℕ) → Domain → Outcome Domain
unfolding set_page_status
mark_used zero page d = returns d
mark_used (suc n) page d = set_page_status d page true >>= λ d'. mark_used n (page + 1) d'

abbrev pub first_free_page : Domain → ℕ
first_free_page d = 0x20_0000 / 4096 + d.total_pages / (4096 * 32) + 2

-- initialize_memory; the bitmap is what stands at 0x200000.
unfoldable pub initialize_memory :
    (rounds mem_upper mmap_addr mmap_length : ℕ) → (read : ℕ → MemoryMap) → Domain → Outcome Domain
unfolding map_entries mark_used
initialize_memory rounds mem_upper mmap_addr mmap_length read d =
    map_entries rounds mem_upper read mmap_addr (add32 mmap_addr mmap_length)
      (record d { start_page = 0; lock = 0 })
    >>= λ mapped. mark_used (first_free_page mapped) 0 mapped >>= λ marked.
        returns (record marked { free_pages = sub32 marked.free_pages (first_free_page marked) })
