-- ===== src/Frames/Start.antt =====
-- The start of the frame allocator returns where the walk over the memory map moves on.
use akaris_old.Base.{
  ℕ, zero, suc, ◌+◌, ◌-◌, ◌*◌, ◌/◌, ◌%◌, ◌^◌, ◌≤◌, ◌<◌, ◌≡◌, refl, sym, ap, ◌∙◌, ◌⊎◌, inl, inr,
  Bool, true, false, List, [], ◌∷◌, ◌==◌, if◌then◌else◌, arith, leb, returns, set, get_or, length,
  length-set, get_or-set_self, get_or-set_ne, ltb, ltb→lt, Bool-cases, add32, sub32,
}
use akaris_old.Frames.{Domain, set_bit, set_page_status}
use akaris_old.Frames.First.{is_used, is_used-set_bit, spin_lem}
use akaris_old.Frames.Memory.{
  MemoryMap, behind, map_page, map_pages, map_entries, mark_used, first_free_page,
  initialize_memory,
}

-- The bitmap has `n` words of 32 bits, and its first page is page 0.
pub record IsReady (n : ℕ) (d : Domain) : Type 0 where
  pub first : d.start_page ≡ 0
  pub words : length d.bitmap ≡ n
  pub wide : (r : ℕ) → r < n → length (get_or d.bitmap r []) ≡ 32

abbrev with_status : Domain → (p : ℕ) → Bool → Domain
with_status d p b = record d { bitmap = set_bit d.bitmap (p / 32) (p % 32) b; lock = 0 }

set_outside :
    (bitmap : List (List Bool)) (k : ℕ) (w : List Bool)
    → length bitmap ≤ k
    → set bitmap k w ≡ bitmap
set_outside [] k w h = refl
set_outside (x ∷ xs) zero w h = absurd (omega arith)
set_outside (x ∷ xs) (suc k) w h = ap (λ l. x ∷ l) (set_outside xs k w (omega arith))

-- The step from each entry of the map below `stop` stays within 32 bits.
abbrev pub GoesOn : (read : ℕ → MemoryMap) → (stop : ℕ) → Type 0
GoesOn read stop = (addr : ℕ) → addr < stop → addr + (read addr).size + 4 < 2 ^ 32

module _ (n : ℕ) where
  status-returns :
      (d : Domain) (p : ℕ) (b : Bool)
      → IsReady n d
      → set_page_status d p b ≡ returns (with_status d p b)
  unfolding set_page_status
  status-returns d p b ready =
      rw (set_page_status, spin_lem d.lock)
        (ap (λ t. returns (record d { bitmap = set_bit d.bitmap (t / 32) (t % 32) b; lock = 0 }))
          {x = p - d.start_page} {y = p} (omega (arith, ready.first)))

  status-IsReady : (d : Domain) (p : ℕ) (b : Bool) → IsReady n d → IsReady n (with_status d p b)
  status-IsReady d p b ready = record {
    first = ready.first;
    words = length-set d.bitmap (p / 32) word ∙ ready.words;
    wide = λ r h. elim (Bool-cases (p / 32 == r)) [
      | inl e ↦
          let same : p / 32 ≡ r = ground arith in
          ap (λ t. length (get_or (with_status d p b).bitmap t [])) (sym same)
          ∙ ap length (get_or-set_self d.bitmap (p / 32) word [] (omega (arith, ready.words, same)))
          ∙ length-set (get_or d.bitmap (p / 32) []) (p % 32) b
          ∙ ready.wide (p / 32) (omega (arith, same))
      | inr e ↦
          ap length (get_or-set_ne d.bitmap (p / 32) r word [] (ground arith)) ∙ ready.wide r h
    ];
  }
    where
      word : List Bool
      word = set (get_or d.bitmap (p / 32) []) (p % 32) b

  status-used :
      (d : Domain) (p r : ℕ)
      → IsReady n d
      → r < 32 * n
      → (is_used d.bitmap r ≡ true) ⊎ (r ≡ p)
      → is_used (with_status d p true).bitmap r ≡ true
  status-used d p r ready h c = elim (Bool-cases (ltb p (32 * n))) [
    | inl e ↦
        let inside : p < 32 * n = ltb→lt p (32 * n) e in
        is_used-set_bit d.bitmap (p / 32) (p % 32) r true (omega (arith, ready.words))
          (omega (arith, ready.wide (p / 32) (omega arith))) (omega arith)
        ∙ ap (λ t. if r == t then true else is_used d.bitmap r) {y = p} (omega arith)
        ∙ ground arith
    | inr e ↦
        ap (λ l. is_used l r) (set_outside d.bitmap (p / 32) _ (ground (arith, ready.words)))
        ∙ ground arith
  ]

  map_page-IsReady :
      (mem_upper type page : ℕ) (d : Domain)
      → IsReady n d
      → (d' : Domain) × (map_page mem_upper type page d ≡ returns d') × IsReady n d'
  unfolding map_page
  map_page-IsReady mem_upper type page d ready =
      let counted = record d { total_pages = add32 d.total_pages 1 } in
      let ready' : IsReady n counted = record {
        first = ready.first;
        words = ready.words;
        wide = ready.wide;
      } in
      elim (Bool-cases (leb page (mem_upper / 4))) [
        | inr e ↦ (d, rw (map_page, e) refl, ready)
        | inl e ↦ elim (Bool-cases (type == 1)) [
          | inl u ↦
              let after = status-IsReady counted page false ready' in
              (
                record (with_status counted page false) { free_pages = add32 d.free_pages 1 },
                rw (map_page, e, u, status-returns counted page false ready') refl,
                record { first = after.first; words = after.words; wide = after.wide },
              )
          | inr u ↦ (
            with_status counted page true,
            rw (map_page, e, u, status-returns counted page true ready') refl,
            status-IsReady counted page true ready',
          )
        ]
      ]

  map_pages-IsReady :
      (count mem_upper type page : ℕ) (d : Domain)
      → IsReady n d
      → (d' : Domain) × (map_pages count mem_upper type page d ≡ returns d') × IsReady n d'
  unfolding map_pages
  map_pages-IsReady zero mem_upper type page d ready = (d, refl, ready)
  map_pages-IsReady (suc c) mem_upper type page d ready =
      let (d1, done, ready1) = map_page-IsReady mem_upper type page d ready in
      let (d2, rest, ready2) = map_pages-IsReady c mem_upper type (page + 1) d1 ready1 in
      (d2, rw (map_pages, done, rest) refl, ready2)

  map_entries-IsReady :
      (rounds mem_upper : ℕ) (read : ℕ → MemoryMap) (addr stop : ℕ) (d : Domain)
      → GoesOn read stop
      → 0 < rounds
      → stop < addr + rounds
      → IsReady n d
      → (d' : Domain) × (map_entries rounds mem_upper read addr stop d ≡ returns d') × IsReady n d'
  unfolding map_entries
  map_entries-IsReady zero mem_upper read addr stop d on p l ready = absurd (omega arith)
  map_entries-IsReady (suc r) mem_upper read addr stop d on p l ready =
      elim (Bool-cases (ltb addr stop)) [
        | inr e ↦ (d, rw (map_entries, e) refl, ready)
        | inl e ↦
            let m = read addr in
            let first = m.base_addr_low / 2 ^ 10 in
            let last = add32 m.base_addr_low m.length_low / 2 ^ 10 + 1 in
            let (d1, done, ready1) =
              map_pages-IsReady (last - first) mem_upper m.type first d ready in
            let (d2, rest, ready2) =
              map_entries-IsReady r mem_upper read (behind m addr) stop d1 on
                (omega (arith, ltb→lt addr stop e)) (omega (arith, on addr (ltb→lt addr stop e)))
                ready1 in
            (d2, rw (map_entries, e, done, rest) refl, ready2)
      ]

  mark_used-returns :
      (count page : ℕ) (d : Domain)
      → IsReady n d
      → (d' : Domain) × (mark_used count page d ≡ returns d')
        × (d'.total_pages ≡ d.total_pages)
        × ((r : ℕ)
            → r < 32 * n
            → (is_used d.bitmap r ≡ true) ⊎ ((page ≤ r) × (r < page + count))
            → is_used d'.bitmap r ≡ true)
  unfolding mark_used
  mark_used-returns zero page d ready = (d, refl, refl, λ r h c. ground arith)
  mark_used-returns (suc c) page d ready =
      let (d2, rest, total, used) =
        mark_used-returns c (page + 1) (with_status d page true)
          (status-IsReady d page true ready) in
      (
        d2,
        rw (mark_used, status-returns d page true ready, rest) refl,
        total,
        λ r h cases. used r h (step r h cases),
      )
    where
      step :
          (r : ℕ)
          → r < 32 * n
          → (is_used d.bitmap r ≡ true) ⊎ ((page ≤ r) × (r < page + suc c))
          → (is_used (with_status d page true).bitmap r ≡ true)
            ⊎ ((page + 1 ≤ r) × (r < page + 1 + c))
      step r h (inl u) = inl (status-used d page r ready h (inl u))
      step r h (inr (l, k)) = elim (Bool-cases (r == page)) [
        | inl e ↦ inl (status-used d page r ready h (inr (ground arith)))
        | inr e ↦ inr (ground arith, omega arith)
      ]

-- Where no step from an entry of the memory map to the next one leaves 32 bits, the loop over the map
-- ends after at most as many rounds as the map has bytes, and one: initialize_memory returns, and every
-- page below the first free page that the bitmap has is used then. The map does not go on behind the
-- end of the memory, and the bitmap has words of 32 bits.
pub initialize_memory-returns :
    (mem_upper mmap_addr mmap_length : ℕ) (read : ℕ → MemoryMap) (d : Domain)
    → mmap_addr + mmap_length < 2 ^ 32
    → GoesOn read (mmap_addr + mmap_length)
    → ((r : ℕ) → r < length d.bitmap → length (get_or d.bitmap r []) ≡ 32)
    → (d' : Domain) × (initialize_memory (suc mmap_length) mem_upper mmap_addr mmap_length read d
        ≡ returns d')
      × ((r : ℕ) → r < first_free_page d' → r < 32 * length d.bitmap → is_used d'.bitmap r ≡ true)
unfolding initialize_memory
initialize_memory-returns mem_upper mmap_addr mmap_length read d small on wide =
    let n = length d.bitmap in
    let (mapped, done, ready) =
      map_entries-IsReady n (suc mmap_length) mem_upper read mmap_addr (mmap_addr + mmap_length)
        (record d { start_page = 0; lock = 0 }) on (omega arith) (omega arith)
        (record { first = refl; words = refl; wide = wide }) in
    let (marked, rest, total, used) = mark_used-returns n (first_free_page mapped) 0 mapped ready in
    (
      record marked { free_pages = sub32 marked.free_pages (first_free_page marked) },
      rw (initialize_memory, whole, done, rest) refl,
      λ r h l. used r l (inr (omega arith, reach r marked.total_pages mapped.total_pages total h)),
    )
  where
    whole : add32 mmap_addr mmap_length ≡ mmap_addr + mmap_length
    whole = omega arith

    reach :
        (r t u : ℕ)
        → t ≡ u
        → r < 0x20_0000 / 4096 + t / (4096 * 32) + 2
        → r < 0 + (0x20_0000 / 4096 + u / (4096 * 32) + 2)
    reach r t u e h = omega arith
