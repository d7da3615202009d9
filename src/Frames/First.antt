-- ===== src/Frames/First.antt =====
-- The allocator grants the lowest free frame, and freeing it undoes the grant.
use akaris_old.Base.{
  add32, ℕ, ◌+◌, ◌*◌, ◌/◌, ◌%◌, ◌-◌, ◌<◌, ◌≡◌, ◌≢◌, refl, ◌∙◌, Bool, true, false, List, [], ◌==◌,
  if◌then◌else◌, returns, set, get_or, length, get_or-set, arith, ap, Bool-cases, inl, inr,
}
use akaris_old.Frames.{
  Domain, spin, is_full, find_bit, set_bit, allocate_page, set_page_status, deallocate_page,
}
use akaris_old.Frames.Scan.{IsLowest, Finds, full_word, find_bit-IsLowest, find_word-Finds}

-- The bit of the frame `p`; there are no free frames past the bitmap.
abbrev pub is_used : List (List Bool) → ℕ → Bool
is_used bitmap p = get_or (get_or bitmap (p / 32) []) (p % 32) true

-- All words have 32 bits, and there are as many as the loop visits.
pub record IsBitmap (d : Domain) : Type 0 where
  pub words : length d.bitmap ≡ d.total_pages / 32 + 1
  pub wide : (r : ℕ) → r < length d.bitmap → length (get_or d.bitmap r []) ≡ 32

-- The frame `q` is the lowest free one, and `d'` is what is left when it is taken.
pub record Grants (d d' : Domain) (q : ℕ) : Type 0 where
  pub free : is_used d.bitmap q ≡ false
  pub lowest : (r : ℕ) → r < q → is_used d.bitmap r ≡ true
  pub taken : (r : ℕ) → is_used d'.bitmap r ≡ (if r == q then true else is_used d.bitmap r)
  pub counted : d'.free_pages + 1 ≡ d.free_pages

not-full : (w : List Bool) (r : ℕ) → get_or w r true ≡ false → is_full w ≡ false
not-full w r h = elim (Bool-cases (is_full w)) [
  | inl full ↦ absurd (ground (arith, full_word w r full))
  | inr room ↦ room
]

word_of : (k j : ℕ) → j < 32 → (k * 32 + j) / 32 ≡ k
word_of k j h = omega arith

bit_of : (k j : ℕ) → j < 32 → (k * 32 + j) % 32 ≡ j
bit_of k j h = omega arith

-- The bit that set_bit writes, and all others.
pub is_used-set_bit :
    (bm : List (List Bool)) (k j r : ℕ) (b : Bool)
    → k < length bm
    → j < length (get_or bm k [])
    → j < 32
    → is_used (set_bit bm k j b) r ≡ (if r == k * 32 + j then b else is_used bm r)
is_used-set_bit bm k j r b h g l = elim (Bool-cases (k == r / 32)) [
  | inl same ↦
      rw (get_or-set bm k (r / 32) (set (get_or bm k []) j b) [] h, same)
        (get_or-set (get_or bm k []) j (r % 32) b true g ∙ ground arith)
  | inr other ↦ rw (get_or-set bm k (r / 32) (set (get_or bm k []) j b) [] h, other) (ground arith)
]

-- Where the bitmap has all its words and some frame is free, allocate_page returns the lowest free
-- frame, counted from the domain's first; afterwards that frame is used and no other changes.
pub allocate_page_lem :
    (d : Domain) (p : ℕ)
    → IsBitmap d
    → d.free_pages ≢ 0
    → is_used d.bitmap p ≡ false
    → (q : ℕ) × (d' : Domain) × (allocate_page d ≡ returns (q + d.start_page, d')) × Grants d d' q
unfolding allocate_page
allocate_page_lem d p bitmap n f =
    let fin =
      find_word-Finds d.bitmap (d.total_pages / 32 + 1) 0 (p / 32) bitmap.words
        (not-full (get_or d.bitmap (p / 32) []) (p % 32) f) in
    grants fin (find_bit-IsLowest (get_or d.bitmap fin.k []) fin.room)
  where
    from_zero : (k : ℕ) → 0 + k ≡ k
    from_zero k = omega arith

    charged : (d.free_pages == 0) ≡ false
    charged = ground arith

    below :
        (fin : Finds d.bitmap (d.total_pages / 32 + 1) 0)
        → IsLowest (get_or d.bitmap fin.k []) (find_bit (get_or d.bitmap fin.k []))
        → find_bit (get_or d.bitmap fin.k []) < 32
        → (r : ℕ) → r < fin.k * 32 + find_bit (get_or d.bitmap fin.k [])
        → is_used d.bitmap r ≡ true
    below fin low narrow r l = elim (Bool-cases (r / 32 == fin.k)) [
      | inl same ↦ ground (arith, low.lowest (r % 32) (ground arith))
      | inr other ↦
          full_word (get_or d.bitmap (r / 32) []) (r % 32) (fin.before (r / 32) (ground arith))
    ]

    grants :
        (fin : Finds d.bitmap (d.total_pages / 32 + 1) 0)
        → IsLowest (get_or d.bitmap fin.k []) (find_bit (get_or d.bitmap fin.k []))
        → (q : ℕ) × (d' : Domain) × (allocate_page d ≡ returns (q + d.start_page, d'))
          × Grants d d' q
    grants fin low =
        let j = find_bit (get_or d.bitmap fin.k []) in
        let narrow : j < 32 = omega (arith, low.inside, bitmap.wide fin.k fin.bounded) in
        (
          fin.k * 32 + j,
          record d { bitmap = set_bit d.bitmap fin.k j true; free_pages = d.free_pages - 1 },
          rw (charged, fin.found ∙ ap returns (from_zero fin.k)),
          record {
            free = rw (word_of fin.k j narrow, bit_of fin.k j narrow) low.clear;
            lowest = λ r l. below fin low narrow r l;
            taken = λ r. is_used-set_bit d.bitmap fin.k j r true fin.bounded low.inside narrow;
            counted = omega arith;
          },
        )

-- The lock is entered whether it is free or another holder has it.
pub spin_lem : (lock : ℕ) → spin 2 lock ≡ returns 1
unfolding spin
spin_lem lock = ground arith

-- Where the bitmap has all its words of 32 bits and the frame `p` is one of it, deallocate_page makes
-- it free, and no other; the count of free frames is one more, modulo 2^32. It returns, also where another holder has the lock, which is free after it.
pub deallocate_page_lem :
    (d : Domain) (p : ℕ)
    → IsBitmap d
    → p < 32 * length d.bitmap
    → (d' : Domain) × (deallocate_page d (p + d.start_page) ≡ returns d')
      × ((r : ℕ) → is_used d'.bitmap r ≡ (if r == p then false else is_used d.bitmap r))
      × (d'.free_pages ≡ add32 d.free_pages 1)
      × (d'.lock ≡ 0)
unfolding deallocate_page set_page_status
deallocate_page_lem d p bitmap h = (
  record d {
    bitmap = set_bit d.bitmap (p / 32) (p % 32) false;
    lock = 0;
    free_pages = add32 d.free_pages 1;
  },
  rw (spin_lem d.lock, offset) refl,
  (λ r. rw (rejoin r) at (
      is_used-set_bit d.bitmap (p / 32) (p % 32) r false (omega arith)
        (omega (arith, bitmap.wide (p / 32) (omega arith))) (omega arith))),
  refl,
  refl,
)
  where
    offset : p + d.start_page - d.start_page ≡ p
    offset = omega arith

    rejoin : (r : ℕ) → (r == p / 32 * 32 + p % 32) ≡ (r == p)
    rejoin r = ap (λ q. r == q) (omega arith)
