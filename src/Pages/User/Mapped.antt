-- ===== src/Pages/User/Mapped.antt =====
-- A kernel page in front of a physical frame, for the time of one access.
use akaris_old.Base.{
  ℕ, ◌+◌, ◌*◌, ◌/◌, ◌^◌, ◌≤◌, ◌<◌, ◌≡◌, refl, sym, ap, ◌∙◌, Bool-cases, true, false, inl, inr, ◌==◌,
  ◌&&◌, ltb, if◌then◌else◌, Outcome, returns, arith, has_flag, or_bits, ==_refl, ==_iff, page_size,
}
use akaris_old.Pages.{
  Tables, store, get_unused_kernel_virtual_page, get_mapped_kernel_virtual_page,
  free_kernel_virtual_page, pte_kused_bit, pte_present_bit, unused_bits,
}
use akaris_old.Pages.Unused.{IsFirst, first_unused-IsFirst}
use akaris_old.Pages.User.{Mmu, load, save}
use akaris_old.Pages.User.Words.{or_page}

-- A page of the kernel's tables is unused, and the entries of unused pages are 0.
pub record IsReady (tables : Tables) : Type 0 where
  pub spare : ℕ
  pub from : 1024 ≤ spare
  pub below : spare < 16384
  pub unused : has_flag (tables spare) pte_kused_bit ≡ false
  pub clean :
      (q : ℕ) → 1024 ≤ q → q < 16384 → has_flag (tables q) pte_kused_bit ≡ false → tables q ≡ 0

-- The tables while the page `q` is mapped to the frame `f`.
abbrev pub opened : Tables → (q f : ℕ) → Tables
opened tables q f = store (store tables q 771) q (f * 4096 + 771)

-- What is known of the page that get_mapped_kernel_virtual_page maps.
pub record IsSpare (tables : Tables) (q : ℕ) : Type 0 where
  pub low : 1024 ≤ q
  pub high : q < 16384
  pub blank : tables q ≡ 0
  pub used : has_flag (tables q) pte_kused_bit ≡ false

pub IsFirst-high :
    (tables : Tables) (q p : ℕ)
    → IsFirst tables 1024 q
    → 1024 ≤ p
    → p < 16384
    → has_flag (tables p) pte_kused_bit ≡ false
    → q < 16384
IsFirst-high tables q p first l h u = elim (Bool-cases (ltb p q)) [
  | inl e ↦ ground (arith, first.lowest p l (ground arith))
  | inr e ↦ ground arith
]

-- The second write of get_mapped_kernel_virtual_page, at the page `p` of the address.
pub open_page :
    (tables : Tables) (p q f e : ℕ)
    → p ≡ q
    → e ≡ 0
    → f < 2 ^ 20
    → ◌≡◌ {A = Outcome (ℕ × Tables)}
        (returns (
          p * page_size,
          store
              (store tables q (or_bits 32 e unused_bits))
              p
              (or_bits 32 (store tables q (or_bits 32 e unused_bits) p) (f * 4096)),
        ))
        (returns (q * 4096, opened tables q f))
open_page tables p q f e same blank l = rw (same, blank, ==_refl q, or_page f l) refl

pub get_mapped_lem :
    (tables : Tables) (f : ℕ)
    → IsReady tables
    → f < 2 ^ 20
    → (q : ℕ) × IsSpare tables q
      × (get_mapped_kernel_virtual_page tables (f * 4096) ≡ returns (q * 4096, opened tables q f))
unfolding get_mapped_kernel_virtual_page get_unused_kernel_virtual_page
get_mapped_lem tables f r l =
    let (q, found, first) =
      first_unused-IsFirst tables 15360 1024 r.spare r.from (omega (arith, r.below)) r.unused in
    let high = IsFirst-high tables q r.spare first r.from r.below r.unused in
    let blank = r.clean q first.from high first.unused in
    (
      q,
      record { low = first.from; high = high; blank = blank; used = first.unused },
      rw (get_mapped_kernel_virtual_page, get_unused_kernel_virtual_page, found)
          (open_page tables (q * 4096 / page_size) q f (tables q) (omega arith) blank l),
    )

-- The kernel may use the page `q`.
abbrev pub IsUsable : Tables → (q : ℕ) → Type 0
IsUsable tables q = (q < 16384) × (has_flag (tables q) pte_present_bit ≡ true)

pub usable :
    (tables : Tables) (q p : ℕ)
    → p ≡ q
    → IsUsable tables q
    → (ltb p 16384 && has_flag (tables p) 1) ≡ true
usable tables q p e (l, h) = rw (e, h) (ground arith)

pub load_lem :
    (m : Mmu) (q index : ℕ)
    → IsUsable m.tables q
    → load m (q * 4096) index ≡ returns (m.words (m.tables q / 4096) index)
unfolding load
load_lem m q index u =
    rw (load, usable m.tables q (q * 4096 / 4096) (omega arith) u) (rw (page_back q) refl)
  where
    page_back : (q : ℕ) → q * 4096 / 4096 ≡ q
    page_back q = omega arith

-- A memory with one word written.
abbrev pub write : (ℕ → ℕ → ℕ) → (frame index entry : ℕ) → ℕ → ℕ → ℕ
write words frame index entry f i = if (f == frame) && (i == index) then entry else words f i

pub save_lem :
    (m : Mmu) (q index entry : ℕ)
    → IsUsable m.tables q
    → save m (q * 4096) index entry
      ≡ returns (record m { words = write m.words (m.tables q / 4096) index entry })
unfolding save
save_lem m q index entry u =
    rw (save, usable m.tables q (q * 4096 / 4096) (omega arith) u) (rw (page_back q) refl)
  where
    page_back : (q : ℕ) → q * 4096 / 4096 ≡ q
    page_back q = omega arith

closed :
    (tables : Tables) (p q f r : ℕ)
    → p ≡ q
    → tables q ≡ 0
    → store (opened tables q f) p 0 r ≡ tables r
closed tables p q f r e blank = elim (Bool-cases (r == q)) [
  | inl same ↦ rw (e, same) (sym (ap tables ((==_iff r q).0 same) ∙ blank))
  | inr other ↦ rw (e, other) refl
]

-- The kernel's tables are as before once the page is released.
pub free_lem :
    (tables : Tables) (q f : ℕ)
    → tables q ≡ 0
    → free_kernel_virtual_page (opened tables q f) (q * 4096) ≡ tables
unfolding free_kernel_virtual_page
free_lem tables q f blank i r = closed tables (q * 4096 / 4096) q f r (omega arith) blank i
