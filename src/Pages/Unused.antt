-- ===== src/Pages/Unused.antt =====
-- The search for a kernel virtual page, and its release.
use akaris_old.Base.{
  ℕ, zero, suc, ◌+◌, ◌*◌, ◌/◌, ◌≤◌, ◌<◌, ◌≡◌, ◌≢◌, refl, true, false, some, ◌==◌, if◌then◌else◌,
  returns, arith, Bool-cases, inl, inr, has_flag, or_bits,
}
use akaris_old.Pages.{
  Tables, store, first_unused, get_unused_kernel_virtual_page, free_kernel_virtual_page,
  pte_kused_bit, unused_bits,
}

-- The lowest page from `start` on without the bit.
pub record IsFirst (tables : Tables) (start q : ℕ) : Type 0 where
  pub from : start ≤ q
  pub unused : has_flag (tables q) pte_kused_bit ≡ false
  pub lowest : (r : ℕ) → start ≤ r → r < q → has_flag (tables r) pte_kused_bit ≡ true

pub first_unused-IsFirst :
    (tables : Tables) (n s p : ℕ)
    → s ≤ p
    → p < s + n
    → has_flag (tables p) pte_kused_bit ≡ false
    → (q : ℕ) × (first_unused tables n s ≡ some q) × IsFirst tables s q
unfolding first_unused
first_unused-IsFirst tables zero s p l u f = absurd (omega arith)
first_unused-IsFirst tables (suc n) s p l u f =
    elim (Bool-cases (has_flag (tables s) pte_kused_bit)) [
      | inr free ↦ (
        s,
        rw free refl,
        record { from = omega arith; unused = free; lowest = λ r a b. absurd (omega arith) },
      )
      | inl used ↦
          let (q, found, first) =
            first_unused-IsFirst tables n (s + 1) p (ground arith) (omega arith) f in
          (
            q,
            rw used found,
            record {
              from = omega (arith, first.from);
              unused = first.unused;
              lowest = λ r a b. below used q first r a b;
            },
          )
    ]
  where
    below :
        has_flag (tables s) pte_kused_bit ≡ true
        → (q : ℕ) → IsFirst tables (s + 1) q
        → (r : ℕ) → s ≤ r
        → r < q
        → has_flag (tables r) pte_kused_bit ≡ true
    below used q first r a b = elim (Bool-cases (r == s)) [
      | inl same ↦ ground arith
      | inr later ↦ first.lowest r (ground arith) b
    ]

-- Where a page of the tables 1 to 15 is unused, get_unused_kernel_virtual_page returns the address
-- of the lowest such page and changes no entry but that page's. After free_kernel_virtual_page of
-- that address the entry is 0, and all others are as they were before both.
pub get_unused_kernel_virtual_page_lem :
    (tables : Tables) (p : ℕ)
    → 1024 ≤ p
    → p < 16384
    → has_flag (tables p) pte_kused_bit ≡ false
    → (q : ℕ) × (tables' : Tables) × (get_unused_kernel_virtual_page tables
        ≡ returns (q * 4096, tables'))
      × (has_flag (tables q) pte_kused_bit ≡ false)
      × ((r : ℕ) → 1024 ≤ r → r < q → has_flag (tables r) pte_kused_bit ≡ true)
      × ((r : ℕ) → r ≢ q → tables' r ≡ tables r)
      × ((r : ℕ) → free_kernel_virtual_page tables' (q * 4096) r ≡ (if r == q then 0 else tables r))
unfolding get_unused_kernel_virtual_page free_kernel_virtual_page
get_unused_kernel_virtual_page_lem tables p l u f =
    let (q, found, first) = first_unused-IsFirst tables 15360 1024 p l (omega arith) f in
    granted q found first
  where
    freed :
        (q r e : ℕ)
        → (if r == q * 4096 / 4096 then 0 else (if r == q then e else tables r))
          ≡ (if r == q then 0 else tables r)
    freed q r e = ground arith

    kept : (q r e : ℕ) → r ≢ q → (if r == q then e else tables r) ≡ tables r
    kept q r e n = ground arith

    granted :
        (q : ℕ)
        → first_unused tables 15360 1024 ≡ some q
        → IsFirst tables 1024 q
        → (q : ℕ) × (tables' : Tables) × (get_unused_kernel_virtual_page tables
            ≡ returns (q * 4096, tables'))
          × (has_flag (tables q) pte_kused_bit ≡ false)
          × ((r : ℕ) → 1024 ≤ r → r < q → has_flag (tables r) pte_kused_bit ≡ true)
          × ((r : ℕ) → r ≢ q → tables' r ≡ tables r)
          × ((r : ℕ)
              → free_kernel_virtual_page tables' (q * 4096) r ≡ (if r == q then 0 else tables r))
    granted q found first = (
      q,
      store tables q (or_bits 32 (tables q) unused_bits),
      rw (get_unused_kernel_virtual_page, found) refl,
      first.unused,
      first.lowest,
      (λ r n. kept q r (or_bits 32 (tables q) unused_bits) n),
      (λ r. freed q r (or_bits 32 (tables q) unused_bits)),
    )
