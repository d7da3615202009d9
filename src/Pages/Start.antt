-- ===== src/Pages/Start.antt =====
-- The kernel's own page tables at the start: initialize_kernel_paging of sys/i386/paging.c. Paging is
-- still off, so the frames are written at their own addresses: the tables are cleared, and the frames
-- of the kernel's tables are known by their entries in the directory only, since no other part writes
-- them but through the tables; what links the handler of page faults
-- and turns paging on is left out.
use akaris_old.Base.{
  ℕ, zero, suc, ◌+◌, ◌*◌, ◌/◌, ◌^◌, ◌⊎◌, sym, ap, ==_iff, ◌≤◌, ◌<◌, ◌≡◌, refl, ◌∙◌, true, false,
  Bool-cases, inl, inr, ◌==◌, if◌then◌else◌, arith, Outcome, returns, fault, ◌>>=◌, Returns-then,
  Returns-returned, has_flag, or_bits, page_size, ==_ne,
}
use akaris_old.Frames.{Domain, allocate_page}
use akaris_old.Pages.{
  Tables, store, set_pte, pte_present_bit, pte_rw_bit, pte_global_bit, num_kernel_pdes,
}
use akaris_old.Pages.User.Mapped.{IsReady, IsUsable}

abbrev pub kernel_bits : ℕ
kernel_bits = or_bits 32 (or_bits 32 pte_present_bit pte_rw_bit) pte_global_bit

-- kernel_pd with its entries, the kernel's tables, and the frames that are left.
pub record Paging : Type 0 where
  pub kernel_pd : ℕ
  pub entries : (index : ℕ) → ℕ
  pub tables : Tables
  pub domain : Domain

-- The first loop, over `n` tables from the place `c` on. Where no frame is left, allocate_page gives 0:
-- the words at address 0 would be the table, which is outside of the model.
unfoldable pub make_tables : (n c : ℕ) → (entries : ℕ → ℕ) → Domain → Outcome ((ℕ → ℕ) × Domain)
unfolding allocate_page
make_tables zero c entries d = returns (entries, d)
make_tables (suc n) c entries d = allocate_page d >>= λ (frame, d').
    if frame == 0
    then fault
    else make_tables n (c + 1) (store entries c (set_pte (frame * page_size) kernel_bits)) d'

-- The second loop.
unfoldable pub map_low : (n c : ℕ) → Tables → Tables
map_low zero c tables = tables
map_low (suc n) c tables = map_low n (c + 1) (store tables c (set_pte (c * 4096) kernel_bits))

unfoldable pub initialize_kernel_paging : Domain → Outcome Paging
unfolding allocate_page make_tables map_low
initialize_kernel_paging d = allocate_page d >>= λ (frame, d').
    make_tables num_kernel_pdes 0 (λ i. 0) d' >>= λ (entries, d''). returns (record {
      kernel_pd = frame * page_size;
      entries = entries;
      tables = map_low 1024 0 (λ q. 0);
      domain = d'';
    })

map_low-outside :
    (n c q : ℕ) (tables : Tables) → (q < c) ⊎ (c + n ≤ q) → map_low n c tables q ≡ tables q
unfolding map_low
map_low-outside zero c q tables h = refl
map_low-outside (suc n) c q tables h =
    map_low-outside n (c + 1) q (store tables c (set_pte (c * 4096) kernel_bits)) (beyond h)
    ∙ rw (==_ne q c (λ e. differs h e)) refl
  where
    beyond : (q < c) ⊎ (c + suc n ≤ q) → (q < c + 1) ⊎ (c + 1 + n ≤ q)
    beyond (inl l) = inl (omega arith)
    beyond (inr l) = inr (omega arith)

    differs : (q < c) ⊎ (c + suc n ≤ q) → q ≡ c → ⊥
    differs (inl l) e = omega arith
    differs (inr l) e = omega arith

low_entry : (c : ℕ) → c < 2 ^ 20 → set_pte (c * 4096) kernel_bits ≡ c * 4096 + 259
low_entry c l = omega arith

map_low-inside :
    (n c q : ℕ) (tables : Tables)
    → c + n ≤ 2 ^ 20
    → c ≤ q
    → q < c + n
    → map_low n c tables q ≡ q * 4096 + 259
unfolding map_low
map_low-inside zero c q tables l a b = absurd (omega arith)
map_low-inside (suc n) c q tables l a b = elim (Bool-cases (q == c)) [
  | inl same ↦
      map_low-outside n (c + 1) q (store tables c (set_pte (c * 4096) kernel_bits))
        (inl (omega (arith, (==_iff q c).0 same)))
      ∙ rw same (low_entry c (omega arith) ∙ ap (λ t. t * 4096 + 259) (sym ((==_iff q c).0 same)))
  | inr other ↦
      map_low-inside n (c + 1) q (store tables c (set_pte (c * 4096) kernel_bits)) (omega arith)
        (after other) (omega arith)
]
  where
    after : (q == c) ≡ false → c + 1 ≤ q
    after other = ground arith

-- What the kernel's tables are like: the first 4 MB are mapped at their own addresses.
pub record IsMapped (tables : Tables) : Type 0 where
  pub ready : IsReady tables
  pub identity : (p : ℕ) → p < 1024 → IsUsable tables p × (tables p / 4096 ≡ p)

low_present : (p : ℕ) → has_flag (p * 4096 + 259) pte_present_bit ≡ true
low_present p = ground arith

low_tables-IsMapped : IsMapped (map_low 1024 0 (λ q. 0))
low_tables-IsMapped = record {
  ready = record {
    spare = 1024;
    from = omega arith;
    below = omega arith;
    unused = rw (blank 1024 (omega arith)) refl;
    clean = λ q l h u. blank q l;
  };
  identity = λ p l. ((omega arith, rw (low p l) (low_present p)), rw (low p l) (omega arith));
}
  where
    blank : (q : ℕ) → 1024 ≤ q → map_low 1024 0 (λ q. 0) q ≡ 0
    blank q l = map_low-outside 1024 0 q (λ q. 0) (inr (omega arith))

    low : (p : ℕ) → p < 1024 → map_low 1024 0 (λ q. 0) p ≡ p * 4096 + 259
    low p l = map_low-inside 1024 0 p (λ q. 0) (omega arith) (omega arith) (omega arith)

-- Where initialize_kernel_paging returns, each page of the first 4 MB is present in the kernel's tables
-- and mapped to the frame at its own address, some page of the other tables is unused, and the entries
-- of all unused ones are 0.
pub initialize_kernel_paging_lem :
    (d : Domain) (paging : Paging)
    → initialize_kernel_paging d ≡ returns paging
    → IsMapped paging.tables
unfolding initialize_kernel_paging
initialize_kernel_paging_lem d paging e =
    Returns-returned (λ p. IsMapped p.tables) (initialize_kernel_paging d) paging
      (Returns-then (λ p. IsMapped p.tables) (allocate_page d) _
        (λ (frame, d').
          Returns-then (λ p. IsMapped p.tables) (make_tables num_kernel_pdes 0 (λ i. 0) d') _
            (λ (entries, d''). low_tables-IsMapped)))
      e
