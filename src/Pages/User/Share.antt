-- ===== src/Pages/User/Share.antt =====
-- clone_region (sys/i386/context.c): the pages of the clone have the frames of the original's.
use akaris_old.Base.{
  ◌≤◌, ℕ, zero, suc, ◌+◌, ◌*◌, ◌/◌, ◌^◌, ◌<◌, ◌≡◌, ◌≢◌, ◌⊎◌, inl, inr, refl, sym, ap, ◌∙◌, true,
  false, arith, has_flag, or_bits, returns, ◌>>=◌, add32, page_size, ==_refl, Bool-cases, ◌==◌,
  ==_iff,
}
use mathlib.Core.Path.{subst}
use akaris_old.Pages.{pte_present_bit, set_pte, frame_bits}
use akaris_old.Pages.User.{
  Mmu, load, save, ensure_table, pde_of, pte_of, user_bits, map_user_address,
  user_address_to_physical, clone_pages,
}
use akaris_old.Pages.User.Words.{or_flags_bound, set_pte-frame}
use akaris_old.Pages.User.Mapped.{IsReady, IsUsable, write, load_lem, save_lem}
use akaris_old.Pages.User.Translate.{translated, not_zero, write_others}

-- The directory behind the kernel page `d` has a table for the address, in the frame `f`, which the
-- kernel reaches at its own address. The address is above the kernel's 64 MB.
pub record IsPresent (m : Mmu) (d virtaddr f : ℕ) : Type 0 where
  pub above : 16 ≤ pde_of virtaddr
  pub directory : IsUsable m.tables d
  pub identity : (IsUsable m.tables f) × (m.tables f / 4096 ≡ f)
  pub there : has_flag (m.words (m.tables d / 4096) (pde_of virtaddr)) pte_present_bit ≡ true
  pub frame : m.words (m.tables d / 4096) (pde_of virtaddr) / 4096 ≡ f

frame_bits_small : (e : ℕ) → e < 2 ^ 32 → frame_bits e < 2 ^ 32
frame_bits_small e l = omega arith

ensure_present :
    (m : Mmu) (d virtaddr f : ℕ)
    → IsPresent m d virtaddr f
    → ensure_table m (d * 4096) (pde_of virtaddr) ≡ returns m
unfolding ensure_table
ensure_present m d virtaddr f h =
    rw (ensure_table, load_lem m d (pde_of virtaddr) h.directory, h.there) refl

save_present :
    (m : Mmu) (d virtaddr f entry : ℕ)
    → IsPresent m d virtaddr f
    → (load m (d * 4096) (pde_of virtaddr) >>= λ pde.
        save m (frame_bits pde) (pte_of virtaddr) entry)
      ≡ returns (record m { words = write m.words f (pte_of virtaddr) entry })
save_present m d virtaddr f entry h =
    rw (load_lem m d (pde_of virtaddr) h.directory, h.frame)
      (save_lem m f (pte_of virtaddr) entry h.identity.0 ∙ rw h.identity.1 refl)

map_present :
    (m : Mmu) (d virtaddr physaddr flags f : ℕ)
    → IsPresent m d virtaddr f
    → map_user_address m (d * 4096) virtaddr physaddr flags
      ≡ returns (record m {
        words = write m.words f (pte_of virtaddr) (set_pte physaddr (or_bits 32 user_bits flags));
      })
unfolding map_user_address ensure_table
map_present m d virtaddr physaddr flags f h =
    rw (map_user_address, ensure_present m d virtaddr f h)
      (save_present m d virtaddr f (set_pte physaddr (or_bits 32 user_bits flags)) h)

-- The regions of a clone: page `i` of it stands at `at i`, has its table in the frame `f i`, and is a
-- copy of the page at `of i`, whose table is in the frame `g i`. The tables of the clone are apart from
-- the directory and the tables of the original and from the clone's directory, and no two pages of the
-- clone have the same entry.
pub record Shares (m : Mmu) (d s virt delta pages : ℕ) (f g : ℕ → ℕ) : Type 0 where
  pub ready : IsReady m.tables
  pub original : IsUsable m.tables s
  pub above : (i : ℕ) → i < pages → 16 ≤ pde_of (add32 (virt + i * page_size) delta)
  pub tables : (i : ℕ) → i < pages → IsPresent m d (virt + i * page_size) (f i)
  pub from :
      (i : ℕ)
      → i < pages
      → (m.words (m.tables s / 4096) (pde_of (add32 (virt + i * page_size) delta)) ≢ 0)
        × (m.words (m.tables s / 4096) (pde_of (add32 (virt + i * page_size) delta)) / 4096 ≡ g i)
        × (g i < 2 ^ 20)
  pub words :
      (i : ℕ) → i < pages → m.words (g i) (pte_of (add32 (virt + i * page_size) delta)) < 2 ^ 32
  pub apart : (i : ℕ) → i < pages → (f i ≢ m.tables s / 4096) × (f i ≢ m.tables d / 4096)
  pub unshared : (i j : ℕ) → i < pages → j < pages → f i ≢ g j
  pub distinct :
      (i j : ℕ)
      → i < j
      → j < pages
      → (f i ≢ f j) ⊎ (pte_of (virt + i * page_size) ≢ pte_of (virt + j * page_size))

module _ (m : Mmu) (d s virt delta flags pages : ℕ) (f g : ℕ → ℕ)
    (h : Shares m d s virt delta pages f g) (low : flags < 4096) where
  abbrev at : ℕ → ℕ
  at i = virt + i * page_size

  abbrev of : ℕ → ℕ
  of i = add32 (at i) delta

  -- The word for page `i` of the original, and the one that page `i` of the clone gets.
  abbrev original_word : ℕ → ℕ
  original_word i = m.words (g i) (pte_of (of i))

  abbrev entry : ℕ → ℕ
  entry i = set_pte (frame_bits (original_word i)) (or_bits 32 user_bits flags)

  -- The words once the first `k` pages are mapped.
  record IsAt (k : ℕ) (words : ℕ → ℕ → ℕ) : Type 0 where
    keeps : (r i : ℕ) → ((j : ℕ) → j < pages → f j ≢ r) → words r i ≡ m.words r i
    done : (j : ℕ) → j < k → words (f j) (pte_of (at j)) ≡ entry j

  abbrev with_words : (ℕ → ℕ → ℕ) → Mmu
  with_words words = record m { words = words }

  directory_kept :
      (k i : ℕ) (words : ℕ → ℕ → ℕ)
      → IsAt k words
      → words (m.tables d / 4096) i ≡ m.words (m.tables d / 4096) i
  directory_kept k i words w = w.keeps (m.tables d / 4096) i (λ j l. (h.apart j l).1)

  -- What user_address_to_physical returns for page `i` of the original, however far the loop is.
  original_frame :
      (k i : ℕ) (words : ℕ → ℕ → ℕ)
      → IsAt k words
      → i < pages
      → user_address_to_physical (with_words words) (s * 4096) (of i)
        ≡ returns (frame_bits (original_word i), with_words words)
  original_frame k i words w l =
      let (some_entry, frame, small) = h.from i l in
      translated (with_words words) s (of i) (m.words (m.tables s / 4096) (pde_of (of i))) h.ready
        h.original (w.keeps (m.tables s / 4096) (pde_of (of i)) (λ j b. (h.apart j b).0)) some_entry
        (rw frame small)
      ∙ rw (frame, w.keeps (g i) (pte_of (of i)) (λ j b. h.unshared j i b l)) refl

  present :
      (k i : ℕ) (words : ℕ → ℕ → ℕ)
      → IsAt k words
      → i < pages
      → IsPresent (with_words words) d (at i) (f i)
  present k i words w l =
      let t = h.tables i l in
      record {
        above = t.above;
        directory = t.directory;
        identity = t.identity;
        there = rw (directory_kept k (pde_of (at i)) words w) t.there;
        frame = rw (directory_kept k (pde_of (at i)) words w) t.frame;
      }

  entry_frame : (i : ℕ) → i < pages → frame_bits (entry i) ≡ frame_bits (original_word i)
  entry_frame i l =
      ap (λ n. n * 4096)
        (set_pte-frame (frame_bits (original_word i)) (or_bits 32 user_bits flags)
            (frame_bits_small (original_word i) (h.words i l))
            (or_flags_bound 7 flags (omega arith) low)
          ∙ omega arith)

  clone_frame :
      (i : ℕ) (words : ℕ → ℕ → ℕ)
      → IsAt pages words
      → i < pages
      → user_address_to_physical (with_words words) (d * 4096) (at i)
        ≡ returns (frame_bits (original_word i), with_words words)
  clone_frame i words w l =
      let t = h.tables i l in
      translated (with_words words) d (at i) (m.words (m.tables d / 4096) (pde_of (at i))) h.ready
        t.directory (directory_kept pages (pde_of (at i)) words w)
        (not_zero (m.words (m.tables d / 4096) (pde_of (at i))) t.there)
        (omega (arith, t.frame, t.identity.0.0))
      ∙ rw (t.frame, w.done i l) (ap (λ e. returns (e, with_words words)) (entry_frame i l))

  written :
      (k : ℕ) (words : ℕ → ℕ → ℕ)
      → IsAt k words
      → k < pages
      → IsAt (suc k) (write words (f k) (pte_of (at k)) (entry k))
  written k words w l = record {
    keeps = λ r i n.
        write_others words (f k) (pte_of (at k)) (entry k) r i (inl (λ e. n k l (sym e)))
        ∙ w.keeps r i n;
    done = λ j b. elim (Bool-cases (j == k)) [
      | inl same ↦
          subst (λ j. write words (f k) (pte_of (at k)) (entry k) (f j) (pte_of (at j)) ≡ entry j)
            (sym ((==_iff j k).0 same)) (rw (==_refl (f k), ==_refl (pte_of (at k))) refl)
      | inr other ↦
          write_others words (f k) (pte_of (at k)) (entry k) (f j) (pte_of (at j))
            (h.distinct j k (before j k b other) l)
          ∙ w.done j (before j k b other)
    ];
  }
    where
      before : (j k : ℕ) → j < suc k → (j == k) ≡ false → j < k
      before j k b other = ground arith

  loop :
      (n k : ℕ) (words : ℕ → ℕ → ℕ)
      → n + k ≡ pages
      → IsAt k words
      → (words' : ℕ → ℕ → ℕ) × (clone_pages n
            (with_words words)
            (d * 4096)
            (s * 4096)
            (at k)
            delta
            flags
          ≡ returns (with_words words'))
        × IsAt pages words'
  unfolding clone_pages
  loop zero k words e w = (words, refl, subst (λ p. IsAt p words) {x = k} (omega arith) w)
  loop (suc n) k words e w =
      let (words', run, last) =
        loop n (suc k) (write words (f k) (pte_of (at k)) (entry k)) (omega arith)
          (written k words w (omega arith)) in
      (
        words',
        rw
            (
              original_frame k k words w (omega arith),
              map_present (with_words words) d (at k) (frame_bits (original_word k)) flags (f k)
                  (present k k words w (omega arith)),
            )
            (ap
                (λ v.
                  clone_pages n (with_words (write words (f k) (pte_of (at k)) (entry k)))
                    (d * 4096) (s * 4096) v delta flags)
                {x = at k + page_size} {y = at (suc k)} (omega arith)
              ∙ run),
        last,
      )

  start : IsAt 0 m.words
  start = record { keeps = λ r i n. refl; done = λ j b. absurd (omega arith) }

-- clone_region shares its pages, provided that each page table of the clone is there already, in a frame
-- that the kernel reaches at its own address and apart from those of the original, that all addresses
-- are above the kernel's 64 MB, that some page of the kernel is unused, and that the entries of unused ones are 0: the loop returns, and afterwards user_address_to_physical returns for
-- each page of the clone the same frame as for its page of the original, which is the one that the
-- original had. The kernel's tables and the free frames are as before.
pub clone_pages_lem :
    (m : Mmu) (d s virt delta flags pages : ℕ) (f g : ℕ → ℕ)
    → Shares m d s virt delta pages f g
    → flags < 4096
    → (m' : Mmu) × (clone_pages pages m (d * 4096) (s * 4096) virt delta flags ≡ returns m')
      × ((i : ℕ)
          → i < pages
          → let frame = frame_bits (m.words (g i) (pte_of (add32 (virt + i * page_size) delta))) in
            (user_address_to_physical m' (d * 4096) (virt + i * page_size) ≡ returns (frame, m'))
            × (user_address_to_physical m' (s * 4096) (add32 (virt + i * page_size) delta)
                ≡ returns (frame, m')))
      × (m'.tables ≡ m.tables)
      × (m'.domain ≡ m.domain)
clone_pages_lem m d s virt delta flags pages f g h low =
    let (words, run, w) =
      loop m d s virt delta flags pages f g h low pages 0 m.words (omega arith)
        (start m d s virt delta flags pages f g h low) in
    (
      record m { words = words },
      ap (λ v. clone_pages pages m (d * 4096) (s * 4096) v delta flags) (omega arith) ∙ run,
      (λ i l. (
        clone_frame m d s virt delta flags pages f g h low i words w l,
        original_frame m d s virt delta flags pages f g h low pages i words w l,
      )),
      refl,
      refl,
    )
