-- ===== src/Pages/User/Translate.antt =====
-- map_user_address and user_address_to_physical against each other.
use akaris_old.Base.{
  ◌≤◌, ℕ, ◌+◌, ◌*◌, ◌/◌, ◌^◌, ◌<◌, ◌≡◌, ◌≢◌, ◌⊎◌, inl, inr, refl, sym, ◌∙◌, true, false, ◌==◌,
  returns, arith, has_flag, or_bits, page_size, Bool-cases, ◌>>=◌, ==_ne, ==_refl,
}
use akaris_old.Frames.{Domain, allocate_page}
use akaris_old.Pages.{pte_present_bit, set_pte, frame_bits}
use akaris_old.Pages.User.{
  Mmu, load, save, ensure_table, pde_of, pte_of, user_bits, map_user_address, with_tables,
  user_address_to_physical,
}
use akaris_old.Pages.User.Words.{or_flags_bound, set_pte-frame}
use akaris_old.Pages.User.Mapped.{
  IsReady, IsUsable, opened, get_mapped_lem, load_lem, save_lem, write, free_lem,
}

pub mapped_present : (f : ℕ) → has_flag (f * 4096 + 771) pte_present_bit ≡ true
mapped_present f = ground arith

pub opened_at : (tables : ℕ → ℕ) (q f : ℕ) → opened tables q f q ≡ f * 4096 + 771
opened_at tables q f = rw (==_refl q) refl

through :
    (m : Mmu) (q f index : ℕ)
    → q < 16384
    → load (with_tables m (opened m.tables q f)) (q * 4096) index ≡ returns (m.words f index)
through m q f index l =
    load_lem (with_tables m (opened m.tables q f)) q index
      (l, rw (opened_at m.tables q f) (mapped_present f))
    ∙ rw (opened_at m.tables q f) (rw (frame_back f) refl)
  where
    frame_back : (f : ℕ) → (f * 4096 + 771) / 4096 ≡ f
    frame_back f = omega arith

-- With a present page directory at the kernel page `d`, and an entry `pde` for the address: the word of
-- the table that the entry points to. The memory management is as before.
pub translated :
    (m : Mmu) (d virtaddr pde : ℕ)
    → IsReady m.tables
    → IsUsable m.tables d
    → m.words (m.tables d / 4096) (pde_of virtaddr) ≡ pde
    → pde ≢ 0
    → pde / 4096 < 2 ^ 20
    → user_address_to_physical m (d * 4096) virtaddr
      ≡ returns (frame_bits (m.words (pde / 4096) (pte_of virtaddr)), m)
unfolding user_address_to_physical
translated m d virtaddr pde r u at n l =
    let (q, spare, mapped) = get_mapped_lem m.tables (pde / 4096) r l in
    rw (user_address_to_physical, load_lem m d (pde_of virtaddr) u, at, ==_ne pde 0 n, mapped)
      (rw
        (
          through m q (pde / 4096) (pte_of virtaddr) spare.high,
          free_lem m.tables q (pde / 4096) spare.blank,
        )
        refl)

-- A page directory behind the kernel page `d`, and the frame `f` of the page table for the address: the
-- table that the directory's entry points to, or the frame that is granted for a new one. The kernel
-- reaches the frame at its own address. The address is above the kernel's 64 MB.
pub record HasTable (m : Mmu) (d virtaddr f : ℕ) : Type 0 where
  pub above : 16 ≤ pde_of virtaddr
  pub directory : IsUsable m.tables d
  pub identity : (IsUsable m.tables f) × (m.tables f / 4096 ≡ f)
  pub apart : f ≢ m.tables d / 4096
  pub table :
      ((has_flag (m.words (m.tables d / 4096) (pde_of virtaddr)) pte_present_bit ≡ true)
        × (m.words (m.tables d / 4096) (pde_of virtaddr) / 4096 ≡ f))
      ⊎ ((has_flag (m.words (m.tables d / 4096) (pde_of virtaddr)) pte_present_bit ≡ false)
          × ((domain : Domain) × (allocate_page m.domain ≡ returns (f, domain))))

-- The memory management once the entry of the directory is there.
record Ensured (m : Mmu) (d virtaddr f : ℕ) : Type 0 where
  domain : Domain
  words : (frame index : ℕ) → ℕ
  ensured :
      ensure_table m (d * 4096) (pde_of virtaddr)
      ≡ returns (record m { domain = domain; words = words })
  pde : ℕ
  entry : words (m.tables d / 4096) (pde_of virtaddr) ≡ pde
  frame : pde / 4096 ≡ f
  present : pde ≢ 0
  others : (g i : ℕ) → (g ≢ m.tables d / 4096) ⊎ (i ≢ pde_of virtaddr) → words g i ≡ m.words g i

abbrev after : {m : Mmu} {d virtaddr f : ℕ} → Ensured m d virtaddr f → Mmu
after {m} e = record m { domain = e.domain; words = e.words }

pub not_zero : (e : ℕ) → has_flag e pte_present_bit ≡ true → e ≢ 0
not_zero e h = ground arith

made_frame : (f : ℕ) → f < 16384 → set_pte (f * page_size) user_bits / 4096 ≡ f
made_frame f l = omega arith

made_present : (f : ℕ) → f < 16384 → set_pte (f * page_size) user_bits ≢ 0
made_present f l e = omega arith

pub write_others :
    (words : ℕ → ℕ → ℕ) (frame index entry g i : ℕ)
    → (g ≢ frame) ⊎ (i ≢ index)
    → write words frame index entry g i ≡ words g i
write_others words frame index entry g i (inl n) = rw (==_ne g frame n) refl
write_others words frame index entry g i (inr n) = elim (Bool-cases (g == frame)) [
  | inl e ↦ rw (e, ==_ne i index n) refl
  | inr e ↦ rw e refl
]

ensure_table-Ensured :
    (m : Mmu) (d virtaddr f : ℕ) → HasTable m d virtaddr f → Ensured m d virtaddr f
unfolding ensure_table
ensure_table-Ensured m d virtaddr f h = elim h.table [
  | inl (there, same) ↦ record {
    domain = m.domain;
    words = m.words;
    ensured = rw (ensure_table, load_lem m d (pde_of virtaddr) h.directory, there) refl;
    pde = m.words (m.tables d / 4096) (pde_of virtaddr);
    entry = refl;
    frame = same;
    present = not_zero (m.words (m.tables d / 4096) (pde_of virtaddr)) there;
    others = λ g i n. refl;
  }
  | inr (missing, (domain, granted)) ↦ record {
    domain = domain;
    words = write m.words (m.tables d / 4096) (pde_of virtaddr) (set_pte (f * page_size) user_bits);
    ensured =
        rw (ensure_table, load_lem m d (pde_of virtaddr) h.directory, missing, granted)
          (save_lem (record m { domain = domain }) d (pde_of virtaddr)
            (set_pte (f * page_size) user_bits) h.directory);
    pde = set_pte (f * page_size) user_bits;
    entry = rw (==_refl (m.tables d / 4096), ==_refl (pde_of virtaddr)) refl;
    frame = made_frame f h.identity.0.0;
    present = made_present f h.identity.0.0;
    others =
        write_others m.words (m.tables d / 4096) (pde_of virtaddr)
          (set_pte (f * page_size) user_bits);
  }
]

-- The memory management once the entry of the page is written, too.
abbrev stored : Mmu → (f virtaddr entry : ℕ) → Mmu
stored m f virtaddr entry = record m { words = write m.words f (pte_of virtaddr) entry }

store_entry :
    (m : Mmu) (d virtaddr f entry : ℕ)
    → (e : Ensured m d virtaddr f) → HasTable m d virtaddr f
    → (load (after e) (d * 4096) (pde_of virtaddr) >>= λ pde.
        save (after e) (frame_bits pde) (pte_of virtaddr) entry)
      ≡ returns (stored (after e) f virtaddr entry)
store_entry m d virtaddr f entry e h =
    rw (load_lem (after e) d (pde_of virtaddr) h.directory, e.entry, e.frame)
      (save_lem (after e) f (pte_of virtaddr) entry h.identity.0 ∙ rw h.identity.1 refl)

read_back :
    (m : Mmu) (d virtaddr f entry : ℕ)
    → (e : Ensured m d virtaddr f) → HasTable m d virtaddr f
    → IsReady m.tables
    → user_address_to_physical (stored (after e) f virtaddr entry) (d * 4096) virtaddr
      ≡ returns (frame_bits entry, stored (after e) f virtaddr entry)
read_back m d virtaddr f entry e h r =
    translated (stored (after e) f virtaddr entry) d virtaddr e.pde r h.directory
      ((write_others e.words f (pte_of virtaddr) entry (m.tables d / 4096) (pde_of virtaddr)
          (inl (λ s. h.apart (sym s)))
        ∙ e.entry))
      e.present (omega (arith, e.frame, h.identity.0.0))
    ∙ rw (e.frame, ==_refl f, ==_refl (pte_of virtaddr)) refl

-- For an address above the kernel's 64 MB whose page table is there or is still to be made, in a frame
-- that the kernel reaches at its own address, where some page of the kernel is unused and the entries of
-- unused ones are 0: map_user_address returns, and from then on user_address_to_physical returns the physical
-- address of the page, and leaves the kernel's tables as they are. No word of memory but the entry of
-- the page and that of the directory is changed, and the kernel's own tables are not.
pub map_user_address_lem :
    (m : Mmu) (d virtaddr physaddr flags f : ℕ)
    → IsReady m.tables
    → HasTable m d virtaddr f
    → physaddr < 2 ^ 32
    → flags < 4096
    → (m' : Mmu) × (map_user_address m (d * 4096) virtaddr physaddr flags ≡ returns m')
      × (user_address_to_physical m' (d * 4096) virtaddr ≡ returns (frame_bits physaddr, m'))
      × (m'.tables ≡ m.tables)
      × ((g i : ℕ)
          → (g ≢ f) ⊎ (i ≢ pte_of virtaddr)
          → (g ≢ m.tables d / 4096) ⊎ (i ≢ pde_of virtaddr)
          → m'.words g i ≡ m.words g i)
unfolding map_user_address
map_user_address_lem m d virtaddr physaddr flags f r h l fl =
    let e = ensure_table-Ensured m d virtaddr f h in
    mapped e (set_pte physaddr (or_bits 32 user_bits flags))
      (set_pte-frame physaddr (or_bits 32 user_bits flags) l
        (or_flags_bound 7 flags (omega arith) fl))
      (rw (map_user_address, e.ensured) refl)
  where
    mapped :
        (e : Ensured m d virtaddr f) (entry : ℕ)
        → entry / 4096 ≡ physaddr / 4096
        → map_user_address m (d * 4096) virtaddr physaddr flags ≡ (
            load (after e) (d * 4096) (pde_of virtaddr) >>= λ pde.
            save (after e) (frame_bits pde) (pte_of virtaddr) entry)
        → (m' : Mmu) × (map_user_address m (d * 4096) virtaddr physaddr flags ≡ returns m')
          × (user_address_to_physical m' (d * 4096) virtaddr ≡ returns (frame_bits physaddr, m'))
          × (m'.tables ≡ m.tables)
          × ((g i : ℕ)
              → (g ≢ f) ⊎ (i ≢ pte_of virtaddr)
              → (g ≢ m.tables d / 4096) ⊎ (i ≢ pde_of virtaddr)
              → m'.words g i ≡ m.words g i)
    mapped e entry same run = (
      stored (after e) f virtaddr entry,
      run ∙ store_entry m d virtaddr f entry e h,
      read_back m d virtaddr f entry e h r ∙ rw same refl,
      refl,
      (λ g i a b. write_others e.words f (pte_of virtaddr) entry g i a ∙ e.others g i b),
    )
