-- ===== src/Pages/Directory/Link.antt =====
-- What create_address_space (sys/i386/context.c) makes of a page directory.
use akaris_old.Base.{
  has_flag, ℕ, zero, suc, ◌+◌, ◌*◌, ◌/◌, ◌^◌, ◌≤◌, ◌<◌, ◌≡◌, ◌≢◌, ◌⊎◌, inl, inr, refl, sym, ap, ◌∙◌,
  some, false, Bool-cases, ◌==◌, ltb, if◌then◌else◌, arith, Outcome, returns, ◌>>=◌, page_size,
  ==_refl, ==_ne, ==_iff,
}
use akaris_old.Frames.{Domain, allocate_page}
use akaris_old.Pages.{
  Tables, pte_kused_bit, set_pte, num_kernel_pdes, get_unused_kernel_virtual_page,
  get_usable_kernel_virtual_page, get_physical_address_from_kernel_virtual,
}
use akaris_old.Pages.Unused.{first_unused-IsFirst}
use akaris_old.Pages.User.{Mmu, pde_of, user_address_to_physical}
use akaris_old.Pages.User.Mapped.{
  IsReady, IsSpare, IsUsable, usable, opened, open_page, IsFirst-high, write, load_lem, save_lem,
}
use akaris_old.Pages.User.Translate.{write_others, opened_at, mapped_present}
use akaris_old.Pages.Start.{kernel_bits}
use akaris_old.Pages.Directory.{clear_page, link_tables, create_directory}

get_usable_lem :
    (tables : Tables) (d d' : Domain) (frame : ℕ)
    → IsReady tables
    → allocate_page d ≡ returns (frame, d')
    → frame ≢ 0
    → frame < 2 ^ 20
    → (q : ℕ) × IsSpare tables q
      × (get_usable_kernel_virtual_page tables d ≡ returns (q * 4096, opened tables q frame, d'))
unfolding get_usable_kernel_virtual_page get_unused_kernel_virtual_page
get_usable_lem tables d d' frame r a n l =
    let (q, found, first) =
      first_unused-IsFirst tables 15360 1024 r.spare r.from (omega (arith, r.below)) r.unused in
    let high = IsFirst-high tables q r.spare first r.from r.below r.unused in
    let blank = r.clean q first.from high first.unused in
    (
      q,
      record { low = first.from; high = high; blank = blank; used = first.unused },
      rw
          (
            get_usable_kernel_virtual_page,
            get_unused_kernel_virtual_page,
            found,
            a,
            ==_ne (frame * page_size) 0 (charged frame n),
          )
          (ap (λ (o : Outcome (ℕ × Tables)). o >>= λ (page, tables'). returns (page, tables', d'))
            (open_page tables (q * 4096 / page_size) q frame (tables q) (omega arith) blank l)),
    )
  where
    charged : (f : ℕ) → f ≢ 0 → f * page_size ≢ 0
    charged f n e = n (omega arith)

clear_page_lem :
    (m : Mmu) (q : ℕ)
    → IsUsable m.tables q
    → clear_page m (q * 4096)
      ≡ returns (record m { words = λ f i. if f == m.tables q / 4096 then 0 else m.words f i })
unfolding clear_page
clear_page_lem m q u =
    rw (clear_page, usable m.tables q (q * 4096 / 4096) (omega arith) u) (rw (page_back q) refl)
  where
    page_back : (q : ℕ) → q * 4096 / 4096 ≡ q
    page_back q = omega arith

module _ (kpt : ℕ → ℕ) where
  -- The words of the directory once `n` tables from the place `c` on are linked in.
  abbrev linked : (frame n c : ℕ) → (ℕ → ℕ → ℕ) → ℕ → ℕ → ℕ
  linked frame zero c words = words
  linked frame (suc n) c words =
      linked frame n (c + 1) (write words frame c (set_pte (kpt c) kernel_bits))

  link_tables_lem :
      (n c : ℕ) (m : Mmu) (words : ℕ → ℕ → ℕ) (q : ℕ)
      → IsUsable m.tables q
      → link_tables n c (record m { words = words }) (q * 4096) kpt
        ≡ returns (record m { words = linked (m.tables q / 4096) n c words })
  unfolding link_tables
  link_tables_lem zero c m words q u = refl
  link_tables_lem (suc n) c m words q u =
      rw (save_lem (record m { words = words }) q c (set_pte (kpt c) kernel_bits) u) (
        link_tables_lem n (c + 1) m
          (write words (m.tables q / 4096) c (set_pte (kpt c) kernel_bits)) q u)

  linked-outside :
      (frame n c g i : ℕ) (words : ℕ → ℕ → ℕ)
      → (g ≢ frame) ⊎ ((i < c) ⊎ (c + n ≤ i))
      → linked frame n c words g i ≡ words g i
  linked-outside frame zero c g i words h = refl
  linked-outside frame (suc n) c g i words h =
      linked-outside frame n (c + 1) g i (write words frame c (set_pte (kpt c) kernel_bits))
        (beyond h)
      ∙ write_others words frame c (set_pte (kpt c) kernel_bits) g i (differs h)
    where
      beyond :
          (g ≢ frame) ⊎ ((i < c) ⊎ (c + suc n ≤ i)) → (g ≢ frame) ⊎ ((i < c + 1) ⊎ (c + 1 + n ≤ i))
      beyond (inl e) = inl e
      beyond (inr (inl l)) = inr (inl (omega arith))
      beyond (inr (inr l)) = inr (inr (omega arith))

      differs : (g ≢ frame) ⊎ ((i < c) ⊎ (c + suc n ≤ i)) → (g ≢ frame) ⊎ (i ≢ c)
      differs (inl e) = inl e
      differs (inr (inl l)) = inr (λ e. omega arith)
      differs (inr (inr l)) = inr (λ e. omega arith)

  linked-inside :
      (frame n c i : ℕ) (words : ℕ → ℕ → ℕ)
      → c ≤ i
      → i < c + n
      → linked frame n c words frame i ≡ set_pte (kpt i) kernel_bits
  linked-inside frame zero c i words a b = absurd (omega arith)
  linked-inside frame (suc n) c i words a b = elim (Bool-cases (i == c)) [
    | inl same ↦
        linked-outside frame n (c + 1) frame i (write words frame c (set_pte (kpt c) kernel_bits))
          (inr (inl (omega (arith, (==_iff i c).0 same))))
        ∙ rw (==_refl frame, same)
            (ap (λ j. set_pte (kpt j) kernel_bits) (sym ((==_iff i c).0 same)))
    | inr other ↦
        linked-inside frame n (c + 1) i (write words frame c (set_pte (kpt c) kernel_bits))
          (after other) (omega arith)
  ]
    where
      after : (i == c) ≡ false → c + 1 ≤ i
      after other = ground arith

opened_frame : (tables : Tables) (q f : ℕ) → opened tables q f q / 4096 ≡ f
opened_frame tables q f = rw (opened_at tables q f) (omega arith)

physical_lem :
    (tables : Tables) (q f : ℕ)
    → q < 16384
    → tables q / 4096 ≡ f
    → get_physical_address_from_kernel_virtual tables (q * 4096) ≡ some (f * page_size)
unfolding get_physical_address_from_kernel_virtual
physical_lem tables q f l e =
    rw (get_physical_address_from_kernel_virtual, low q l)
      (ap (λ p. some (tables p / 4096 * page_size)) {y = q} (omega arith)
        ∙ ap (λ g. some (g * page_size)) e)
  where
    low : (q : ℕ) → q < 16384 → ltb (num_kernel_pdes * 4 * 1024 * 1024) (q * 4096) ≡ false
    low q l = ground arith

-- A directory behind the page `q` in which the kernel's tables are linked.
module _ (m : Mmu) (kpt : ℕ → ℕ) (q : ℕ) (u : IsUsable m.tables q) where
  abbrev blank : ℕ → ℕ → ℕ
  blank f i = if f == m.tables q / 4096 then 0 else m.words f i

  abbrev with_kernel : Mmu
  with_kernel = record m { words = linked kpt (m.tables q / 4096) 16 0 blank }

  no_user_page :
      (virtaddr : ℕ)
      → 16 ≤ pde_of virtaddr
      → user_address_to_physical with_kernel (q * 4096) virtaddr ≡ returns (0, with_kernel)
  unfolding user_address_to_physical
  no_user_page virtaddr h =
      rw
        (
          user_address_to_physical,
          load_lem with_kernel q (pde_of virtaddr) u,
          linked-outside kpt (m.tables q / 4096) 16 0 (m.tables q / 4096) (pde_of virtaddr) blank
              (inr (inr h)),
          ==_refl (m.tables q / 4096),
        )
        refl

  other_frames : (g i : ℕ) → g ≢ m.tables q / 4096 → with_kernel.words g i ≡ m.words g i
  other_frames g i n =
      linked-outside kpt (m.tables q / 4096) 16 0 g i blank (inl n)
      ∙ rw (==_ne g (m.tables q / 4096) n) refl

-- A new address space: where a frame is free, some page of the kernel is unused and the entries of unused
-- ones are 0, the directory is behind a page of the kernel that was unused and is mapped to that frame
-- then, and cr3 is the address of the frame. Its entries 0 to 15 are the kernel's tables, and
-- user_address_to_physical finds nothing at any address above them. No word of another frame is written
-- but the entry of that page in the kernel's tables.
pub create_directory_lem :
    (m : Mmu) (kpt : ℕ → ℕ) (frame : ℕ) (d : Domain)
    → IsReady m.tables
    → allocate_page m.domain ≡ returns (frame, d)
    → frame ≢ 0
    → frame < 2 ^ 20
    → (q : ℕ) × (m' : Mmu) × (create_directory m kpt
        ≡ returns (some (frame * page_size), q * 4096, m'))
      × (has_flag (m.tables q) pte_kused_bit ≡ false)
      × IsUsable m'.tables q
      × (m'.tables q / 4096 ≡ frame)
      × ((r : ℕ) → r ≢ q → m'.tables r ≡ m.tables r)
      × ((c : ℕ) → c < 16 → m'.words frame c ≡ set_pte (kpt c) kernel_bits)
      × ((virtaddr : ℕ)
          → 16 ≤ pde_of virtaddr
          → user_address_to_physical m' (q * 4096) virtaddr ≡ returns (0, m'))
      × ((g i : ℕ) → g ≢ frame → m'.words g i ≡ m.words g i)
unfolding create_directory
create_directory_lem m kpt frame d r a n l =
    let (q, spare, got) = get_usable_lem m.tables m.domain d frame r a n l in
    let m1 : Mmu = record m { tables = opened m.tables q frame; domain = d } in
    let same = opened_frame m.tables q frame in
    let u : IsUsable (opened m.tables q frame) q =
      (spare.high, rw (opened_at m.tables q frame) (mapped_present frame)) in
    (
      q,
      with_kernel m1 kpt q u,
      rw
          (
            create_directory,
            got,
            clear_page_lem m1 q u,
            link_tables_lem kpt 16 0 m1 (blank m1 kpt q u) q u,
            physical_lem (opened m.tables q frame) q frame spare.high same,
          )
          refl,
      spare.used,
      u,
      same,
      (λ r e. rw (==_ne r q e) refl),
      (λ c b.
          ap (λ g. (with_kernel m1 kpt q u).words g c) (sym same)
          ∙ linked-inside kpt (opened m.tables q frame q / 4096) 16 0 c (blank m1 kpt q u)
              (omega arith) (omega arith)),
      no_user_page m1 kpt q u,
      (λ g i k. other_frames m1 kpt q u g i (λ e. k (e ∙ same))),
    )
