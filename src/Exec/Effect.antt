-- ===== src/Exec/Effect.antt =====
-- What the loading of a program leaves alone.
use akaris_old.Base.{
  ℕ, zero, suc, ◌+◌, ◌/◌, page_size, ◌≤◌, ◌<◌, ◌≡◌, ◌≢◌, ◌⊎◌, refl, ◌∙◌, Bool, true, false, not,
  Bool-cases, Option, Option-cases, none, some, inl, inr, List, ◌==◌, leb, if◌then◌else◌, arith,
  returns, ◌>>=◌, Returns, Returns-bind, Returns-if, Returns-known, Returns-then, Returns-map,
  length, add32, ==_ne,
}
use akaris_old.State.{Regs, Region, core, Context, Kernel, get_process, update_context}
use akaris_old.Space.Carve.{create_region_at}
use akaris_old.Kfifo.{put_space, store_bytes}
use akaris_old.Kfifo.Lookup.{find-update_context, find-update_context_ne, find_context_pid}
use akaris_old.Lifecycle.Pids.{SamePids, SamePids-trans, pids-update}
use akaris_old.Space.{Mapping}
use akaris_old.Exec.{
  Reader, is_low, half, word, has_magic, magic, segment_bytes, place_segment, load_segment,
  load_segments, load_program, set_eip, copied, delete_core, execve_elf, minus_one,
}

-- The process `pid` is as before but for its regions and what `f` does to its registers, all else is as
-- before, and so are the bytes behind the pages that were in use.
pub record Loads (k k' : Kernel) (pid : ℕ) (f : Regs → Regs) : Type 0 where
  pub same_pids : SamePids k k'
  pub others : (p : ℕ) → p ≢ pid → get_process k' p ≡ get_process k p
  pub process :
      (c : Context)
      → get_process k pid ≡ some c
      → (c' : Context) × (get_process k' pid ≡ some c')
        × (c'.registers ≡ f c.registers)
        × (c'.status ≡ c.status)
  pub backings : k.next_backing ≤ k'.next_backing
  pub memory : (b : ℕ) → b < k.next_backing → k'.memory b ≡ k.memory b
  pub fifos : k'.fifos ≡ k.fifos
  pub kqueues : k'.kqueues ≡ k.kqueues
  pub events : k'.events ≡ k.events
  pub current : k'.current ≡ k.current

module _ (pid : ℕ) where
  Loads-trans :
      (k l m : Kernel) (f g : Regs → Regs)
      → Loads k l pid f
      → Loads l m pid g
      → Loads k m pid (λ r. g (f r))
  Loads-trans k l m f g a b = record {
    same_pids = SamePids-trans k l m a.same_pids b.same_pids;
    others = λ p n. b.others p n ∙ a.others p n;
    process = λ c e.
        let (d, e', r, s) = a.process c e in
        let (d', e'', r', s') = b.process d e' in (d', e'', rw⁻¹ r r', s' ∙ s);
    backings = omega (arith, a.backings, b.backings);
    memory = λ i l. b.memory i (omega (arith, a.backings)) ∙ a.memory i l;
    fifos = b.fifos ∙ a.fifos;
    kqueues = b.kqueues ∙ a.kqueues;
    events = b.events ∙ a.events;
    current = b.current ∙ a.current;
  }

  -- A change to the context of the process.
  Loads-update :
      (k : Kernel) (f : Regs → Regs) (g : Context → Context)
      → ((c : Context)
          → ((g c).pid ≡ c.pid) × ((g c).registers ≡ f c.registers) × ((g c).status ≡ c.status))
      → Loads k (record k { contexts = update_context pid g k.contexts }) pid f
  Loads-update k f g h = record {
    same_pids = (pids-update pid g k.contexts (λ c. (h c).0), refl);
    others = λ p n. find-update_context_ne pid p g k.contexts (λ c. (h c).0) n;
    process = λ c e. (
      g c,
      find-update_context pid g k.contexts c ((h c).0 ∙ find_context_pid pid k.contexts c e) e,
      (h c).1,
      (h c).2,
    );
    backings = omega arith;
    memory = λ b l. refl;
    fifos = refl;
    kqueues = refl;
    events = refl;
    current = refl;
  }

  Loads-refl : (k : Kernel) → Loads k k pid (λ r. r)
  Loads-refl k = record {
    same_pids = (refl, refl);
    others = λ p n. refl;
    process = λ c e. (c, e, refl, refl);
    backings = omega arith;
    memory = λ b l. refl;
    fifos = refl;
    kqueues = refl;
    events = refl;
    current = refl;
  }

  Loads-stored :
      (k : Kernel) (bytes : List ℕ)
      → Loads k
          (record (store_bytes k k.next_backing bytes) { next_backing = k.next_backing + 1 })
          pid
          (λ r. r)
  Loads-stored k bytes = record {
    same_pids = (refl, refl);
    others = λ p n. refl;
    process = λ c e. (c, e, refl, refl);
    backings = omega arith;
    memory = λ b l. rw (==_ne b k.next_backing (omega arith)) refl;
    fifos = refl;
    kqueues = refl;
    events = refl;
    current = refl;
  }

  abbrev LoadsSame : Kernel → Kernel → Type 0
  LoadsSame k k' = Loads k k' pid (λ r. r)

  Loads-put_space : (k : Kernel) (space : List Region) → LoadsSame k (put_space k pid space)
  Loads-put_space k space =
      Loads-update k (λ r. r) (λ c. record c { space = space }) (λ c. (refl, refl, refl))

  place_segment-Loads :
      (r : Reader) (mapping : Mapping) (k : Kernel) (offset vaddr filesz pages : ℕ)
      → Returns (LoadsSame k) (place_segment r mapping k pid offset vaddr filesz pages)
  unfolding place_segment
  place_segment-Loads r mapping k offset vaddr filesz pages =
      Returns-if (LoadsSame k) (is_low vaddr pages) _ _ tt
        (elim (Option-cases (get_process k pid)) [
          | inl e ↦ rw e tt
          | inr (c, e) ↦ rw e (
              Returns-then (LoadsSame k)
                (create_region_at c.space vaddr pages core 0 0 k.next_backing) _
                (λ space. Returns-then (LoadsSame k) (mapping vaddr pages) _ (λ stale.
                  Returns-then (LoadsSame k) (segment_bytes r stale offset vaddr filesz pages) _
                    (λ bytes.
                      Loads-trans k (put_space k pid space) _ (λ r. r) (λ r. r)
                        (Loads-put_space k space) (Loads-stored (put_space k pid space) bytes)))))
        ])

  load_segment-Loads :
      (r : Reader) (mapping : Mapping) (k : Kernel) (header : ℕ)
      → Returns (LoadsSame k) (load_segment r mapping k pid header)
  unfolding load_segment
  load_segment-Loads r mapping k header = Returns-then (LoadsSame k) (word r header) _ (λ p_type.
      Returns-if (LoadsSame k) (not (p_type == 1)) _ _ (Loads-refl k) (
        Returns-then (LoadsSame k) (word r (add32 header 4)) _ (λ p_offset.
          Returns-then (LoadsSame k) (word r (add32 header 8)) _ (λ p_vaddr.
            Returns-then (LoadsSame k) (word r (add32 header 16)) _ (λ p_filesz.
              Returns-then (LoadsSame k) (word r (add32 header 20)) _ (λ p_memsz.
                place_segment-Loads r mapping k p_offset p_vaddr p_filesz
                  (add32 p_memsz page_size / page_size)))))))

  load_segments-Loads :
      (n : ℕ) (r : Reader) (mapping : Mapping) (k : Kernel) (header : ℕ)
      → Returns (LoadsSame k) (load_segments n r mapping k pid header)
  unfolding load_segments
  load_segments-Loads zero r mapping k header = Loads-refl k
  load_segments-Loads (suc n) r mapping k header =
      Returns-bind (LoadsSame k) (LoadsSame k) (load_segment r mapping k pid header) _
        (load_segment-Loads r mapping k header)
        (λ k' s.
          Returns-map (LoadsSame k') (LoadsSame k)
            (load_segments n r mapping k' pid (add32 header 32))
            (λ k'' t. Loads-trans k k' k'' (λ r. r) (λ r. r) s t)
            (load_segments-Loads n r mapping k' (add32 header 32)))

  -- How execve_elf ends once the old program is gone, with the reader `r` of the image.
  abbrev pub Loaded : Reader → Kernel → ℕ × Kernel → Type 0
  Loaded r k (code, k') =
      ((code ≡ minus_one) × (has_magic r 0 magic ≡ returns false) × Loads k k' pid (λ regs. regs))
      ⊎ ((code ≡ 0)
          × (has_magic r 0 magic ≡ returns true)
          × ((entry : ℕ) × (word r 24 ≡ returns entry)
              × Loads k k' pid (λ regs. record regs { eip = entry })))

  load_program-Loaded :
      (r : Reader) (mapping : Mapping) (k : Kernel)
      → Returns (Loaded r k) (load_program r mapping k pid)
  unfolding load_program
  load_program-Loaded r mapping k = Returns-then (Loaded r k) (word r 28) _ (λ e_phoff.
      Returns-known (Loaded r k) (has_magic r 0 magic) _ (λ valid e. ended e_phoff valid e))
    where
      ended :
          (e_phoff : ℕ) (valid : Bool)
          → has_magic r 0 magic ≡ returns valid
          → Returns (Loaded r k) (
              if not valid
              then returns (minus_one, k)
              else (half r 44 >>= λ e_phnum. load_segments e_phnum r mapping k pid e_phoff >>= λ k'.
                  word r 24 >>= λ e_entry. returns (0, set_eip k' pid e_entry)))
      ended e_phoff false e = inl (refl, e, Loads-refl k)
      ended e_phoff true e = Returns-then (Loaded r k) (half r 44) _ (λ e_phnum.
          Returns-bind (LoadsSame k) (Loaded r k) (load_segments e_phnum r mapping k pid e_phoff) _
            (load_segments-Loads e_phnum r mapping k e_phoff)
            (λ k' s. Returns-known (Loaded r k) (word r 24) _ (λ entry at. inr (
              refl,
              e,
              (
                entry,
                at,
                Loads-trans k k' (set_eip k' pid entry) (λ r. r)
                    (λ regs. record regs { eip = entry }) s
                    (Loads-update k' (λ regs. record regs { eip = entry })
                      (λ c. record c { registers = record c.registers { eip = entry } })
                      (λ c. (refl, refl, refl))),
              ),
            ))))

-- The two outcomes of execve_elf. An image that is too long is refused with nothing changed.
abbrev pub Executed :
    (pid : ℕ) (old : Reader) (image : ℕ → ℕ) (length : ℕ) → Kernel → ℕ × Kernel → Type 0
Executed pid old image length k (code, k') =
    ((0x2000_0000 ≤ length) × (code ≡ minus_one) × (k' ≡ k))
    ⊎ ((length < 0x2000_0000) × Loaded pid (copied image old length) k (code, k'))

Loaded-put_space :
    (pid : ℕ) (r : Reader) (k : Kernel) (space : List Region) (code : ℕ) (k' : Kernel)
    → Loaded pid r (put_space k pid space) (code, k')
    → Loaded pid r k (code, k')
Loaded-put_space pid r k space code k' (inl (e, m, l)) = inl (
  e,
  m,
  Loads-trans pid k (put_space k pid space) k' (λ r. r) (λ r. r) (Loads-put_space pid k space) l,
)
Loaded-put_space pid r k space code k' (inr (e, m, (entry, at, l))) = inr (
  e,
  m,
  (
    entry,
    at,
    Loads-trans pid k (put_space k pid space) k' (λ r. r) (λ regs. record regs { eip = entry })
        (Loads-put_space pid k space) l,
  ),
)

execve_elf-Executed :
    (old : Reader) (mapping : Mapping) (k : Kernel) (pid : ℕ) (image : ℕ → ℕ) (len : ℕ)
    → Returns (Executed pid old image len k) (execve_elf old mapping k (some pid) (some image) len)
unfolding execve_elf
execve_elf-Executed old mapping k pid image len = elim (Bool-cases (leb 0x2000_0000 len)) [
  | inl e ↦ rw e (inl (ground arith, refl, refl))
  | inr e ↦ rw e (elim (Option-cases (get_process k pid)) [
    | inl f ↦ rw f tt
    | inr (c, f) ↦ rw f (
        Returns-then (Executed pid old image len k)
          (mapping 0x2000_0000 ((len + page_size) / page_size)) _
          (λ new.
            Returns-then (Executed pid old image len k)
              (delete_core (suc (length c.space)) c.space 0) _
              (λ space.
                Returns-map (Loaded pid (copied image old len) (put_space k pid space))
                  (Executed pid old image len k)
                  (load_program (copied image old len) mapping (put_space k pid space) pid)
                  (λ (code, k') h.
                    inr (short e, Loaded-put_space pid (copied image old len) k space code k' h))
                  (load_program-Loaded pid (copied image old len) mapping
                    (put_space k pid space)))))
  ])
]
  where
    short : leb 0x2000_0000 len ≡ false → len < 0x2000_0000
    short e = ground arith

-- With any arguments, NULL pointers among them, the pids stay.
pub execve_elf-SamePids :
    (old : Reader) (mapping : Mapping) (k : Kernel) (pid : Option ℕ) (image : Option (ℕ → ℕ))
    (len : ℕ)
    → Returns (λ (code, k'). SamePids k k') (execve_elf old mapping k pid image len)
unfolding execve_elf
execve_elf-SamePids old mapping k none image len = (refl, refl)
execve_elf-SamePids old mapping k (some pid) none len = (refl, refl)
execve_elf-SamePids old mapping k (some pid) (some image) len =
    Returns-map (Executed pid old image len k) (λ (code, k'). SamePids k k')
      (execve_elf old mapping k (some pid) (some image) len) (λ (code, k') h. kept code k' h)
      (execve_elf-Executed old mapping k pid image len)
  where
    kept : (code : ℕ) (k' : Kernel) → Executed pid old image len k (code, k') → SamePids k k'
    kept code k' (inl (l, e, same)) = rw same (refl, refl)
    kept code k' (inr (l, inl (e, m, h))) = h.same_pids
    kept code k' (inr (l, inr (e, m, (entry, at, h)))) = h.same_pids
