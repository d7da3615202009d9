-- ===== src/Exec/Load.antt =====
-- The loading of a program into a new process.
use akaris_old.Base.{
  ℕ, zero, suc, ◌+◌, ◌-◌, ◌*◌, ◌/◌, ◌≤◌, ◌<◌, ◌≡◌, refl, sym, ap, ap₂, ◌∙◌, true, false, some, inr,
  List, [], ◌∷◌, ◌++◌, ◌==◌, leb, ltb, arith, returns, length, add32, tabulate, drop, page_size,
  ==_refl,
}
use mathlib.Core.Path.{subst}
use akaris_old.State.{Region, core, stack, free, Context, Kernel, get_process}
use akaris_old.Space.Carve.{create_region_at}
use akaris_old.Space.Carve.Apart.{made, create_region_at-front}
use akaris_old.Kfifo.{put_space, store_bytes}
use akaris_old.Kfifo.Lookup.{find-update_context, find_context_pid}
use akaris_old.Process.{create_address_space}
use akaris_old.Space.{Mapping}
use akaris_old.Exec.{
  Reader, is_low, half, word, has_magic, magic, read_bytes, segment_bytes, place_segment,
  load_segment, load_segments, load_program, set_eip, copied, delete_core, execve_elf,
}

-- The bytes of the image from an offset on.
abbrev pub bytes_from : (image : ℕ → ℕ) → (offset n : ℕ) → List ℕ
bytes_from image offset n = tabulate n (λ i. image (offset + i))

read_bytes_lem :
    (image : ℕ → ℕ) (old : Reader) (len n offset : ℕ)
    → offset + n ≤ len
    → len < 0x2000_0000
    → read_bytes (copied image old len) offset n ≡ returns (bytes_from image offset n)
unfolding read_bytes
read_bytes_lem image old len zero offset h l = refl
read_bytes_lem image old len (suc n) offset h l =
    rw (inside, next, read_bytes_lem image old len n (offset + 1) (omega arith) l)
      (ap₂ (λ a f. returns (image a ∷ tabulate n f)) (omega arith) shifted)
  where
    along : (i : ℕ) → offset + 1 + i ≡ offset + suc i
    along i = omega arith

    shifted : ◌≡◌ {A = ℕ → ℕ} (λ i. image (offset + 1 + i)) (λ i. image (offset + suc i))
    shifted j i = image (along i j)

    inside : ltb offset len ≡ true
    inside = ground arith

    next : add32 offset 1 ≡ offset + 1
    next = omega arith

-- A program with one segment to load, at the start of the free block of a new process.
pub record IsProgram (r : Reader) (len : ℕ) : Type 0 where
  pub phoff : ℕ
  pub offset : ℕ
  pub filesz : ℕ
  pub memsz : ℕ
  pub entry : ℕ
  pub short : len < 0x2000_0000
  pub headers : word r 28 ≡ returns phoff
  pub valid : has_magic r 0 magic ≡ returns true
  pub single : half r 44 ≡ returns 1
  pub loaded : word r phoff ≡ returns 1
  pub from : word r (add32 phoff 4) ≡ returns offset
  pub to : word r (add32 phoff 8) ≡ returns 0x4000_0000
  pub in_file : word r (add32 phoff 16) ≡ returns filesz
  pub in_memory : word r (add32 phoff 20) ≡ returns memsz
  pub start : word r 24 ≡ returns entry
  pub inside : offset + filesz ≤ len
  pub fits : filesz ≤ memsz
  pub room : memsz + 4096 < 0x7000_0000

abbrev pub pages_of : (memsz : ℕ) → ℕ
pages_of memsz = (memsz + page_size) / page_size

-- The address space of a new process with a program of so many pages.
abbrev pub with_program : (old_free old_stack : Region) → (pages backing : ℕ) → List Region
with_program old_free old_stack pages backing =
    made 0x4000_0000 pages core 0 0 backing
    ∷ record old_free {
      virtual_address = 0x4000_0000 + pages * page_size;
      length = 0x70000 - pages;
      attributes = 0;
      type = free;
    }
    ∷ record old_stack {
      virtual_address = 0xB000_0000;
      length = 0x10000;
      type = stack;
      attributes = 0;
    }
    ∷ []

create_core :
    (old_free old_stack : Region) (pages backing : ℕ)
    → 0 < pages
    → pages < 0x70000
    → create_region_at (create_address_space old_free old_stack) 0x4000_0000 pages core 0 0 backing
      ≡ returns (with_program old_free old_stack pages backing)
unfolding create_address_space
create_core old_free old_stack pages backing l h =
    create_region_at-front [] (free_part 0x4000_0000 0x70000) (stack_part ∷ []) 0x4000_0000 pages
      (omega arith) tt ((omega arith, inr (omega arith)), tt) core 0 0 backing (omega arith) l refl
      (omega arith)
    ∙ ap
        (λ n. returns (
          made 0x4000_0000 pages core 0 0 backing
          ∷ free_part (0x4000_0000 + pages * page_size) n
          ∷ stack_part
          ∷ []))
        (omega arith)
  where
    free_part : (addr pages : ℕ) → Region
    free_part addr pages = record old_free {
      virtual_address = addr;
      length = pages;
      attributes = 0;
      type = free;
    }

    stack_part : Region
    stack_part = record old_stack {
      virtual_address = 0xB000_0000;
      length = 0x10000;
      type = stack;
      attributes = 0;
    }

segment_bytes_lem :
    (image : ℕ → ℕ) (old : Reader) (stale : List ℕ) (len offset filesz pages : ℕ)
    → offset + filesz ≤ len
    → len < 0x2000_0000
    → filesz ≤ pages * page_size
    → segment_bytes (copied image old len) stale offset 0x4000_0000 filesz pages
      ≡ returns (bytes_from image offset filesz ++ drop filesz stale)
unfolding segment_bytes
segment_bytes_lem image old stale len offset zero pages h l f = refl
segment_bytes_lem image old stale len offset (suc n) pages h l f =
    rw (some_bytes, within, read_bytes_lem image old len (suc n) offset h l) refl
  where
    some_bytes : (suc n == 0) ≡ false
    some_bytes = ground arith

    within : ltb (pages * page_size) (suc n) ≡ false
    within = ground arith

not_long : (len : ℕ) → len < 0x2000_0000 → leb 0x2000_0000 len ≡ false
not_long len l = ground arith

delete_core_fresh :
    (old_free old_stack : Region)
    → delete_core 3 (create_address_space old_free old_stack) 0
      ≡ returns (create_address_space old_free old_stack)
unfolding delete_core create_address_space
delete_core_fresh old_free old_stack = refl

nothing_deleted :
    (old_free old_stack : Region) (space : List Region)
    → space ≡ create_address_space old_free old_stack
    → delete_core (suc (length space)) space 0 ≡ returns space
unfolding create_address_space
nothing_deleted old_free old_stack space e =
    subst (λ s. delete_core (suc (length s)) s 0 ≡ returns s) (sym e)
      (delete_core_fresh old_free old_stack)

-- The kernel with the region of the program.
abbrev placed : (old_free old_stack : Region) → Kernel → (pid pages : ℕ) → (bytes : List ℕ) → Kernel
placed old_free old_stack k pid pages bytes =
    record (store_bytes (put_space k pid (with_program old_free old_stack pages k.next_backing))
      k.next_backing bytes) { next_backing = k.next_backing + 1 }

above : (pages : ℕ) → pages < 0x70000 → is_low 0x4000_0000 pages ≡ false
above pages h = ground arith

module _ (image : ℕ → ℕ) (old : Reader) (mapping : Mapping) (stale : List ℕ) (len : ℕ)
    (old_free old_stack : Region) (k : Kernel) (pid : ℕ) (c : Context)
    (found : get_process k pid ≡ some c) (fresh : c.space ≡ create_address_space old_free old_stack)
    (prog : IsProgram (copied image old len) len)
    (maps : mapping 0x4000_0000 (pages_of prog.memsz) ≡ returns stale) where
  abbrev segment : List ℕ
  segment = bytes_from image prog.offset prog.filesz ++ drop prog.filesz stale

  abbrev pages : ℕ
  pages = pages_of prog.memsz

  place_segment_lem :
      place_segment (copied image old len) mapping k pid prog.offset 0x4000_0000 prog.filesz pages
      ≡ returns (placed old_free old_stack k pid pages segment)
  unfolding place_segment
  place_segment_lem =
      rw
        (
          place_segment,
          above pages (omega (arith, prog.room)),
          found,
          fresh,
          create_core old_free old_stack pages k.next_backing (omega arith)
              (omega (arith, prog.room)),
          maps,
          segment_bytes_lem image old stale len prog.offset prog.filesz pages prog.inside prog.short
              (omega (arith, prog.fits)),
        )
        refl

  load_segment_lem :
      load_segment (copied image old len) mapping k pid prog.phoff
      ≡ returns (placed old_free old_stack k pid pages segment)
  unfolding load_segment
  load_segment_lem =
      rw (load_segment, prog.loaded, prog.from, prog.to, prog.in_file, prog.in_memory)
        (ap (place_segment (copied image old len) mapping k pid prog.offset 0x4000_0000 prog.filesz)
            {x = add32 prog.memsz page_size / page_size} (omega (arith, prog.room))
          ∙ place_segment_lem)

  load_program_lem :
      load_program (copied image old len) mapping k pid
      ≡ returns (0, set_eip (placed old_free old_stack k pid pages segment) pid prog.entry)
  unfolding load_program load_segments
  load_program_lem =
      rw (load_program, prog.headers, prog.valid, prog.single, load_segment_lem, prog.start) refl

-- execve_elf of an image below 512 MB with one segment at 0x40000000, the start of the free block, in a
-- process that has only its free block and its stack, returns 0, provided that the pages for the copy of
-- the image and for the segment are mapped, that the segment's bytes are within the image and no more
-- than it takes in memory, and that it takes less than the free block. The process goes on at e_entry with all other registers as
-- they were; its first region holds the segment, whose bytes are those of the image from p_offset on
-- and then what the new pages held before.
pub execve_loads :
    (old : Reader) (mapping : Mapping) (stale new : List ℕ) (k : Kernel) (pid : ℕ) (image : ℕ → ℕ)
    (len : ℕ) (c : Context) (old_free old_stack : Region)
    → get_process k pid ≡ some c
    → c.space ≡ create_address_space old_free old_stack
    → (prog : IsProgram (copied image old len) len)
    → mapping 0x2000_0000 ((len + page_size) / page_size) ≡ returns new
    → mapping 0x4000_0000 (pages_of prog.memsz) ≡ returns stale
    → (k' : Kernel) × (execve_elf old mapping k (some pid) (some image) len ≡ returns (0, k'))
      × (get_process k' pid
          ≡ some (record c {
            registers = record c.registers { eip = prog.entry };
            space = with_program old_free old_stack (pages_of prog.memsz) k.next_backing;
          }))
      × (k'.memory k.next_backing
          ≡ bytes_from image prog.offset prog.filesz ++ drop prog.filesz stale)
unfolding execve_elf
execve_loads old mapping stale new k pid image len c old_free old_stack found fresh prog copy maps =
    (
      set_eip (placed old_free old_stack k1 pid pages segment) pid prog.entry,
      rw (long, found, copy, deleted)
          (load_program_lem image old mapping stale len old_free old_stack k1 pid c found1 fresh
            prog maps),
      find-update_context pid
          (λ c. record c { registers = record c.registers { eip = prog.entry } })
          (placed old_free old_stack k1 pid pages segment).contexts placed_context same_pid
          (find-update_context pid (λ c. record c { space = program }) k1.contexts c same_pid
            found1),
      rw (==_refl k.next_backing) refl,
    )
  where
    pages : ℕ
    pages = pages_of prog.memsz

    segment : List ℕ
    segment = bytes_from image prog.offset prog.filesz ++ drop prog.filesz stale

    program : List Region
    program = with_program old_free old_stack pages k.next_backing

    placed_context : Context
    placed_context = record c { space = program }

    k1 : Kernel
    k1 = put_space k pid c.space

    same_pid : c.pid ≡ pid
    same_pid = find_context_pid pid k.contexts c found

    found1 : get_process k1 pid ≡ some c
    found1 = find-update_context pid (λ d. record d { space = c.space }) k.contexts c same_pid found

    long : leb 0x2000_0000 len ≡ false
    long = not_long len prog.short

    deleted : delete_core (suc (length c.space)) c.space 0 ≡ returns c.space
    deleted = nothing_deleted old_free old_stack c.space fresh
