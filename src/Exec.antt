-- ===== src/Exec.antt =====
-- Program loading: execve_elf of sys/common/process.c and load_modules of sys/i386/cmain.c. The image
-- is copied to 0x20000000 and read there; `old` is what a read behind its end gives, in the rest of the
-- pages that are mapped for it or in other memory. Pages are the bytes behind a region. `mapping` is what map_user_region_to_physical
-- makes of a region's pages: the bytes that the new frames held before, and no return where frames or
-- kernel pages run out; its own model is in Pages/User. The environment is never used but for a write into the copy.
pub mod Effect
pub mod Load
pub mod Boot
pub mod Rounds
mod Tests
use akaris_old.Base.{
  ℕ, zero, suc, ◌+◌, ◌-◌, ◌*◌, ◌/◌, ◌%◌, ◌^◌, Bool, true, false, not, ◌&&◌, ◌||◌, Option, none,
  some, List, [], ◌∷◌, ◌++◌, ◌==◌, ltb, leb, if◌then◌else◌, Outcome, returns, fault, hang, ◌>>=◌,
  length, get_elem?, set, drop, add32, sub32, page_size,
}
use akaris_old.State.{
  Region, RegionType, core, is_free, Context, Kernel, find_context, update_context, get_process,
}
use akaris_old.Space.{Mapping, determine_memory_region, remove_at, place_after, delete_region}
use akaris_old.Space.Carve.{create_region_at}
use akaris_old.Kfifo.{put_space, store_bytes}
use akaris_old.Process.{create_process}

abbrev pub is_core : RegionType → Bool
is_core core = true
is_core _ = false

-- The region that the second half of delete_region takes off the list: the free right neighbour of
-- the region at the place `i`.
unfoldable pub merged_right : List Region → (i : ℕ) → Option ℕ
unfolding determine_memory_region
merged_right space i = elim (get_elem? space i) [
  | none ↦ none
  | some mr ↦
      elim (determine_memory_region space (mr.virtual_address + page_size * mr.length + 1)) [
        | none ↦ none
        | some j ↦ elim (get_elem? space j) [
          | none ↦ none
          | some cur ↦ if is_free cur.type then some j else none
        ]
      ]
]

-- The free right neighbour that delete_region of the region at the place `i` takes off the list; where
-- there is a free left neighbour, the list is without the region by then.
unfoldable pub merged : List Region → (i : ℕ) → Option ℕ
unfolding determine_memory_region merged_right
merged space i = elim (get_elem? space i) [
  | none ↦ none
  | some mr ↦ elim (determine_memory_region space (mr.virtual_address - 1)) [
    | none ↦ none
    | some j ↦ elim (get_elem? space j) [
      | none ↦ none
      | some cur ↦
          if is_free cur.type
          then merged_right
              (remove_at i (set space j (record cur { length = cur.length + mr.length })))
              (place_after i j)
          else merged_right space i
    ]
  ]
]

-- Where the region before the place `i` stands after delete_region of the one at `i`; none if it is
-- taken off the list.
abbrev pub before_place : Option ℕ → (i : ℕ) → Option ℕ
before_place _ zero = none
before_place none (suc i) = some i
before_place (some j) (suc i) = if i == j then none else some (place_after j i)

-- The place of `cur->next` once the region there is deleted. For the first region `cur` is the sentinel.
abbrev pub next_of : (i : ℕ) → Option ℕ → Option ℕ
next_of zero before = some zero
next_of (suc i) none = none
next_of (suc i) (some p) = some (suc p)

-- The first loop of execve_elf; `i` is the place of `cur->next`. The loop goes on from the region
-- there, whatever it is after the deletion: from the last sentinel it follows a NULL pointer.
unfoldable pub delete_core : (rounds : ℕ) → List Region → (i : ℕ) → Outcome (List Region)
unfolding delete_region merged
delete_core zero space i = hang
delete_core (suc n) space i =
    if i == length space then returns space else elim (get_elem? space i) [
      | none ↦ fault
      | some mr ↦
          if is_core mr.type
          then (delete_region space i >>= λ space'.
              elim (next_of i (before_place (merged space i) i)) [
                | none ↦ fault
                | some p ↦ if p == length space' then fault else delete_core n space' (suc p)
              ])
          else delete_core n space (suc i)
    ]

-- Reads through a pointer into the image.
abbrev pub Reader : Type 0
Reader = (offset : ℕ) → Outcome ℕ

-- The copy of the image.
abbrev pub copied : (image : ℕ → ℕ) (old : Reader) (length : ℕ) → Reader
copied image old length i = if ltb i length then returns (image i) else old i

abbrev pub half : Reader → (offset : ℕ) → Outcome ℕ
half r i = r i >>= λ a. r (add32 i 1) >>= λ b. returns (a + 256 * b)

abbrev pub word : Reader → (offset : ℕ) → Outcome ℕ
word r i = half r i >>= λ a. half r (add32 i 2) >>= λ b. returns (a + 65536 * b)

unfoldable pub read_bytes : Reader → (offset n : ℕ) → Outcome (List ℕ)
read_bytes r i zero = returns []
read_bytes r i (suc n) = r i >>= λ b. read_bytes r (add32 i 1) n >>= λ bs. returns (b ∷ bs)

-- The test of e_ident against 0x7F "ELF"; it ends at the first byte that differs.
unfoldable pub has_magic : Reader → (offset : ℕ) → (magic : List ℕ) → Outcome Bool
has_magic r i [] = returns true
has_magic r i (m ∷ ms) = r i >>= λ b. if b == m then has_magic r (i + 1) ms else returns false

abbrev pub magic : List ℕ
magic = 0x7F ∷ 0x45 ∷ 0x4C ∷ 0x46 ∷ []

-- The pages of a segment with its bytes. The pages of a region that does not start on a page boundary
-- are not mapped, and the copy to them faults; so does one that runs on behind the region.
unfoldable pub segment_bytes :
    Reader → (stale : List ℕ) → (offset vaddr filesz pages : ℕ) → Outcome (List ℕ)
unfolding read_bytes
segment_bytes r stale offset vaddr filesz pages =
    if filesz == 0
    then returns stale
    else if not (vaddr % 4096 == 0) || ltb (pages * page_size) filesz
    then fault
    else (read_bytes r offset filesz >>= λ bytes. returns (bytes ++ drop filesz stale))

-- A segment that reaches below the user's memory: it would go over the kernel's 64 MB, which every
-- process shares, or over the copy of the image, which ends at 0x40000000 at the latest.
abbrev pub is_low : (vaddr pages : ℕ) → Bool
is_low vaddr pages = ltb vaddr 0x4000_0000 || ltb (2 ^ 32) (vaddr + pages * page_size)

-- The region of a segment, with its bytes. What becomes of a low segment is outside of the model.
unfoldable pub place_segment :
    Reader → Mapping → Kernel → (pid offset vaddr filesz pages : ℕ) → Outcome Kernel
unfolding find_context update_context create_region_at segment_bytes
place_segment r mapping k pid offset vaddr filesz pages =
    if is_low vaddr pages then fault else elim (get_process k pid) [
      | none ↦ fault
      | some c ↦ create_region_at c.space vaddr pages core 0 0 k.next_backing >>= λ space.
          mapping vaddr pages >>= λ stale.
          segment_bytes r stale offset vaddr filesz pages >>= λ bytes.
          returns (record (store_bytes (put_space k pid space) k.next_backing bytes) {
            next_backing = k.next_backing + 1;
          })
    ]

-- One round of the loop over the program headers.
unfoldable pub load_segment : Reader → Mapping → Kernel → (pid header : ℕ) → Outcome Kernel
unfolding place_segment
load_segment r mapping k pid header = word r header >>= λ p_type.
    if not (p_type == 1)
    then returns k
    else (word r (add32 header 4) >>= λ p_offset. word r (add32 header 8) >>= λ p_vaddr.
        word r (add32 header 16) >>= λ p_filesz. word r (add32 header 20) >>= λ p_memsz.
        place_segment r mapping k pid p_offset p_vaddr p_filesz
          (add32 p_memsz page_size / page_size))

-- The loop: sizeof (Elf32_Phdr) is 32.
unfoldable pub load_segments :
    (phnum : ℕ) → Reader → Mapping → Kernel → (pid header : ℕ) → Outcome Kernel
unfolding load_segment
load_segments zero r mapping k pid header = returns k
load_segments (suc n) r mapping k pid header =
    load_segment r mapping k pid header >>= λ k'. load_segments n r mapping k' pid (add32 header 32)

abbrev pub minus_one : ℕ
minus_one = 2 ^ 32 - 1

abbrev pub set_eip : Kernel → (pid entry : ℕ) → Kernel
set_eip k pid entry = record k {
  contexts =
      update_context pid (λ c. record c { registers = record c.registers { eip = entry } })
        k.contexts;
}

-- The part of execve_elf behind the deletion of the old program.
unfoldable pub load_program : Reader → Mapping → Kernel → (pid : ℕ) → Outcome (ℕ × Kernel)
unfolding has_magic load_segments update_context
load_program r mapping k pid = word r 28 >>= λ e_phoff. has_magic r 0 magic >>= λ valid.
    if not valid
    then returns (minus_one, k)
    else (half r 44 >>= λ e_phnum. load_segments e_phnum r mapping k pid e_phoff >>= λ k'.
        word r 24 >>= λ e_entry. returns (0, set_eip k' pid e_entry))

-- execve_elf; `none` is a NULL pointer.
unfoldable pub execve_elf :
    (old : Reader) (mapping : Mapping)
    → Kernel
    → (cur_process : Option ℕ) → (elf_image : Option (ℕ → ℕ)) → (length : ℕ) → Outcome (ℕ × Kernel)
unfolding find_context delete_core load_program
execve_elf old mapping k none elf_image len = returns (0, k)
execve_elf old mapping k (some pid) none len = returns (0, k)
execve_elf old mapping k (some pid) (some image) len =
    if leb 0x2000_0000 len then returns (minus_one, k) else elim (get_process k pid) [
      | none ↦ fault
      | some c ↦ mapping 0x2000_0000 ((len + page_size) / page_size) >>= λ new.
          delete_core (suc (length c.space)) c.space 0 >>= λ space.
          load_program (copied image old len) mapping (put_space k pid space) pid
    ]

-- module_t: where the module stands, and the bytes there.
pub record Module : Type 0 where
  pub mod_start : ℕ
  pub mod_end : ℕ
  pub bytes : ℕ → ℕ

-- load_modules; what the slab objects held before is the same for each process.
unfoldable pub load_modules :
    (old : Reader) (mapping : Mapping) (context : Context) (old_free old_stack : Region)
    → List Module
    → Kernel
    → Outcome Kernel
unfolding create_process execve_elf
load_modules old mapping context old_free old_stack [] k = returns k
load_modules old mapping context old_free old_stack (m ∷ ms) k =
    let (p, k') = create_process context old_free old_stack k in
    execve_elf old mapping k' (some p) (if m.mod_start == 0 then none else some m.bytes)
      (sub32 m.mod_end m.mod_start)
    >>= λ (code, k''). load_modules old mapping context old_free old_stack ms k''
