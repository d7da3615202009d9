-- ===== src/Slab.antt =====
-- The slab allocator of sys/common/slab.c. A page of objects is named by its address, and 0 is NULL.
-- The words are the first four bytes of each object, where a free object keeps the place of the next
-- one; -1 is 0xFFFFFFFF.
pub mod Page
pub mod Release
pub mod NewPage
pub mod Strand
mod Tests
use akaris_old.Base.{
  ℕ, zero, suc, ◌+◌, ◌-◌, ◌*◌, ◌/◌, Bool, true, false, not, Option, none, some, List, [], ◌∷◌, ltb,
  ◌==◌, if◌then◌else◌, Outcome, returns, fault, hang, ◌>>=◌, get_elem?, set, add32, sub32,
  page_size,
}
use akaris_old.State.{test_and_set}
use akaris_old.Frames.{Domain, spin}
use akaris_old.Pages.{Tables, frame_bits, get_usable_kernel_virtual_page}

-- sbuf_t
pub record Sbuf : Type 0 where
  pub num_free_objects : ℕ
  pub first_free : ℕ
  pub next : ℕ

-- slab_entry_t
pub record Slab : Type 0 where
  pub lock : ℕ
  pub num_objects : ℕ
  pub empty : ℕ
  pub partial : ℕ
  pub full : ℕ
  pub size : ℕ

-- The kernel memory that the slabs use, and the allocators of its pages.
pub record Store : Type 0 where
  pub sbufs : ℕ → Sbuf
  pub words : ℕ → ℕ
  pub tables : Tables
  pub domain : Domain

-- NULL and -1
abbrev pub null : ℕ
null = 0

abbrev pub minus_one : ℕ
minus_one = 0xFFFF_FFFF

-- `(PAGE_SIZE - sizeof (sbuf_t)) / size`
unfoldable pub capacity : (size : ℕ) → ℕ
capacity size = (page_size - 12) / size

-- The object at the place `i` of a page.
abbrev pub object : (page size i : ℕ) → ℕ
object page size i = page + 12 + i * size

abbrev pub put_sbuf : Store → (page : ℕ) → (Sbuf → Sbuf) → Store
put_sbuf s page f = record s { sbufs = λ q. if q == page then f (s.sbufs page) else s.sbufs q }

abbrev pub put_word : Store → (address value : ℕ) → Store
put_word s address value = record s { words = λ a. if a == address then value else s.words a }

-- The loop that makes a list of the free objects of a page, for the places from `i` on.
unfoldable pub link_objects : (count i : ℕ) → (page size objects : ℕ) → Store → Store
link_objects zero i page size objects s = s
link_objects (suc n) i page size objects s =
    link_objects n (i + 1) page size objects
      (put_word s (object page size i) (if i == objects - 1 then minus_one else i + 1))

-- A page from the kernel, with its header and its list.
unfoldable pub new_sbuf : (size : ℕ) → Store → Outcome (ℕ × Store)
unfolding capacity link_objects get_usable_kernel_virtual_page
new_sbuf size s = get_usable_kernel_virtual_page s.tables s.domain >>= λ (page, tables, domain).
    let s' =
      put_sbuf (record s { tables = tables; domain = domain }) page
        (λ b. record { num_free_objects = capacity size; first_free = 0; next = null }) in
    returns (page, link_objects (capacity size) 0 page size (capacity size) s')

-- init_slabs. The size is left as it is.
unfoldable pub init_slabs : List Slab → List Slab
init_slabs [] = []
init_slabs (se ∷ ses) =
    record se { lock = 0; num_objects = 0; empty = null; partial = null; full = null }
    ∷ init_slabs ses

-- The first slab with size 0: the place of the one that create_slab takes.
unfoldable pub find_unused : List Slab → Option ℕ
find_unused [] = none
find_unused (se ∷ ses) =
    if se.size == 0 then some 0 else elim (find_unused ses) [ none ↦ none | some c ↦ some (suc c) ]

-- create_slab, with the place of the slab, or NULL. The sizes are not negative.
unfoldable pub create_slab : List Slab → (size : ℕ) → Store → Outcome (Option ℕ × List Slab × Store)
unfolding find_unused new_sbuf
create_slab slabs size s =
    if ltb size 4 then returns (none, slabs, s) else elim (find_unused slabs) [
      | none ↦ returns (none, slabs, s)
      | some c ↦ elim (get_elem? slabs c) [
        | none ↦ fault
        | some se ↦ new_sbuf size s >>= λ (page, s'). returns (
          some c,
          set slabs c (record se {
            size = size;
            empty = page;
            num_objects = 0;
            full = null;
            partial = null;
          }),
          s',
        )
      ]
    ]

-- The page to allocate from; `empty` is written if it is a new one.
unfoldable pub choose_page : Slab → Store → Outcome (ℕ × Slab × Store)
unfolding new_sbuf
choose_page se s =
    if not (se.partial == null)
    then returns (se.partial, se, s)
    else if not (se.empty == null)
    then returns (se.empty, se, s)
    else (new_sbuf se.size s >>= λ (page, s'). returns (page, record se { empty = page }, s'))

-- `if (temp == current) head = temp->next; else while (temp->next != NULL) …`, with the new head.
-- The loop never moves on: it ends in its first round, or not at all.
unfoldable pub take_out : (head current : ℕ) → Store → Outcome (ℕ × Store)
take_out head current s =
    if head == current
    then returns ((s.sbufs head).next, s)
    else if head == null
    then fault
    else if (s.sbufs head).next == null
    then returns (head, s)
    else if (s.sbufs head).next == current
    then returns (head, put_sbuf s head (λ b. record b { next = (s.sbufs b.next).next }))
    else hang

-- The move of the page that an object was taken from to another list.
unfoldable pub file_page : Slab → (current : ℕ) → Store → Outcome (Slab × Store)
unfolding capacity take_out
file_page se current s =
    if (s.sbufs current).num_free_objects == 0
    then (take_out se.partial current s >>= λ (head, s'). returns (
      record se { partial = head; full = current },
      put_sbuf s' current (λ b. record b { next = se.full }),
    ))
    else if (s.sbufs current).num_free_objects == sub32 (capacity se.size) 1
    then (take_out se.empty current s >>= λ (head, s'). returns (
      record se { empty = head; partial = current },
      put_sbuf s' current (λ b. record b { next = se.partial }),
    ))
    else returns (se, s)

-- allocate_from_slab, with the object. The two loops on the lock end after two rounds.
unfoldable pub allocate_from_slab : Slab → Store → Outcome (ℕ × Slab × Store)
unfolding spin choose_page file_page
allocate_from_slab se s = spin 2 se.lock >>= λ l.
    choose_page (record se { lock = l }) s >>= λ (current, se', s').
    let result = object current se'.size (s'.sbufs current).first_free in
    let s'' = put_sbuf s' current (λ b. record b {
      first_free = s'.words result;
      num_free_objects = sub32 b.num_free_objects 1;
    }) in
    file_page (record se' { num_objects = add32 se'.num_objects 1 }) current s'' >>= λ (se'', s3).
    returns (result, record se'' { lock = 0 }, s3)

-- The walk to the page before `sb` in the list from `cur` on.
unfoldable pub find_before : (rounds : ℕ) → Store → (cur sb : ℕ) → Outcome ℕ
find_before zero s cur sb = hang
find_before (suc n) s cur sb =
    let rest = find_before n s (s.sbufs cur).next sb in
    if cur == null then returns null else if (s.sbufs cur).next == sb then returns cur else rest

-- The release of the object at the place `index` of the page `sb`.
unfoldable pub put_back : (rounds : ℕ) → Slab → (sb index obj : ℕ) → Store → Outcome (Slab × Store)
unfolding capacity find_before
put_back rounds se sb index obj s =
    let s1 = put_word s obj (s.sbufs sb).first_free in
    let s2 =
      put_sbuf s1 sb
        (λ b. record b { first_free = index; num_free_objects = add32 b.num_free_objects 1 }) in
    let se' = record se { num_objects = sub32 se.num_objects 1 } in
    if (s2.sbufs sb).num_free_objects == capacity se.size
    then (find_before rounds s2 se.partial sb >>= λ cur.
        if cur == null
        then returns (se', s2)
        else (let s3 = put_sbuf s2 cur (λ b. record b { next = (s2.sbufs sb).next }) in
            returns
              (record se' { empty = sb }, put_sbuf s3 sb (λ b. record b { next = se.empty }))))
    else returns (se', s2)

-- deallocate_from_slab. The lock is not taken. `rounds` is more than the pages of the list.
unfoldable pub deallocate_from_slab :
    (rounds : ℕ) → Slab → (obj : ℕ) → Store → Outcome (Slab × Store)
unfolding put_back
deallocate_from_slab rounds se obj s =
    let sb = frame_bits obj in put_back rounds se sb ((obj - sb - 12) / se.size) obj s
