-- ===== src/Space.antt =====
-- Address spaces (sys/i386/context.c) as lists of regions: the search for the region of an
-- address, the carving of a new region, the deletion that merges free neighbours, and cloning.
-- The page tables behind the regions are not part of this model.
pub mod Carve
pub mod Clone
mod Tests
use akaris_old.Base.{
  ℕ, zero, suc, ◌+◌, ◌-◌, ◌*◌, ◌<◌, Bool, true, false, ◌&&◌, Option, none, some, List, [], ◌∷◌, ltb,
  leb, ◌==◌, if◌then◌else◌, Outcome, returns, fault, hang, ◌>>=◌, page_size, get_elem?, set,
}
use akaris_old.State.{Region, RegionType, free, is_free, is_ipc}

-- What map_user_region_to_physical makes of the pages of a region: the bytes that the frames held
-- before. It does not return where frames or kernel pages run out, or where a page table is written
-- that the kernel does not reach.
abbrev pub Mapping : Type 0
Mapping = (virtual_address pages : ℕ) → Outcome (List ℕ)

abbrev pub in_region : ℕ → Region → Bool
in_region addr m = leb m.virtual_address addr && ltb addr (m.virtual_address + page_size * m.length)

abbrev pub shift : Option ℕ → Option ℕ
shift none = none
shift (some i) = some (suc i)

-- determine_memory_region: the place in the list of the first region that holds the address.
unfoldable pub determine_memory_region : List Region → ℕ → Option ℕ
determine_memory_region [] addr = none
determine_memory_region (m ∷ ms) addr =
    if in_region addr m then some 0 else shift (determine_memory_region ms addr)

-- One round of the search of create_region: `smallest` so far, and the region at place `i`.
abbrev pub better : ℕ → Region → Option (ℕ × ℕ) → ℕ → Option (ℕ × ℕ)
better length m none i = if is_free m.type && leb length m.length then some (i, m.length) else none
better length m (some (j, best)) i =
    if is_free m.type && leb length m.length && leb m.length best
    then some (i, m.length)
    else some (j, best)

-- The search of create_region for the smallest free block, the last one among equals.
unfoldable pub find_smallest : ℕ → List Region → Option (ℕ × ℕ) → ℕ → Option (ℕ × ℕ)
find_smallest length [] smallest i = smallest
find_smallest length (m ∷ ms) smallest i =
    find_smallest length ms (better length m smallest i) (suc i)

-- create_region with `addr == 0`: the new region takes the end of the smallest free block, and
-- stands first in the list. `none` is its NULL.
unfoldable pub create_region :
    List Region
    → (length : ℕ) → RegionType
    → (attributes parameter backing : ℕ) → Option (List Region)
unfolding find_smallest
create_region space length type attributes parameter backing =
    elim (find_smallest length space none 0) [
      | none ↦ none
      | some (i, best) ↦ elim (get_elem? space i) [
        | none ↦ none
        | some smallest ↦
            let rest = smallest.length - length in
            some (
              record {
                virtual_address = smallest.virtual_address + rest * page_size;
                length = length;
                type = type;
                attributes = attributes;
                parameter = parameter;
                backing = backing;
              }
              ∷ set space i (record smallest { length = rest }))
      ]
    ]

abbrev pub remove_at : ℕ → List Region → List Region
remove_at i [] = []
remove_at zero (m ∷ ms) = ms
remove_at (suc i) (m ∷ ms) = m ∷ remove_at i ms

-- The place of a region once the one at place `gone` has left the list.
abbrev pub place_after : (gone i : ℕ) → ℕ
place_after gone i = if ltb gone i then i - 1 else i

-- The second half of delete_region: merge with a free right neighbour, and become free. A NULL
-- from determine_memory_region is dereferenced.
unfoldable pub merge_right : List Region → ℕ → Outcome (List Region)
unfolding determine_memory_region
merge_right space i = elim (get_elem? space i) [
  | none ↦ fault
  | some mr ↦
      elim (determine_memory_region space (mr.virtual_address + page_size * mr.length + 1)) [
        | none ↦ fault
        | some j ↦ elim (get_elem? space j) [
          | none ↦ fault
          | some cur ↦
              if is_free cur.type
              then returns (
                  remove_at j
                    (set space i (record mr { length = mr.length + cur.length; type = free })))
              else returns (set space i (record mr { type = free }))
        ]
      ]
]

-- delete_region of the region at place `i`: merge with a free left neighbour, then to the right.
unfoldable pub delete_region : List Region → ℕ → Outcome (List Region)
unfolding determine_memory_region merge_right
delete_region space i = elim (get_elem? space i) [
  | none ↦ fault
  | some mr ↦ elim (determine_memory_region space (mr.virtual_address - 1)) [
    | none ↦ fault
    | some j ↦ elim (get_elem? space j) [
      | none ↦ fault
      | some cur ↦
          if is_free cur.type
          then merge_right
              (remove_at i (set space j (record cur { length = cur.length + mr.length })))
              (place_after i j)
          else merge_right space i
    ]
  ]
]

-- clone_region into a place of the kernel's choice. A NULL from create_region is dereferenced.
unfoldable pub clone_region : List Region → Region → Outcome (List Region)
unfolding create_region
clone_region space region =
    elim (create_region space region.length region.type region.attributes region.parameter
      region.backing) [ none ↦ fault | some space' ↦ returns space' ]

-- The walk to the IPC region of a FIFO, from `first->next` to the sentinel.
unfoldable pub find_ipc : ℕ → List Region → Option ℕ
find_ipc fifo_id [] = none
find_ipc fifo_id (m ∷ ms) =
    if is_ipc m.type && (m.parameter == fifo_id) then some 0 else shift (find_ipc fifo_id ms)
