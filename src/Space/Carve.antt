-- ===== src/Space/Carve.antt =====
-- create_region at a given address (sys/i386/context.c): the regions that the new one meets are cut,
-- split or deleted first.
mod Walk
pub mod Apart
mod Tests
use akaris_old.Base.{
  ℕ, zero, suc, ◌+◌, ◌-◌, ◌*◌, ◌/◌, Bool, true, false, ◌&&◌, Option, none, some, List, [], ◌∷◌,
  ◌==◌, ltb, leb, if◌then◌else◌, Outcome, returns, fault, hang, ◌>>=◌, length, get_elem?, set,
  page_size,
}
use akaris_old.State.{Region, RegionType, is_free}
use akaris_old.Space.{determine_memory_region, remove_at, place_after, create_region, delete_region}

abbrev pub region_stop : Region → ℕ
region_stop m = m.virtual_address + m.length * page_size

abbrev pub insert_after : List Region → (i : ℕ) → Region → List Region
insert_after [] i m = m ∷ []
insert_after (r ∷ rs) zero m = r ∷ m ∷ rs
insert_after (r ∷ rs) (suc i) m = r ∷ insert_after rs i m

-- The place of a region after the second half of delete_region, at the place `at` of the list; none
-- if it is the neighbour that is merged and freed.
unfoldable pub place_past_right : List Region → (at next : ℕ) → Option ℕ
unfolding determine_memory_region
place_past_right space at next = elim (get_elem? space at) [
  | none ↦ none
  | some mr ↦
      elim (determine_memory_region space (mr.virtual_address + page_size * mr.length + 1)) [
        | none ↦ none
        | some j ↦ elim (get_elem? space j) [
          | none ↦ none
          | some cur ↦
              if is_free cur.type
              then (if j == next then none else some (place_after j next))
              else some next
        ]
      ]
]

-- Where the region behind the place `i` stands after delete_region of the one at `i`.
unfoldable pub next_place : List Region → (i : ℕ) → Option ℕ
unfolding determine_memory_region place_past_right
next_place space i = elim (get_elem? space i) [
  | none ↦ none
  | some mr ↦ elim (determine_memory_region space (mr.virtual_address - 1)) [
    | none ↦ none
    | some j ↦ elim (get_elem? space j) [
      | none ↦ none
      | some cur ↦
          if is_free cur.type
          then place_past_right
              (remove_at i (set space j (record cur { length = cur.length + mr.length })))
              (place_after i j) i
          else place_past_right space i (suc i)
    ]
  ]
]

-- The part of a region below the new one, and the part above it.
abbrev pub below_part : Region → (addr : ℕ) → Region
below_part m addr = record m { length = (addr - m.virtual_address) / page_size }

abbrev pub above_part : Region → (stop : ℕ) → Region
above_part m stop = record m { virtual_address = stop; length = (region_stop m - stop) / page_size }

-- The loop of create_region over the regions from the place `i` on. When the last region of the
-- list is deleted, the loop goes on from the NULL behind the sentinel; when the region behind the
-- deleted one is freed by the merge, from an object that is no region any more.
unfoldable pub carve : (rounds : ℕ) → List Region → (i addr stop : ℕ) → Outcome (List Region)
unfolding delete_region next_place
carve zero space i addr stop = hang
carve (suc n) space i addr stop = elim (get_elem? space i) [
  | none ↦ returns space
  | some cur ↦
      let cur_stop = region_stop cur in
      let deleted = delete_region space i >>= λ space'. elim (get_elem? space (suc i)) [
        | none ↦ fault
        | some next ↦ elim (next_place space i) [
          | none ↦ fault
          | some at ↦ carve n space' (suc at) addr stop
        ]
      ] in
      let cut_right =
        carve n (set space i (record cur { length = cur.length - (cur_stop - addr) / page_size }))
          (suc i) addr stop in
      let cut_left =
        carve n
          (set space i (record cur {
            length = cur.length - (stop - cur.virtual_address) / page_size;
            virtual_address = stop;
          }))
          (suc i) addr stop in
      let split =
        carve n (insert_after (set space i (below_part cur addr)) i (above_part cur stop)) (suc i)
          addr stop in
      let same = carve n space (suc i) addr stop in
      if leb addr cur.virtual_address && leb cur_stop stop
      then deleted
      else if leb cur.virtual_address addr && leb cur_stop stop && ltb addr cur_stop
      then cut_right
      else if ltb stop cur_stop && leb addr cur.virtual_address && ltb cur.virtual_address stop
      then cut_left
      else if ltb cur.virtual_address addr && ltb stop cur_stop
      then split
      else same
]

-- create_region with an address, which stands first in the list. A region is split once at most, so
-- two rounds for each are enough.
unfoldable pub create_region_at :
    List Region
    → (addr length : ℕ) → RegionType
    → (attributes parameter backing : ℕ) → Outcome (List Region)
unfolding carve create_region
create_region_at space addr len type attributes parameter backing =
    if addr == 0
    then elim (create_region space len type attributes parameter backing) [
      | none ↦ fault
      | some space' ↦ returns space'
    ]
    else (carve (2 * length space + 1) space 0 addr (addr + len * page_size) >>= λ space'. returns (
        record {
          virtual_address = addr;
          length = len;
          type = type;
          attributes = attributes;
          parameter = parameter;
          backing = backing;
        }
        ∷ space'))
