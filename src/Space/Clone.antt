-- ===== src/Space/Clone.antt =====
-- The region that kfifo_write_fifo clones and deletes again (sys/i386/context.c): the two calls
-- leave the list of regions as it was.
use akaris_old.Base.{
  ℕ, zero, suc, ◌+◌, ◌-◌, ◌*◌, ◌<◌, ◌≤◌, ◌≡◌, refl, ap, ap₂, ◌∙◌, ◌⊎◌, inl, inr, true, false, ◌&&◌,
  Option, none, some, List, [], ◌∷◌, arith, leb, returns, ◌>>=◌, page_size, get_elem?, set,
  Bool-cases,
}
use akaris_old.State.{Region, free, is_free}
use akaris_old.Space.{
  in_region, determine_memory_region, better, find_smallest, remove_at, place_after, merge_right,
  delete_region, clone_region,
}

-- Regions do not overlap, and above each free block stands a region in use: free blocks are merged.
pub record IsSpace (space : List Region) : Type 0 where
  pub disjoint :
      (i addr : ℕ) (m : Region)
      → get_elem? space i ≡ some m
      → in_region addr m ≡ true
      → determine_memory_region space addr ≡ some i
  pub merged :
      (i : ℕ) (m : Region)
      → get_elem? space i ≡ some m
      → is_free m.type ≡ true
      → (j : ℕ) × (r : Region) × (determine_memory_region space
            (m.virtual_address + page_size * m.length + 1)
          ≡ some j)
        × (get_elem? space j ≡ some r)
        × (is_free r.type ≡ false)

-- The search returns a free block that is large enough.
pub find_smallest_lem :
    (length : ℕ) (ms : List Region) (s : Option (ℕ × ℕ)) (n i best : ℕ)
    → find_smallest length ms s n ≡ some (i, best)
    → (s ≡ some (i, best))
      ⊎ ((k : ℕ) × (m : Region) × (i ≡ n + k)
          × (get_elem? ms k ≡ some m)
          × (is_free m.type ≡ true)
          × (length ≤ m.length))
unfolding find_smallest
find_smallest_lem length [] s n i best e = inl e
find_smallest_lem length (m ∷ ms) none n i best e =
    elim (find_smallest_lem length ms (better length m none n) (suc n) i best e) [
      | inl found ↦ inr (0, m, ground arith, refl, ground arith, ground arith)
      | inr (k, r, p, q, f, l) ↦ inr (suc k, r, omega arith, q, f, l)
    ]
find_smallest_lem length (m ∷ ms) (some (j, b)) n i best e =
    elim (find_smallest_lem length ms (better length m (some (j, b)) n) (suc n) i best e) [
      | inl found ↦ elim (Bool-cases (is_free m.type && leb length m.length && leb m.length b)) [
        | inl yes' ↦ inr (0, m, ground arith, refl, ground arith, ground arith)
        | inr no' ↦ inl (ground arith)
      ]
      | inr (k, r, p, q, f, l) ↦ inr (suc k, r, omega arith, q, f, l)
    ]

set-set :
    (ms : List Region) (i : ℕ) (m r : Region) → get_elem? ms i ≡ some m → set (set ms i r) i m ≡ ms
set-set [] i m r e = refl
set-set (x ∷ ms) zero m r e = ground arith
set-set (x ∷ ms) (suc i) m r e = ap (◌∷◌ x) (set-set ms i m r e)

set_self : (ms : List Region) (i : ℕ) (m : Region) → get_elem? ms i ≡ some m → set ms i m ≡ ms
set_self [] i m e = refl
set_self (x ∷ ms) zero m e = ground arith
set_self (x ∷ ms) (suc i) m e = ap (◌∷◌ x) (set_self ms i m e)

get_elem?-set_self :
    (ms : List Region) (i : ℕ) (m r : Region)
    → get_elem? ms i ≡ some m
    → get_elem? (set ms i r) i ≡ some r
get_elem?-set_self [] i m r e = ground arith
get_elem?-set_self (x ∷ ms) zero m r e = refl
get_elem?-set_self (x ∷ ms) (suc i) m r e = get_elem?-set_self ms i m r e

-- A block that shrinks is still found at an address that it keeps.
determine-set :
    (ms : List Region) (i addr : ℕ) (r : Region)
    → determine_memory_region ms addr ≡ some i
    → in_region addr r ≡ true
    → determine_memory_region (set ms i r) addr ≡ some i
unfolding determine_memory_region
determine-set [] i addr r e h = ground arith
determine-set (x ∷ ms) zero addr r e h = ground arith
determine-set (x ∷ ms) (suc i) addr r e h = elim (Bool-cases (in_region addr x)) [
  | inl here ↦ ground arith
  | inr there ↦ ground (arith, determine-set ms i addr r)
]

merge_right-merged :
    (space : List Region) (i j : ℕ) (m r : Region)
    → get_elem? space i ≡ some m
    → is_free m.type ≡ true
    → determine_memory_region space (m.virtual_address + page_size * m.length + 1) ≡ some j
    → get_elem? space j ≡ some r
    → is_free r.type ≡ false
    → merge_right space i ≡ returns space
unfolding merge_right
merge_right-merged space i j m r e f d g u =
    rw (e, merge_right, d, g, u) (ap returns (ap (set space i) (same m f) ∙ set_self space i m e))
  where
    same : (m : Region) → is_free m.type ≡ true → record m { type = free } ≡ m
    same m f = ground arith

delete_region-left :
    (space : List Region) (i j : ℕ) (mr cur : Region)
    → get_elem? space i ≡ some mr
    → determine_memory_region space (mr.virtual_address - 1) ≡ some j
    → get_elem? space j ≡ some cur
    → is_free cur.type ≡ true
    → delete_region space i
      ≡ merge_right
          (remove_at i (set space j (record cur { length = cur.length + mr.length })))
          (place_after i j)
unfolding delete_region
delete_region-left space i j mr cur e d g f = rw (e, delete_region, d, g, f)

module _ (space : List Region) (i : ℕ) (smallest new : Region) where
  abbrev rest : Region
  rest = record smallest { length = smallest.length - new.length }

  -- The address below the carved region lies in what is left of the block.
  below-carved :
      IsSpace space
      → get_elem? space i ≡ some smallest
      → 0 < new.length
      → new.length < smallest.length
      → new.virtual_address ≡ smallest.virtual_address + (smallest.length - new.length) * page_size
      → determine_memory_region (new ∷ set space i rest) (new.virtual_address - 1) ≡ some (suc i)
  unfolding determine_memory_region
  below-carved v e pos lt at = ground (
    arith,
    determine-set space i (new.virtual_address - 1) rest
        (v.disjoint i (new.virtual_address - 1) smallest e (ground arith)) (ground arith),
  )

  -- The deletion of the region that was carved from block `i` gives the block its pages back.
  delete-carved :
      IsSpace space
      → get_elem? space i ≡ some smallest
      → is_free smallest.type ≡ true
      → 0 < new.length
      → new.length < smallest.length
      → new.virtual_address ≡ smallest.virtual_address + (smallest.length - new.length) * page_size
      → delete_region (new ∷ set space i rest) 0 ≡ returns space
  delete-carved v e f pos lt at =
      delete_region-left (new ∷ set space i rest) 0 (suc i) new rest refl
        (below-carved v e pos lt at) (get_elem?-set_self space i smallest rest e) f
      ∙ ap₂ merge_right (restored (omega arith)) place
      ∙ (let (j, r, d, g, u) = v.merged i smallest e f in
          merge_right-merged space i j smallest r e f d g u)
    where
      place : place_after 0 (suc i) ≡ i
      place = ground arith

      grown : (n : ℕ) → n ≡ smallest.length → record rest { length = n } ≡ smallest
      grown n p = ground arith

      restored :
          rest.length + new.length ≡ smallest.length
          → set (set space i rest) i (record rest { length = rest.length + new.length }) ≡ space
      restored p =
          ap (set (set space i rest) i) (grown (rest.length + new.length) p)
          ∙ set-set space i smallest rest e

-- kfifo_write_fifo's pair of calls: wherever the clone fits with a page to spare, it is made, and
-- deleting it, the first region of the list, gives back the list as it was.
pub clone_delete :
    (space : List Region) (region : Region) (i best : ℕ) (smallest : Region)
    → IsSpace space
    → find_smallest region.length space none 0 ≡ some (i, best)
    → get_elem? space i ≡ some smallest
    → 0 < region.length
    → region.length < smallest.length
    → (clone_region space region >>= λ s. delete_region s 0) ≡ returns space
unfolding clone_region
clone_delete space region i best smallest v e g pos lt =
    rw (e, clone_region, g) (delete-carved space i smallest _ v g (chosen-free) pos lt refl)
  where
    chosen-free : is_free smallest.type ≡ true
    chosen-free = elim (find_smallest_lem region.length space none 0 i best e) [
      | inl absent ↦ cc
      | inr (k, m, p, q, f, l) ↦ ground arith
    ]
