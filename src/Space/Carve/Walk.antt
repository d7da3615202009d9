-- ===== src/Space/Carve/Walk.antt =====
-- The walk of create_region over the regions: those that do not meet the new one are passed, and the
-- one around it is split.
use mathlib.Core.List.{append-nil}
use akaris_old.Base.{
  ℕ, suc, ◌+◌, ◌-◌, ◌/◌, ◌≤◌, ◌<◌, ◌≡◌, refl, ap, ap₂, sym, ◌∙◌, ◌⊎◌, inl, inr, true, false, ◌&&◌,
  none, some, List, [], ◌∷◌, ◌++◌, ltb, leb, arith, returns, length, get_elem?, set, page_size,
}
use akaris_old.State.{Region}
use akaris_old.Space.Carve.{region_stop, insert_after, below_part, above_part, carve}

-- The region has a page, and none of them lies between `addr` and `stop`.
abbrev pub IsApart : (addr stop : ℕ) → Region → Type 0
IsApart addr stop m = (0 < m.length) × ((region_stop m ≤ addr) ⊎ (stop ≤ m.virtual_address))

abbrev pub AllApart : (addr stop : ℕ) → List Region → Type 0
AllApart addr stop [] = Unit {0}
AllApart addr stop (m ∷ ms) = IsApart addr stop m × AllApart addr stop ms

get_elem?-end : (xs : List Region) → get_elem? xs (length xs) ≡ none
get_elem?-end [] = refl
get_elem?-end (x ∷ xs) = get_elem?-end xs

pub insert_after-middle :
    (xs : List Region) (m n : Region) (ys : List Region)
    → insert_after (xs ++ m ∷ ys) (length xs) n ≡ xs ++ m ∷ n ∷ ys
insert_after-middle [] m n ys = refl
insert_after-middle (x ∷ xs) m n ys = ap (λ l. x ∷ l) (insert_after-middle xs m n ys)

module _ (addr stop : ℕ) (ordered : addr ≤ stop) where
  tests-apart :
      (m : Region)
      → IsApart addr stop m
      → ((leb addr m.virtual_address && leb (region_stop m) stop) ≡ false)
        × ((leb m.virtual_address addr && leb (region_stop m) stop && ltb addr (region_stop m))
            ≡ false)
        × ((ltb stop (region_stop m) && leb addr m.virtual_address && ltb m.virtual_address stop)
            ≡ false)
        × ((ltb m.virtual_address addr && ltb stop (region_stop m)) ≡ false)
  tests-apart m (p, inl l) = (ground arith, ground arith, ground arith, ground arith)
  tests-apart m (p, inr l) = (ground arith, ground arith, ground arith, ground arith)

  carve-apart :
      (n : ℕ) (space : List Region) (i : ℕ) (m : Region)
      → get_elem? space i ≡ some m
      → IsApart addr stop m
      → carve (suc n) space i addr stop ≡ carve n space (suc i) addr stop
  unfolding carve
  carve-apart n space i m e h = let (a, b, c, d) = tests-apart m h in rw (carve, e, a, b, c, d) refl

  -- The regions from the place `i` on that do not meet the new one are passed.
  pub carve-skip :
      (n m k i : ℕ) (space xs zs : List Region)
      → ((j : ℕ) → get_elem? space (i + j) ≡ get_elem? (xs ++ zs) j)
      → AllApart addr stop xs
      → m ≡ length xs + n
      → k ≡ i + length xs
      → carve m space i addr stop ≡ carve n space k addr stop
  carve-skip n m k i space [] zs at h em ek =
      ap₂ (λ a b. carve a space b addr stop) (omega arith) (omega arith)
  carve-skip n m k i space (x ∷ xs) zs at (h, hs) em ek =
      ap (λ a. carve a space i addr stop) {y = suc (length xs + n)} (omega arith)
      ∙ carve-apart (length xs + n) space i x (ap (get_elem? space) (omega arith) ∙ at 0) h
      ∙ carve-skip n (length xs + n) k (suc i) space xs zs
          (λ j. ap (get_elem? space) (omega arith) ∙ at (suc j)) hs refl (omega arith)

  carve-end :
      (n i : ℕ) (space : List Region)
      → get_elem? space i ≡ none
      → carve (suc n) space i addr stop ≡ returns space
  unfolding carve
  carve-end n i space e = rw (carve, e) refl

  pub carve-pass :
      (n m i : ℕ) (space xs : List Region)
      → ((j : ℕ) → get_elem? space (i + j) ≡ get_elem? xs j)
      → AllApart addr stop xs
      → m ≡ length xs + suc n
      → carve m space i addr stop ≡ returns space
  carve-pass n m i space xs at h em =
      carve-skip (suc n) m (i + length xs) i space xs []
        (λ j. at j ∙ ap (λ l. get_elem? l j) (sym (append-nil xs))) h em refl
      ∙ carve-end n (i + length xs) space (at (length xs) ∙ get_elem?-end xs)

  pub carve-split :
      (n i : ℕ) (space : List Region) (m : Region)
      → get_elem? space i ≡ some m
      → m.virtual_address < addr
      → stop < region_stop m
      → carve (suc n) space i addr stop
        ≡ carve n
            (insert_after (set space i (below_part m addr)) i (above_part m stop))
            (suc i)
            addr
            stop
  unfolding carve
  carve-split n i space m e l u = rw (carve, e, a, b, c, d) refl
    where
      a : (leb addr m.virtual_address && leb (region_stop m) stop) ≡ false
      a = ground arith

      b :
          (leb m.virtual_address addr && leb (region_stop m) stop && ltb addr (region_stop m))
          ≡ false
      b = ground arith

      c :
          (ltb stop (region_stop m) && leb addr m.virtual_address && ltb m.virtual_address stop)
          ≡ false
      c = ground arith

      d : (ltb m.virtual_address addr && ltb stop (region_stop m)) ≡ true
      d = ground arith

  pub carve-front :
      (n i : ℕ) (space : List Region) (m : Region)
      → get_elem? space i ≡ some m
      → m.virtual_address ≡ addr
      → addr < stop
      → stop < region_stop m
      → carve (suc n) space i addr stop
        ≡ carve n
            (set space i (record m {
              length = m.length - (stop - m.virtual_address) / page_size;
              virtual_address = stop;
            }))
            (suc i)
            addr
            stop
  unfolding carve
  carve-front n i space m e s l u = rw (carve, e, a, b, c) refl
    where
      a : (leb addr m.virtual_address && leb (region_stop m) stop) ≡ false
      a = ground arith

      b :
          (leb m.virtual_address addr && leb (region_stop m) stop && ltb addr (region_stop m))
          ≡ false
      b = ground arith

      c :
          (ltb stop (region_stop m) && leb addr m.virtual_address && ltb m.virtual_address stop)
          ≡ true
      c = ground arith
