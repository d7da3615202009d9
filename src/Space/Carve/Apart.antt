-- ===== src/Space/Carve/Apart.antt =====
-- A new region that lies within one free or used region splits it, and all others stay.
use akaris_old.Base.{
  ℕ, suc, ◌+◌, ◌-◌, ◌*◌, ◌/◌, ◌≤◌, ◌<◌, ◌≡◌, ◌≢◌, refl, ap, ◌∙◌, inr, List, [], ◌∷◌, ◌++◌, arith,
  returns, length, get_elem?, page_size, length-append, get_elem?-middle, set-middle, ==_ne,
}
use akaris_old.State.{Region, RegionType}
use akaris_old.Space.Carve.{
  region_stop, insert_after, below_part, above_part, carve, create_region_at,
}
use akaris_old.Space.Carve.Walk.{
  AllApart, IsApart, insert_after-middle, carve-skip, carve-pass, carve-split, carve-front,
}

get_elem?-append_right :
    (xs zs : List Region) (j : ℕ) → get_elem? (xs ++ zs) (length xs + j) ≡ get_elem? zs j
get_elem?-append_right [] zs j = ap (get_elem? zs) (omega arith)
get_elem?-append_right (x ∷ xs) zs j =
    ap (get_elem? (x ∷ (xs ++ zs))) {y = suc (length xs + j)} (omega arith)
    ∙ get_elem?-append_right xs zs j

-- The region that create_region makes.
abbrev pub made : (addr len : ℕ) → RegionType → (attributes parameter backing : ℕ) → Region
made addr len type attributes parameter backing = record {
  virtual_address = addr;
  length = len;
  type = type;
  attributes = attributes;
  parameter = parameter;
  backing = backing;
}

module _ (xs : List Region) (m : Region) (ys : List Region) (addr len : ℕ)
    (ordered : addr ≤ addr + len * page_size) (left : AllApart addr (addr + len * page_size) xs)
    (right : AllApart addr (addr + len * page_size) ys) where
  abbrev end : ℕ
  end = addr + len * page_size

  -- The rounds that are left when the loop comes to `m`.
  abbrev spare : ℕ
  spare = length ys + 1 + suc (length xs + length ys)

  reach-middle :
      carve (2 * length (xs ++ m ∷ ys) + 1) (xs ++ m ∷ ys) 0 addr end
      ≡ carve (suc spare) (xs ++ m ∷ ys) (length xs) addr end
  reach-middle =
      carve-skip addr end ordered (suc spare) (2 * length (xs ++ m ∷ ys) + 1) (length xs) 0
        (xs ++ m ∷ ys) xs (m ∷ ys) (λ j. ap (get_elem? (xs ++ m ∷ ys)) (omega arith)) left
        (omega (arith, length-append xs (m ∷ ys))) (omega arith)

  pass-rest :
      (n : Region) → carve spare (xs ++ n ∷ ys) (suc (length xs)) addr end ≡ returns (xs ++ n ∷ ys)
  pass-rest n =
      carve-pass addr end ordered (1 + length xs + length ys) spare (suc (length xs)) (xs ++ n ∷ ys)
        ys
        (λ j.
          ap (get_elem? (xs ++ n ∷ ys)) (omega arith) ∙ get_elem?-append_right xs (n ∷ ys) (suc j))
        right (omega arith)

  pass-two :
      (n o : Region)
      → IsApart addr end o
      → carve spare (xs ++ n ∷ o ∷ ys) (suc (length xs)) addr end ≡ returns (xs ++ n ∷ o ∷ ys)
  pass-two n o h =
      carve-pass addr end ordered (length xs + length ys) spare (suc (length xs)) (xs ++ n ∷ o ∷ ys)
        (o ∷ ys)
        (λ j.
          ap (get_elem? (xs ++ n ∷ o ∷ ys)) (omega arith)
          ∙ get_elem?-append_right xs (n ∷ o ∷ ys) (suc j))
        (h, right) (omega arith)

  -- A region that reaches below and above the new one by a page or more is split around it; the
  -- regions that do not meet it stay, and it stands first.
  pub create_region_at-split :
      (type : RegionType) (attributes parameter backing : ℕ)
      → addr ≢ 0
      → m.virtual_address < addr
      → end + page_size ≤ region_stop m
      → create_region_at (xs ++ m ∷ ys) addr len type attributes parameter backing
        ≡ returns (
            made addr len type attributes parameter backing
            ∷ (xs ++ below_part m addr ∷ above_part m end ∷ ys))
  unfolding create_region_at
  create_region_at-split type attributes parameter backing nz l u =
      rw
        (
          create_region_at,
          ==_ne addr 0 nz,
          reach-middle
              ∙ carve-split addr end ordered spare (length xs) (xs ++ m ∷ ys) m
                  (get_elem?-middle xs m ys) l (omega arith)
              ∙ ap
                  (λ s.
                    carve spare (insert_after s (length xs) (above_part m end)) (suc (length xs))
                      addr end)
                  (set-middle xs m (below_part m addr) ys)
              ∙ ap (λ s. carve spare s (suc (length xs)) addr end)
                  (insert_after-middle xs (below_part m addr) (above_part m end) ys)
              ∙ pass-two (below_part m addr) (above_part m end) (omega arith, inr (omega arith)),
        )
        refl

  -- A longer region that begins where the new one does is cut at its front.
  pub create_region_at-front :
      (type : RegionType) (attributes parameter backing : ℕ)
      → addr ≢ 0
      → 0 < len
      → m.virtual_address ≡ addr
      → end < region_stop m
      → create_region_at (xs ++ m ∷ ys) addr len type attributes parameter backing
        ≡ returns (
            made addr len type attributes parameter backing
            ∷ (xs
                ++ record m {
                  length = m.length - (end - m.virtual_address) / page_size;
                  virtual_address = end;
                }
                  ∷ ys))
  unfolding create_region_at
  create_region_at-front type attributes parameter backing nz some_pages e u =
      rw
        (
          create_region_at,
          ==_ne addr 0 nz,
          reach-middle
              ∙ carve-front addr end ordered spare (length xs) (xs ++ m ∷ ys) m
                  (get_elem?-middle xs m ys) e (omega arith) u
              ∙ ap (λ s. carve spare s (suc (length xs)) addr end)
                  (set-middle xs m
                    (record m {
                      length = m.length - (end - m.virtual_address) / page_size;
                      virtual_address = end;
                    })
                    ys)
              ∙ pass-rest (record m {
                length = m.length - (end - m.virtual_address) / page_size;
                virtual_address = end;
              }),
        )
        refl
