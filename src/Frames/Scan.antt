-- ===== src/Frames/Scan.antt =====
-- The scans of the allocator: the first word of the bitmap with room, and the lowest clear bit of a
-- word.
use akaris_old.Base.{
  ℕ, zero, suc, ◌+◌, ◌-◌, ◌<◌, ◌≡◌, refl, Bool, true, false, List, [], ◌∷◌, returns, get_or, length,
  arith, Bool-cases, inl, inr,
}
use akaris_old.Frames.{is_full, find_word, find_bit}

pub full_word : (w : List Bool) (r : ℕ) → is_full w ≡ true → get_or w r true ≡ true
unfolding is_full
full_word [] r h = refl
full_word (true ∷ bs) zero h = refl
full_word (true ∷ bs) (suc r) h = full_word bs r h
full_word (false ∷ bs) r h = absurd (ground arith)

-- The lowest clear bit of a word that is not full.
pub record IsLowest (w : List Bool) (j : ℕ) : Type 0 where
  pub inside : j < length w
  pub clear : get_or w j true ≡ false
  pub lowest : (r : ℕ) → r < j → get_or w r true ≡ true

pub find_bit-IsLowest : (w : List Bool) → is_full w ≡ false → IsLowest w (find_bit w)
unfolding is_full find_bit
find_bit-IsLowest [] h = absurd (ground arith)
find_bit-IsLowest (false ∷ bs) h = record {
  inside = omega arith;
  clear = refl;
  lowest = λ r l. absurd (omega arith);
}
find_bit-IsLowest (true ∷ bs) h =
    let rest = find_bit-IsLowest bs h in
    record {
      inside = omega (arith, rest.inside);
      clear = rest.clear;
      lowest = λ r l. below r l rest.lowest;
    }
  where
    below :
        (r : ℕ)
        → r < suc (find_bit bs)
        → ((s : ℕ) → s < find_bit bs → get_or bs s true ≡ true)
        → get_or (true ∷ bs) r true ≡ true
    below zero l f = refl
    below (suc r) l f = f r (omega arith)

-- The first word that is not full, `k` words on from the place `i`.
pub record Finds (ws : List (List Bool)) (n i : ℕ) : Type 0 where
  pub k : ℕ
  pub found : find_word n ws i ≡ returns (i + k)
  pub bounded : k < length ws
  pub room : is_full (get_or ws k []) ≡ false
  pub before : (r : ℕ) → r < k → is_full (get_or ws r []) ≡ true

find_word-room :
    (w : List Bool) (ws : List (List Bool)) (n i : ℕ)
    → is_full w ≡ false
    → find_word (suc n) (w ∷ ws) i ≡ returns (i + 0)
unfolding find_word
find_word-room w ws n i h = ground arith

find_word-full :
    (w : List Bool) (ws : List (List Bool)) (n i k : ℕ)
    → is_full w ≡ true
    → find_word n ws (i + 1) ≡ returns (i + 1 + k)
    → find_word (suc n) (w ∷ ws) i ≡ returns (i + suc k)
unfolding find_word
find_word-full w ws n i k h e = ground arith

pred_suc : (q : ℕ) → suc q - 1 ≡ q
pred_suc q = omega arith

pub find_word-Finds :
    (ws : List (List Bool)) (n i p : ℕ)
    → length ws ≡ n
    → is_full (get_or ws p []) ≡ false
    → Finds ws n i
unfolding find_word is_full
find_word-Finds [] n i p e h = absurd (ground arith)
find_word-Finds (w ∷ ws) zero i p e h = absurd (omega arith)
find_word-Finds (w ∷ ws) (suc n) i p e h = elim (Bool-cases (is_full w)) [
  | inr room ↦ record {
    k = 0;
    found = find_word-room w ws n i room;
    bounded = omega arith;
    room = room;
    before = λ r l. absurd (omega arith);
  }
  | inl full ↦
      let rest = find_word-Finds ws n (i + 1) (p - 1) (omega arith) (later p full h) in
      record {
        k = suc rest.k;
        found = find_word-full w ws n i rest.k full rest.found;
        bounded = omega (arith, rest.bounded);
        room = rest.room;
        before = λ r l. earlier full rest.k rest.before r l;
      }
]
  where
    later :
        (q : ℕ)
        → is_full w ≡ true
        → is_full (get_or (w ∷ ws) q []) ≡ false
        → is_full (get_or ws (q - 1) []) ≡ false
    later zero full g = absurd (ground arith)
    later (suc q) full g = rw (pred_suc q) g

    earlier :
        is_full w ≡ true
        → (k : ℕ) → ((r : ℕ) → r < k → is_full (get_or ws r []) ≡ true)
        → (r : ℕ) → r < suc k
        → is_full (get_or (w ∷ ws) r []) ≡ true
    earlier full k f zero l = full
    earlier full k f (suc r) l = f r (omega arith)
