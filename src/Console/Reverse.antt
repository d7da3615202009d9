-- ===== src/Console/Reverse.antt =====
-- The loop of itoa that reverses its buffer in place.
use mathlib.Core.List.{append_assoc, append-nil}
use akaris_old.Base.{
  ℕ, zero, suc, ◌+◌, ◌-◌, ◌*◌, ◌≤◌, ◌≡◌, refl, sym, ap, ◌∙◌, ◌⊎◌, inl, inr, List, [], ◌∷◌, ◌++◌,
  arith, length, get_or, set, length-append, get_or-middle, set-middle, le→ltb, lt→ltb,
}
use akaris_old.Console.Numbers.{swap_ends}

abbrev pub rev : List ℕ → List ℕ
rev [] = []
rev (x ∷ xs) = rev xs ++ x ∷ []

rev-snoc : (xs : List ℕ) (y : ℕ) → rev (xs ++ y ∷ []) ≡ y ∷ rev xs
rev-snoc [] y = refl
rev-snoc (x ∷ xs) y = ap (λ l. l ++ x ∷ []) (rev-snoc xs y)

-- A list of two or more has two ends.
split_ends : (x : ℕ) (xs : List ℕ) → (xs ≡ []) ⊎ ((m : List ℕ) × (y : ℕ) × (xs ≡ m ++ y ∷ []))
split_ends x [] = inl refl
split_ends x (z ∷ zs) = elim (split_ends z zs) [
  | inl e ↦ inr ([], z, ap (λ l. z ∷ l) e)
  | inr (m, y, e) ↦ inr (z ∷ m, y, ap (λ l. z ∷ l) e)
]

swap_stop : (n : ℕ) (buf : List ℕ) (p q : ℕ) → q ≤ p → swap_ends n buf p q ≡ buf
unfolding swap_ends
swap_stop zero buf p q h = refl
swap_stop (suc n) buf p q h = rw (swap_ends, le→ltb p q h) refl

-- One round exchanges the ends of the middle part.
exchange :
    (ls m rs : List ℕ) (x y q : ℕ)
    → q ≡ length ls + suc (length m)
    → (let buf = ls ++ (x ∷ (m ++ y ∷ rs)) in
        set (set buf (length ls) (get_or buf q 0)) q (get_or buf (length ls) 0)
        ≡ ls ++ (y ∷ (m ++ x ∷ rs)))
exchange ls m rs x y q e =
    rw (last x y, get_or-middle ls x (m ++ y ∷ rs) 0, set-middle ls x y (m ++ y ∷ rs))
      (ap (λ l. set l q x) (sym (append_assoc ls (y ∷ m) (y ∷ rs)))
        ∙ ap (λ t. set ((ls ++ y ∷ m) ++ y ∷ rs) t x) (place y)
        ∙ set-middle (ls ++ y ∷ m) y x rs
        ∙ append_assoc ls (y ∷ m) (x ∷ rs))
  where
    place : (z : ℕ) → q ≡ length (ls ++ z ∷ m)
    place z = omega (arith, e, length-append ls (z ∷ m))

    last : (z w : ℕ) → get_or (ls ++ (z ∷ (m ++ w ∷ rs))) q 0 ≡ w
    last z w =
        ap (λ l. get_or l q 0) (sym (append_assoc ls (z ∷ m) (w ∷ rs)))
        ∙ ap (λ t. get_or ((ls ++ z ∷ m) ++ w ∷ rs) t 0) (place z)
        ∙ get_or-middle (ls ++ z ∷ m) w rs 0

-- The same with the part between the ends as one list.
exchange_ends :
    (ls xs m rs : List ℕ) (x y p q : ℕ)
    → xs ≡ m ++ y ∷ []
    → p ≡ length ls
    → q ≡ length ls + suc (length m)
    → (let buf = ls ++ (x ∷ (xs ++ rs)) in
        set (set buf p (get_or buf q 0)) q (get_or buf p 0) ≡ (ls ++ y ∷ []) ++ (m ++ x ∷ rs))
exchange_ends ls xs m rs x y p q e ep eq =
    ap (λ l. set (set l p (get_or l q 0)) q (get_or l p 0))
      (ap (λ l. ls ++ (x ∷ (l ++ rs))) e ∙ ap (λ l. ls ++ (x ∷ l)) (append_assoc m (y ∷ []) rs))
    ∙ ap
        (λ t.
          let buf = ls ++ (x ∷ (m ++ y ∷ rs)) in
          set (set buf t (get_or buf q 0)) q (get_or buf t 0))
        ep
    ∙ exchange ls m rs x y q eq
    ∙ sym (append_assoc ls (y ∷ []) (m ++ x ∷ rs))

rev_ends :
    (ls xs m rs : List ℕ) (x y : ℕ)
    → xs ≡ m ++ y ∷ []
    → (ls ++ y ∷ []) ++ (rev m ++ x ∷ rs) ≡ ls ++ (rev (x ∷ xs) ++ rs)
rev_ends ls xs m rs x y e =
    append_assoc ls (y ∷ []) (rev m ++ x ∷ rs)
    ∙ ap (λ l. ls ++ (y ∷ l)) (sym (append_assoc (rev m) (x ∷ []) rs))
    ∙ ap (λ l. ls ++ ((l ++ x ∷ []) ++ rs)) (sym (ap rev e ∙ rev-snoc m y))

swap_middle :
    (n : ℕ) (ls mid rs : List ℕ) (p q : ℕ)
    → length mid ≤ 2 * n + 1
    → p ≡ length ls
    → q ≡ length ls + length mid - 1
    → swap_ends n (ls ++ (mid ++ rs)) p q ≡ ls ++ (rev mid ++ rs)
unfolding swap_ends
swap_middle n ls [] rs p q h ep eq = swap_stop n (ls ++ rs) p q (omega arith)
swap_middle zero ls (x ∷ []) rs p q h ep eq = refl
swap_middle zero ls (x ∷ y ∷ xs) rs p q h ep eq = absurd (omega arith)
swap_middle (suc n) ls (x ∷ xs) rs p q h ep eq = elim (split_ends x xs) [
  | inl e ↦
      swap_stop (suc n) (ls ++ (x ∷ (xs ++ rs))) p q (omega (arith, ap length e))
      ∙ ap (λ l. ls ++ (x ∷ (l ++ rs))) e
      ∙ sym (ap (λ l. ls ++ ((rev l ++ x ∷ []) ++ rs)) e)
  | inr (m, y, e) ↦
      rw (swap_ends, lt→ltb p q (omega (arith, count m y e)))
        (ap (λ l. swap_ends n l (p + 1) (q - 1))
            (exchange_ends ls xs m rs x y p q e ep (omega (arith, count m y e)))
          ∙ swap_middle n (ls ++ y ∷ []) m (x ∷ rs) (p + 1) (q - 1) (omega (arith, count m y e))
              (omega (arith, length-append ls (y ∷ [])))
              (omega (arith, count m y e, length-append ls (y ∷ [])))
          ∙ rev_ends ls xs m rs x y e)
]
  where
    count : (m : List ℕ) (y : ℕ) → xs ≡ m ++ y ∷ [] → length xs ≡ suc (length m)
    count m y e = omega (arith, ap length e, length-append m (y ∷ []))

pub swap_ends-rev :
    (n : ℕ) (buf : List ℕ) → length buf ≤ 2 * n + 1 → swap_ends n buf 0 (length buf - 1) ≡ rev buf
swap_ends-rev n buf h =
    ap (λ l. swap_ends n l 0 (length buf - 1)) (sym (append-nil buf))
    ∙ swap_middle n [] buf [] 0 (length buf - 1) h refl (omega arith)
    ∙ append-nil (rev buf)
