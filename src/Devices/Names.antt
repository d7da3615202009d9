-- ===== src/Devices/Names.antt =====
-- A registered name is found under the string that it was copied from.
use akaris_old.Base.{
  ℕ, zero, suc, ◌+◌, ◌-◌, ◌≤◌, ◌<◌, ◌≡◌, ◌≢◌, refl, ◌∙◌, true, List, [], ◌∷◌, ◌++◌, arith, length,
  get_or, tabulate, lt→ltb, le→ltb, sym,
}
use akaris_old.Ring.{memcpy}
use akaris_old.Ring.Copy.{length-memcpy, get_or-memcpy}
use akaris_old.Console.{strlen}
use akaris_old.Console.Strings.{strncmp_equal, strlen_lem}
use akaris_old.Devices.{Devnode, side_by_side, same_name, new_devnode}

-- The string has its terminator at `i`, within the 64 bytes that are compared.
pub record EndsAt (name : ℕ → ℕ) (i : ℕ) : Type 0 where
  pub inside : i < 64
  pub chars : (j : ℕ) → j < i → name j ≢ 0
  pub terminator : name i ≡ 0

get_or-append_left :
    (xs ys : List ℕ) (j : ℕ) → j < length xs → get_or (xs ++ ys) j 0 ≡ get_or xs j 0
get_or-append_left [] ys j h = absurd (omega arith)
get_or-append_left (x ∷ xs) ys zero h = refl
get_or-append_left (x ∷ xs) ys (suc j) h = get_or-append_left xs ys j (omega arith)

get_or-tabulate : (n : ℕ) (f : ℕ → ℕ) (j : ℕ) → j < n → get_or (tabulate n f) j 0 ≡ f j
get_or-tabulate zero f j h = absurd (omega arith)
get_or-tabulate (suc n) f zero h = refl
get_or-tabulate (suc n) f (suc j) h = get_or-tabulate n (λ i. f (suc i)) j (omega arith)

-- The bytes that devnode_register copies.
copied :
    (old : List ℕ) (name : ℕ → ℕ) (i j : ℕ)
    → length old ≡ 64
    → i < 64
    → j ≤ i
    → get_or (memcpy old 0 (tabulate 64 name) 0 (i + 1)) j 0 ≡ name j
copied old name i j h l m =
    ground (arith, get_or-memcpy (i + 1) old 0 (tabulate 64 name) 0 j, get_or-tabulate 64 name j)

-- A node that holds the string, with its terminator, has that name.
same_name_of_bytes :
    (node : Devnode) (name : ℕ → ℕ) (i : ℕ)
    → length node.devname ≡ 64
    → EndsAt name i
    → ((j : ℕ) → j ≤ i → get_or node.devname j 0 ≡ name j)
    → same_name node name ≡ true
unfolding same_name
same_name_of_bytes node name i h ends bytes =
    rw
      (
        same_name,
        strncmp_equal (side_by_side node name) 0 128 64 i (omega arith) ends.inside
            (λ j l. rw (left j (omega arith)) (ends.chars j l))
            (λ j l. left j (omega arith) ∙ sym (right j)) (left i (omega arith) ∙ ends.terminator)
            (right i ∙ ends.terminator),
      )
      refl
  where
    left : (j : ℕ) → j ≤ i → side_by_side node name (0 + j) ≡ name j
    left j l =
        let e : 0 + j ≡ j = omega arith in
        let inside : j < 64 = omega (arith, ends.inside) in
        rw (e, lt→ltb j 128 (omega arith))
          (get_or-append_left node.devname _ j (omega arith) ∙ bytes j l)

    right : (j : ℕ) → side_by_side node name (128 + j) ≡ name j
    right j =
        let e : 128 + j - 128 ≡ j = omega arith in rw (le→ltb (128 + j) 128 (omega arith), e) refl

pub new_devnode-same_name :
    (old : Devnode) (name : ℕ → ℕ) (mypid i : ℕ)
    → length old.devname ≡ 64
    → EndsAt name i
    → same_name (new_devnode old name mypid) name ≡ true
unfolding new_devnode
new_devnode-same_name old name mypid i h ends =
    let counted =
      strlen_lem name 0 64 i ends.inside (λ j l. rw (from_zero j) (ends.chars j l))
        (rw (from_zero i) ends.terminator) in
    same_name_of_bytes (new_devnode old name mypid) name i
      (length-memcpy (strlen name 0 64) old.devname 0 (tabulate 64 name) 0 ∙ h) ends
      (λ j l. rw counted (copied old.devname name i j h ends.inside l))
  where
    from_zero : (j : ℕ) → 0 + j ≡ j
    from_zero j = omega arith
