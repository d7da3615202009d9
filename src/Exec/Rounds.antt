-- ===== src/Exec/Rounds.antt =====
-- The loop of execve_elf that deletes the old program (sys/common/process.c) ends: each round passes a
-- region, or merges one away.
use akaris_old.Base.{
  ℕ, zero, suc, ◌+◌, ◌-◌, ◌*◌, ◌≤◌, ◌<◌, ◌≡◌, ◌≢◌, Bool-cases, Option, Option-cases, none, some,
  inl, inr, List, [], ◌∷◌, ◌==◌, if◌then◌else◌, arith, Outcome, returns, fault, hang, ◌>>=◌, length,
  length-set, get_elem?, set, page_size,
}
use akaris_old.State.{Region, free, is_free}
use akaris_old.Space.{determine_memory_region, remove_at, place_after, merge_right, delete_region}
use akaris_old.Exec.{is_core, merged_right, merged, before_place, next_of, delete_core}

-- What is true of the result, where the code does not hang.
abbrev Ends {ℓ} : {A : Type ℓ} → (A → Type 0) → Outcome A → Type 0
Ends P (returns a) = P a
Ends P fault = Unit
Ends P hang = ⊥

below : (l : List Region) (i : ℕ) (r : Region) → get_elem? l i ≡ some r → i < length l
below [] i r e = cc
below (x ∷ l) zero r e = omega arith
below (x ∷ l) (suc i) r e = omega (arith, below l i r e)

length-remove_at : (l : List Region) (i : ℕ) → i < length l → length (remove_at i l) + 1 ≡ length l
length-remove_at [] i h = absurd (omega arith)
length-remove_at (x ∷ l) zero h = omega arith
length-remove_at (x ∷ l) (suc i) h = omega (arith, length-remove_at l i (omega arith))

-- The list is not longer, and shorter where a region is merged away.
abbrev Shrinks : List Region → Option ℕ → List Region → Type 0
Shrinks l none l' = length l' ≤ length l
Shrinks l (some j) l' = length l' + 1 ≤ length l

merge_right-Shrinks :
    (space : List Region) (i : ℕ)
    → Ends (Shrinks space (merged_right space i)) (merge_right space i)
unfolding merge_right merged_right
merge_right-Shrinks space i = elim (Option-cases (get_elem? space i)) [
  | inl e ↦ rw (merge_right, merged_right, e) tt
  | inr (mr, e) ↦
      elim (Option-cases
        (determine_memory_region space (mr.virtual_address + page_size * mr.length + 1))) [
          | inl f ↦ rw (merge_right, merged_right, e, f) tt
          | inr (j, f) ↦ elim (Option-cases (get_elem? space j)) [
            | inl g ↦ rw (merge_right, merged_right, e, f, g) tt
            | inr (cur, g) ↦ elim (Bool-cases (is_free cur.type)) [
              | inl t ↦
                  rw (merge_right, merged_right, e, f, g, t)
                    (shorter (record mr { length = mr.length + cur.length; type = free }) j
                      (below space j cur g))
              | inr t ↦
                  rw (merge_right, merged_right, e, f, g, t)
                    (omega (arith, length-set space i (record mr { type = free })))
            ]
          ]
        ]
]
  where
    shorter :
        (r : Region) (j : ℕ)
        → j < length space
        → length (remove_at j (set space i r)) + 1 ≤ length space
    shorter r j l = omega (
      arith,
      length-set space i r,
      length-remove_at (set space i r) j (omega (arith, length-set space i r)),
    )

Ends-map :
    {A : Type 0} (P Q : A → Type 0) (o : Outcome A) → ((a : A) → P a → Q a) → Ends P o → Ends Q o
Ends-map P Q (returns a) h e = h a e
Ends-map P Q fault h e = tt
Ends-map P Q hang h e = e

Ends-bind :
    {A B : Type 0} (P : A → Type 0) (Q : B → Type 0) (o : Outcome A) (f : A → Outcome B)
    → Ends P o
    → ((a : A) → P a → Ends Q (f a))
    → Ends Q (o >>= f)
Ends-bind P Q (returns a) f h g = g a h
Ends-bind P Q fault f h g = tt
Ends-bind P Q hang f h g = h

Shrinks-longer :
    (k l : List Region) (gone : Option ℕ) (l' : List Region)
    → length k ≤ length l
    → Shrinks k gone l'
    → Shrinks l gone l'
Shrinks-longer k l none l' h s = omega arith
Shrinks-longer k l (some j) l' h s = omega arith

delete_region-Shrinks :
    (space : List Region) (i : ℕ) → Ends (Shrinks space (merged space i)) (delete_region space i)
unfolding delete_region merged
delete_region-Shrinks space i = elim (Option-cases (get_elem? space i)) [
  | inl e ↦ rw (delete_region, merged, e) tt
  | inr (mr, e) ↦ elim (Option-cases (determine_memory_region space (mr.virtual_address - 1))) [
    | inl f ↦ rw (delete_region, merged, e, f) tt
    | inr (j, f) ↦ elim (Option-cases (get_elem? space j)) [
      | inl g ↦ rw (delete_region, merged, e, f, g) tt
      | inr (cur, g) ↦ elim (Bool-cases (is_free cur.type)) [
        | inl t ↦
            rw (delete_region, merged, e, f, g, t)
              (after_left (record cur { length = cur.length + mr.length }) j (below space i mr e))
        | inr t ↦ rw (delete_region, merged, e, f, g, t) (merge_right-Shrinks space i)
      ]
    ]
  ]
]
  where
    after_left :
        (r : Region) (j : ℕ)
        → i < length space
        → Ends
            (Shrinks space (merged_right (remove_at i (set space j r)) (place_after i j)))
            (merge_right (remove_at i (set space j r)) (place_after i j))
    after_left r j l =
        let rest = remove_at i (set space j r) in
        Ends-map (Shrinks rest (merged_right rest (place_after i j)))
          (Shrinks space (merged_right rest (place_after i j))) (merge_right rest (place_after i j))
          (λ l' s.
            Shrinks-longer rest space (merged_right rest (place_after i j)) l'
              (omega (
                arith,
                length-set space j r,
                length-remove_at (set space j r) i (omega (arith, length-set space j r)),
              ))
              s)
          (merge_right-Shrinks rest (place_after i j))

-- The place that the loop goes on from, against the length of the list that is left.
goes_on :
    (n i p : ℕ) (gone : Option ℕ) (space space' : List Region)
    → length space ≤ n + i
    → Shrinks space gone space'
    → next_of i (before_place gone i) ≡ some p
    → length space' ≤ n + p
goes_on n zero p none space space' h s e = ground arith
goes_on n zero p (some j) space space' h s e = ground arith
goes_on n (suc i) p none space space' h s e = ground arith
goes_on n (suc i) p (some j) space space' h s e = ground arith

abbrev EndsSo : Outcome (List Region) → Type 0
EndsSo o = Ends (λ l. Unit {0}) o

one_round :
    (n : ℕ) (space : List Region) (i : ℕ)
    → length space ≤ n + i
    → (i < length space
        → (l : List Region) (p : ℕ) → length l ≤ n + p
        → EndsSo (delete_core n l (suc p)))
    → EndsSo (delete_core (suc n) space i)
unfolding delete_core
one_round n space i h rest = elim (Bool-cases (i == length space)) [
  | inl e ↦ rw (delete_core, e) tt
  | inr e ↦ elim (Option-cases (get_elem? space i)) [
    | inl f ↦ rw (delete_core, e, f) tt
    | inr (mr, f) ↦ elim (Bool-cases (is_core mr.type)) [
      | inl c ↦
          rw (delete_core, e, f, c)
            (Ends-bind (Shrinks space (merged space i)) (λ l. Unit {0}) (delete_region space i) _
              (delete_region-Shrinks space i) (λ l s. going l s (rest (below space i mr f))))
      | inr c ↦ rw (delete_core, e, f, c) (rest (below space i mr f) space i h)
    ]
  ]
]
  where
    going :
        (l : List Region)
        → Shrinks space (merged space i) l
        → ((l : List Region) (p : ℕ) → length l ≤ n + p → EndsSo (delete_core n l (suc p)))
        → EndsSo (elim (next_of i (before_place (merged space i) i)) [
          | none ↦ fault
          | some p ↦ if p == length l then fault else delete_core n l (suc p)
        ])
    going l s rest = elim (Option-cases (next_of i (before_place (merged space i) i))) [
      | inl e ↦ rw e tt
      | inr (p, e) ↦ elim (Bool-cases (p == length l)) [
        | inl f ↦ rw (e, f) tt
        | inr f ↦ rw (e, f) (rest l p (goes_on n i p (merged space i) space l h s e))
      ]
    ]

-- One round and as many as there are regions from the place `i` on are enough.
delete_core-Ends :
    (n : ℕ) (space : List Region) (i : ℕ)
    → length space ≤ n + i
    → EndsSo (delete_core (suc n) space i)
delete_core-Ends zero space i h = one_round zero space i h (λ l. absurd (omega arith))
delete_core-Ends (suc n) space i h =
    one_round (suc n) space i h (λ l m p k. delete_core-Ends n m (suc p) (omega arith))

ends_not : (o : Outcome (List Region)) → EndsSo o → o ≢ hang
ends_not (returns l) e h = cc
ends_not fault e h = cc
ends_not hang e h = e

-- The rounds that execve_elf gives to the deletion of the old program are enough, whatever the list of
-- regions: the loop is left.
pub delete_core_lem : (space : List Region) → delete_core (suc (length space)) space 0 ≢ hang
delete_core_lem space =
    ends_not (delete_core (suc (length space)) space 0)
      (delete_core-Ends (length space) space 0 (omega arith))
