-- ===== src/Slab/Page.antt =====
-- A page of a slab as the list of its free objects: allocation takes the head, release puts an
-- object in front.
use akaris_old.Base.{
  ℕ, suc, ◌^◌, ◌≤◌, ◌<◌, ◌≡◌, ◌≢◌, refl, ap, ◌∙◌, true, List, [], ◌∷◌, ◌==◌, arith, if◌then◌else◌,
  length, Outcome, returns, ◌>>=◌, add32, sub32, ==_ne, ==_refl,
}
use native.Mathlib.Nat.{div-le_self}
use akaris_old.Frames.First.{spin_lem}
use akaris_old.Slab.{
  Sbuf, Slab, Store, null, minus_one, capacity, object, put_sbuf, choose_page, take_out, file_page,
  allocate_from_slab,
}

abbrev pub Fresh : ℕ → List ℕ → Type 0
Fresh i [] = Unit {0}
Fresh i (j ∷ l) = (i ≢ j) × Fresh i l

abbrev pub Distinct : List ℕ → Type 0
Distinct [] = Unit {0}
Distinct (i ∷ l) = Fresh i l × Distinct l

-- The free objects from `first` on, by the words that they hold.
abbrev pub Chain : (words : ℕ → ℕ) → (page size first : ℕ) → List ℕ → Type 0
Chain words page size first [] = first ≡ minus_one
Chain words page size first (i ∷ l) =
    (first ≡ i) × (i < capacity size) × Chain words page size (words (object page size i)) l

-- The free objects of the page with the header `b` are those of the list, each once, and they are
-- counted.
pub record IsPage (size : ℕ) (words : ℕ → ℕ) (page : ℕ) (b : Sbuf) (l : List ℕ) : Type 0 where
  pub chained : Chain words page size b.first_free l
  pub distinct : Distinct l
  pub counted : b.num_free_objects ≡ length l

abbrev pub PageOf : Slab → Store → (page : ℕ) → List ℕ → Type 0
PageOf se s page l = IsPage se.size s.words page (s.sbufs page) l

pub capacity-le : (size : ℕ) → capacity size ≤ 4084
unfolding capacity
capacity-le size = div-le_self 4084 size

-- The header after an object has been taken.
abbrev pub taken : (ℕ → ℕ) → (page size : ℕ) → Sbuf → Sbuf
taken words page size b = record b {
  first_free = words (object page size b.first_free);
  num_free_objects = sub32 b.num_free_objects 1;
}

pub taken-IsPage :
    (size page i : ℕ) (words : ℕ → ℕ) (b : Sbuf) (r : List ℕ)
    → IsPage size words page b (i ∷ r)
    → suc (length r) < 2 ^ 32
    → IsPage size words page (taken words page size b) r
taken-IsPage size page i words b r h l = record {
  chained = rw (h.chained.0) (h.chained.2);
  distinct = h.distinct.1;
  counted = omega (arith, h.counted);
}

pub sbufs-put_self :
    (s : Store) (page : ℕ) (f : Sbuf → Sbuf) → (put_sbuf s page f).sbufs page ≡ f (s.sbufs page)
sbufs-put_self s page f = ap (λ b. if b then f (s.sbufs page) else s.sbufs page) (==_refl page)

choose-partial :
    (se : Slab) (s : Store) → se.partial ≢ null → choose_page se s ≡ returns (se.partial, se, s)
unfolding choose_page
choose-partial se s h = rw (choose_page, ==_ne se.partial null h) refl

file-kept :
    (se : Slab) (c n : ℕ) (s : Store)
    → (s.sbufs c).num_free_objects ≡ n
    → n ≢ 0
    → n ≢ sub32 (capacity se.size) 1
    → file_page se c s ≡ returns (se, s)
unfolding file_page
file-kept se c n s e h g =
    rw (file_page, e, ==_ne n 0 h, ==_ne n (sub32 (capacity se.size) 1) g) refl

file-full :
    (se : Slab) (s : Store)
    → (s.sbufs se.partial).num_free_objects ≡ 0
    → file_page se se.partial s
      ≡ returns (
        record se { partial = (s.sbufs se.partial).next; full = se.partial },
        put_sbuf s se.partial (λ b. record b { next = se.full }),
      )
unfolding file_page take_out
file-full se s e = rw (file_page, none_left, take_out, ==_refl se.partial) refl
  where
    none_left : ((s.sbufs se.partial).num_free_objects == 0) ≡ true
    none_left = ap (λ n. n == 0) e

-- What allocate_from_slab does before the page is filed.
abbrev pub counted_up : Slab → Slab
counted_up se = record se { lock = 1; num_objects = add32 se.num_objects 1 }

abbrev pub after_take : Slab → Store → (page : ℕ) → Store
after_take se s page = put_sbuf s page (taken s.words page se.size)

abbrev pub hand_out : ℕ → Slab × Store → Outcome (ℕ × Slab × Store)
hand_out result (se, s) = returns (result, record se { lock = 0 }, s)

pub allocate-chosen :
    (se se' : Slab) (s s' : Store) (page : ℕ)
    → choose_page (record se { lock = 1 }) s ≡ returns (page, se', s')
    → allocate_from_slab se s ≡ (
        file_page
          (record se' { num_objects = add32 se'.num_objects 1 })
          page
          (after_take se' s' page)
        >>= hand_out (object page se'.size (s'.sbufs page).first_free))
unfolding allocate_from_slab
allocate-chosen se se' s s' page chosen = rw (allocate_from_slab, spin_lem se.lock, chosen) refl

pub allocate-partial :
    (se : Slab) (s : Store)
    → se.partial ≢ null
    → allocate_from_slab se s ≡ (
        file_page (counted_up se) se.partial (after_take se s se.partial)
        >>= hand_out (object se.partial se.size (s.sbufs se.partial).first_free))
allocate-partial se s h =
    allocate-chosen se (record se { lock = 1 }) s s se.partial
      (choose-partial (record se { lock = 1 }) s h)

-- The lists of pages after an allocation that leaves `r` free on the page at the head of `partial`.
abbrev pub Filed : Slab → Store → List ℕ → Slab → Type 0
Filed se s [] se' = (se'.full ≡ se.partial) × (se'.partial ≡ (s.sbufs se.partial).next)
Filed se s (j ∷ r) se' = (se'.full ≡ se.full) × (se'.partial ≡ se.partial)

pub relinked :
    {size page : ℕ} {words : ℕ → ℕ} {b : Sbuf} {l : List ℕ} (n : ℕ)
    → IsPage size words page b l
    → IsPage size words page (record b { next = n }) l
relinked n h = record { chained = h.chained; distinct = h.distinct; counted = h.counted }

-- What is left is enough for the page to stay where it is.
module _ (se : Slab) (s : Store) (i j : ℕ) (r : List ℕ) (some_page : se.partial ≢ null)
    (valid : PageOf se s se.partial (i ∷ j ∷ r))
    (room : suc (suc (length r)) < capacity se.size) where
  pub kept-PageOf : PageOf se (after_take se s se.partial) se.partial (j ∷ r)
  kept-PageOf = rw (sbufs-put_self s se.partial (taken s.words se.partial se.size)) (
      taken-IsPage se.size se.partial i s.words (s.sbufs se.partial) (j ∷ r) valid
        (omega (arith, capacity-le se.size)))

  pub allocate-kept :
      allocate_from_slab se s
      ≡ returns (
        object se.partial se.size i,
        record (counted_up se) { lock = 0 },
        after_take se s se.partial,
      )
  allocate-kept =
      rw
        (
          allocate-partial se s some_page,
          file-kept (counted_up se) se.partial (suc (length r)) (after_take se s se.partial)
              kept-PageOf.counted (omega arith) (omega (arith, capacity-le se.size)),
          valid.chained.0,
        )
        refl

-- Where the page at the head of `partial` has the free objects `i ∷ r` and some object in use,
-- allocate_from_slab returns the object `i`, whatever the lock held: `r` is what is free afterwards,
-- the page goes to `full` if nothing is left, the words stay, and the lock is free.
pub allocate_from_slab_lem :
    (se : Slab) (s : Store) (i : ℕ) (r : List ℕ)
    → se.partial ≢ null
    → PageOf se s se.partial (i ∷ r)
    → suc (length r) < capacity se.size
    → (se' : Slab) × (s' : Store) × (allocate_from_slab se s
        ≡ returns (object se.partial se.size i, se', s'))
      × PageOf se' s' se.partial r
      × (s'.words ≡ s.words)
      × Filed se s r se'
      × (se'.num_objects ≡ add32 se.num_objects 1)
      × (se'.lock ≡ 0)
allocate_from_slab_lem se s i [] p h l =
    let page = se.partial in
    let left =
      taken-IsPage se.size page i s.words (s.sbufs page) [] h
        (omega (arith, capacity-le se.size)) in
    let s1 = after_take se s page in
    let mine = sbufs-put_self s page (taken s.words page se.size) in
    (
      record (counted_up se) { partial = (s1.sbufs page).next; full = page; lock = 0 },
      put_sbuf s1 page (λ b. record b { next = se.full }),
      rw
          (
            allocate-partial se s p,
            file-full (counted_up se) s1 (ap (λ b. b.num_free_objects) mine ∙ left.counted),
            h.chained.0,
          )
          refl,
      rw (sbufs-put_self s1 page (λ b. record b { next = se.full }), mine) (relinked se.full left),
      refl,
      (refl, ap (λ b. b.next) mine),
      refl,
      refl,
    )
allocate_from_slab_lem se s i (j ∷ r) p h l = (
  record (counted_up se) { lock = 0 },
  after_take se s se.partial,
  allocate-kept se s i j r p h l,
  kept-PageOf se s i j r p h l,
  refl,
  (refl, refl),
  refl,
  refl,
)
