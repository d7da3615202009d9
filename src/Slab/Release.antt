-- ===== src/Slab/Release.antt =====
-- Releasing an object puts it in front of the free ones, so an allocation is undone; and a slab whose
-- only page has become free again cannot be allocated from.
use akaris_old.Base.{
  ℕ, suc, ◌+◌, ◌-◌, ◌*◌, ◌/◌, ◌%◌, ◌^◌, ◌≤◌, ◌<◌, ◌≡◌, ◌≢◌, refl, ap, sym, ◌∙◌, false, List, [],
  ◌∷◌, ◌==◌, arith, if◌then◌else◌, length, returns, add32, sub32, ==_ne, ==_refl,
}
use native.Mathlib.Nat.{mul-div_cancel, div-mul-le_self}
use akaris_old.Pages.{frame_bits}
use akaris_old.Slab.{
  Slab, Store, null, capacity, object, put_sbuf, put_word, allocate_from_slab, put_back,
  deallocate_from_slab,
}
use akaris_old.Slab.Page.{
  Fresh, Chain, PageOf, capacity-le, sbufs-put_self, counted_up, after_take, kept-PageOf,
  allocate-kept,
}

-- An object of the page ends on the page.
place-le : (size i : ℕ) → i < capacity size → i * size + size ≤ 4084
unfolding capacity
place-le size i h = grind (arith, div-mul-le_self 4084 size)

pub object-inj : (page size i j : ℕ) → 0 < size → object page size i ≡ object page size j → i ≡ j
object-inj page size i j h e =
    sym (mul-div_cancel i h) ∙ ap (λ n. n / size) (omega arith) ∙ mul-div_cancel j h

frame_bits-object :
    (page size i : ℕ)
    → page % 4096 ≡ 0
    → 0 < size
    → i < capacity size
    → frame_bits (object page size i) ≡ page
frame_bits-object page size i h p l = omega (arith, place-le size i l)

place_of : (page size i : ℕ) → 0 < size → (object page size i - page - 12) / size ≡ i
place_of page size i h = ap (λ n. n / size) (omega arith) ∙ mul-div_cancel i h

-- A write to an object that is not in the list leaves the list.
Chain-put :
    (words : ℕ → ℕ) (page size first i v : ℕ) (l : List ℕ)
    → 0 < size
    → Fresh i l
    → Chain words page size first l
    → Chain (λ a. if a == object page size i then v else words a) page size first l
Chain-put words page size first i v [] h f c = c
Chain-put words page size first i v (j ∷ l) h (n, f) (e, b, c) = (
  e,
  b,
  rw (==_ne (object page size j) (object page size i) (λ g. n (sym (object-inj page size j i h g))))
      (Chain-put words page size (words (object page size j)) i v l h f c),
)

module _ (se : Slab) (s : Store) (page i : ℕ) (l : List ℕ) (aligned : page % 4096 ≡ 0)
    (positive : 0 < se.size) (inside : i < capacity se.size) (used : Fresh i l)
    (few : length l < capacity se.size) (valid : PageOf se s page l) where
  -- The store once the object is in the list, and before the page is filed.
  abbrev pub released : Store
  released =
      put_sbuf (put_word s (object page se.size i) (s.sbufs page).first_free) page
        (λ b. record b { first_free = i; num_free_objects = add32 b.num_free_objects 1 })

  pub deallocate-put_back :
      (rounds : ℕ)
      → deallocate_from_slab rounds se (object page se.size i) s
        ≡ put_back rounds se page i (object page se.size i) s
  unfolding deallocate_from_slab
  deallocate-put_back rounds =
      rw
        (frame_bits-object page se.size i aligned positive inside, place_of page se.size i positive)
        refl

  pub mine : released.sbufs page ≡ record (s.sbufs page) {
    first_free = i;
    num_free_objects = add32 (s.sbufs page).num_free_objects 1;
  }
  mine =
      sbufs-put_self (put_word s (object page se.size i) (s.sbufs page).first_free) page
        (λ b. record b { first_free = i; num_free_objects = add32 b.num_free_objects 1 })

  pub released-IsPage : PageOf se released page (i ∷ l)
  released-IsPage = rw mine record {
    chained = (
      refl,
      inside,
      rw (==_refl (object page se.size i)) (
          Chain-put s.words page se.size (s.sbufs page).first_free i (s.sbufs page).first_free l
            positive used valid.chained),
    );
    distinct = (used, valid.distinct);
    counted = omega (arith, valid.counted, capacity-le se.size);
  }

  stays :
      suc (length l) < capacity se.size
      → ((released.sbufs page).num_free_objects == capacity se.size) ≡ false
  stays room =
      ==_ne (released.sbufs page).num_free_objects (capacity se.size)
        (λ e. absurd (omega (arith, released-IsPage.counted)))

  -- Where the object at the place `i` of a page is not free and another one of the page stays in use,
  -- deallocate_from_slab puts it in front of the free objects, and counts it.
  pub deallocate_from_slab_lem :
      (rounds : ℕ)
      → suc (length l) < capacity se.size
      → (s' : Store) × (deallocate_from_slab rounds se (object page se.size i) s
          ≡ returns (record se { num_objects = sub32 se.num_objects 1 }, s'))
        × PageOf se s' page (i ∷ l)
  unfolding put_back
  deallocate_from_slab_lem rounds room =
      (released, deallocate-put_back rounds ∙ rw (put_back, stays room) refl, released-IsPage)

-- An allocation from the head of `partial` and the release of its object leave the same free objects
-- in the same order, and the same count, where another object of the page is in use all the time and
-- something is left free.
pub deallocate-allocate :
    (rounds : ℕ) (se : Slab) (s : Store) (i j : ℕ) (r : List ℕ)
    → se.partial ≢ null
    → se.partial % 4096 ≡ 0
    → 0 < se.size
    → se.num_objects + 1 < 2 ^ 32
    → PageOf se s se.partial (i ∷ j ∷ r)
    → suc (suc (length r)) < capacity se.size
    → (obj : ℕ) × (se' : Slab) × (s' s'' : Store) × (allocate_from_slab se s
        ≡ returns (obj, se', s'))
      × (deallocate_from_slab rounds se' obj s' ≡ returns (record se { lock = 0 }, s''))
      × PageOf se s'' se.partial (i ∷ j ∷ r)
deallocate-allocate rounds se s i j r p aligned positive small valid room =
    let kept = kept-PageOf se s i j r p valid room in
    let (s'', back, page'') =
      deallocate_from_slab_lem (record (counted_up se) { lock = 0 }) (after_take se s se.partial)
        se.partial i (j ∷ r) aligned positive valid.chained.1 valid.distinct.0 (omega arith) kept
        rounds room in
    (
      object se.partial se.size i,
      record (counted_up se) { lock = 0 },
      after_take se s se.partial,
      s'',
      allocate-kept se s i j r p valid room,
      back ∙ ap (λ n. returns (record se { lock = 0; num_objects = n }, s'')) (omega arith),
      page'',
    )
