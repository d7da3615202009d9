-- ===== src/Slab/Strand.antt =====
-- What becomes of a slab when the last object of its only page is released.
use akaris_old.Base.{
  ℕ, suc, ◌%◌, ◌<◌, ◌≡◌, ◌≢◌, refl, ap, sym, ◌∙◌, true, false, List, ◌∷◌, ◌==◌, arith, length,
  returns, fault, sub32, ==_ne, ==_iff,
}
use akaris_old.Slab.{
  Slab, Store, null, capacity, object, take_out, file_page, allocate_from_slab, find_before,
  put_back, deallocate_from_slab,
}
use akaris_old.Slab.Page.{
  Fresh, PageOf, capacity-le, sbufs-put_self, after_take, taken, allocate-partial,
}
use akaris_old.Slab.Release.{released, released-IsPage, mine, deallocate-put_back}

-- A page at the end of its list has no page before it.
find_before-last :
    (n : ℕ) (s : Store) (page : ℕ)
    → page ≢ null
    → (s.sbufs page).next ≡ null
    → find_before (suc (suc n)) s page page ≡ returns null
unfolding find_before
find_before-last n s page h e =
    rw (find_before, ==_ne page null h, e, ==_ne null page (λ g. h (sym g))) refl

-- With all objects of the page free, and no page in `empty`, the page cannot be moved back.
allocate-strands :
    (se : Slab) (s : Store)
    → se.partial ≢ null
    → se.empty ≡ null
    → 1 < capacity se.size
    → (s.sbufs se.partial).num_free_objects ≡ capacity se.size
    → allocate_from_slab se s ≡ fault
unfolding file_page take_out
allocate-strands se s p e two all =
    allocate-partial se s p
    ∙ rw (file_page, some_left, all_but_one, take_out, elsewhere, nothing) refl
  where
    s1 : Store
    s1 = after_take se s se.partial

    count : (s1.sbufs se.partial).num_free_objects ≡ sub32 (capacity se.size) 1
    count =
        ap (λ b. b.num_free_objects)
          (sbufs-put_self s se.partial (taken s.words se.partial se.size))
        ∙ ap (λ n. sub32 n 1) all

    some_left : ((s1.sbufs se.partial).num_free_objects == 0) ≡ false
    some_left =
        ap (λ n. n == 0) count
        ∙ ==_ne (sub32 (capacity se.size) 1) 0 (omega (arith, capacity-le se.size))

    all_but_one : ((s1.sbufs se.partial).num_free_objects == sub32 (capacity se.size) 1) ≡ true
    all_but_one = (==_iff _ _).1 count

    elsewhere : (se.empty == se.partial) ≡ false
    elsewhere = ==_ne se.empty se.partial (λ g. p (sym g ∙ e))

    nothing : (se.empty == null) ≡ true
    nothing = (==_iff se.empty null).1 e

-- Where one object of the only page of a slab is in use and no page is empty, its release leaves the
-- page where it is, and the next allocation follows the NULL pointer of `empty`.
pub deallocate_strands :
    (n : ℕ) (se : Slab) (s : Store) (i : ℕ) (l : List ℕ)
    → se.partial ≢ null
    → se.partial % 4096 ≡ 0
    → (s.sbufs se.partial).next ≡ null
    → se.empty ≡ null
    → 0 < se.size
    → 1 < capacity se.size
    → i < capacity se.size
    → Fresh i l
    → PageOf se s se.partial l
    → suc (length l) ≡ capacity se.size
    → (se' : Slab) × (s' : Store) × (deallocate_from_slab
          (suc (suc n))
          se
          (object se.partial se.size i)
          s
        ≡ returns (se', s'))
      × PageOf se' s' se.partial (i ∷ l)
      × (allocate_from_slab se' s' ≡ fault)
unfolding put_back
deallocate_strands n se s i l p aligned last e positive two inside used valid one =
    let few : length l < capacity se.size = omega arith in
    let s2 = released se s se.partial i l aligned positive inside used few valid in
    let page' = released-IsPage se s se.partial i l aligned positive inside used few valid in
    let all : (s2.sbufs se.partial).num_free_objects ≡ capacity se.size = page'.counted ∙ one in
    let alone =
      find_before-last n s2 se.partial p (
        ap (λ b. b.next) (mine se s se.partial i l aligned positive inside used few valid)
        ∙ last) in
    (
      record se { num_objects = sub32 se.num_objects 1 },
      s2,
      deallocate-put_back se s se.partial i l aligned positive inside used few valid (suc (suc n))
          ∙ rw (put_back, (==_iff _ _).1 all, alone) refl,
      page',
      allocate-strands (record se { num_objects = sub32 se.num_objects 1 }) s2 p e two all,
    )
