-- ===== src/Slab/NewPage.antt =====
-- A new page of a slab: its list of free objects, the first allocation from it, and what becomes of
-- it when all its objects are free again.
use akaris_old.Base.{
  ℕ, zero, suc, ◌+◌, ◌-◌, ◌<◌, ◌≡◌, ◌≢◌, refl, ap, sym, ◌∙◌, true, false, List, [], ◌∷◌, ◌==◌,
  arith, if◌then◌else◌, length, returns, ◌>>=◌, add32, sub32, ==_ne, ==_refl, ==_iff,
}
use mathlib.Core.Path.{subst}
use akaris_old.Frames.{Domain}
use akaris_old.Pages.{Tables, get_usable_kernel_virtual_page}
use akaris_old.Slab.{
  Sbuf, Slab, Store, null, minus_one, capacity, object, put_sbuf, put_word, link_objects, new_sbuf,
  choose_page, take_out, file_page, allocate_from_slab,
}
use akaris_old.Slab.Page.{
  Fresh, Distinct, Chain, IsPage, PageOf, capacity-le, sbufs-put_self, taken, taken-IsPage,
  relinked, counted_up, allocate-chosen,
}
use akaris_old.Slab.Release.{object-inj}

-- `i`, …, `i + n - 1`
abbrev pub from : (i n : ℕ) → List ℕ
from i zero = []
from i (suc n) = i ∷ from (i + 1) n

length-from : (i n : ℕ) → length (from i n) ≡ n
length-from i zero = refl
length-from i (suc n) = ap suc (length-from (i + 1) n)

from-Fresh : (k i n : ℕ) → k < i → Fresh k (from i n)
from-Fresh k i zero h = tt
from-Fresh k i (suc n) h = (omega arith, from-Fresh k (i + 1) n (omega arith))

from-Distinct : (i n : ℕ) → Distinct (from i n)
from-Distinct i zero = tt
from-Distinct i (suc n) = (from-Fresh i (i + 1) n (omega arith), from-Distinct (i + 1) n)

link-before :
    (n i page size objects k : ℕ) (s : Store)
    → 0 < size
    → k < i
    → (link_objects n i page size objects s).words (object page size k)
      ≡ s.words (object page size k)
unfolding link_objects
link-before zero i page size objects k s h l = refl
link-before (suc n) i page size objects k s h l =
    link-before n (i + 1) page size objects k
      (put_word s (object page size i) (if i == objects - 1 then minus_one else i + 1)) h
      (omega arith)
    ∙ rw
        (==_ne (object page size k) (object page size i)
          (λ e. absurd (omega (arith, object-inj page size k i h e))))
        refl

linked_word :
    (n i page size objects v : ℕ) (s : Store)
    → 0 < size
    → (link_objects n (i + 1) page size objects (put_word s (object page size i) v)).words
        (object page size i)
      ≡ v
linked_word n i page size objects v s h =
    link-before n (i + 1) page size objects i (put_word s (object page size i) v) h (omega arith)
    ∙ ap (λ b. if b then v else s.words (object page size i)) (==_refl (object page size i))

link-step :
    (n i page size objects v : ℕ) (s : Store)
    → (if i == objects - 1 then minus_one else i + 1) ≡ v
    → link_objects (suc n) i page size objects s
      ≡ link_objects n (i + 1) page size objects (put_word s (object page size i) v)
unfolding link_objects
link-step n i page size objects v s e =
    ap (λ w. link_objects n (i + 1) page size objects (put_word s (object page size i) w)) e

-- The loop links the objects from `i` on, where it makes all the rounds that are left.
link-Chain :
    (n i page size : ℕ) (s : Store)
    → 0 < size
    → i + suc n ≡ capacity size
    → Chain (link_objects (suc n) i page size (capacity size) s).words page size i (from i (suc n))
link-Chain zero i page size s h e =
    rw (link-step zero i page size (capacity size) minus_one s last)
      (refl, omega arith, linked_word zero i page size (capacity size) minus_one s h)
  where
    last : (if i == capacity size - 1 then minus_one else i + 1) ≡ minus_one
    last = rw ((==_iff i (capacity size - 1)).1 (omega arith)) refl
link-Chain (suc n) i page size s h e =
    let s' = put_word s (object page size i) (i + 1) in
    let rest = link_objects (suc n) (i + 1) page size (capacity size) s' in
    subst (λ t. Chain t.words page size i (from i (suc (suc n))))
      (sym (link-step (suc n) i page size (capacity size) (i + 1) s inner))
      (
        refl,
        omega arith,
        subst (λ f. Chain rest.words page size f (from (i + 1) (suc n)))
            (sym (linked_word (suc n) i page size (capacity size) (i + 1) s h))
            (link-Chain n (i + 1) page size s' h (omega arith)),
      )
  where
    inner : (if i == capacity size - 1 then minus_one else i + 1) ≡ i + 1
    inner = rw (==_ne i (capacity size - 1) (omega arith)) refl

link-sbufs :
    (n i page size objects : ℕ) (s : Store) → (link_objects n i page size objects s).sbufs ≡ s.sbufs
unfolding link_objects
link-sbufs zero i page size objects s = refl
link-sbufs (suc n) i page size objects s =
    link-sbufs n (i + 1) page size objects
      (put_word s (object page size i) (if i == objects - 1 then minus_one else i + 1))

file-first :
    (se : Slab) (s : Store) (n : ℕ)
    → (s.sbufs se.empty).num_free_objects ≡ n
    → n ≢ 0
    → n ≡ sub32 (capacity se.size) 1
    → file_page se se.empty s
      ≡ returns (
        record se { empty = (s.sbufs se.empty).next; partial = se.empty },
        put_sbuf s se.empty (λ b. record b { next = se.partial }),
      )
unfolding file_page take_out
file-first se s n e h g = rw (file_page, some_left, all_but_one, take_out, ==_refl se.empty) refl
  where
    some_left : ((s.sbufs se.empty).num_free_objects == 0) ≡ false
    some_left = ap (λ m. m == 0) e ∙ ==_ne n 0 h

    all_but_one : ((s.sbufs se.empty).num_free_objects == sub32 (capacity se.size) 1) ≡ true
    all_but_one = (==_iff _ _).1 (e ∙ g)

module _ (size : ℕ) (s : Store) (page : ℕ) (tables : Tables) (domain : Domain) (positive : 0 < size)
    (two : 1 < capacity size) where
  abbrev blank : Sbuf → Sbuf
  blank b = record { num_free_objects = capacity size; first_free = 0; next = null }

  -- The store with the new page.
  abbrev pub with_page : Store
  with_page =
      link_objects (capacity size) 0 page size (capacity size)
        (put_sbuf (record s { tables = tables; domain = domain }) page blank)

  with_page-sbuf : with_page.sbufs page ≡ blank (s.sbufs page)
  with_page-sbuf =
      ap (λ f. f page)
        (link-sbufs (capacity size) 0 page size (capacity size)
          (put_sbuf (record s { tables = tables; domain = domain }) page blank))
      ∙ sbufs-put_self (record s { tables = tables; domain = domain }) page blank

  with_page-IsPage :
      IsPage size with_page.words page (with_page.sbufs page) (from 0 (capacity size))
  with_page-IsPage = rw with_page-sbuf record {
    chained =
        subst
          (λ c.
            Chain
              (link_objects c 0 page size (capacity size)
                (put_sbuf (record s { tables = tables; domain = domain }) page blank)).words
              page size 0 (from 0 c))
          {x = suc (capacity size - 1)} (omega arith)
          (link-Chain (capacity size - 1) 0 page size
            (put_sbuf (record s { tables = tables; domain = domain }) page blank) positive
            (omega arith));
    distinct = from-Distinct 0 (capacity size);
    counted = sym (length-from 0 (capacity size));
  }

  new_sbuf_lem :
      get_usable_kernel_virtual_page s.tables s.domain ≡ returns (page, tables, domain)
      → new_sbuf size s ≡ returns (page, with_page)
  unfolding new_sbuf
  new_sbuf_lem e = rw (new_sbuf, e) refl

  -- What is left of it once the first object is taken.
  first_taken :
      IsPage size with_page.words page
        (taken with_page.words page size (with_page.sbufs page))
        (from 1 (capacity size - 1))
  first_taken =
      taken-IsPage size page 0 with_page.words (with_page.sbufs page) (from 1 (capacity size - 1))
        (subst (λ n. IsPage size with_page.words page (with_page.sbufs page) (from 0 n))
          {y = suc (capacity size - 1)} (omega arith) with_page-IsPage)
        (omega (arith, capacity-le size, length-from 1 (capacity size - 1)))

-- The page that a slab with neither a partial nor an empty page takes its next object from.
choose-new :
    (se : Slab) (s : Store)
    → se.partial ≡ null
    → se.empty ≡ null
    → choose_page se s
      ≡ (new_sbuf se.size s >>= λ (page, s'). returns (page, record se { empty = page }, s'))
unfolding choose_page
choose-new se s p e = rw (choose_page, ap (λ n. n == null) p, ap (λ n. n == null) e) refl

-- Where a slab has neither a partial nor an empty page, the kernel has a page for it, and two objects
-- or more fit a page, allocate_from_slab returns the first object of the new page, and the others
-- are free on it, in order; the page is the one partial page.
pub allocate_from_slab_new :
    (se : Slab) (s : Store) (page : ℕ) (tables : Tables) (domain : Domain)
    → se.partial ≡ null
    → se.empty ≡ null
    → 0 < se.size
    → 1 < capacity se.size
    → get_usable_kernel_virtual_page s.tables s.domain ≡ returns (page, tables, domain)
    → (se' : Slab) × (s' : Store) × (allocate_from_slab se s
        ≡ returns (object page se.size 0, se', s'))
      × PageOf se' s' page (from 1 (capacity se.size - 1))
      × (se'.partial ≡ page)
      × ((s'.sbufs page).next ≡ null)
      × (se'.empty ≡ null)
      × (se'.num_objects ≡ add32 se.num_objects 1)
unfolding allocate_from_slab
allocate_from_slab_new se s page tables domain p e positive two granted = (
  record (counted_up se) { empty = null; partial = page; lock = 0 },
  put_sbuf s2 page (λ b. record b { next = se.partial }),
  allocate-chosen se (record se { lock = 1; empty = page }) s s1 page
        (choose-new (record se { lock = 1 }) s p e
          ∙ rw (new_sbuf_lem se.size s page tables domain positive two granted) refl)
      ∙ rw
          (
            file-first (record (counted_up se) { empty = page }) s2 (capacity se.size - 1)
                (ap (λ b. b.num_free_objects) mine
                  ∙ left.counted
                  ∙ length-from 1 (capacity se.size - 1))
                (omega arith) (omega (arith, capacity-le se.size)),
            ap (λ b. b.next) (mine ∙ ap (taken s1.words page se.size) header),
            ap (λ b. b.first_free) header,
          )
          refl,
  rw (sbufs-put_self s2 page (λ b. record b { next = se.partial }), mine)
      (relinked se.partial left),
  refl,
  ap (λ b. b.next) (sbufs-put_self s2 page (λ b. record b { next = se.partial })) ∙ p,
  refl,
  refl,
)
  where
    s1 : Store
    s1 = with_page se.size s page tables domain positive two

    s2 : Store
    s2 = put_sbuf s1 page (taken s1.words page se.size)

    mine : s2.sbufs page ≡ taken s1.words page se.size (s1.sbufs page)
    mine = sbufs-put_self s1 page (taken s1.words page se.size)

    header :
        s1.sbufs page ≡ record { num_free_objects = capacity se.size; first_free = 0; next = null }
    header = with_page-sbuf se.size s page tables domain positive two

    left :
        IsPage se.size s1.words page
          (taken s1.words page se.size (s1.sbufs page))
          (from 1 (capacity se.size - 1))
    left = first_taken se.size s page tables domain positive two
