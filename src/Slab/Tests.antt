-- ===== src/Slab/Tests.antt =====
-- A slab of objects of 1000 bytes, four to a page, whose page has the object 0 in use.
use akaris_old.Base.{
  ℕ, ◌-◌, ◌≡◌, refl, true, false, [], ◌∷◌, ◌==◌, arith, if◌then◌else◌, replicate, returns, fault,
  or_bits,
}
use akaris_old.Frames.{Domain}
use akaris_old.Pages.{Tables, store, unused_bits, get_usable_kernel_virtual_page}
use akaris_old.Slab.{
  Slab, Store, minus_one, capacity, object, allocate_from_slab, deallocate_from_slab,
}
use akaris_old.Slab.Page.{PageOf, Filed, allocate_from_slab_lem}
use akaris_old.Slab.Release.{deallocate-allocate}
use akaris_old.Slab.NewPage.{from, allocate_from_slab_new}
use akaris_old.Slab.Strand.{deallocate_strands}

abbrev page : ℕ
page = 4194304

abbrev slab : Slab
slab = record { lock = 0; num_objects = 1; empty = 0; partial = page; full = 0; size = 1000 }

abbrev domain : Domain
domain = record {
  start_page = 0;
  bitmap = (true ∷ replicate 31 false) ∷ [];
  lock = 0;
  total_pages = 31;
  free_pages = 31;
}

abbrev memory : Store
memory = record {
  sbufs = λ q. record { num_free_objects = 3; first_free = 1; next = 0 };
  words =
      λ a. if a == object page 1000 3 then minus_one else if a == object page 1000 2 then 3 else 2;
  tables = λ q. 0;
  domain = domain;
}

memory-PageOf : PageOf slab memory page (1 ∷ 2 ∷ 3 ∷ [])
unfolding capacity
memory-PageOf = record { chained = omega arith; distinct = omega arith; counted = refl }

allocate_from_slab_lem_example :
    (se' : Slab) × (s' : Store) × (allocate_from_slab slab memory
      ≡ returns (object page 1000 1, se', s'))
    × PageOf se' s' page (2 ∷ 3 ∷ [])
    × (s'.words ≡ memory.words)
    × Filed slab memory (2 ∷ 3 ∷ []) se'
    × (se'.num_objects ≡ 2)
    × (se'.lock ≡ 0)
unfolding capacity
allocate_from_slab_lem_example =
    allocate_from_slab_lem slab memory 1 (2 ∷ 3 ∷ []) (omega arith) memory-PageOf (omega arith)

deallocate-allocate_example :
    (obj : ℕ) × (se' : Slab) × (s' s'' : Store) × (allocate_from_slab slab memory
      ≡ returns (obj, se', s'))
    × (deallocate_from_slab 2 se' obj s' ≡ returns (record slab { lock = 0 }, s''))
    × PageOf slab s'' page (1 ∷ 2 ∷ 3 ∷ [])
unfolding capacity
deallocate-allocate_example =
    deallocate-allocate 2 slab memory 1 2 (3 ∷ []) (omega arith) refl (omega arith) (omega arith)
      memory-PageOf (omega arith)

abbrev new_slab : Slab
new_slab = record slab { num_objects = 0; partial = 0 }

abbrev granted_tables : Tables
granted_tables =
    store (store memory.tables 1024 (or_bits 32 0 unused_bits)) 1024
      (or_bits 32 (or_bits 32 0 unused_bits) 4096)

abbrev granted_domain : Domain
granted_domain = record domain { bitmap = (true ∷ true ∷ replicate 30 false) ∷ []; free_pages = 30 }

granted :
    get_usable_kernel_virtual_page memory.tables domain
    ≡ returns (page, granted_tables, granted_domain)
unfolding get_usable_kernel_virtual_page
granted = refl

allocate_from_slab_new_example :
    (se' : Slab) × (s' : Store) × (allocate_from_slab new_slab memory
      ≡ returns (object page 1000 0, se', s'))
    × PageOf se' s' page (from 1 (capacity 1000 - 1))
    × (se'.partial ≡ page)
    × ((s'.sbufs page).next ≡ 0)
    × (se'.empty ≡ 0)
    × (se'.num_objects ≡ 1)
unfolding capacity
allocate_from_slab_new_example =
    allocate_from_slab_new new_slab memory page granted_tables granted_domain refl refl
      (omega arith) (omega arith) granted

deallocate_strands_example :
    (se' : Slab) × (s' : Store) × (deallocate_from_slab 2 slab (object page 1000 0) memory
      ≡ returns (se', s'))
    × PageOf se' s' page (0 ∷ 1 ∷ 2 ∷ 3 ∷ [])
    × (allocate_from_slab se' s' ≡ fault)
unfolding capacity
deallocate_strands_example =
    deallocate_strands 0 slab memory 0 (1 ∷ 2 ∷ 3 ∷ []) (omega arith) refl refl refl (omega arith)
      (omega arith) (omega arith) (omega arith) memory-PageOf refl
