-- ===== src/Segments/Tests.antt =====
-- A table of seven entries with the TSS of the first CPU in its place.
use akaris_old.Base.{ℕ, ◌≡◌, ◌≢◌, List, some, replicate, get_elem?, arith}
use akaris_old.Segments.{GdtEntry, set_gdt_entry}
use akaris_old.Segments.Decode.{Describes, set_gdt_entry_lem}

abbrev old_entry : GdtEntry
old_entry = record {
  limit_low = 1;
  base_low = 2;
  base_middle = 3;
  flags_low = 4;
  flags_high = 5;
  base_high = 6;
}

abbrev old_gdt : List GdtEntry
old_gdt = replicate 7 old_entry

set_gdt_entry_lem_example :
    ((e : GdtEntry) × (get_elem? (set_gdt_entry old_gdt 5 305419896 103 16) 5 ≡ some e)
      × Describes e 305419896 103 16)
    × ((j : ℕ)
        → j ≢ 5
        → get_elem? (set_gdt_entry old_gdt 5 305419896 103 16) j ≡ get_elem? old_gdt j)
set_gdt_entry_lem_example = set_gdt_entry_lem old_gdt 5 305419896 103 16 (omega arith) (omega arith)
