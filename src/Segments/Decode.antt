-- ===== src/Segments/Decode.antt =====
-- What the processor reads in the entries that set_gdt_entry writes.
use akaris_old.Base.{
  inl, inr, ℕ, ◌+◌, ◌*◌, ◌/◌, ◌%◌, ◌^◌, ◌<◌, ◌≡◌, ◌≢◌, refl, Bool, not, false, ◌||◌, some, List,
  arith, if◌then◌else◌, length, get_elem?, get_elem?-set_self, get_elem?-set_ne, or_bit, zero, suc,
  true, has_flag, or_bits, Bool-cases,
}
use akaris_old.Segments.{GdtEntry, gdt_tss, gdt_system, gdt_code, new_entry, set_gdt_entry}

-- The fields of a descriptor as the processor's manual lays them out.
abbrev pub segment_base : GdtEntry → ℕ
segment_base e = e.base_low + e.base_middle * 2 ^ 16 + e.base_high * 2 ^ 24

abbrev pub segment_limit : GdtEntry → ℕ
segment_limit e = e.limit_low + (e.flags_high % 16) * 2 ^ 16

abbrev pub is_granular : GdtEntry → Bool
is_granular e = has_flag e.flags_high 128

abbrev pub is_present : GdtEntry → Bool
is_present e = has_flag e.flags_low 128

abbrev pub privilege : GdtEntry → ℕ
privilege e = (e.flags_low / 32) % 4

pub record Describes (e : GdtEntry) (base length flags : ℕ) : Type 0 where
  pub present : is_present e ≡ true
  pub based : segment_base e ≡ base
  pub limited : segment_limit e ≡ length % 2 ^ 20
  pub scaled : is_granular e ≡ not (has_flag flags gdt_tss)
  pub guarded : privilege e ≡ (if has_flag flags gdt_tss || has_flag flags gdt_system then 0 else 3)

or_bit_zero : (a : ℕ) → a < 2 → or_bit a 0 ≡ a
or_bit_zero zero h = refl
or_bit_zero (suc a) h = omega arith

or_bit_one : (a : ℕ) → a < 2 → or_bit a 1 ≡ 1
or_bit_one zero h = refl
or_bit_one (suc a) h = refl

-- The size bits join four bits of the limit.
or_bits-nibble : (x : ℕ) → x < 16 → or_bits 8 x 192 ≡ x + 192
or_bits-nibble x h = omega (
  arith,
  or_bit_zero (x % 2) (omega arith),
  or_bit_zero (x / 2 % 2) (omega arith),
  or_bit_zero (x / 2 / 2 % 2) (omega arith),
  or_bit_zero (x / 2 / 2 / 2 % 2) (omega arith),
  or_bit_zero (x / 2 / 2 / 2 / 2 % 2) (omega arith),
  or_bit_zero (x / 2 / 2 / 2 / 2 / 2 % 2) (omega arith),
  or_bit_one (x / 2 / 2 / 2 / 2 / 2 / 2 % 2) (omega arith),
  or_bit_one (x / 2 / 2 / 2 / 2 / 2 / 2 / 2 % 2) (omega arith),
)

guard_of_plain :
    (system code : Bool)
    → (or_bits 8 (if system then 128 else 224) (if code then 24 else 18) / 32) % 4
      ≡ (if system then 0 else 3)
guard_of_plain true true = refl
guard_of_plain true false = refl
guard_of_plain false true = refl
guard_of_plain false false = refl

new_entry-Describes :
    (base len flags : ℕ) → base < 2 ^ 32 → Describes (new_entry base len flags) base len flags
unfolding new_entry
new_entry-Describes base len flags h =
    let nibble = or_bits-nibble ((len / 2 ^ 16) % 16) (omega arith) in
    elim (Bool-cases (has_flag flags gdt_tss)) [
      | inl t ↦ record {
        present = ground arith;
        based = omega arith;
        limited = ground arith;
        scaled = ground arith;
        guarded = ground arith;
      }
      | inr t ↦ record {
        present = ground arith;
        based = omega arith;
        limited = ground arith;
        scaled = ground arith;
        guarded = rw t (guard_of_plain (has_flag flags gdt_system) (has_flag flags gdt_code));
      }
    ]

-- set_gdt_entry at an index of the table writes a present descriptor with the base, the low twenty
-- bits of the limit, page granularity unless it is a TSS, and the privilege 0 for the system and a
-- TSS and 3 for users; all other entries stay.
pub set_gdt_entry_lem :
    (gdt : List GdtEntry) (index base len flags : ℕ)
    → index < length gdt
    → base < 2 ^ 32
    → ((e : GdtEntry) × (get_elem? (set_gdt_entry gdt index base len flags) index ≡ some e)
        × Describes e base len flags)
      × ((j : ℕ)
          → j ≢ index
          → get_elem? (set_gdt_entry gdt index base len flags) j ≡ get_elem? gdt j)
unfolding set_gdt_entry
set_gdt_entry_lem gdt index base len flags h b = (
  (
    new_entry base len flags,
    get_elem?-set_self gdt index (new_entry base len flags) h,
    new_entry-Describes base len flags b,
  ),
  (λ j d. get_elem?-set_ne gdt index j (new_entry base len flags) d),
)
