-- ===== src/Segments.antt =====
-- The global descriptor table of sys/i386/gdt.c. A TSS has its two fields that the kernel sets;
-- where the linker puts the stack and each TSS is an argument.
pub mod Decode
mod Tests
use akaris_old.Base.{
  ℕ, zero, suc, ◌+◌, ◌*◌, ◌/◌, ◌%◌, ◌≡◌, List, ◌==◌, if◌then◌else◌, set, add32, mul32, has_flag,
  or_bits, ◌^◌, ◌-◌, [], ◌∷◌,
}

-- gdt_entry
pub record GdtEntry : Type 0 where
  pub limit_low : ℕ
  pub base_low : ℕ
  pub base_middle : ℕ
  pub flags_low : ℕ
  pub flags_high : ℕ
  pub base_high : ℕ

-- GDT_SYSTEM, GDT_USER, GDT_CODE, GDT_DATA, GDT_TSS
abbrev pub gdt_system : ℕ
gdt_system = 1

abbrev pub gdt_user : ℕ
gdt_user = 2

abbrev pub gdt_code : ℕ
gdt_code = 4

abbrev pub gdt_data : ℕ
gdt_data = 8

abbrev pub gdt_tss : ℕ
gdt_tss = 16

-- GDT_FLAGS_PRESENT
abbrev pub flags_present : ℕ
flags_present = 128

-- The entry that set_gdt_entry fills in.
unfoldable pub new_entry : (base length flags : ℕ) → GdtEntry
new_entry base length flags =
    let high = or_bits 8 ((length / 2 ^ 16) % 16) (or_bits 8 128 64) in
    record {
      limit_low = length % 2 ^ 16;
      base_low = base % 2 ^ 16;
      base_middle = (base / 2 ^ 16) % 2 ^ 8;
      base_high = (base / 2 ^ 24) % 2 ^ 8;
      flags_high = if has_flag flags gdt_tss then high % 16 else high;
      flags_low =
          if has_flag flags gdt_tss
          then or_bits 8 flags_present 9
          else or_bits 8
              (if has_flag flags gdt_system
                then or_bits 8 flags_present (0 * 2 ^ 5)
                else or_bits 8 flags_present (3 * 2 ^ 5))
              (if has_flag flags gdt_code then 24 else 18);
    }

-- set_gdt_entry
unfoldable pub set_gdt_entry : List GdtEntry → (index base length flags : ℕ) → List GdtEntry
unfolding new_entry
set_gdt_entry gdt index base length flags = set gdt index (new_entry base length flags)

pub record Tss : Type 0 where
  pub esp0 : ℕ
  pub ss0 : ℕ

-- INDEX_TO_DESCRIPTOR
abbrev pub index_to_descriptor : ℕ → ℕ
index_to_descriptor index = index * 2 ^ 3

-- set_kernel_tss_stack
unfoldable pub set_kernel_tss_stack : (stack : ℕ) → List Tss → (sp : ℕ) → List Tss
set_kernel_tss_stack stack tss_list sp =
    set_esp0 tss_list (if sp == 0 then add32 stack 16384 else sp)
  where
    set_esp0 : List Tss → ℕ → List Tss
    set_esp0 [] v = []
    set_esp0 (t ∷ ts) v = record t { esp0 = v } ∷ ts

-- The first loop of initialize_gdt.
unfoldable pub clear_entries : (count index : ℕ) → List GdtEntry → List GdtEntry
clear_entries zero index gdt = gdt
clear_entries (suc n) index gdt = clear_entries n (index + 1) (
    set gdt index (record {
      limit_low = 0;
      base_low = 0;
      base_middle = 0;
      flags_low = 0;
      flags_high = 0;
      base_high = 0;
    }))

-- The loop over the CPUs; `stack` is a `uint32 *`, so the offset counts words.
unfoldable pub set_tss :
    (tss_address : ℕ → ℕ) (stack count index : ℕ)
    → List GdtEntry × List Tss
    → List GdtEntry × List Tss
unfolding set_gdt_entry
set_tss tss_address stack zero index tables = tables
set_tss tss_address stack (suc n) index (gdt, tss_list) = set_tss tss_address stack n (index + 1) (
  set_gdt_entry gdt (index + 5) (tss_address index) (104 - 1) gdt_tss,
  set tss_list index (record { esp0 = add32 stack (4 * 16384); ss0 = index_to_descriptor 2 }),
)

-- initialize_gdt, up to the instructions that load the table. MAX_CPUS is 2.
unfoldable pub initialize_gdt :
    (tss_address : ℕ → ℕ) (stack : ℕ) → List GdtEntry × List Tss → List GdtEntry × List Tss
unfolding clear_entries set_tss set_gdt_entry
initialize_gdt tss_address stack (gdt, tss_list) =
    let all = 2 ^ 32 - 1 in
    let gdt1 = set_gdt_entry (clear_entries 5 0 gdt) 1 0 all (or_bits 8 gdt_system gdt_code) in
    let gdt2 = set_gdt_entry gdt1 2 0 all (or_bits 8 gdt_system gdt_data) in
    let gdt3 = set_gdt_entry gdt2 3 0 all (or_bits 8 gdt_user gdt_code) in
    let gdt4 = set_gdt_entry gdt3 4 0 all (or_bits 8 gdt_user gdt_data) in
    set_tss tss_address stack 2 0 (gdt4, tss_list)
