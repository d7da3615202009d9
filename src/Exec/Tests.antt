-- ===== src/Exec/Tests.antt =====
-- An image with one segment of four bytes, that goes to 0x40000000 and starts there.
use akaris_old.Base.{
  ℕ, suc, ◌<◌, ◌≡◌, ◌≢◌, refl, some, List, [], ◌∷◌, ◌++◌, ◌==◌, if◌then◌else◌, arith, Outcome,
  returns, fault, hang, length, drop,
}
use akaris_old.State.{Region, Context, Kernel, find_context, get_process}
use akaris_old.Scheduler.Rotation.{pids}
use akaris_old.Process.{
  initialize_scheduler, create_address_space, create_process, new_context, set_current_process,
}
use akaris_old.Process.Roster.{IsRoster}
use akaris_old.Space.{Mapping}
use akaris_old.Exec.{Reader, Module, copied, has_magic, delete_core, execve_elf, load_modules}
use akaris_old.Exec.Rounds.{delete_core_lem}
use akaris_old.Exec.Load.{IsProgram, pages_of, with_program, bytes_from, execve_loads}
use akaris_old.Exec.Boot.{counted, boot_lem}
use akaris_old.Examples.{sender, inbox, stack_region, pipe, kernel_with}

-- Bytes with their offsets; all others are 0.
abbrev at_offset : List (ℕ × ℕ) → ℕ → ℕ
at_offset [] i = 0
at_offset ((j, b) ∷ bs) i = if i == j then b else at_offset bs i

abbrev image : ℕ → ℕ
image = at_offset (
    (0, 127)
    ∷ (1, 69)
    ∷ (2, 76)
    ∷ (3, 70)
    ∷ (27, 64)
    ∷ (28, 52)
    ∷ (44, 1)
    ∷ (52, 1)
    ∷ (56, 84)
    ∷ (63, 64)
    ∷ (68, 4)
    ∷ (72, 4)
    ∷ (84, 1)
    ∷ (85, 2)
    ∷ (86, 3)
    ∷ (87, 4)
    ∷ [])

-- A read behind the end of the image faults.
abbrev old : Reader
old i = fault

-- Frames are always found, and held nothing before.
abbrev mapped : Mapping
mapped virtual_address pages = returns []

abbrev program : IsProgram (copied image old 88) 88
unfolding has_magic
program = record {
  phoff = 52;
  offset = 84;
  filesz = 4;
  memsz = 4;
  entry = 0x4000_0000;
  short = omega arith;
  headers = refl;
  valid = refl;
  single = refl;
  loaded = refl;
  from = refl;
  to = refl;
  in_file = refl;
  in_memory = refl;
  start = refl;
  inside = omega arith;
  fits = omega arith;
  room = omega arith;
}

abbrev three : Kernel
three = (create_process sender inbox stack_region (kernel_with (pipe 0 0))).1

abbrev third : Context
third = new_context sender inbox stack_region 3

third_found : get_process three 3 ≡ some third
unfolding find_context create_process
third_found = refl

third_space : third.space ≡ create_address_space inbox stack_region
unfolding new_context
third_space = refl

execve_loads_example :
    (k' : Kernel) × (execve_elf old mapped three (some 3) (some image) 88 ≡ returns (0, k'))
    × (get_process k' 3
        ≡ some (record third {
          registers = record third.registers { eip = program.entry };
          space = with_program inbox stack_region (pages_of program.memsz) three.next_backing;
        }))
    × (k'.memory three.next_backing
        ≡ bytes_from image program.offset program.filesz ++ drop program.filesz [])
execve_loads_example =
    execve_loads old mapped [] [] three 3 image 88 third inbox stack_region third_found third_space
      program refl refl

-- The bytes that are loaded.
segment : bytes_from image 84 4 ≡ 1 ∷ 2 ∷ 3 ∷ 4 ∷ []
segment = refl

-- The space after a program of one page is loaded.
abbrev loaded_space : List Region
loaded_space = with_program inbox stack_region 1 0

delete_core_lem_small : delete_core (suc (length loaded_space)) loaded_space 0 ≢ hang
delete_core_lem_small = delete_core_lem loaded_space

-- The magic bytes are wrong from the third on.
abbrev wrong : ℕ → ℕ
wrong = at_offset ((0, 127) ∷ (1, 69) ∷ (2, 77) ∷ [])

abbrev started : Kernel
started = initialize_scheduler (kernel_with (pipe 0 0))

abbrev kernel_after : Outcome Kernel → Kernel
kernel_after (returns k) = k
kernel_after fault = started
kernel_after hang = started

abbrev modules : List Module
modules =
    record { mod_start = 0x20_0000; mod_end = 0x20_0058; bytes = image }
    ∷ record { mod_start = 0x20_1000; mod_end = 0x20_1058; bytes = wrong }
    ∷ []

abbrev booted : Kernel
booted = kernel_after (load_modules old mapped sender inbox stack_region modules started)

boots : load_modules old mapped sender inbox stack_region modules started ≡ returns booted
unfolding load_modules initialize_scheduler
boots = refl

boot_lem_example :
    IsRoster booted
    × (pids booted.contexts ≡ counted 1 (length modules))
    × (0 < length modules → set_current_process booted 1 ≡ some (record booted { current = 1 }))
boot_lem_example =
    boot_lem old mapped sender inbox stack_region modules (kernel_with (pipe 0 0)) booted boots
      (omega arith)
