-- ===== src/Exec/Boot.antt =====
-- The processes that the kernel starts with: load_modules of sys/i386/cmain.c after
-- initialize_scheduler.
use akaris_old.Base.{
  ℕ, zero, suc, ◌+◌, ◌^◌, ◌<◌, ◌≡◌, refl, sym, ap₂, ◌∙◌, none, some, List, [], ◌∷◌, ◌++◌, ◌==◌,
  if◌then◌else◌, arith, returns, Returns, Returns-bind, Returns-map, Returns-returned, length,
  sub32,
}
use mathlib.Core.List.{append-nil, append_assoc}
use akaris_old.State.{Region, Context, Kernel, find_context}
use akaris_old.Scheduler.Rotation.{pids}
use akaris_old.Process.{initialize_scheduler, create_process, new_context, set_current_process}
use akaris_old.Process.Roster.{IsRoster, appended-IsRoster, initialize_scheduler-IsRoster}
use akaris_old.Lifecycle.Pids.{SamePids}
use akaris_old.Lifecycle.Kept.{IsRoster-SamePids, pids-append}
use akaris_old.Space.{Mapping}
use akaris_old.Exec.{Reader, Module, execve_elf, load_modules}
use akaris_old.Exec.Effect.{execve_elf-SamePids}

-- So many pids from `p` on.
abbrev pub counted : (p n : ℕ) → List ℕ
counted p zero = []
counted p (suc n) = p ∷ counted (p + 1) n

-- The processes of `k` and one for each module, with the pids from the next one on.
abbrev pub Booted : (modules : ℕ) → Kernel → Kernel → Type 0
Booted n k k' = IsRoster k' × (pids k'.contexts ≡ pids k.contexts ++ counted k.next_avail_pid n)

module _ (old : Reader) (mapping : Mapping) (context : Context) (old_free old_stack : Region) where
  abbrev created : Kernel → Kernel
  created k = (create_process context old_free old_stack k).1

  created-IsRoster :
      (k : Kernel) → k.next_avail_pid + 1 < 2 ^ 32 → IsRoster k → IsRoster (created k)
  unfolding create_process new_context
  created-IsRoster k l h =
      appended-IsRoster k (new_context context old_free old_stack k.next_avail_pid) refl l h

  created-pids : (k : Kernel) → pids (created k).contexts ≡ pids k.contexts ++ k.next_avail_pid ∷ []
  unfolding create_process new_context
  created-pids k = pids-append k.contexts (new_context context old_free old_stack k.next_avail_pid)

  created-next :
      (k : Kernel)
      → k.next_avail_pid + 1 < 2 ^ 32
      → (created k).next_avail_pid ≡ k.next_avail_pid + 1
  unfolding create_process
  created-next k l = omega arith

  extended :
      (n : ℕ) (k k'' k' : Kernel)
      → k.next_avail_pid + 1 < 2 ^ 32
      → SamePids (created k) k''
      → Booted n k'' k'
      → Booted (suc n) k k'
  extended n k k'' k' l (same, next) (h, grown) = (
    h,
    grown
        ∙ ap₂ (λ ps p. ps ++ counted p n) (same ∙ created-pids k) (next ∙ created-next k l)
        ∙ append_assoc (pids k.contexts) (k.next_avail_pid ∷ []) (counted (k.next_avail_pid + 1) n),
  )

  load_modules-Booted :
      (ms : List Module) (k : Kernel)
      → IsRoster k
      → k.next_avail_pid + length ms < 2 ^ 32
      → Returns (Booted (length ms) k) (load_modules old mapping context old_free old_stack ms k)
  unfolding load_modules
  load_modules-Booted [] k h l = (h, sym (append-nil (pids k.contexts)))
  load_modules-Booted (m ∷ ms) k h l =
      Returns-bind (λ (code, k''). SamePids (created k) k'') (Booted (suc (length ms)) k)
        (execve_elf old mapping (created k) (some k.next_avail_pid)
          (if m.mod_start == 0 then none else some m.bytes) (sub32 m.mod_end m.mod_start))
        _
        (execve_elf-SamePids old mapping (created k) (some k.next_avail_pid)
          (if m.mod_start == 0 then none else some m.bytes) (sub32 m.mod_end m.mod_start))
        (λ (code, k'') s.
          Returns-map (Booted (length ms) k'') (Booted (suc (length ms)) k)
            (load_modules old mapping context old_free old_stack ms k'')
            (λ k' t. extended (length ms) k k'' k' (omega arith) s t)
            (load_modules-Booted ms k''
              (IsRoster-SamePids (created k) k'' s (created-IsRoster k (omega arith) h))
              (omega (arith, s.1, created-next k (omega arith)))))

found_first :
    (cs : List Context) (p : ℕ) (ps : List ℕ)
    → pids cs ≡ p ∷ ps
    → (c : Context) × (find_context p cs ≡ some c) × (c.pid ≡ p)
unfolding find_context
found_first [] p ps e = cc
found_first (c ∷ cs) p ps e = (c, ground (arith, head), head)
  where
    head : c.pid ≡ p
    head = cc

first_current :
    (n : ℕ) (k : Kernel)
    → pids k.contexts ≡ counted 1 n
    → 0 < n
    → set_current_process k 1 ≡ some (record k { current = 1 })
unfolding set_current_process
first_current zero k e l = absurd (omega arith)
first_current (suc n) k e l =
    let (c, found, same) = found_first k.contexts 1 (counted 2 n) e in
    rw (set_current_process, found, same) refl

-- Where the kernel loads its modules after initialize_scheduler, there are processes with the pids 1, 2
-- and so on, one for each module and in their order, and these are distinct and below the next one. If
-- there is a module, set_current_process makes process 1 the current one.
pub boot_lem :
    (old : Reader) (mapping : Mapping) (context : Context) (old_free old_stack : Region)
    (ms : List Module) (k k' : Kernel)
    → load_modules old mapping context old_free old_stack ms (initialize_scheduler k) ≡ returns k'
    → 1 + length ms < 2 ^ 32
    → IsRoster k'
      × (pids k'.contexts ≡ counted 1 (length ms))
      × (0 < length ms → set_current_process k' 1 ≡ some (record k' { current = 1 }))
unfolding initialize_scheduler set_current_process
boot_lem old mapping context old_free old_stack ms k k' e l =
    let (roster, grown) =
      Returns-returned (Booted (length ms) (initialize_scheduler k))
        (load_modules old mapping context old_free old_stack ms (initialize_scheduler k)) k'
        (load_modules-Booted old mapping context old_free old_stack ms (initialize_scheduler k)
          (initialize_scheduler-IsRoster k) l)
        e in
    (roster, grown, first_current (length ms) k' grown)
