-- ===== src/Scheduler/Switch.antt =====
-- schedule (sys/common/process.c) as a whole: registers are saved, and the next running process in
-- the round goes on with its own.
use akaris_old.Base.{
  ℕ, ◌≡◌, ap, ◌∙◌, false, none, some, List, [], ◌∷◌, ◌++◌, ◌==◌, arith, length, returns, ==_refl,
}
use akaris_old.State.{Regs, Context, Kernel, find_context, update_context, get_process}
use akaris_old.Scheduler.{runs, lap, choose, resume, schedule}
use akaris_old.Scheduler.Rotation.{Distinct, pids, first_of, lap_round}

abbrev pub save : Regs → Context → Context
save regs c = record c { registers = regs }

find-middle :
    (p : ℕ) (xs : List Context) (c : Context) (regs : Regs) (ys : List Context)
    → find_context p (xs ++ c ∷ ys) ≡ none
    → find_context p (xs ++ save regs c ∷ ys) ≡ none
unfolding find_context
find-middle p [] c regs ys h = ground arith
find-middle p (x ∷ xs) c regs ys h = ground (arith, find-middle p xs c regs ys)

save-Distinct :
    (xs : List Context) (c : Context) (regs : Regs) (ys : List Context)
    → Distinct (xs ++ c ∷ ys)
    → Distinct (xs ++ save regs c ∷ ys)
save-Distinct [] c regs ys d = d
save-Distinct (x ∷ xs) c regs ys (n, d) =
    (find-middle x.pid xs c regs ys n, save-Distinct xs c regs ys d)

not-first :
    (p : ℕ) (xs : List Context) (c : Context) (ys : List Context)
    → find_context p (xs ++ c ∷ ys) ≡ none
    → (c.pid == p) ≡ false
unfolding find_context
not-first p [] c ys h = ground arith
not-first p (x ∷ xs) c ys h = ground (arith, not-first p xs c ys)

pub update-middle :
    (f : Context → Context) (xs : List Context) (c : Context) (ys : List Context)
    → Distinct (xs ++ c ∷ ys)
    → update_context c.pid f (xs ++ c ∷ ys) ≡ xs ++ f c ∷ ys
unfolding update_context
update-middle f [] c ys d = rw (==_refl c.pid)
update-middle f (x ∷ xs) c ys (n, d) =
    ground (arith, not-first x.pid xs c ys n, update-middle f xs c ys d)

choose-some :
    (halts : List (Kernel → Kernel)) (k : Kernel) (p orig : ℕ)
    → lap k.contexts (length k.contexts) orig orig ≡ some p
    → choose halts k orig ≡ returns (p, k)
unfolding choose
choose-some [] k p orig e = rw (e, choose)
choose-some (h ∷ hs) k p orig e = rw (e, choose)

-- The contexts once the current process `c` has its registers saved.
abbrev pub saved : List Context → Context → List Context → Regs → List Context
saved xs c ys regs = xs ++ save regs c ∷ ys

resumed :
    (k : Kernel) (p : ℕ) (d : Context)
    → get_process k p ≡ some d
    → resume k p (get_process k p) ≡ returns (d.registers, record k { current = p })
resumed k p d e = ap (resume k p) e

-- The switch, where no halt is under way.
pub schedule-switches :
    (halts : List (Kernel → Kernel)) (k : Kernel) (regs : Regs) (xs : List Context) (c : Context)
    (ys : List Context) (p : ℕ) (d : Context)
    → k.kernel_reenter ≡ 0
    → k.contexts ≡ xs ++ c ∷ ys
    → k.current ≡ c.pid
    → Distinct (xs ++ c ∷ ys)
    → first_of (runs (saved xs c ys regs)) ((pids ys ++ pids xs) ++ c.pid ∷ []) ≡ some p
    → find_context p (saved xs c ys regs) ≡ some d
    → schedule halts k regs
      ≡ returns (d.registers, record k { contexts = saved xs c ys regs; current = p })
unfolding schedule
schedule-switches halts k regs xs c ys p d r e cur dist first found =
    simp (r, e, cur, update-middle (save regs) xs c ys dist)
      (simp
        (choose-some halts
          (record k { contexts = saved xs c ys regs; current = c.pid; kernel_reenter = 0 }) p c.pid
          (lap_round xs (save regs c) ys (save-Distinct xs c regs ys dist) ∙ first))
        (resumed (record k { contexts = saved xs c ys regs; current = c.pid; kernel_reenter = 0 }) p
          d found))
