-- ===== src/Kqueue/Switch.antt =====
-- kqueue_block (sys/common/kqueue.c) with the scheduler (sys/common/process.c): who runs after it.
use akaris_old.Base.{
  ℕ, ◌≡◌, ap, ◌∙◌, Bool, false, none, some, List, [], ◌∷◌, ◌++◌, ◌==◌, if◌then◌else◌, arith,
  returns, ◌>>=◌,
}
use akaris_old.State.{Regs, Context, Kernel, waiting, find_context}
use akaris_old.Scheduler.{runs, schedule}
use akaris_old.Scheduler.Rotation.{Distinct, pids, first_of}
use akaris_old.Scheduler.Switch.{saved, update-middle, schedule-switches}
use akaris_old.Kqueue.{success, kqueue_block}
use akaris_old.Kqueue.Block.{Blocks, answer, answered, marked, sleeping, kqueue_block_lem}

-- The process that waits on the queue `i`.
abbrev pub asleep : ℕ → Context → Context
asleep i c = record c { kqueue_block = i; status = waiting }

hidden :
    (p i : ℕ) (xs : List Context) (c : Context) (ys : List Context)
    → find_context p (xs ++ c ∷ ys) ≡ none
    → find_context p (xs ++ asleep i c ∷ ys) ≡ none
unfolding find_context
hidden p i [] c ys h = ground arith
hidden p i (x ∷ xs) c ys h = ground (arith, hidden p i xs c ys)

asleep-Distinct :
    (xs : List Context) (c : Context) (i : ℕ) (ys : List Context)
    → Distinct (xs ++ c ∷ ys)
    → Distinct (xs ++ asleep i c ∷ ys)
asleep-Distinct [] c i ys d = d
asleep-Distinct (x ∷ xs) c i ys (n, d) = (hidden x.pid i xs c ys n, asleep-Distinct xs c i ys d)

first_of-append :
    (t : ℕ → Bool) (ps qs : List ℕ) (p : ℕ)
    → first_of t ps ≡ some p
    → first_of t (ps ++ qs) ≡ some p
unfolding first_of
first_of-append t [] qs p h = cc
first_of-append t (q ∷ ps) qs p h = ground (arith, first_of-append t ps qs p)

-- The owner's kqueue_block returns at once with nothing changed if an event of the queue is marked.
-- Otherwise the process waits on the queue with its registers saved, and the first running process
-- behind it in the list, or else before it, goes on with its own registers; nothing else of the kernel
-- changes. The pids are distinct, kernel_reenter is 0, some other process runs, and EBP is not 0.
pub kqueue_block-switches :
    (halts : List (Kernel → Kernel)) (k : Kernel) (i : ℕ) (regs : Regs) (bs : List ℕ)
    (xs : List Context) (c : Context) (ys : List Context) (p : ℕ) (d : Context)
    → Blocks k i bs
    → (regs.ebp == 0) ≡ false
    → k.kernel_reenter ≡ 0
    → k.contexts ≡ xs ++ c ∷ ys
    → k.current ≡ c.pid
    → Distinct (xs ++ c ∷ ys)
    → first_of (runs (saved xs (asleep i c) ys regs)) (pids ys ++ pids xs) ≡ some p
    → find_context p (saved xs (asleep i c) ys regs) ≡ some d
    → kqueue_block halts k i regs ≡ (
        if marked k.events bs
        then returns (success, regs, k)
        else returns (
          success,
          d.registers,
          record k { contexts = saved xs (asleep i c) ys regs; current = p },
        ))
unfolding sleeping
kqueue_block-switches halts k i regs bs xs c ys p d b framed r e cur dist first found =
    kqueue_block_lem halts k i regs bs b framed
    ∙ ap (λ o. if marked k.events bs then answer regs k else o) picked
  where
    waits : (sleeping k i).contexts ≡ xs ++ asleep i c ∷ ys
    waits = rw (e, cur) (update-middle (asleep i) xs c ys dist)

    picked :
        (schedule halts (sleeping k i) regs >>= answered)
        ≡ returns (
          success,
          d.registers,
          record k { contexts = saved xs (asleep i c) ys regs; current = p },
        )
    picked =
        ap (λ o. o >>= answered)
          (schedule-switches halts (sleeping k i) regs xs (asleep i c) ys p d r waits cur
            (asleep-Distinct xs c i ys dist)
            (first_of-append (runs (saved xs (asleep i c) ys regs)) (pids ys ++ pids xs)
              (c.pid ∷ []) p first)
            found)
