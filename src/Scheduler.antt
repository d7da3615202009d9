-- ===== src/Scheduler.antt =====
-- The round-robin scheduler of sys/common/process.c. `halts` says what the interrupts do that end
-- each successive `hlt` of the idle loop; when it is used up, no interrupt comes any more.
pub mod Rotation
pub mod Switch
mod Tests
use akaris_old.Base.{
  ℕ, zero, suc, Bool, true, false, Option, none, some, List, [], ◌∷◌, ◌==◌, not, if◌then◌else◌,
  Outcome, returns, fault, hang, ◌>>=◌, length,
}
use akaris_old.State.{
  Regs, Context, Status, Kernel, is_running, find_context, update_context, get_process,
}

-- `cur_process->next`, or the head of the list at its end.
unfoldable pub after : ℕ → List Context → Option ℕ
after p [] = none
after p (c ∷ []) = none
after p (c ∷ d ∷ cs) = if c.pid == p then some d.pid else after p (d ∷ cs)

abbrev pub first_pid : List Context → ℕ → ℕ
first_pid [] p = p
first_pid (c ∷ cs) p = c.pid

unfoldable pub next_process : List Context → ℕ → ℕ
unfolding after
next_process cs p = elim (after p cs) [ none ↦ first_pid cs p | some q ↦ q ]

unfoldable pub runs : List Context → ℕ → Bool
unfolding find_context
runs cs p = elim (find_context p cs) [ none ↦ false | some c ↦ is_running c.status ]

-- The rounds of the do loop until it meets a running process (`some`), or comes back to the
-- process that it started from and finds that it does not run (`none`).
unfoldable pub lap : List Context → (rounds cur orig : ℕ) → Option ℕ
unfolding next_process runs
lap cs zero cur orig = none
lap cs (suc rounds) cur orig =
    let next = next_process cs cur in
    let rest = lap cs rounds next orig in
    if runs cs next then some next else if next == orig then none else rest

-- The loop with its halts. A halt runs with `kernel_reenter` set.
unfoldable pub choose : List (Kernel → Kernel) → Kernel → ℕ → Outcome (ℕ × Kernel)
unfolding lap
choose [] k orig = elim (lap k.contexts (length k.contexts) orig orig) [
  | some p ↦ returns (p, k)
  | none ↦ hang
]
choose (h ∷ hs) k orig =
    let k' = record (h (record k { kernel_reenter = 1 })) { kernel_reenter = 0 } in
    let rest = choose hs k' orig in
    elim (lap k.contexts (length k.contexts) orig orig) [
      | some p ↦ returns (p, k)
      | none ↦ if runs k'.contexts orig then returns (orig, k') else rest
    ]

-- The end of schedule: the registers of the chosen process are copied out.
abbrev pub resume : Kernel → ℕ → Option Context → Outcome (Regs × Kernel)
resume k p none = fault
resume k p (some c) = returns (c.registers, record k { current = p })

-- schedule: the interrupted registers are saved, and those of the chosen process are returned.
unfoldable pub schedule : List (Kernel → Kernel) → Kernel → Regs → Outcome (Regs × Kernel)
unfolding choose update_context
schedule halts k regs =
    if not (k.kernel_reenter == 0)
    then returns (regs, k)
    else (choose halts
          (record k {
            contexts = update_context k.current (λ c. record c { registers = regs }) k.contexts;
          })
          k.current
        >>= λ (p, k'). resume k' p (get_process k' p))
