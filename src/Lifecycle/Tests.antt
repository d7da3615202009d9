-- ===== src/Lifecycle/Tests.antt =====
-- Process 2 of the small kernel writes to process 1, which waits, a third process is created, and the
-- timer interrupts.
use akaris_old.Base.{ℕ, ◌≡◌, refl, none, List, [], ◌∷◌, ◌++◌, arith, Outcome, returns, fault, hang}
use akaris_old.State.{Kernel, get_process}
use akaris_old.Scheduler.{schedule}
use akaris_old.Scheduler.Rotation.{pids}
use akaris_old.Process.{create_process, initial_registers}
use akaris_old.Process.Roster.{IsRoster}
use akaris_old.Kfifo.{success, write_fifo}
use akaris_old.Trigger.{kqueue_trigger_event}
use akaris_old.Lifecycle.{Runs, none_yet, one_more, created, wrote, scheduled, no_more, and_then}
use akaris_old.Lifecycle.Reach.{reach_lem}
use akaris_old.Examples.{regs, sender, inbox, stack_region, pipe, kernel_with}

abbrev two : Kernel
two = kernel_with (pipe 0 0)

abbrev kernel_after {ℓ} : {A : Type ℓ} → Outcome (A × Kernel) → Kernel
kernel_after (returns (a, k)) = k
kernel_after fault = two
kernel_after hang = two

abbrev written : Kernel
written = kernel_after (write_fifo two 1 2 (7 ∷ 8 ∷ []) 2)

written_lem : write_fifo two 1 2 (7 ∷ 8 ∷ []) 2 ≡ returns (success, written)
unfolding write_fifo kqueue_trigger_event
written_lem = refl

abbrev three : Kernel
three = (create_process sender inbox stack_region written).1

abbrev switched : Kernel
switched = kernel_after (schedule ((λ k. k) ∷ []) three regs)

switched_lem : schedule ((λ k. k) ∷ []) three regs ≡ returns (initial_registers regs, switched)
unfolding schedule create_process write_fifo kqueue_trigger_event
switched_lem = refl

ran : Runs two switched
unfolding create_process write_fifo kqueue_trigger_event
ran = one_more (wrote two written 1 2 (7 ∷ 8 ∷ []) 2 success written_lem) (
    one_more (created sender inbox stack_region written (omega arith)) (
      scheduled ((λ k. k) ∷ []) three switched regs (initial_registers regs)
        (and_then (λ k. none_yet k) no_more) switched_lem))

reach_lem_example :
    ((more : List ℕ) × (pids switched.contexts ≡ pids two.contexts ++ more))
    × ((p : ℕ) → get_process switched p ≡ none → get_process two p ≡ none)
    × (IsRoster two → IsRoster switched)
reach_lem_example = reach_lem two switched ran
