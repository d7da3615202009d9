-- ===== src/Process/Tests.antt =====
-- A third process beside the two of the small kernel.
use akaris_old.Base.{ℕ, ◌≡◌, ◌≢◌, refl, some, arith}
use akaris_old.State.{Context, Status, Kernel, find_context, get_process}
use akaris_old.Process.{create_address_space, create_process}
use akaris_old.Process.Roster.{IsRoster, create_process_lem}
use akaris_old.Examples.{sender, inbox, stack_region, pipe, kernel_with}

abbrev two : Kernel
two = kernel_with (pipe 0 0)

two-IsRoster : IsRoster two
unfolding find_context
two-IsRoster = record { distinct = (refl, (refl, tt)); below = (omega arith, (omega arith, tt)) }

create_process_lem_example :
    let (pid, k') = create_process sender inbox stack_region two in
    ((c : Context) × (get_process k' pid ≡ some c)
      × (c.status ≡ Status.running)
      × (c.space ≡ create_address_space inbox stack_region))
    × ((p : ℕ) → p ≢ pid → get_process k' p ≡ get_process two p)
    × IsRoster k'
create_process_lem_example =
    create_process_lem sender inbox stack_region two two-IsRoster (omega arith)
