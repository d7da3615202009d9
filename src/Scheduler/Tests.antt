-- ===== src/Scheduler/Tests.antt =====
-- The scheduler at three processes, of which the second is current and the third waits.
use akaris_old.Base.{◌≡◌, refl, [], ◌∷◌, ◌++◌, hang}
use akaris_old.State.{Regs, Context, Kernel, find_context}
use akaris_old.Scheduler.{lap, runs, schedule}
use akaris_old.Scheduler.Rotation.{Distinct, first_of, lap_round}
use akaris_old.Examples.{regs, sender, receiver, pipe, kernel_with}

abbrev first : Context
first = record sender { pid = 5 }

abbrev third : Context
third = record receiver { pid = 7 }

abbrev three : Kernel
three = record (kernel_with (pipe 0 0)) { contexts = first ∷ sender ∷ third ∷ [] }

abbrev saved_regs : Regs
saved_regs = record regs { eax = 99 }

three-Distinct : Distinct ((first ∷ []) ++ sender ∷ (third ∷ []))
unfolding find_context
three-Distinct = (refl, (refl, (refl, tt)))

lap_three : lap three.contexts 3 2 2 ≡ first_of (runs three.contexts) (7 ∷ 5 ∷ 2 ∷ [])
lap_three = lap_round (first ∷ []) sender (third ∷ []) three-Distinct

-- With no process that runs and no interrupt to come, the idle loop is never left.
idle : schedule [] (record three { contexts = third ∷ []; current = 7 }) regs ≡ hang
unfolding schedule
idle = refl
