-- ===== src/Process/Roster.antt =====
-- Pids stay distinct when a process is created, which the scheduler's theorems assume.
use akaris_old.Base.{
  ℕ, suc, ◌+◌, ◌^◌, ◌<◌, ◌≡◌, ◌≢◌, refl, ◌∙◌, some, List, [], ◌∷◌, ◌++◌, arith, add32,
}
use akaris_old.State.{Region, Context, Status, Kernel, find_context, get_process}
use akaris_old.Scheduler.Rotation.{Distinct}
use akaris_old.Process.{initialize_scheduler, create_address_space, new_context, create_process}

abbrev pub Below : ℕ → List Context → Type 0
Below n [] = Unit {0}
Below n (c ∷ cs) = (c.pid < n) × Below n cs

-- Each pid stands once, and the next one to be given away is above all of them.
pub record IsRoster (k : Kernel) : Type 0 where
  pub distinct : Distinct k.contexts
  pub below : Below k.next_avail_pid k.contexts

pub find-append_last :
    (cs : List Context) (c : Context) (p : ℕ)
    → p ≢ c.pid
    → find_context p (cs ++ c ∷ []) ≡ find_context p cs
unfolding find_context
find-append_last [] c p h = ground arith
find-append_last (d ∷ ds) c p h = ground (arith, find-append_last ds c p h)

pub find-append_new :
    (cs : List Context) (c : Context) → Below c.pid cs → find_context c.pid (cs ++ c ∷ []) ≡ some c
unfolding find_context
find-append_new [] c b = ground arith
find-append_new (d ∷ ds) c (l, b) = ground (arith, find-append_new ds c b)

append-Distinct :
    (cs : List Context) (c : Context) → Distinct cs → Below c.pid cs → Distinct (cs ++ c ∷ [])
unfolding find_context
append-Distinct [] c d b = (refl, tt)
append-Distinct (x ∷ xs) c (n, d) (l, b) =
    (find-append_last xs c x.pid (omega arith) ∙ n, append-Distinct xs c d b)

append-Below :
    (cs : List Context) (c : Context) (n : ℕ)
    → c.pid < suc n
    → Below n cs
    → Below (suc n) (cs ++ c ∷ [])
append-Below [] c n h b = (h, tt)
append-Below (x ∷ xs) c n h (l, b) = (omega arith, append-Below xs c n h b)

-- The list with a new process that takes the next pid.
pub appended-IsRoster :
    (k : Kernel) (c : Context)
    → c.pid ≡ k.next_avail_pid
    → k.next_avail_pid + 1 < 2 ^ 32
    → IsRoster k
    → IsRoster
        (record k { contexts = k.contexts ++ c ∷ []; next_avail_pid = add32 k.next_avail_pid 1 })
appended-IsRoster k c e l roster = record {
  distinct = append-Distinct k.contexts c roster.distinct (rw e roster.below);
  below = rw next (append-Below k.contexts c k.next_avail_pid (omega (arith, e)) roster.below);
}
  where
    next : add32 k.next_avail_pid 1 ≡ suc k.next_avail_pid
    next = omega arith

-- Where the pids are distinct and below the next one, create_process returns a pid at which
-- get_process finds a running process with a fresh address space; all other processes are found as
-- before, and the pids are distinct and below the next one again. The next pid does not wrap.
pub create_process_lem :
    (old : Context) (old_free old_stack : Region) (k : Kernel)
    → IsRoster k
    → k.next_avail_pid + 1 < 2 ^ 32
    → let (pid, k') = create_process old old_free old_stack k in
      ((c : Context) × (get_process k' pid ≡ some c)
        × (c.status ≡ Status.running)
        × (c.space ≡ create_address_space old_free old_stack))
      × ((p : ℕ) → p ≢ pid → get_process k' p ≡ get_process k p)
      × IsRoster k'
unfolding create_process new_context
create_process_lem old old_free old_stack k roster h =
    let c = new_context old old_free old_stack k.next_avail_pid in
    (
      (c, find-append_new k.contexts c roster.below, refl, refl),
      (λ p n. find-append_last k.contexts c p n),
      appended-IsRoster k c refl h roster,
    )

-- The invariant holds when the scheduler starts.
pub initialize_scheduler-IsRoster : (k : Kernel) → IsRoster (initialize_scheduler k)
unfolding initialize_scheduler
initialize_scheduler-IsRoster k = record { distinct = tt; below = tt }
