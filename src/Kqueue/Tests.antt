-- ===== src/Kqueue/Tests.antt =====
-- The theorems on kernel queues at a small kernel.
use akaris_old.Base.{ℕ, suc, ◌-◌, ◌≤◌, ◌≡◌, refl, [], ◌∷◌, ◌++◌, arith, returns, ◌>>=◌}
use akaris_old.State.{Kernel, running, fifo, fifo_readable, find_kqueue, find_context}
use akaris_old.Kqueue.{success, Change, kqueue_block, kqueue_poll}
use akaris_old.Kqueue.Poll.{pending, kqueue_poll_bound}
use akaris_old.Kqueue.Poll.Exact.{swept, kqueue_poll_exact}
use akaris_old.Kqueue.Block.{Blocks, answered, sleeping, kqueue_block_lem, kqueue_block-Fired}
use akaris_old.Trigger.Wake.{Fired}
use akaris_old.Scheduler.{schedule, runs}
use akaris_old.Scheduler.Rotation.{Distinct, first_of}
use akaris_old.Scheduler.Switch.{saved}
use akaris_old.Kqueue.Switch.{asleep, kqueue_block-switches}
use akaris_old.Examples.{regs, sender, receiver, event, queue, pipe, kernel_with}

-- The receiver is current, and its event is marked or not.
abbrev polling : ℕ → Kernel
polling mark = record (kernel_with (pipe 2 0)) {
  current = 1;
  events = record event { triggered = mark } ∷ [];
}

abbrev arrived : Change
arrived = record { filter = fifo; flag = fifo_readable; ident = 1 }

kqueue_poll_exact_example :
    (kqueue_poll (polling 1) 1 3
      ≡ returns (
        success,
        arrived ∷ [],
        record (polling 1) { events = swept (polling 1).events (0 ∷ []) },
      ))
    × (pending (swept (polling 1).events (0 ∷ [])) (0 ∷ []) ≡ [])
unfolding pending swept find_kqueue
kqueue_poll_exact_example =
    kqueue_poll_exact (polling 1) queue 1 1 3 (0 ∷ []) refl refl
      (record event { triggered = 1 }, refl, omega arith, refl, refl) (omega arith) (omega arith)

-- With room for nothing, one change is stored all the same.
kqueue_poll_bound_small : 1 ≤ suc (0 - 1)
unfolding kqueue_poll
kqueue_poll_bound_small = kqueue_poll_bound (polling 1) (polling 0) 1 0 (arrived ∷ []) refl

-- Another holder's lock is released.
blocking : (mark : ℕ) → Blocks (polling mark) 1 (0 ∷ [])
unfolding find_context find_kqueue
blocking mark = record {
  curproc = receiver;
  current = refl;
  curkq = queue;
  found = refl;
  owner = refl;
  chain = (record event { triggered = mark }, refl, refl, refl);
  room = omega arith;
}

kqueue_block_lem_small :
    kqueue_block [] (polling 0) 1 regs ≡ (schedule [] (sleeping (polling 0) 1) regs >>= answered)
kqueue_block_lem_small = kqueue_block_lem [] (polling 0) 1 regs (0 ∷ []) (blocking 0) refl

Fired-event : Fired (record (polling 1) { contexts = record receiver { status = running } ∷ [] }) 0
unfolding find_kqueue find_context
Fired-event = record {
  event = record event { triggered = 1 };
  at = refl;
  marked = refl;
  queue = queue;
  parent = refl;
  awake = λ c p. ground arith;
}

kqueue_block-Fired_small :
    kqueue_block []
      (record (polling 1) { contexts = record receiver { status = running } ∷ [] })
      1
      regs
    ≡ returns
        (success, regs, record (polling 1) { contexts = record receiver { status = running } ∷ [] })
unfolding find_kqueue find_context
kqueue_block-Fired_small =
    kqueue_block-Fired []
      (record (polling 1) { contexts = record receiver { status = running } ∷ [] }) 1 regs (0 ∷ [])
      0
      (record {
        curproc = record receiver { status = running };
        current = refl;
        curkq = queue;
        found = refl;
        owner = refl;
        chain = (record event { triggered = 1 }, refl, refl, refl);
        room = omega arith;
      })
      refl refl Fired-event

two-Distinct : Distinct ([] ++ receiver ∷ (sender ∷ []))
unfolding find_context
two-Distinct = (refl, (refl, tt))

-- The receiver blocks, and the sender goes on.
kqueue_block-switches_example :
    kqueue_block [] (polling 0) 1 regs
    ≡ returns (
      success,
      sender.registers,
      record (polling 0) {
        contexts = saved [] (asleep 1 receiver) (sender ∷ []) regs;
        current = 2;
      },
    )
unfolding first_of runs find_context
kqueue_block-switches_example =
    kqueue_block-switches [] (polling 0) 1 regs (0 ∷ []) [] receiver (sender ∷ []) 2 sender
      (blocking 0) refl refl refl refl two-Distinct refl refl
