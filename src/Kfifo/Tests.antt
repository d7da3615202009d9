-- ===== src/Kfifo/Tests.antt =====
-- The theorems on the FIFOs at a small kernel, and runs of the operations.
use akaris_old.Base.{ℕ, zero, suc, ◌+◌, ◌≡◌, refl, some, List, [], ◌∷◌, ◌++◌, arith, returns}
use akaris_old.State.{Fifo, Kernel, running, find_context, find_fifo, find_kqueue}
use akaris_old.Space.{clone_region, delete_region, find_ipc}
use akaris_old.Ring.{cur_free, advance}
use akaris_old.Ring.Refine.{contents, slice, used}
use akaris_old.Trigger.Wake.{IsWired, Chain}
use akaris_old.Kfifo.{success, full, write_fifo, read_fifo}
use akaris_old.Kfifo.Write.{Open, Endpoint, Sent, write_fifo-refused, write_fifo-Sent}
use akaris_old.Kfifo.Read.{Inlet, Received}
use akaris_old.Kfifo.Admission.{read_fifo-oldest, read_fifo-overruns}
use akaris_old.Kqueue
use akaris_old.Kqueue.{kqueue_block}
use akaris_old.Kqueue.Wake.{Watches, running_owner, write_wakes}
use akaris_old.Examples.{regs, inbox, receiver, sender, event, queue, pipe, kernel_with}

abbrev message : List ℕ
message = 1 ∷ 2 ∷ 3 ∷ 4 ∷ 5 ∷ 6 ∷ 7 ∷ 8 ∷ 9 ∷ []

pipe-Open : (start end : ℕ) → Open (kernel_with (pipe start end)) 1 (pipe start end)
unfolding find_fifo
pipe-Open start end = record { mutex = refl; found = refl; lock = refl }

pipe-Endpoint : Endpoint (kernel_with (pipe 6 4)) (pipe 6 4) 2
unfolding find_context find_ipc clone_region delete_region
pipe-Endpoint = record {
  receiver = 1;
  others = [];
  recvlist = refl;
  rc = receiver;
  receiving = refl;
  place = 0;
  region = inbox;
  found = refl;
  at = refl;
  wc = sender;
  writing = refl;
  restores = refl;
}

pipe-Inlet : (start end : ℕ) → Inlet (kernel_with (pipe start end)) (pipe start end) 1
unfolding find_context find_ipc
pipe-Inlet start end = record {
  c = receiver;
  reading = refl;
  place = 0;
  region = inbox;
  found = refl;
  at = refl;
}

wired : (f : Fifo) → IsWired (kernel_with f)
unfolding find_kqueue find_context
wired f zero ke h = (queue, ground arith, λ e. cc)
wired f (suc a) ke h = cc

chained : Chain (event ∷ []) (some 0) (0 ∷ [])
chained = (event, refl, refl, refl)

write_fifo-Sent_example :
    (k' : Kernel) × (write_fifo (kernel_with (pipe 6 4)) 1 2 message 3 ≡ returns (success, k'))
    × Sent (kernel_with (pipe 6 4)) k' (pipe 6 4) 5 message 3 (0 ∷ [])
unfolding cur_free pipe-Endpoint
write_fifo-Sent_example =
    write_fifo-Sent (kernel_with (pipe 6 4)) 2 (pipe 6 4) message 3 (pipe-Open 6 4) pipe-Endpoint
      (omega arith) (0 ∷ []) refl (omega arith) (wired (pipe 6 4)) chained (omega arith)

-- The receiver's queue has the event of the FIFO.
watched : Watches (kernel_with (pipe 6 4)) 1 (0 ∷ []) (0 ∷ [])
unfolding find_kqueue find_context
watched = record {
  queue = queue;
  found = refl;
  owner = receiver;
  living = refl;
  same_pid = refl;
  chain = (event, refl, refl, refl);
  room = omega arith;
  place = 0;
  event = event;
  at = refl;
  readable = refl;
  of_fifo = refl;
  of_queue = refl;
}

write_wakes_example :
    (k' : Kernel) × (write_fifo (kernel_with (pipe 6 4)) 1 2 message 3 ≡ returns (success, k'))
    × (kqueue_block [] (running_owner k' watched.queue) 1 regs
        ≡ returns (Kqueue.success, regs, running_owner k' watched.queue))
unfolding cur_free pipe-Endpoint
write_wakes_example =
    write_wakes (kernel_with (pipe 6 4)) 2 (pipe 6 4) message 3 1 (0 ∷ []) (0 ∷ []) [] regs
      (pipe-Open 6 4) pipe-Endpoint (omega arith) refl (omega arith) (wired (pipe 6 4)) chained
      (omega arith) watched refl

write_fifo-refused_example :
    write_fifo (kernel_with (pipe 6 4)) 1 2 message 6 ≡ returns (full, kernel_with (pipe 6 4))
unfolding cur_free
write_fifo-refused_example =
    write_fifo-refused (kernel_with (pipe 6 4)) 1 2 (pipe 6 4) message 6 (pipe-Open 6 4) refl

-- Six and seven wait at the end of the ring, zero at its start.
read_fifo-oldest_example :
    (out : List ℕ) × (k' : Kernel) × (read_fifo (kernel_with (pipe 1 6)) 1 1 message 2
      ≡ returns (success, out, k'))
    × Received (kernel_with (pipe 1 6)) k' (pipe 1 6) 5 message out 2
    × (16 ∷ 17 ∷ 10 ∷ [] ≡ slice out 0 2 ++ contents (k'.memory 5) 8 1 (advance 8 6 2))
unfolding pipe-Inlet
read_fifo-oldest_example =
    read_fifo-oldest (kernel_with (pipe 1 6)) 1 (pipe 1 6) message 2 (pipe-Open 1 6)
      (pipe-Inlet 1 6) (0 ∷ []) (event, refl, refl, refl) (omega arith) (omega arith) refl
      (omega arith) (omega arith) (omega arith) (omega arith)

-- One byte waits, and five are read.
read_fifo-overruns_example :
    (out : List ℕ) × (k' : Kernel) × (read_fifo (kernel_with (pipe 1 0)) 1 1 message 5
      ≡ returns (success, out, k'))
    × Received (kernel_with (pipe 1 0)) k' (pipe 1 0) 5 message out 5
    × (used 8 1 (advance 8 0 5) + 5 ≡ 9)
unfolding pipe-Inlet
read_fifo-overruns_example =
    read_fifo-overruns (kernel_with (pipe 1 0)) 1 (pipe 1 0) message 5 (pipe-Open 1 0)
      (pipe-Inlet 1 0) (0 ∷ []) (event, refl, refl, refl) (omega arith) (omega arith) refl
      (omega arith) (omega arith) (omega arith)

-- Six bytes wait, and four cannot be read.
-- The write of the first example: the event is marked and its owner runs.
woken :
    (elim (write_fifo (kernel_with (pipe 6 4)) 1 2 message 3) [
      | returns (e, k') ↦ k'.contexts
      | _ ↦ []
    ])
    ≡ record receiver { status = running } ∷ sender ∷ []
unfolding write_fifo akaris_old.Trigger.kqueue_trigger_event
woken = refl
