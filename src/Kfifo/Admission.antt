-- ===== src/Kfifo/Admission.antt =====
-- Which reads kfifo_read_fifo (sys/common/kfifo.c) lets pass. Its count runs from the reader's index
-- back to the writer's, so that it is the free part, and not what waits.
use akaris_old.Base.{
  ℕ, ◌+◌, ◌≤◌, ◌<◌, ◌≡◌, ◌∙◌, ap₂, sym, true, List, ◌++◌, arith, returns, length, contains,
}
use akaris_old.State.{Fifo, Kernel}
use akaris_old.Ring.{advance}
use akaris_old.Ring.Refine.{
  IsRing, contents, slice, used, used-lt, cur_size_lem, read_refines, advance_lem,
}
use akaris_old.Trigger.Calm.{NextChain}
use akaris_old.Kfifo.{success, buflen, read_fifo}
use akaris_old.Kfifo.Write.{Open}
use akaris_old.Kfifo.Read.{Inlet, Received, read_fifo-Received, read_fifo-refused}

module _ (k : Kernel) (mypid : ℕ) (f : Fifo) (buf : List ℕ) (len : ℕ) (o : Open k f.fifo_id f)
    (e : Inlet k f mypid) (bs : List ℕ) (c : NextChain k.events f.ke_list bs)
    (n : length bs ≤ length k.events) (v : IsRing (k.memory e.region.backing) f.size f.start f.end)
    (s : contains f.recvlist mypid ≡ true) where
  -- With both locks free, a valid ring, the receiver's region for the FIFO and a chain of wired events:
  -- a receiver that asks for at least one byte, and no more than what waits and than its buffer holds,
  -- where at least as much is free, is given the oldest bytes in order, and the rest goes on waiting.
  pub read_fifo-oldest :
      0 < len
      → len ≤ used f.size f.start f.end
      → used f.size f.start f.end + len ≤ f.size
      → len ≤ length buf
      → (out : List ℕ) × (k' : Kernel) × (read_fifo k f.fifo_id mypid buf len
          ≡ returns (success, out, k'))
        × Received k k' f e.region.backing buf out len
        × (contents (k.memory e.region.backing) f.size f.start f.end
            ≡ slice out 0 len
              ++ contents (k'.memory e.region.backing) f.size f.start (advance f.size f.end len))
  read_fifo-oldest p w r b =
      let (out, k', done, got) =
        read_fifo-Received k mypid f buf len o e bs c n s (ground (arith, cur_size_lem v)) in
      (
        out,
        k',
        done,
        got,
        read_refines buf len v w b
            ∙ ap₂
                (λ t m.
                  slice t 0 len
                  ++ contents (m e.region.backing) f.size f.start (advance f.size f.end len))
                (sym got.copied) (sym got.memory),
      )

  -- With both locks free, a valid ring, the receiver's region for the FIFO and a chain of wired events:
  -- where some bytes wait, but fewer than the receiver asks for, and as much is free, the read is let
  -- pass: it succeeds, and the reader's index overtakes the writer's.
  pub read_fifo-overruns :
      0 < used f.size f.start f.end
      → used f.size f.start f.end < len
      → used f.size f.start f.end + len ≤ f.size
      → (out : List ℕ) × (k' : Kernel) × (read_fifo k f.fifo_id mypid buf len
          ≡ returns (success, out, k'))
        × Received k k' f e.region.backing buf out len
        × (used f.size f.start (advance f.size f.end len) + len
            ≡ used f.size f.start f.end + f.size)
  read_fifo-overruns p w r =
      let (out, k', done, got) =
        read_fifo-Received k mypid f buf len o e bs c n s (ground (arith, cur_size_lem v)) in
      (out, k', done, got, ground (arith, advance_lem f.size f.end len))

  -- Where the bytes that the receiver asks for wait, but less than as much is free, the read is
  -- refused with BUFLEN, and the kernel stays as it was.
  read_fifo-starves :
      len ≤ used f.size f.start f.end
      → f.size < used f.size f.start f.end + len
      → read_fifo k f.fifo_id mypid buf len ≡ returns (buflen, buf, k)
  read_fifo-starves w r =
      ground (arith, cur_size_lem v, used-lt v, read_fifo-refused k f.fifo_id mypid f buf len o)
