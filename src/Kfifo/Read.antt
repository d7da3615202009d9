-- ===== src/Kfifo/Read.antt =====
-- kfifo_read_fifo (sys/common/kfifo.c): what each of its branches does.
use akaris_old.Base.{
  ℕ, suc, ◌≤◌, ◌≡◌, refl, sym, ap, ◌∙◌, ◌≢◌, true, false, not, ◌||◌, some, List, ltb, ◌==◌,
  if◌then◌else◌, arith, returns, ◌>>=◌, length, get_elem?, contains, le→ltb,
}
use akaris_old.State.{Region, Context, Fifo, Kernel, get_process, find_fifo}
use akaris_old.Space.{find_ipc}
use akaris_old.Ring.{cur_size, advance, read_bytes}
use akaris_old.Trigger.{untrigger_events}
use akaris_old.Trigger.Calm.{NextChain, Calms, untrigger_events-Calms}
use akaris_old.Kfifo.{success, perm, buflen, put, unlock, read_locked, read_fifo}
use akaris_old.Kfifo.Write.{Open, holding, release-holding}
use akaris_old.Kfifo.Lookup.{find-update_fifo, find-update_fifo_ne}

module _ (k : Kernel) (i mypid : ℕ) (f : Fifo) (buf : List ℕ) (len : ℕ) (o : Open k i f) where
  read_fifo-open :
      read_fifo k i mypid buf len ≡ read_locked (holding k i) (record f { lock = 1 }) mypid buf len
  unfolding read_fifo
  read_fifo-open = simp (o.mutex, o.found, o.lock)

  -- A read that is refused leaves the kernel and the buffer as they were, locks included: first a
  -- reader that is no receiver is turned away, then a length above the count that the code computes.
  pub read_fifo-refused :
      let stranger = not (contains f.recvlist mypid) in
      let short = ltb (cur_size f.size f.start f.end) len in
      (stranger || short) ≡ true
      → read_fifo k i mypid buf len ≡ returns (if stranger then perm else buflen, buf, k)
  unfolding read_locked
  read_fifo-refused h = read_fifo-open ∙ ground (arith, release-holding k i f o)

-- What a read relies on: the reader has a region for the FIFO.
pub record Inlet (k : Kernel) (f : Fifo) (mypid : ℕ) : Type 0 where
  pub c : Context
  pub reading : get_process k mypid ≡ some c
  pub place : ℕ
  pub region : Region
  pub found : find_ipc f.fifo_id c.space ≡ some place
  pub at : get_elem? c.space place ≡ some region

read_locked-passes :
    (k : Kernel) (f : Fifo) (mypid : ℕ) (buf : List ℕ) (len : ℕ) (e : Inlet k f mypid)
    → contains f.recvlist mypid ≡ true
    → ltb (cur_size f.size f.start f.end) len ≡ false
    → read_locked k f mypid buf len ≡ (
        untrigger_events
          (suc (length k.events))
          (put k f.fifo_id (λ x. record x { end = advance f.size f.end len }))
          (f.start == advance f.size f.end len)
          f.ke_list
        >>= λ k'. returns (
          success,
          read_bytes (k.memory e.region.backing) f.size f.end buf len,
          unlock k' f.fifo_id,
        ))
unfolding read_locked
read_locked-passes k f mypid buf len e t u = simp (t, u, e.reading, e.found, e.at)

-- The kernel and the buffer after a read of `len` bytes from the region with the backing `b`.
pub record Received (k k' : Kernel) (f : Fifo) (b : ℕ) (buf out : List ℕ) (len : ℕ) : Type 0 where
  pub fifo : find_fifo f.fifo_id k'.fifos ≡ some (record f { end = advance f.size f.end len })
  pub copied : out ≡ read_bytes (k.memory b) f.size f.end buf len
  pub memory : k'.memory ≡ k.memory
  pub contexts : k'.contexts ≡ k.contexts
  pub other_fifos : (j : ℕ) → f.fifo_id ≢ j → find_fifo j k'.fifos ≡ find_fifo j k.fifos
  pub mutex : k'.fifo_list_mutex ≡ 0

module _ (k : Kernel) (mypid : ℕ) (f : Fifo) (buf : List ℕ) (len : ℕ) (o : Open k f.fifo_id f)
    (e : Inlet k f mypid) (bs : List ℕ) (c : NextChain k.events f.ke_list bs)
    (n : length bs ≤ length k.events) where
  -- A receiver's read of no more than the computed count returns success; only the read index, the
  -- locks and the marks of events may change.
  pub read_fifo-Received :
      contains f.recvlist mypid ≡ true
      → len ≤ cur_size f.size f.start f.end
      → (out : List ℕ) × (k' : Kernel) × (read_fifo k f.fifo_id mypid buf len
          ≡ returns (success, out, k'))
        × Received k k' f e.region.backing buf out len
  read_fifo-Received s l = (
    read_bytes (k.memory e.region.backing) f.size f.end buf len,
    unlock (record moved { events = t.events }) f.fifo_id,
    read_fifo-open k f.fifo_id mypid f buf len o
        ∙ read_locked-passes (holding k f.fifo_id) (record f { lock = 1 }) mypid buf len
            (record {
              c = e.c;
              reading = e.reading;
              place = e.place;
              region = e.region;
              found = e.found;
              at = e.at;
            })
            s (le→ltb _ _ l)
        ∙ ap
            (λ r. r >>= λ k'. returns (
              success,
              read_bytes (k.memory e.region.backing) f.size f.end buf len,
              unlock k' f.fifo_id,
            ))
            t.done,
    record {
      fifo =
          find-update_fifo f.fifo_id _ _ (record f { lock = 1; end = advance f.size f.end len })
            refl
            (find-update_fifo f.fifo_id _ _ (record f { lock = 1 }) refl
              (find-update_fifo f.fifo_id _ k.fifos f refl o.found))
          ∙ ap (λ z. some (record f { end = advance f.size f.end len; lock = z })) (sym o.lock);
      copied = refl;
      memory = refl;
      contexts = refl;
      other_fifos = λ j ne.
          find-update_fifo_ne f.fifo_id j _ _ (λ x. refl) ne
          ∙ find-update_fifo_ne f.fifo_id j _ _ (λ x. refl) ne
          ∙ find-update_fifo_ne f.fifo_id j _ k.fifos (λ x. refl) ne;
      mutex = refl;
    },
  )
    where
      moved : Kernel
      moved = put (holding k f.fifo_id) f.fifo_id (λ x. record x { end = advance f.size f.end len })

      t : Calms moved (
          untrigger_events
            (suc (length k.events))
            moved
            (f.start == advance f.size f.end len)
            f.ke_list)
      t =
          untrigger_events-Calms (suc (length k.events)) moved (f.start == advance f.size f.end len)
            f.ke_list bs (omega arith) c
