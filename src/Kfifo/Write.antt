-- ===== src/Kfifo/Write.antt =====
-- kfifo_write_fifo (sys/common/kfifo.c): what each of its branches does.
use akaris_old.Base.{
  ℕ, suc, ◌≤◌, ◌≡◌, refl, sym, ap, ap₂, ◌∙◌, ◌≢◌, true, false, not, ◌||◌, some, List, ◌∷◌, ◌++◌,
  ltb, if◌then◌else◌, arith, returns, ◌>>=◌, length, get_elem?, contains, sub32, le→ltb, ==_refl,
}
use akaris_old.State.{Region, Context, Fifo, Kernel, get_process, find_fifo, update_context}
use akaris_old.Space.{clone_region, delete_region, find_ipc}
use akaris_old.Ring.{cur_free, advance, write_bytes}
use akaris_old.Ring.Refine.{IsRing, contents, slice, write_refines, write-IsRing, cur_free_lem}
use akaris_old.Trigger.{trigger_events}
use akaris_old.Trigger.Wake.{
  SameLinks, SameProcesses, IsWired, Chain, AllFired, Triggers, trigger_events-Triggers,
}
use akaris_old.Kfifo.{
  success, perm, full, buflen, put, unlock, with_mutex, store_bytes, writer_pid, copy_in,
  write_locked, write_fifo,
}
use akaris_old.Kfifo.Lookup.{
  find-update_fifo, find-update_fifo_ne, update-update_fifo, update_fifo_same, find_fifo_id,
  update_context_same,
}

-- What the copy relies on: the receiver has a region for the FIFO, and the writer's address space
-- takes a clone of it for the time of the copy.
pub record Endpoint (k : Kernel) (f : Fifo) (mypid : ℕ) : Type 0 where
  pub receiver : ℕ
  pub others : List ℕ
  pub recvlist : f.recvlist ≡ receiver ∷ others
  pub rc : Context
  pub receiving : get_process k receiver ≡ some rc
  pub place : ℕ
  pub region : Region
  pub found : find_ipc f.fifo_id rc.space ≡ some place
  pub at : get_elem? rc.space place ≡ some region
  pub wc : Context
  pub writing : get_process k (writer_pid k mypid) ≡ some wc
  pub restores : (clone_region wc.space region >>= λ s. delete_region s 0) ≡ returns wc.space

copy_in_lem :
    (k : Kernel) (f : Fifo) (mypid : ℕ) (buf : List ℕ) (len : ℕ) (e : Endpoint k f mypid)
    → copy_in k f mypid buf len
      ≡ returns (
          store_bytes k e.region.backing
            (write_bytes (k.memory e.region.backing) f.size f.start buf len))
unfolding copy_in
copy_in_lem k f mypid buf len e =
    rw (e.recvlist, copy_in, e.receiving, e.found, e.at, e.writing, e.restores)
      (ap returns (
        ap
          (λ cs.
            store_bytes (record k { contexts = cs }) e.region.backing
              (write_bytes (k.memory e.region.backing) f.size f.start buf len))
          same))
  where
    same :
        update_context (writer_pid k mypid) (λ c. record c { space = e.wc.space }) k.contexts
        ≡ k.contexts
    same = update_context_same (writer_pid k mypid) _ k.contexts e.wc e.writing refl

-- A FIFO that is found with both locks free.
pub record Open (k : Kernel) (i : ℕ) (f : Fifo) : Type 0 where
  pub mutex : k.fifo_list_mutex ≡ 0
  pub found : find_fifo i k.fifos ≡ some f
  pub lock : f.lock ≡ 0

-- The kernel while the operation holds the FIFO's lock.
abbrev pub holding : Kernel → ℕ → Kernel
holding k i = put (with_mutex k 0) i (λ x. record x { lock = 1 })

pub release-holding :
    (k : Kernel) (i : ℕ) (f : Fifo) → Open k i f → unlock (holding k i) f.fifo_id ≡ k
release-holding k i f o =
    ap (unlock (holding k i)) (find_fifo_id i k.fifos f o.found)
    ∙ ap₂ (λ fs m. record k { fifos = fs; fifo_list_mutex = m })
        (update-update_fifo i _ _ k.fifos (λ x. refl)
          ∙ update_fifo_same i _ k.fifos f o.found (same f o.lock))
        (sym o.mutex)
  where
    same : (f : Fifo) → f.lock ≡ 0 → record f { lock = 0 } ≡ f
    same f e = ground arith

module _ (k : Kernel) (i mypid : ℕ) (f : Fifo) (buf : List ℕ) (len : ℕ) (o : Open k i f) where
  write_fifo-open :
      write_fifo k i mypid buf len
      ≡ write_locked (holding k i) (record f { lock = 1 }) mypid buf len
  unfolding write_fifo
  write_fifo-open = simp (o.mutex, o.found, o.lock)

  -- A write that is refused leaves the kernel as it was, locks included; the first test that fails
  -- gives the code: too long for the FIFO, too long for its free part, no sender.
  pub write_fifo-refused :
      let long = ltb (sub32 f.size 1) len in
      let crowded = ltb (cur_free f.size f.start f.end) len in
      (long || crowded || not (contains f.sendlist mypid)) ≡ true
      → write_fifo k i mypid buf len
        ≡ returns (if long then buflen else (if crowded then full else perm), k)
  unfolding write_locked
  write_fifo-refused h = write_fifo-open ∙ ground (arith, release-holding k i f o)

-- The last part of a write, once the tests have passed and the bytes are copied.
write_locked-passes :
    (k k' : Kernel) (f : Fifo) (mypid : ℕ) (buf : List ℕ) (len : ℕ)
    → ltb (sub32 f.size 1) len ≡ false
    → ltb (cur_free f.size f.start f.end) len ≡ false
    → contains f.sendlist mypid ≡ true
    → copy_in k f mypid buf len ≡ returns k'
    → write_locked k f mypid buf len ≡ (
        trigger_events
          (suc (length k.events))
          (put k' f.fifo_id (λ x. record x { start = advance f.size f.start len; lock = 0 }))
          f.ke_list
        >>= λ k''. returns (success, k''))
unfolding write_locked
write_locked-passes k k' f mypid buf len t u s c = simp (t, u, s, c)

-- The kernel after a write of `len` bytes through the region with the backing `b`, with the events
-- `bs` on the FIFO's list.
pub record Sent (k k' : Kernel) (f : Fifo) (b : ℕ) (buf : List ℕ) (len : ℕ) (bs : List ℕ)
    : Type 0 where
  pub fifo : find_fifo f.fifo_id k'.fifos ≡ some (record f { start = advance f.size f.start len })
  pub bytes :
      contents (k'.memory b) f.size (advance f.size f.start len) f.end
      ≡ contents (k.memory b) f.size f.start f.end ++ slice buf 0 len
  pub shape : IsRing (k'.memory b) f.size (advance f.size f.start len) f.end
  pub other_fifos : (j : ℕ) → f.fifo_id ≢ j → find_fifo j k'.fifos ≡ find_fifo j k.fifos
  pub other_memory : (c : ℕ) → c ≢ b → k'.memory c ≡ k.memory c
  pub mutex : k'.fifo_list_mutex ≡ 0
  pub fired : AllFired k.events k' bs
  pub kqueues : k'.kqueues ≡ k.kqueues
  pub links : SameLinks k k'
  pub processes : SameProcesses k k'
  pub events : length k'.events ≡ length k.events

module _ (k : Kernel) (mypid : ℕ) (f : Fifo) (buf : List ℕ) (len : ℕ) (o : Open k f.fifo_id f)
    (e : Endpoint k f mypid) (v : IsRing (k.memory e.region.backing) f.size f.start f.end) where
  -- The kernel once the bytes are in and the lock is free.
  stored : Kernel
  stored =
      put
        (store_bytes (holding k f.fifo_id) e.region.backing
          (write_bytes (k.memory e.region.backing) f.size f.start buf len))
        f.fifo_id (λ x. record x { start = advance f.size f.start len; lock = 0 })

  write_locked-stored :
      contains f.sendlist mypid ≡ true
      → len ≤ cur_free f.size f.start f.end
      → write_locked (holding k f.fifo_id) (record f { lock = 1 }) mypid buf len
        ≡ (trigger_events (suc (length k.events)) stored f.ke_list >>= λ k'. returns (success, k'))
  unfolding stored
  write_locked-stored s l =
      write_locked-passes (holding k f.fifo_id) _ (record f { lock = 1 }) mypid buf len
        (le→ltb _ _ (omega (arith, cur_free_lem v))) (le→ltb _ _ l) s
        (copy_in_lem (holding k f.fifo_id) (record f { lock = 1 }) mypid buf len
          (record {
            receiver = e.receiver;
            others = e.others;
            recvlist = e.recvlist;
            rc = e.rc;
            receiving = e.receiving;
            place = e.place;
            region = e.region;
            found = e.found;
            at = e.at;
            wc = e.wc;
            writing = e.writing;
            restores = e.restores;
          }))

  -- A write that is admitted returns success: the bytes stand behind those that waited, in order,
  -- nothing else of the FIFOs or of their memory changes, both locks are free, and every readable
  -- event on the FIFO's list is marked and its owner woken.
  pub write_fifo-Sent :
      (bs : List ℕ)
      → contains f.sendlist mypid ≡ true
      → len ≤ cur_free f.size f.start f.end
      → IsWired k
      → Chain k.events f.ke_list bs
      → length bs ≤ length k.events
      → (k' : Kernel) × (write_fifo k f.fifo_id mypid buf len ≡ returns (success, k'))
        × Sent k k' f e.region.backing buf len bs
  unfolding stored
  write_fifo-Sent bs s l w c n = (
    t.after,
    write_fifo-open k f.fifo_id mypid f buf len o
        ∙ write_locked-stored s l
        ∙ ap (λ r. r >>= λ k'. returns (success, k')) t.done,
    record {
      fifo =
          ap (find_fifo f.fifo_id) t.frame.fifos
          ∙ find-update_fifo f.fifo_id _ _ (record f { lock = 1 }) refl
              (find-update_fifo f.fifo_id _ k.fifos f refl o.found)
          ∙ ap (λ z. some (record f { start = advance f.size f.start len; lock = z })) (sym o.lock);
      bytes =
          ap (λ m. contents (m e.region.backing) f.size (advance f.size f.start len) f.end)
            t.frame.memory
          ∙ rw (==_refl e.region.backing) (write_refines buf len v l);
      shape =
          rw (t.frame.memory, ==_refl e.region.backing)
            (write-IsRing buf len v (omega (arith, cur_free_lem v)));
      other_fifos = λ j ne.
          ap (find_fifo j) t.frame.fifos
          ∙ find-update_fifo_ne f.fifo_id j _ _ (λ x. refl) ne
          ∙ find-update_fifo_ne f.fifo_id j _ k.fifos (λ x. refl) ne;
      other_memory = λ b ne. ap (λ m. m b) t.frame.memory ∙ ground arith;
      mutex = t.frame.fifo_list_mutex;
      fired = t.fired;
      kqueues = t.frame.kqueues;
      links = t.frame.links;
      processes = t.frame.processes;
      events = t.frame.events;
    },
  )
    where
      t : Triggers stored bs (trigger_events (suc (length k.events)) stored f.ke_list)
      t = trigger_events-Triggers (suc (length k.events)) stored f.ke_list bs (omega arith) w c
