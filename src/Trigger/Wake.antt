-- ===== src/Trigger/Wake.antt =====
-- What triggering the events of a FIFO does: each one is marked, and the process that is blocked on
-- its kqueue runs again. Nothing else of the kernel changes.
use akaris_old.Base.{
  ℕ, zero, suc, ◌<◌, ◌≡◌, refl, ap, ◌∙◌, ◌≢◌, true, false, ◌&&◌, Option, none, some, List, [], ◌∷◌,
  ◌==◌, if◌then◌else◌, arith, Outcome, returns, length, get_elem?, set, Bool-cases, ==_iff,
  Option-cases, inl, inr,
}
use akaris_old.State.{
  Context, Kevent, Kqueue, Kernel, running, is_waiting, find_kqueue, find_context, update_context,
  get_process,
}
use akaris_old.Trigger.{is_readable_flag, kqueue_trigger_event, trigger_events}

-- The owner of the queue is not blocked on it.
abbrev pub Awake : Kernel → Kqueue → Type 0
Awake k q =
    (c : Context)
    → get_process k q.pid ≡ some c
    → (is_waiting c.status && (c.kqueue_block == q.kqueue_id)) ≡ false

-- The event is marked, and the owner of its queue is not blocked on the queue.
pub record Fired (k : Kernel) (a : ℕ) : Type 0 where
  pub event : Kevent
  pub at : get_elem? k.events a ≡ some event
  pub marked : event.triggered ≡ 1
  pub queue : Kqueue
  pub parent : find_kqueue event.parent k.kqueues ≡ some queue
  pub awake : Awake k queue

-- Each event is where it was, with its `next` pointer.
abbrev pub SameLinks : Kernel → Kernel → Type 0
SameLinks k k' =
    (b : ℕ) (kb : Kevent)
    → get_elem? k.events b ≡ some kb
    → (kn : Kevent) × (get_elem? k'.events b ≡ some kn) × (kn.next ≡ kb.next)

-- Each process is found as before, with its pid.
abbrev pub SameProcesses : Kernel → Kernel → Type 0
SameProcesses k k' =
    (r : ℕ) (d : Context)
    → get_process k r ≡ some d
    → (d' : Context) × (get_process k' r ≡ some d') × (d'.pid ≡ d.pid)

-- The parts of the kernel that triggering leaves alone.
pub record Frame (k k' : Kernel) : Type 0 where
  pub fifos : k'.fifos ≡ k.fifos
  pub kqueues : k'.kqueues ≡ k.kqueues
  pub memory : k'.memory ≡ k.memory
  pub fifo_list_mutex : k'.fifo_list_mutex ≡ k.fifo_list_mutex
  pub kqueue_lock : k'.kqueue_lock ≡ k.kqueue_lock
  pub current : k'.current ≡ k.current
  pub events : length k'.events ≡ length k.events
  pub links : SameLinks k k'
  pub processes : SameProcesses k k'

-- Every event has a kqueue, and the kqueue a process.
abbrev pub IsWired : Kernel → Type 0
IsWired k =
    (a : ℕ) (ke : Kevent)
    → get_elem? k.events a ≡ some ke
    → (q : Kqueue) × (find_kqueue ke.parent k.kqueues ≡ some q) × (get_process k q.pid ≢ none)

-- The events that are met from `p` on along `hook_next`.
abbrev pub Chain : List Kevent → Option ℕ → List ℕ → Type 0
Chain es p [] = p ≡ none
Chain es p (a ∷ bs) =
    (ke : Kevent) × (p ≡ some a) × (get_elem? es a ≡ some ke) × Chain es ke.hook_next bs

pub get_elem?-set :
    (es : List Kevent) (a b : ℕ) (ke v : Kevent)
    → get_elem? es a ≡ some v
    → get_elem? (set es a ke) b ≡ (if a == b then some ke else get_elem? es b)
get_elem?-set [] a b ke v e = cc
get_elem?-set (x ∷ es) zero zero ke v e = refl
get_elem?-set (x ∷ es) zero (suc b) ke v e = ground arith
get_elem?-set (x ∷ es) (suc a) zero ke v e = ground arith
get_elem?-set (x ∷ es) (suc a) (suc b) ke v e = ground (arith, get_elem?-set es a b ke v)

length-set : (es : List Kevent) (a : ℕ) (ke : Kevent) → length (set es a ke) ≡ length es
length-set [] a ke = refl
length-set (x ∷ es) zero ke = refl
length-set (x ∷ es) (suc a) ke = ap suc (length-set es a ke)

wake : Context → Context
wake c = record c { status = running }

find-wake :
    (p q : ℕ) (cs : List Context)
    → find_context q (update_context p wake cs) ≡ (
        if p == q
        then elim (find_context q cs) [ none ↦ none | some c ↦ some (wake c) ]
        else find_context q cs)
unfolding find_context update_context wake
find-wake p q [] = ground arith
find-wake p q (c ∷ cs) = ground (arith, find-wake p q cs)

-- The kernel after one event is triggered.
abbrev fire : Kernel → ℕ → Kevent → Kqueue → Context → Kernel
fire k a ke q c = record k {
  events = set k.events a (record ke { triggered = 1 });
  contexts =
      if is_waiting c.status && (c.kqueue_block == q.kqueue_id)
      then update_context q.pid wake k.contexts
      else k.contexts;
}

trigger_lem :
    (k : Kernel) (a : ℕ) (ke : Kevent) (q : Kqueue) (c : Context)
    → get_elem? k.events a ≡ some ke
    → find_kqueue ke.parent k.kqueues ≡ some q
    → get_process k q.pid ≡ some c
    → kqueue_trigger_event k a ≡ returns (fire k a ke q c)
unfolding kqueue_trigger_event wake
trigger_lem k a ke q c e f g = rw (e, kqueue_trigger_event, f, g)

module _ (k : Kernel) (a : ℕ) (ke : Kevent) (q : Kqueue) (c : Context)
    (e : get_elem? k.events a ≡ some ke) (f : find_kqueue ke.parent k.kqueues ≡ some q)
    (g : get_process k q.pid ≡ some c) where
  -- A queue's owner that is awake stays so.
  fire-Awake : (r : Kqueue) → Awake k r → Awake (fire k a ke q c) r
  unfolding wake
  fire-Awake r h d p = grind (arith, find-wake q.pid r.pid k.contexts, h)

  fire-Fired : Fired (fire k a ke q c) a
  unfolding wake
  fire-Fired = record {
    event = record ke { triggered = 1 };
    at = ground (arith, get_elem?-set k.events a a (record ke { triggered = 1 }) ke);
    marked = refl;
    queue = q;
    parent = f;
    awake = λ d p. ground (arith, find-wake q.pid q.pid k.contexts);
  }

  fire-links : SameLinks k (fire k a ke q c)
  fire-links b kb h = elim (Bool-cases (a == b)) [
    | inl same ↦ (
      record ke { triggered = 1 },
      ground (arith, get_elem?-set k.events a b (record ke { triggered = 1 }) ke),
      ground arith,
    )
    | inr other ↦
        (kb, ground (arith, get_elem?-set k.events a b (record ke { triggered = 1 }) ke), refl)
  ]

  fire-processes : SameProcesses k (fire k a ke q c)
  unfolding wake
  fire-processes r d h =
      elim (Bool-cases (is_waiting c.status && (c.kqueue_block == q.kqueue_id))) [
        | inr still ↦ (d, rw still h, refl)
        | inl woken ↦ elim (Bool-cases (q.pid == r)) [
          | inl same ↦ (wake d, rw woken (ground (arith, find-wake q.pid r k.contexts)), refl)
          | inr other ↦ (d, rw woken (ground (arith, find-wake q.pid r k.contexts)), refl)
        ]
      ]

  fire-Frame : Frame k (fire k a ke q c)
  fire-Frame = record {
    fifos = refl;
    kqueues = refl;
    memory = refl;
    fifo_list_mutex = refl;
    kqueue_lock = refl;
    current = refl;
    events = length-set k.events a (record ke { triggered = 1 });
    links = fire-links;
    processes = fire-processes;
  }

  -- The event at a place before and after: all but the mark is the same.
  before-fire :
      (b : ℕ) (kb : Kevent)
      → get_elem? (fire k a ke q c).events b ≡ some kb
      → (ko : Kevent) × (get_elem? k.events b ≡ some ko) × (ko.parent ≡ kb.parent)
  before-fire b kb h = elim (Bool-cases (a == b)) [
    | inl same ↦ (
      ke,
      ground arith,
      ground (arith, get_elem?-set k.events a b (record ke { triggered = 1 }) ke),
    )
    | inr other ↦
        (kb, ground (arith, get_elem?-set k.events a b (record ke { triggered = 1 }) ke), refl)
  ]

  after-fire :
      (b : ℕ) (kb : Kevent)
      → get_elem? k.events b ≡ some kb
      → (kn : Kevent) × (get_elem? (fire k a ke q c).events b ≡ some kn)
        × (kn.hook_next ≡ kb.hook_next)
        × (kn.flag ≡ kb.flag)
  after-fire b kb h = elim (Bool-cases (a == b)) [
    | inl same ↦ (
      record ke { triggered = 1 },
      ground (arith, get_elem?-set k.events a b (record ke { triggered = 1 }) ke),
      ground arith,
      ground arith,
    )
    | inr other ↦ (
      kb,
      ground (arith, get_elem?-set k.events a b (record ke { triggered = 1 }) ke),
      refl,
      refl,
    )
  ]

  fire-IsWired : IsWired k → IsWired (fire k a ke q c)
  unfolding wake
  fire-IsWired w b kb h =
      let (ko, at, same) = before-fire b kb h in
      let (r, u, v) = w b ko at in
      (r, ground arith, λ n. v (grind (arith, find-wake q.pid r.pid k.contexts)))

  fire-Chain :
      (p : Option ℕ) (bs : List ℕ) → Chain k.events p bs → Chain (fire k a ke q c).events p bs
  fire-Chain p [] h = h
  fire-Chain p (b ∷ bs) (kb, s, t, r) =
      let (kn, at, next, flag) = after-fire b kb t in
      (kn, s, at, rw next (fire-Chain kb.hook_next bs r))

  -- A mark that is set stays set.
  fire-keeps : (b : ℕ) → Fired k b → Fired (fire k a ke q c) b
  fire-keeps b h = elim (Bool-cases (a == b)) [
    | inl same ↦ rw (← (==_iff a b).0 same) fire-Fired
    | inr other ↦ record {
      event = h.event;
      at = ground (arith, h.at, get_elem?-set k.events a b (record ke { triggered = 1 }) ke);
      marked = h.marked;
      queue = h.queue;
      parent = h.parent;
      awake = fire-Awake h.queue h.awake;
    }
  ]

-- Each readable event of the list has fired.
abbrev pub AllFired : List Kevent → Kernel → List ℕ → Type 0
AllFired es k [] = Unit
AllFired es k (b ∷ bs) =
    ((ke : Kevent) → get_elem? es b ≡ some ke → is_readable_flag ke.flag ≡ true → Fired k b)
    × AllFired es k bs

Frame-refl : (k : Kernel) → Frame k k
Frame-refl k = record {
  fifos = refl;
  kqueues = refl;
  memory = refl;
  fifo_list_mutex = refl;
  kqueue_lock = refl;
  current = refl;
  events = refl;
  links = λ b kb h. (kb, h, refl);
  processes = λ r d h. (d, h, refl);
}

Frame-trans : {k l m : Kernel} → Frame k l → Frame l m → Frame k m
Frame-trans f g = record {
  fifos = g.fifos ∙ f.fifos;
  kqueues = g.kqueues ∙ f.kqueues;
  memory = g.memory ∙ f.memory;
  fifo_list_mutex = g.fifo_list_mutex ∙ f.fifo_list_mutex;
  kqueue_lock = g.kqueue_lock ∙ f.kqueue_lock;
  current = g.current ∙ f.current;
  events = g.events ∙ f.events;
  links = λ b kb h.
      let (kn, at, e) = f.links b kb h in let (km, at', e') = g.links b kn at in (km, at', e' ∙ e);
  processes = λ r d h.
      let (dn, at, e) = f.processes r d h in
      let (dm, at', e') = g.processes r dn at in (dm, at', e' ∙ e);
}

-- The walk over a chain of events returns, and what it promises.
pub record Triggers (k : Kernel) (bs : List ℕ) (r : Outcome Kernel) : Type 0 where
  pub after : Kernel
  pub done : r ≡ returns after
  pub frame : Frame k after
  pub fired : AllFired k.events after bs
  pub keeps : (b : ℕ) → Fired k b → Fired after b

-- The walk after the event at `b` has fired.
Triggers-fire :
    (k : Kernel) (b : ℕ) (kb : Kevent) (q : Kqueue) (c : Context) (bs : List ℕ) {r : Outcome Kernel}
    → get_elem? k.events b ≡ some kb
    → find_kqueue kb.parent k.kqueues ≡ some q
    → get_process k q.pid ≡ some c
    → Triggers (fire k b kb q c) bs r
    → Triggers k (b ∷ bs) r
Triggers-fire k b kb q c bs e f g t = record {
  after = t.after;
  done = t.done;
  frame = Frame-trans (fire-Frame k b kb q c e f g) t.frame;
  fired = (λ ke at flag. t.keeps b (fire-Fired k b kb q c e f g), moved bs t.fired);
  keeps = λ d h. t.keeps d (fire-keeps k b kb q c e f g d h);
}
  where
    moved :
        (ds : List ℕ) → AllFired (fire k b kb q c).events t.after ds → AllFired k.events t.after ds
    moved [] h = tt
    moved (d ∷ ds) (h, hs) = (
      λ ke at flag.
          let (kn, at', next, same) = after-fire k b kb q c e f g d ke at in
          h kn at' (ap is_readable_flag same ∙ flag),
      moved ds hs,
    )

Triggers-skip :
    (k : Kernel) (b : ℕ) (kb : Kevent) (bs : List ℕ) {r : Outcome Kernel}
    → get_elem? k.events b ≡ some kb
    → is_readable_flag kb.flag ≡ false
    → Triggers k bs r
    → Triggers k (b ∷ bs) r
Triggers-skip k b kb bs e f t = record {
  after = t.after;
  done = t.done;
  frame = t.frame;
  fired = (λ ke at flag. absurd (ground arith), t.fired);
  keeps = t.keeps;
}

-- The walk of kfifo_write_fifo over a chain of wired events returns, and every readable event of the
-- chain has fired.
pub trigger_events-Triggers :
    (rounds : ℕ) (k : Kernel) (p : Option ℕ) (bs : List ℕ)
    → length bs < rounds
    → IsWired k
    → Chain k.events p bs
    → Triggers k bs (trigger_events rounds k p)
unfolding trigger_events
trigger_events-Triggers zero k p bs l w h = absurd (omega arith)
trigger_events-Triggers (suc n) k p [] l w h =
    rw (h, trigger_events)
      (record { after = k; done = refl; frame = Frame-refl k; fired = tt; keeps = λ b f. f })
trigger_events-Triggers (suc n) k p (b ∷ bs) l w (kb, s, t, r) =
    elim (Bool-cases (is_readable_flag kb.flag)) [
      | inr silent ↦
          rw (s, trigger_events, t, silent)
            (Triggers-skip k b kb bs t silent
              (trigger_events-Triggers n k kb.hook_next bs (omega arith) w r))
      | inl readable ↦
          let (q, f, v) = w b kb t in
          elim (Option-cases (get_process k q.pid)) [
            | inl absent ↦ absurd (v absent)
            | inr (c, g) ↦
                rw (s, trigger_events, t, readable, trigger_lem k b kb q c t f g)
                  (Triggers-fire k b kb q c bs t f g (
                    trigger_events-Triggers n (fire k b kb q c) kb.hook_next bs (omega arith)
                      (fire-IsWired k b kb q c t f g w)
                      (fire-Chain k b kb q c t f g kb.hook_next bs r)))
          ]
    ]
