-- ===== src/Lifecycle/Pids.antt =====
-- The operations on FIFOs and kernel queues, and the scheduler, leave the pids of the processes, their
-- order and the next pid as they are.
use akaris_old.Base.{
  ℕ, zero, suc, ◌≡◌, refl, ◌∙◌, Bool, true, false, ◌&&◌, Option, Option-cases, none, some, inl, inr,
  List, [], ◌∷◌, arith, ◌==◌, if◌then◌else◌, Outcome, returns, Returns, Returns-bind, Returns-map,
  Returns-if, get_elem?,
}
use akaris_old.State.{
  Context, running, is_waiting, Kernel, update_context, get_process, find_kqueue,
}
use akaris_old.Scheduler.Rotation.{pids}
use akaris_old.Trigger.{
  is_readable_flag, kqueue_trigger_event, kqueue_untrigger_event, trigger_events, untrigger_events,
}

pub pids-update :
    (p : ℕ) (f : Context → Context) (cs : List Context)
    → ((c : Context) → (f c).pid ≡ c.pid)
    → pids (update_context p f cs) ≡ pids cs
unfolding update_context
pids-update p f [] h = refl
pids-update p f (c ∷ cs) h = ground (arith, h c, pids-update p f cs h)

abbrev pub SamePids : Kernel → Kernel → Type 0
SamePids k k' = (pids k'.contexts ≡ pids k.contexts) × (k'.next_avail_pid ≡ k.next_avail_pid)

pub SamePids-trans : (a b c : Kernel) → SamePids a b → SamePids b c → SamePids a c
SamePids-trans a b c (p, n) (q, m) = (q ∙ p, m ∙ n)

wake-pids :
    (b : Bool) (p : ℕ) (cs : List Context)
    → pids (if b then update_context p (λ c. record c { status = running }) cs else cs) ≡ pids cs
wake-pids true p cs = pids-update p (λ c. record c { status = running }) cs (λ c. refl)
wake-pids false p cs = refl

trigger_event-SamePids : (k : Kernel) (a : ℕ) → Returns (SamePids k) (kqueue_trigger_event k a)
unfolding kqueue_trigger_event
trigger_event-SamePids k a = elim (Option-cases (get_elem? k.events a)) [
  | inl e ↦ rw (kqueue_trigger_event, e) tt
  | inr (ke, e) ↦ elim (Option-cases (find_kqueue ke.parent k.kqueues)) [
    | inl f ↦ rw (kqueue_trigger_event, e, f) tt
    | inr (q, f) ↦ elim (Option-cases (get_process k q.pid)) [
      | inl g ↦ rw (kqueue_trigger_event, e, f, g) tt
      | inr (c, g) ↦
          rw (kqueue_trigger_event, e, f, g)
            (
              wake-pids (is_waiting c.status && (c.kqueue_block == q.kqueue_id)) q.pid k.contexts,
              refl,
            )
    ]
  ]
]

pub then-SamePids :
    (k k' : Kernel) (o : Outcome Kernel)
    → SamePids k k'
    → Returns (SamePids k') o
    → Returns (SamePids k) o
then-SamePids k k' o s h =
    Returns-map (SamePids k') (SamePids k) o (λ a t. SamePids-trans k k' a s t) h

pub trigger_events-SamePids :
    (n : ℕ) (k : Kernel) (p : Option ℕ) → Returns (SamePids k) (trigger_events n k p)
unfolding trigger_events
trigger_events-SamePids zero k p = tt
trigger_events-SamePids (suc n) k none = (refl, refl)
trigger_events-SamePids (suc n) k (some a) = elim (Option-cases (get_elem? k.events a)) [
  | inl e ↦ rw (trigger_events, e) tt
  | inr (ke, e) ↦
      rw (trigger_events, e)
        (Returns-bind (SamePids k) (SamePids k)
          (if is_readable_flag ke.flag then kqueue_trigger_event k a else returns k) _
          (Returns-if (SamePids k) (is_readable_flag ke.flag) (kqueue_trigger_event k a) (returns k)
            (trigger_event-SamePids k a) (refl, refl))
          (λ k' s.
            then-SamePids k k' (trigger_events n k' ke.hook_next) s
              (trigger_events-SamePids n k' ke.hook_next)))
]

untrigger_event-SamePids : (k : Kernel) (a : ℕ) → Returns (SamePids k) (kqueue_untrigger_event k a)
unfolding kqueue_untrigger_event
untrigger_event-SamePids k a = elim (Option-cases (get_elem? k.events a)) [
  | inl e ↦ rw (kqueue_untrigger_event, e) tt
  | inr (ke, e) ↦ rw (kqueue_untrigger_event, e) (refl, refl)
]

pub untrigger_events-SamePids :
    (n : ℕ) (k : Kernel) (b : Bool) (p : Option ℕ) → Returns (SamePids k) (untrigger_events n k b p)
unfolding untrigger_events
untrigger_events-SamePids zero k b p = tt
untrigger_events-SamePids (suc n) k b none = (refl, refl)
untrigger_events-SamePids (suc n) k b (some a) = elim (Option-cases (get_elem? k.events a)) [
  | inl e ↦ rw (untrigger_events, e) tt
  | inr (ke, e) ↦
      rw (untrigger_events, e)
        (Returns-bind (SamePids k) (SamePids k)
          (if is_readable_flag ke.flag && b then kqueue_untrigger_event k a else returns k) _
          (Returns-if (SamePids k) (is_readable_flag ke.flag && b) (kqueue_untrigger_event k a)
            (returns k) (untrigger_event-SamePids k a) (refl, refl))
          (λ k' s.
            then-SamePids k k' (untrigger_events n k' b ke.next) s
              (untrigger_events-SamePids n k' b ke.next)))
]
