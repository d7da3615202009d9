-- ===== src/Trigger/Calm.antt =====
-- The walk at the end of kfifo_read_fifo: it follows `next`, and changes marks only.
use akaris_old.Base.{
  ℕ, zero, suc, ◌<◌, ◌≡◌, refl, Bool, true, ◌&&◌, Option, none, some, List, [], ◌∷◌, ◌==◌, arith,
  Outcome, returns, length, get_elem?, set, Bool-cases, inl, inr,
}
use akaris_old.State.{Kevent, Kernel}
use akaris_old.Trigger.{is_readable_flag, kqueue_untrigger_event, untrigger_events}
use akaris_old.Trigger.Wake.{get_elem?-set}

-- The events that are met from `p` on along `next`.
abbrev pub NextChain : List Kevent → Option ℕ → List ℕ → Type 0
NextChain es p [] = p ≡ none
NextChain es p (a ∷ bs) =
    (ke : Kevent) × (p ≡ some a) × (get_elem? es a ≡ some ke) × NextChain es ke.next bs

-- Taking the mark off the events changes nothing else of the kernel.
pub record Calms (k : Kernel) (r : Outcome Kernel) : Type 0 where
  pub events : List Kevent
  pub done : r ≡ returns (record k { events = events })

calm-NextChain :
    (es : List Kevent) (a : ℕ) (ke : Kevent) (p : Option ℕ) (bs : List ℕ)
    → get_elem? es a ≡ some ke
    → NextChain es p bs
    → NextChain (set es a (record ke { triggered = 0 })) p bs
calm-NextChain es a ke p [] e h = h
calm-NextChain es a ke p (b ∷ bs) e (kb, s, t, r) = elim (Bool-cases (a == b)) [
  | inl same ↦ (
    record ke { triggered = 0 },
    s,
    ground (arith, get_elem?-set es a b (record ke { triggered = 0 }) ke),
    rw (twin same) (calm-NextChain es a ke kb.next bs e r),
  )
  | inr other ↦ (
    kb,
    s,
    ground (arith, get_elem?-set es a b (record ke { triggered = 0 }) ke),
    calm-NextChain es a ke kb.next bs e r,
  )
]
  where
    twin : (a == b) ≡ true → ke.next ≡ kb.next
    twin same = ground arith

pub untrigger_events-Calms :
    (rounds : ℕ) (k : Kernel) (empty : Bool) (p : Option ℕ) (bs : List ℕ)
    → length bs < rounds
    → NextChain k.events p bs
    → Calms k (untrigger_events rounds k empty p)
unfolding untrigger_events kqueue_untrigger_event
untrigger_events-Calms zero k empty p bs l h = absurd (omega arith)
untrigger_events-Calms (suc n) k empty p [] l h =
    rw (h, untrigger_events) (record { events = k.events; done = refl })
untrigger_events-Calms (suc n) k empty p (b ∷ bs) l (kb, s, t, r) =
    elim (Bool-cases (is_readable_flag kb.flag && empty)) [
      | inr keep ↦
          rw (s, untrigger_events, t, keep)
            (untrigger_events-Calms n k empty kb.next bs (omega arith) r)
      | inl clear ↦
          let rest =
            untrigger_events-Calms n
              (record k { events = set k.events b (record kb { triggered = 0 }) }) empty kb.next bs
              (omega arith) (calm-NextChain k.events b kb kb.next bs t r) in
          rw (s, untrigger_events, t, clear, kqueue_untrigger_event, t)
            (record { events = rest.events; done = rest.done })
    ]
