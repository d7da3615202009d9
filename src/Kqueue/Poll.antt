-- ===== src/Kqueue/Poll.antt =====
-- kqueue_poll and kqueue_block (sys/common/kqueue.c): which events they see.
pub mod Exact
use akaris_old.Base.{
  ℕ, zero, suc, ◌+◌, ◌-◌, ◌≤◌, ◌<◌, ◌≡◌, refl, sym, ap, ap₂, ◌∙◌, ◌≢◌, Bool, true, false, not, ◌||◌,
  Option, none, some, List, [], ◌∷◌, ◌++◌, leb, ◌==◌, if◌then◌else◌, arith, Outcome, returns, fault,
  hang, ◌>>=◌, length, length-append, get_elem?, set, Bool-cases, Option-cases, inl, inr,
}
use akaris_old.State.{Kevent, Kqueue, Kernel, find_kqueue}
use akaris_old.Trigger.Wake.{get_elem?-set}
use akaris_old.Kqueue.{Error, success, Change, change_of, any_triggered, poll_events, kqueue_poll}

-- The events from `p` on along `next`, each at a place below the one before.
abbrev pub Falls : List Kevent → ℕ → Option ℕ → List ℕ → Type 0
Falls es n p [] = p ≡ none
Falls es n p (a ∷ bs) =
    (ke : Kevent) × (p ≡ some a) × (a < n) × (get_elem? es a ≡ some ke) × Falls es a ke.next bs

-- The changes of the marked ones among some events, in their order.
unfoldable pub pending : List Kevent → List ℕ → List Change
pending es [] = []
pending es (a ∷ bs) = elim (get_elem? es a) [
  | none ↦ pending es bs
  | some ke ↦ (if not (ke.triggered == 0) then change_of ke ∷ [] else []) ++ pending es bs
]

pub Falls-set :
    (es : List Kevent) (a n : ℕ) (ke v : Kevent) (p : Option ℕ) (bs : List ℕ)
    → get_elem? es a ≡ some v
    → n ≤ a
    → Falls es n p bs
    → Falls (set es a ke) n p bs
Falls-set es a n ke v p [] e l h = h
Falls-set es a n ke v p (b ∷ bs) e l (kb, s, t, u, r) = (
  kb,
  s,
  t,
  ground (arith, get_elem?-set es a b ke v),
  Falls-set es a b ke v kb.next bs e (omega arith) r,
)

pub pending-set :
    (es : List Kevent) (a n : ℕ) (ke v : Kevent) (p : Option ℕ) (bs : List ℕ)
    → get_elem? es a ≡ some v
    → n ≤ a
    → Falls es n p bs
    → pending (set es a ke) bs ≡ pending es bs
unfolding pending
pending-set es a n ke v p [] e l h = refl
pending-set es a n ke v p (b ∷ bs) e l (kb, s, t, u, r) =
    ground (arith, get_elem?-set es a b ke v, pending-set es a b ke v kb.next bs e (omega arith) r)

-- The event with its mark taken off.
abbrev pub cleared : Kevent → Kevent
cleared ke = record ke { triggered = 0 }

pub poll_quiet :
    (n : ℕ) (es : List Kevent) (a cur max : ℕ) (ke : Kevent)
    → get_elem? es a ≡ some ke
    → (ke.triggered == 0) ≡ true
    → poll_events (suc n) es (some a) cur max ≡ (
        if leb max cur
        then returns ([], es)
        else (poll_events n es ke.next cur max >>= λ (more, es'). returns (more, es')))
unfolding poll_events
poll_quiet n es a cur max ke e q = rw (e, poll_events, q)

pub poll_hit :
    (n : ℕ) (es : List Kevent) (a cur max : ℕ) (ke : Kevent)
    → get_elem? es a ≡ some ke
    → (ke.triggered == 0) ≡ false
    → poll_events (suc n) es (some a) cur max ≡ (
        if leb max (cur + 1)
        then returns (change_of ke ∷ [], set es a (cleared ke))
        else (poll_events n (set es a (cleared ke)) ke.next (cur + 1) max >>= λ (more, es').
            returns (change_of ke ∷ more, es')))
unfolding poll_events
poll_hit n es a cur max ke e q = rw (e, poll_events, q)

abbrev pub Polled : Type 0
Polled = List Change × List Kevent

abbrev pub stop : List Change → List Kevent → Outcome Polled
stop cs es = returns (cs, es)

abbrev pub prepend : List Change → Polled → Outcome Polled
prepend found (more, es) = returns (found ++ more, es)

bind-returns :
    (r : Outcome Polled) (found : List Change) (cs : List Change) (es : List Kevent)
    → (r >>= prepend found) ≡ returns (cs, es)
    → (more : List Change) × (r ≡ returns (more, es)) × (cs ≡ found ++ more)
bind-returns (returns (more, es')) found cs es h = (more, ground arith, ground arith)
bind-returns fault found cs es h = absurd (ground arith)
bind-returns hang found cs es h = absurd (ground arith)

-- No poll stores more changes than it may, or one if it may store none.
length-poll_events :
    (rounds : ℕ) (es : List Kevent) (p : Option ℕ) (cur max : ℕ) (cs : List Change)
    (es' : List Kevent)
    → poll_events rounds es p cur max ≡ returns (cs, es')
    → length cs ≤ suc (max - suc cur)
unfolding poll_events
length-poll_events zero es p cur max cs es' h = absurd (ground arith)
length-poll_events (suc n) es none cur max cs es' h = ground arith
length-poll_events (suc n) es (some a) cur max cs es' h = elim (Option-cases (get_elem? es a)) [
  | inl e ↦ absurd (ground arith)
  | inr (ke, e) ↦ elim (Bool-cases (ke.triggered == 0)) [
    | inl q ↦
        quiet ke (length-poll_events n es ke.next cur max)
          (sym (poll_quiet n es a cur max ke e q) ∙ h)
    | inr q ↦
        loud ke (length-poll_events n (set es a (cleared ke)) ke.next (cur + 1) max)
          (sym (poll_hit n es a cur max ke e q) ∙ h)
  ]
]
  where
    quiet :
        (ke : Kevent)
        → ((ds : List Change) (fs : List Kevent)
            → poll_events n es ke.next cur max ≡ returns (ds, fs)
            → length ds ≤ suc (max - suc cur))
        → (if leb max cur then stop [] es else (poll_events n es ke.next cur max >>= prepend []))
          ≡ returns (cs, es')
        → length cs ≤ suc (max - suc cur)
    quiet ke ih g = elim (Bool-cases (leb max cur)) [
      | inl over ↦ ground arith
      | inr more ↦
          let (ds, done, same) =
            bind-returns (poll_events n es ke.next cur max) [] cs es' (rw more at g) in
          rw same (ih ds es' done)
    ]

    loud :
        (ke : Kevent)
        → ((ds : List Change) (fs : List Kevent)
            → poll_events n (set es a (cleared ke)) ke.next (cur + 1) max ≡ returns (ds, fs)
            → length ds ≤ suc (max - suc (cur + 1)))
        → (if leb max (cur + 1)
            then stop (change_of ke ∷ []) (set es a (cleared ke))
            else (poll_events n (set es a (cleared ke)) ke.next (cur + 1) max
                >>= prepend (change_of ke ∷ [])))
          ≡ returns (cs, es')
        → length cs ≤ suc (max - suc cur)
    loud ke ih g = elim (Bool-cases (leb max (cur + 1))) [
      | inl over ↦ ground arith
      | inr more ↦
          let (ds, done, same) =
            bind-returns (poll_events n (set es a (cleared ke)) ke.next (cur + 1) max)
              (change_of ke ∷ []) cs es' (rw more at g) in
          ground (arith, ih ds es' done)
    ]

-- A poll that succeeds reports no more changes than its caller has room for, or one if its caller
-- has no room.
pub kqueue_poll_bound :
    (k k' : Kernel) (q max : ℕ) (cs : List Change)
    → kqueue_poll k q max ≡ returns (success, cs, k')
    → length cs ≤ suc (max - 1)
unfolding kqueue_poll
kqueue_poll_bound k k' q max cs h =
    grind (arith, length-poll_events (suc (length k.events)) k.events)
