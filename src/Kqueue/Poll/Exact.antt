-- ===== src/Kqueue/Poll/Exact.antt =====
-- kqueue_poll (sys/common/kqueue.c) with room for all that is pending: it reports exactly that, and
-- takes the marks off.
use akaris_old.Base.{
  ℕ, zero, suc, ◌+◌, ◌≤◌, ◌<◌, ◌≡◌, refl, sym, ap, ◌∙◌, true, false, Option, none, some, List, [],
  ◌∷◌, leb, ◌==◌, if◌then◌else◌, arith, Outcome, returns, ◌>>=◌, length, ==_refl, get_elem?, set,
  Bool-cases, inl, inr,
}
use akaris_old.State.{Kevent, Kqueue, Kernel, find_kqueue}
use akaris_old.Trigger.Wake.{get_elem?-set}
use akaris_old.Kqueue.{success, Change, change_of, poll_events, kqueue_poll}
use akaris_old.Kqueue.Poll.{
  Falls, pending, pending-set, Falls-set, cleared, poll_quiet, poll_hit, Polled, stop, prepend,
}

-- The events once the marks of those at the places `bs` are taken off, and nothing else.
unfoldable pub swept : List Kevent → List ℕ → List Kevent
swept es [] = es
swept es (a ∷ bs) = elim (get_elem? es a) [
  | none ↦ swept es bs
  | some ke ↦ if ke.triggered == 0 then swept es bs else swept (set es a (cleared ke)) bs
]

swept_quiet :
    (es : List Kevent) (a : ℕ) (bs : List ℕ) (ke : Kevent)
    → get_elem? es a ≡ some ke
    → (ke.triggered == 0) ≡ true
    → swept es (a ∷ bs) ≡ swept es bs
unfolding swept
swept_quiet es a bs ke e q = rw (e, swept, q)

swept_hit :
    (es : List Kevent) (a : ℕ) (bs : List ℕ) (ke : Kevent)
    → get_elem? es a ≡ some ke
    → (ke.triggered == 0) ≡ false
    → swept es (a ∷ bs) ≡ swept (set es a (cleared ke)) bs
unfolding swept
swept_hit es a bs ke e q = rw (e, swept, q)

-- Where nothing is pending, nothing is swept.
swept_calm : (es : List Kevent) (bs : List ℕ) → pending es bs ≡ [] → swept es bs ≡ es
unfolding pending swept
swept_calm es [] h = refl
swept_calm es (a ∷ bs) h = ground (arith, swept_calm es bs)

-- What a poll with room for all that is pending does to the events `bs`, which stand below `n`.
record Polls (es : List Kevent) (n : ℕ) (bs : List ℕ) (r : Outcome Polled) : Type 0 where
  after : List Kevent
  done : r ≡ returns (pending es bs, after)
  quiet : pending after bs ≡ []
  exact : after ≡ swept es bs
  kept : (x : ℕ) → n ≤ x → get_elem? after x ≡ get_elem? es x

empty-of-length : (cs : List Change) → length cs ≤ 0 → cs ≡ []
empty-of-length [] h = refl
empty-of-length (c ∷ cs) h = absurd (omega arith)

pending_quiet :
    (es : List Kevent) (a : ℕ) (bs : List ℕ) (ke : Kevent)
    → get_elem? es a ≡ some ke
    → (ke.triggered == 0) ≡ true
    → pending es (a ∷ bs) ≡ pending es bs
unfolding pending
pending_quiet es a bs ke e q = rw (e, pending, q)

pending_hit :
    (es : List Kevent) (a : ℕ) (bs : List ℕ) (ke : Kevent)
    → get_elem? es a ≡ some ke
    → (ke.triggered == 0) ≡ false
    → pending es (a ∷ bs) ≡ change_of ke ∷ pending es bs
unfolding pending
pending_hit es a bs ke e q = rw (e, pending, q)

module _ (k : ℕ) (es : List Kevent) (a cur max : ℕ) (bs : List ℕ) (ke : Kevent)
    (u : get_elem? es a ≡ some ke) where
  Polls-quiet :
      (ke.triggered == 0) ≡ true
      → cur + length (pending es (a ∷ bs)) ≤ max
      → Polls es a bs (poll_events k es ke.next cur max)
      → Polls es (suc a) (a ∷ bs) (poll_events (suc k) es (some a) cur max)
  Polls-quiet q m rest = elim (Bool-cases (leb max cur)) [
    | inl over ↦ record {
      after = es;
      done = step ∙ rw over (ap (λ c. stop c es) (sym (none_left over)));
      quiet = none_left over;
      exact = sym (swept_calm es (a ∷ bs) (none_left over));
      kept = λ x y. refl;
    }
    | inr more ↦ record {
      after = rest.after;
      done =
          step
          ∙ rw (more, rest.done) (ap (λ c. stop c rest.after) (sym (pending_quiet es a bs ke u q)));
      quiet = pending_quiet rest.after a bs ke (rest.kept a (omega arith) ∙ u) q ∙ rest.quiet;
      exact = rest.exact ∙ sym (swept_quiet es a bs ke u q);
      kept = λ x y. rest.kept x (omega arith);
    }
  ]
    where
      step :
          poll_events (suc k) es (some a) cur max
          ≡ (if leb max cur then stop [] es else (poll_events k es ke.next cur max >>= prepend []))
      step = poll_quiet k es a cur max ke u q

      none_left : leb max cur ≡ true → pending es (a ∷ bs) ≡ []
      none_left over = empty-of-length (pending es (a ∷ bs)) (ground arith)

  seen : List Kevent
  seen = set es a (cleared ke)

  Polls-hit :
      (n : ℕ)
      → Falls es a ke.next bs
      → (ke.triggered == 0) ≡ false
      → cur + length (pending es (a ∷ bs)) ≤ max
      → Polls seen a bs (poll_events k seen ke.next (cur + 1) max)
      → Polls es (suc a) (a ∷ bs) (poll_events (suc k) es (some a) cur max)
  unfolding seen
  Polls-hit n r q m rest = elim (Bool-cases (leb max (cur + 1))) [
    | inl over ↦ record {
      after = seen;
      done =
          step
          ∙ rw over
              (ap (λ c. stop c seen) (ap (◌∷◌ (change_of ke)) (sym (none_left over)) ∙ sym split));
      quiet = gone seen refl ∙ same ∙ none_left over;
      exact = sym (swept_hit es a bs ke u q ∙ swept_calm seen bs (same ∙ none_left over));
      kept = others;
    }
    | inr more ↦ record {
      after = rest.after;
      done =
          step
          ∙ rw (more, rest.done)
              (ap (λ c. stop c rest.after) (ap (◌∷◌ (change_of ke)) same ∙ sym split));
      quiet = gone rest.after (rest.kept a (omega arith)) ∙ rest.quiet;
      exact = rest.exact ∙ sym (swept_hit es a bs ke u q);
      kept = λ x y. rest.kept x (omega arith) ∙ others x y;
    }
  ]
    where
      step : poll_events (suc k) es (some a) cur max ≡ (
          if leb max (cur + 1)
          then stop (change_of ke ∷ []) seen
          else (poll_events k seen ke.next (cur + 1) max >>= prepend (change_of ke ∷ [])))
      step = poll_hit k es a cur max ke u q

      split : pending es (a ∷ bs) ≡ change_of ke ∷ pending es bs
      split = pending_hit es a bs ke u q

      same : pending seen bs ≡ pending es bs
      same = pending-set es a a (cleared ke) ke ke.next bs u (omega arith) r

      none_left : leb max (cur + 1) ≡ true → pending es bs ≡ []
      none_left over = empty-of-length (pending es bs) (ground (arith, ap length split))

      at : get_elem? seen a ≡ some (cleared ke)
      at = ground (arith, get_elem?-set es a a (cleared ke) ke)

      gone :
          (fs : List Kevent)
          → get_elem? fs a ≡ get_elem? seen a
          → pending fs (a ∷ bs) ≡ pending fs bs
      gone fs e = pending_quiet fs a bs (cleared ke) (e ∙ at) refl

      others : (x : ℕ) → suc a ≤ x → get_elem? seen x ≡ get_elem? es x
      others x y = ground (arith, get_elem?-set es a x (cleared ke) ke)

Polls-below :
    (es : List Kevent) (m n : ℕ) (bs : List ℕ) {r : Outcome Polled}
    → m ≤ n
    → Polls es m bs r
    → Polls es n bs r
Polls-below es m n bs h p = record {
  after = p.after;
  done = p.done;
  quiet = p.quiet;
  exact = p.exact;
  kept = λ x y. p.kept x (omega arith);
}

poll_events-Polls :
    (rounds : ℕ) (es : List Kevent) (n : ℕ) (p : Option ℕ) (bs : List ℕ) (cur max : ℕ)
    → length bs < rounds
    → Falls es n p bs
    → cur + length (pending es bs) ≤ max
    → Polls es n bs (poll_events rounds es p cur max)
unfolding poll_events pending seen swept
poll_events-Polls zero es n p bs cur max l h m = absurd (omega arith)
poll_events-Polls (suc k) es n p [] cur max l h m =
    rw (h, poll_events)
      (record { after = es; done = refl; quiet = refl; exact = refl; kept = λ x q. refl })
poll_events-Polls (suc k) es n p (a ∷ bs) cur max l (ke, s, t, u, r) m = rw s (
    Polls-below es (suc a) n (a ∷ bs) t (elim (Bool-cases (ke.triggered == 0)) [
      | inl q ↦ Polls-quiet k es a cur max bs ke u q m (
          poll_events-Polls k es a ke.next bs cur max (omega arith) r
            (omega (arith, ap length (pending_quiet es a bs ke u q))))
      | inr q ↦ Polls-hit k es a cur max bs ke u n r q m (
          poll_events-Polls k (set es a (cleared ke)) a ke.next bs (cur + 1) max (omega arith)
            (Falls-set es a a (cleared ke) ke ke.next bs u (omega arith) r)
            (omega (
              arith,
              ap length (pending_hit es a bs ke u q),
              ap length (pending-set es a a (cleared ke) ke ke.next bs u (omega arith) r),
            )))
    ]))

-- The owner's poll with room for all marked events of the queue, whose list goes down in places, returns
-- success and reports them in the order of the list; afterwards none of them is marked, and all else is
-- as it was: the events of other queues with their marks, and all other fields of these.
pub kqueue_poll_exact :
    (k : Kernel) (q : Kqueue) (i n max : ℕ) (bs : List ℕ)
    → find_kqueue i k.kqueues ≡ some q
    → q.pid ≡ k.current
    → Falls k.events n q.event_list bs
    → length bs ≤ length k.events
    → length (pending k.events bs) ≤ max
    → (kqueue_poll k i max
        ≡ returns (success, pending k.events bs, record k { events = swept k.events bs }))
      × (pending (swept k.events bs) bs ≡ [])
unfolding kqueue_poll
kqueue_poll_exact k q i n max bs f o h l m = (
  rw (f, kqueue_poll) (simp (o, ==_refl, p.done, p.exact)),
  ap (λ es. pending es bs) (sym p.exact) ∙ p.quiet,
)
  where
    p : Polls k.events n bs (poll_events (suc (length k.events)) k.events q.event_list 0 max)
    p =
        poll_events-Polls (suc (length k.events)) k.events n q.event_list bs 0 max (omega arith) h
          (omega arith)
