-- ===== src/Lifecycle/Kept.antt =====
-- What no operation of the kernel takes away from the list of processes.
use akaris_old.Base.{
  ℕ, ◌+◌, ◌^◌, ◌<◌, ◌≡◌, refl, sym, ap, ◌∙◌, Option-cases, none, inl, inr, List, [], ◌∷◌, ◌++◌,
  arith, ◌==◌, not, Outcome, Returns, Returns-bind, Returns-if, Returns-map, length,
}
use mathlib.Core.List.{append-nil, append_assoc}
use akaris_old.State.{Regs, Context, Kernel, find_context, update_context, get_process}
use akaris_old.Scheduler.{choose, lap, runs, resume, schedule}
use akaris_old.Scheduler.Rotation.{Distinct, pids}
use akaris_old.Process.Roster.{Below, IsRoster, appended-IsRoster}
use akaris_old.Fork.{with_child}
use akaris_old.Lifecycle.Pids.{SamePids, pids-update}

cons_injective : (x y : ℕ) (xs ys : List ℕ) → x ∷ xs ≡ y ∷ ys → (x ≡ y) × (xs ≡ ys)
cons_injective x y xs ys e = (cc, cc)

find_context-pids :
    (p : ℕ) (cs ds : List Context)
    → pids ds ≡ pids cs
    → find_context p cs ≡ none
    → find_context p ds ≡ none
unfolding find_context
find_context-pids p [] [] e h = refl
find_context-pids p (c ∷ cs) [] e h = refl
find_context-pids p [] (d ∷ ds) e h = cc
find_context-pids p (c ∷ cs) (d ∷ ds) e h =
    let (same, rest) = cons_injective d.pid c.pid (pids ds) (pids cs) e in
    ground (arith, same, find_context-pids p cs ds rest)

-- With new pids behind the old ones.
pub find_context-grown :
    (p : ℕ) (cs ds : List Context) (more : List ℕ)
    → pids ds ≡ pids cs ++ more
    → find_context p ds ≡ none
    → find_context p cs ≡ none
unfolding find_context
find_context-grown p [] ds more e h = refl
find_context-grown p (c ∷ cs) [] more e h = cc
find_context-grown p (c ∷ cs) (d ∷ ds) more e h =
    let (same, rest) = cons_injective d.pid c.pid (pids ds) (pids cs ++ more) e in
    ground (arith, same, find_context-grown p cs ds more rest)

Distinct-pids : (cs ds : List Context) → pids ds ≡ pids cs → Distinct cs → Distinct ds
Distinct-pids [] [] e h = h
Distinct-pids (c ∷ cs) [] e h = tt
Distinct-pids [] (d ∷ ds) e h = cc
Distinct-pids (c ∷ cs) (d ∷ ds) e (n, h) =
    let (same, rest) = cons_injective d.pid c.pid (pids ds) (pids cs) e in
    (find_context-pids d.pid cs ds rest (rw same n), Distinct-pids cs ds rest h)

Below-pids : (m : ℕ) (cs ds : List Context) → pids ds ≡ pids cs → Below m cs → Below m ds
Below-pids m [] [] e h = h
Below-pids m (c ∷ cs) [] e h = tt
Below-pids m [] (d ∷ ds) e h = cc
Below-pids m (c ∷ cs) (d ∷ ds) e (l, h) =
    let (same, rest) = cons_injective d.pid c.pid (pids ds) (pids cs) e in
    (rw same l, Below-pids m cs ds rest h)

pub IsRoster-SamePids : (k k' : Kernel) → SamePids k k' → IsRoster k → IsRoster k'
IsRoster-SamePids k k' (same, next) h = record {
  distinct = Distinct-pids k.contexts k'.contexts same h.distinct;
  below = rw next (Below-pids k.next_avail_pid k.contexts k'.contexts same h.below);
}

-- The processes of `k` are in `k'`, in their order, before all others, and well-formedness is kept.
abbrev halted : (Kernel → Kernel) → Kernel → Kernel
halted h k = record (h (record k { kernel_reenter = 1 })) { kernel_reenter = 0 }

abbrev saving : Kernel → Regs → Kernel
saving k regs = record k {
  contexts = update_context k.current (λ c. record c { registers = regs }) k.contexts;
}

pub record Kept (k k' : Kernel) : Type 0 where
  pub roster : IsRoster k → IsRoster k'
  pub created : List ℕ
  pub grown : pids k'.contexts ≡ pids k.contexts ++ created

pub Kept-SamePids : (k k' : Kernel) → SamePids k k' → Kept k k'
Kept-SamePids k k' (same, next) = record {
  roster = IsRoster-SamePids k k' (same, next);
  created = [];
  grown = same ∙ sym (append-nil (pids k.contexts));
}

pub Kept-trans : (a b c : Kernel) → Kept a b → Kept b c → Kept a c
Kept-trans a b c h l = record {
  roster = λ r. l.roster (h.roster r);
  created = h.created ++ l.created;
  grown =
      l.grown
      ∙ ap (λ t. t ++ l.created) h.grown
      ∙ append_assoc (pids a.contexts) h.created l.created;
}

abbrev pub KeptWith {ℓ} : {A : Type ℓ} → Kernel → A × Kernel → Type 0
KeptWith k (e, k') = Kept k k'

pub then-Kept {ℓ} :
    {A : Type ℓ} (k k' : Kernel) (o : Outcome (A × Kernel))
    → Kept k k'
    → Returns (KeptWith k') o
    → Returns (KeptWith k) o
then-Kept k k' o s h =
    Returns-map (KeptWith k') (KeptWith k) o (λ (e, a) t. Kept-trans k k' a s t) h

pub pids-append : (cs : List Context) (c : Context) → pids (cs ++ c ∷ []) ≡ pids cs ++ c.pid ∷ []
pids-append [] c = refl
pids-append (x ∷ xs) c = ap (λ t. x.pid ∷ t) (pids-append xs c)

-- A new process with the next pid.
pub Kept-appended :
    (k : Kernel) (c : Context)
    → c.pid ≡ k.next_avail_pid
    → k.next_avail_pid + 1 < 2 ^ 32
    → Kept k (with_child k c)
Kept-appended k c e l = record {
  roster = λ h. appended-IsRoster k c e l h;
  created = c.pid ∷ [];
  grown = pids-append k.contexts c;
}

-- Each interrupt that ends a halt of the idle loop keeps the processes.
abbrev pub AllKept : List (Kernel → Kernel) → Type 0
AllKept [] = Unit {0}
AllKept (h ∷ hs) = ((k : Kernel) → Kept k (h k)) × AllKept hs

choose-Kept :
    (halts : List (Kernel → Kernel)) (k : Kernel) (orig : ℕ)
    → AllKept halts
    → Returns (KeptWith k) (choose halts k orig)
unfolding choose
choose-Kept [] k orig a = elim (Option-cases (lap k.contexts (length k.contexts) orig orig)) [
  | inl e ↦ rw (choose, e) tt
  | inr (p, e) ↦ rw (choose, e) (Kept-SamePids k k (refl, refl))
]
choose-Kept (h ∷ hs) k orig (a, b) =
    elim (Option-cases (lap k.contexts (length k.contexts) orig orig)) [
      | inl e ↦
          rw (choose, e)
            (Returns-if (KeptWith k) (runs (halted h k).contexts orig) _ _ (kept) (
              then-Kept k (halted h k) (choose hs (halted h k) orig) kept
                (choose-Kept hs (halted h k) orig b)))
      | inr (p, e) ↦ rw (choose, e) (Kept-SamePids k k (refl, refl))
    ]
  where
    kept : Kept k (halted h k)
    kept =
        Kept-trans k (record k { kernel_reenter = 1 }) (halted h k)
          (Kept-SamePids k (record k { kernel_reenter = 1 }) (refl, refl))
          (Kept-trans (record k { kernel_reenter = 1 }) (h (record k { kernel_reenter = 1 }))
            (halted h k) (a (record k { kernel_reenter = 1 }))
            (Kept-SamePids (h (record k { kernel_reenter = 1 })) (halted h k) (refl, refl)))

resume-Kept :
    (k k' : Kernel) (p : ℕ) → Kept k k' → Returns (KeptWith k) (resume k' p (get_process k' p))
resume-Kept k k' p s = elim (Option-cases (get_process k' p)) [
  | inl e ↦ rw e tt
  | inr (c, e) ↦ rw e (
      Kept-trans k k' (record k' { current = p }) s
        (Kept-SamePids k' (record k' { current = p }) (refl, refl)))
]

pub schedule-Kept :
    (halts : List (Kernel → Kernel)) (k : Kernel) (regs : Regs)
    → AllKept halts
    → Returns (KeptWith k) (schedule halts k regs)
unfolding schedule
schedule-Kept halts k regs a =
    Returns-if (KeptWith k) (not (k.kernel_reenter == 0)) _ _ (Kept-SamePids k k (refl, refl)) (
      Returns-bind (KeptWith k) (KeptWith k) (choose halts (saving k regs) k.current) _
        (then-Kept k (saving k regs) (choose halts (saving k regs) k.current)
          (Kept-SamePids k (saving k regs) (
            pids-update k.current (λ c. record c { registers = regs }) k.contexts (λ c. refl),
            refl,
          ))
          (choose-Kept halts (saving k regs) k.current a))
        (λ (p, k') s. resume-Kept k k' p s))
