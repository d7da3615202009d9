-- ===== src/Scheduler/Rotation.antt =====
-- The walk of schedule (sys/common/process.c) is round robin: from the current process to the end of
-- the list, and on from its head back to the current one.
use akaris_old.Base.{
  ℕ, zero, suc, ◌<◌, ◌≡◌, refl, sym, ap, ◌∙◌, ◌≢◌, Bool, Option, none, some, List, [], ◌∷◌, ◌++◌,
  if◌then◌else◌, arith, length, length-append, ==_refl,
}
use mathlib.Core.Path.{subst}
use mathlib.Core.List.{append-nil, append_assoc}
use akaris_old.State.{Context, find_context}
use akaris_old.Scheduler.{after, first_pid, next_process, runs, lap}

-- Each pid stands once.
abbrev pub Distinct : List Context → Type 0
Distinct [] = Unit {0}
Distinct (c ∷ cs) = (find_context c.pid cs ≡ none) × Distinct cs

abbrev pub pids : List Context → List ℕ
pids [] = []
pids (c ∷ cs) = c.pid ∷ pids cs

-- The first pid that passes a test.
unfoldable pub first_of : (ℕ → Bool) → List ℕ → Option ℕ
first_of t [] = none
first_of t (p ∷ ps) = if t p then some p else first_of t ps

-- The pids that the walk meets after `cur` and before it comes to `orig`.
abbrev Route : List Context → (cur orig : ℕ) → List ℕ → Type 0
Route cs cur orig [] = next_process cs cur ≡ orig
Route cs cur orig (r ∷ rs) = (next_process cs cur ≡ r) × (r ≢ orig) × Route cs r orig rs

lap-Route :
    (cs : List Context) (rounds cur orig : ℕ) (rs : List ℕ)
    → length rs < rounds
    → Route cs cur orig rs
    → lap cs rounds cur orig ≡ first_of (runs cs) (rs ++ orig ∷ [])
unfolding lap first_of
lap-Route cs zero cur orig rs l h = absurd (omega arith)
lap-Route cs (suc n) cur orig [] l h = ground arith
lap-Route cs (suc n) cur orig (r ∷ rs) l (e, f, g) =
    ground (arith, lap-Route cs n r orig rs (omega arith) g)

find-append :
    (p : ℕ) (xs : List Context) (c : Context) (ys : List Context)
    → find_context p (xs ++ c ∷ ys) ≡ none
    → c.pid ≢ p
unfolding find_context
find-append p [] c ys h = ground arith
find-append p (x ∷ xs) c ys h = ground (arith, find-append p xs c ys)

after-middle :
    (xs : List Context) (a b : Context) (ys : List Context)
    → Distinct (xs ++ a ∷ b ∷ ys)
    → after a.pid (xs ++ a ∷ b ∷ ys) ≡ some b.pid
unfolding after
after-middle [] a b ys d = rw (==_refl a.pid)
after-middle (x ∷ []) a b ys (n, d) =
    ground (arith, find-append x.pid [] a (b ∷ ys) n, after-middle [] a b ys d)
after-middle (x ∷ y ∷ xs) a b ys (n, d) =
    ground (arith, find-append x.pid (y ∷ xs) a (b ∷ ys) n, after-middle (y ∷ xs) a b ys d)

after-last :
    (xs : List Context) (a : Context) → Distinct (xs ++ a ∷ []) → after a.pid (xs ++ a ∷ []) ≡ none
unfolding after
after-last [] a d = refl
after-last (x ∷ []) a (n, d) = ground (arith, find-append x.pid [] a [] n)
after-last (x ∷ y ∷ xs) a (n, d) =
    ground (arith, find-append x.pid (y ∷ xs) a [] n, after-last (y ∷ xs) a d)

abbrev last_pid : Context → List Context → ℕ
last_pid a [] = a.pid
last_pid a (v ∷ vs) = last_pid v vs

-- No context of the list has the pid.
abbrev Without : ℕ → List Context → Type 0
Without p [] = Unit {0}
Without p (c ∷ cs) = (c.pid ≢ p) × Without p cs

next-middle :
    (xs : List Context) (a b : Context) (ys : List Context)
    → Distinct (xs ++ a ∷ b ∷ ys)
    → next_process (xs ++ a ∷ b ∷ ys) a.pid ≡ b.pid
unfolding next_process
next-middle xs a b ys d = rw (next_process, after-middle xs a b ys d)

regroup :
    (xs : List Context) (a : Context) (ws : List Context) → (xs ++ a ∷ []) ++ ws ≡ xs ++ a ∷ ws
regroup xs a ws = append_assoc xs (a ∷ []) ws

-- Along `vs` behind `a`, and then on as from the last of them.
walk :
    (xs : List Context) (a : Context) (vs ts : List Context) (orig : ℕ) (rs : List ℕ)
    → Distinct (xs ++ a ∷ (vs ++ ts))
    → Without orig vs
    → Route (xs ++ a ∷ (vs ++ ts)) (last_pid a vs) orig rs
    → Route (xs ++ a ∷ (vs ++ ts)) a.pid orig (pids vs ++ rs)
walk xs a [] ts orig rs d w h = h
walk xs a (v ∷ vs) ts orig rs d (n, w) h = (
  next-middle xs a v (vs ++ ts) d,
  n,
  subst (λ l. Route l v.pid orig (pids vs ++ rs)) (regroup xs a (v ∷ (vs ++ ts)))
      (walk (xs ++ a ∷ []) v vs ts orig rs
        (subst (λ l. Distinct l) (sym (regroup xs a (v ∷ (vs ++ ts)))) d) w
        (subst (λ l. Route l (last_pid v vs) orig rs) (sym (regroup xs a (v ∷ (vs ++ ts)))) h)),
)

-- The last process of a run before `b` is followed by it, and the last one of all by the head.
next-last :
    (xs : List Context) (a : Context) (vs : List Context) (b : Context) (ys : List Context)
    → Distinct (xs ++ a ∷ (vs ++ b ∷ ys))
    → next_process (xs ++ a ∷ (vs ++ b ∷ ys)) (last_pid a vs) ≡ b.pid
next-last xs a [] b ys d = next-middle xs a b ys d
next-last xs a (v ∷ vs) b ys d =
    subst (λ l. next_process l (last_pid v vs) ≡ b.pid) (regroup xs a (v ∷ (vs ++ b ∷ ys)))
      (next-last (xs ++ a ∷ []) v vs b ys
        (subst (λ l. Distinct l) (sym (regroup xs a (v ∷ (vs ++ b ∷ ys)))) d))

next-end :
    (xs : List Context) (a : Context) (vs : List Context)
    → Distinct (xs ++ a ∷ vs)
    → next_process (xs ++ a ∷ vs) (last_pid a vs) ≡ first_pid (xs ++ a ∷ vs) (last_pid a vs)
unfolding next_process
next-end xs a [] d = rw (next_process, after-last xs a d)
next-end xs a (v ∷ vs) d =
    subst (λ l. next_process l (last_pid v vs) ≡ first_pid l (last_pid v vs))
      (regroup xs a (v ∷ vs))
      (next-end (xs ++ a ∷ []) v vs (subst (λ l. Distinct l) (sym (regroup xs a (v ∷ vs))) d))

first-Without :
    (xs : List Context) (c : Context) (ys : List Context)
    → Distinct (xs ++ c ∷ ys)
    → Without c.pid xs
first-Without [] c ys d = tt
first-Without (x ∷ xs) c ys (n, d) =
    (λ e. find-append x.pid xs c ys n (sym e), first-Without xs c ys d)

none-Without : (p : ℕ) (ys : List Context) → find_context p ys ≡ none → Without p ys
unfolding find_context
none-Without p [] h = tt
none-Without p (y ∷ ys) h = (ground arith, none-Without p ys (ground arith))

rest-Without :
    (xs : List Context) (c : Context) (ys : List Context)
    → Distinct (xs ++ c ∷ ys)
    → Without c.pid ys
rest-Without [] c ys (n, d) = none-Without c.pid ys n
rest-Without (x ∷ xs) c ys (n, d) = rest-Without xs c ys d

-- From the head of the list to the current process.
Route-head :
    (xs : List Context) (c : Context) (ys : List Context)
    → Distinct (xs ++ c ∷ ys)
    → Route (xs ++ c ∷ ys) (last_pid c ys) c.pid (pids xs)
Route-head [] c ys d = next-end [] c ys d ∙ refl
Route-head (x ∷ xs) c ys d = (
  next-end (x ∷ xs) c ys d,
  (first-Without (x ∷ xs) c ys d).0,
  subst (λ r. Route (x ∷ (xs ++ c ∷ ys)) x.pid c.pid r) (append-nil (pids xs))
      (walk [] x xs (c ∷ ys) c.pid [] d (first-Without (x ∷ xs) c ys d).1
        (next-last [] x xs c ys d)),
)

-- Once round: behind the current process to the end, then from the head up to it.
Route-round :
    (xs : List Context) (c : Context) (ys : List Context)
    → Distinct (xs ++ c ∷ ys)
    → Route (xs ++ c ∷ ys) c.pid c.pid (pids ys ++ pids xs)
Route-round xs c ys d =
    subst (λ l. Route (xs ++ c ∷ l) c.pid c.pid (pids ys ++ pids xs)) (append-nil ys)
      (walk xs c ys [] c.pid (pids xs) (subst (λ l. Distinct (xs ++ c ∷ l)) (sym (append-nil ys)) d)
        (rest-Without xs c ys d)
        (subst (λ l. Route (xs ++ c ∷ l) (last_pid c ys) c.pid (pids xs)) (sym (append-nil ys))
          (Route-head xs c ys d)))

length-pids : (cs : List Context) → length (pids cs) ≡ length cs
length-pids [] = refl
length-pids (c ∷ cs) = ap suc (length-pids cs)

-- The walk of the scheduler from the process `c`: it stops at the first running process among those
-- behind `c` in the list, then those before it, then `c` itself, and finds none if none of them runs.
pub lap_round :
    (xs : List Context) (c : Context) (ys : List Context)
    → Distinct (xs ++ c ∷ ys)
    → lap (xs ++ c ∷ ys) (length (xs ++ c ∷ ys)) c.pid c.pid
      ≡ first_of (runs (xs ++ c ∷ ys)) ((pids ys ++ pids xs) ++ c.pid ∷ [])
lap_round xs c ys d =
    lap-Route (xs ++ c ∷ ys) (length (xs ++ c ∷ ys)) c.pid c.pid (pids ys ++ pids xs)
      (omega (
        arith,
        length-append xs (c ∷ ys),
        length-append (pids ys) (pids xs),
        length-pids xs,
        length-pids ys,
      ))
      (Route-round xs c ys d)
