-- ===== src/Kfifo/Acl/Close.antt =====
-- kfifo_close_fifo (sys/common/kfifo.c): which closes go through.
use akaris_old.Base.{
  ℕ, ◌+◌, ◌≡◌, refl, ap, ◌∙◌, ◌≢◌, inl, inr, true, false, not, none, some, List, [], ◌∷◌,
  if◌then◌else◌, arith, Outcome, returns, fault, hang, ◌>>=◌, contains, length, Option-cases,
  Bool-cases, ◌==◌,
}
use akaris_old.State.{Region, Context, Fifo, Kernel, get_process, find_fifo, update_fifo}
use akaris_old.Space.{delete_region, merge_right, find_ipc}
use akaris_old.Kfifo.{success, put, put_space, with_mutex}
use akaris_old.Kfifo.Write.{Open}
use akaris_old.Kfifo.Lookup.{find-update_fifo, find_fifo_id, find-update_fifo_ne}
use akaris_old.Kfifo.Acl.{unlink, remove_fifo, delete_receivers, clean_up, close_fifo}

-- The closing process exists, and gives up its region for the FIFO if it has one.
pub record Leaves (k : Kernel) (f : Fifo) (mypid : ℕ) (space : List Region) : Type 0 where
  pub c : Context
  pub closing : get_process k mypid ≡ some c
  pub left :
      (elim (find_ipc f.fifo_id c.space) [
        | none ↦ returns c.space
        | some i ↦ delete_region c.space i
      ])
      ≡ returns space

-- The kernel while both locks are held.
abbrev pub locking : Kernel → ℕ → Kernel
locking k i = with_mutex (put k i (λ x. record x { lock = 1 })) 1

length-remove_fifo :
    (i : ℕ) (fs : List Fifo) (f : Fifo)
    → find_fifo i fs ≡ some f
    → length (remove_fifo i fs) + 1 ≡ length fs
unfolding find_fifo remove_fifo
length-remove_fifo i [] f e = cc
length-remove_fifo i (x ∷ fs) f e = ground (arith, length-remove_fifo i fs f)

length-update_fifo :
    (i : ℕ) (g : Fifo → Fifo) (fs : List Fifo) → length (update_fifo i g fs) ≡ length fs
unfolding update_fifo
length-update_fifo i g [] = refl
length-update_fifo i g (x ∷ fs) = ground (arith, length-update_fifo i g fs)

-- How many FIFOs have the id.
abbrev pub occurs : (i : ℕ) → List Fifo → ℕ
occurs i [] = 0
occurs i (f ∷ fs) = (if f.fifo_id == i then 1 else 0) + occurs i fs

find-absent : (i : ℕ) (fs : List Fifo) → occurs i fs ≡ 0 → find_fifo i fs ≡ none
unfolding find_fifo
find-absent i [] h = refl
find-absent i (f ∷ fs) h = ground (arith, find-absent i fs)

find-remove_fifo :
    (i : ℕ) (fs : List Fifo) → occurs i fs ≡ 1 → find_fifo i (remove_fifo i fs) ≡ none
unfolding find_fifo remove_fifo
find-remove_fifo i [] h = refl
find-remove_fifo i (f ∷ fs) h = ground (arith, find-absent i fs, find-remove_fifo i fs)

occurs-update_fifo :
    (i j : ℕ) (g : Fifo → Fifo) (fs : List Fifo)
    → ((f : Fifo) → (g f).fifo_id ≡ f.fifo_id)
    → occurs i (update_fifo j g fs) ≡ occurs i fs
unfolding update_fifo
occurs-update_fifo i j g [] same = refl
occurs-update_fifo i j g (f ∷ fs) same = elim (Bool-cases (f.fifo_id == j)) [
  | inl e ↦ rw (update_fifo, e) (rw (same f) refl)
  | inr e ↦
      rw (update_fifo, e)
        (ap (λ n. (if f.fifo_id == i then 1 else 0) + n) (occurs-update_fifo i j g fs same))
]

find-remove_fifo_ne :
    (i j : ℕ) (fs : List Fifo) → i ≢ j → find_fifo j (remove_fifo i fs) ≡ find_fifo j fs
unfolding find_fifo remove_fifo
find-remove_fifo_ne i j [] ne = refl
find-remove_fifo_ne i j (x ∷ fs) ne = ground (arith, find-remove_fifo_ne i j fs ne)

merge_right-ne-hang : (space : List Region) (i : ℕ) → merge_right space i ≢ hang
unfolding merge_right
merge_right-ne-hang space i = ground arith

delete_region-ne-hang : (space : List Region) (i : ℕ) → delete_region space i ≢ hang
unfolding delete_region
delete_region-ne-hang space i = grind (arith, merge_right-ne-hang)

bind-ne-hang :
    (r : Outcome (List Region)) (g : List Region → Outcome (List Region))
    → r ≢ hang
    → ((s : List Region) → g s ≢ hang)
    → (r >>= g) ≢ hang
bind-ne-hang (returns s) g h n = n s
bind-ne-hang fault g h n = λ e. cc
bind-ne-hang hang g h n = absurd (h refl)

delete_receivers-ne-hang :
    (i : ℕ) (ps : List ℕ) (space : List Region) → delete_receivers i ps space ≢ hang
unfolding delete_receivers
delete_receivers-ne-hang i [] space = λ e. cc
delete_receivers-ne-hang i (p ∷ ps) space = elim (Option-cases (find_ipc i space)) [
  | inl e ↦ rw (e, delete_receivers) (λ h. cc)
  | inr (j, e) ↦
      rw (e, delete_receivers)
        (bind-ne-hang (delete_region space j) (λ s. delete_receivers i ps s)
          (delete_region-ne-hang space j) (λ s. delete_receivers-ne-hang i ps s))
]

bind-fault : (r : Outcome (List Region)) → r ≢ hang → ◌>>=◌ {B = Kernel} r (λ s. fault) ≡ fault
bind-fault (returns s) h = refl
bind-fault fault h = refl
bind-fault hang h = absurd (h refl)

clean_up-orphan :
    (k : Kernel) (f : Fifo) (mypid p : ℕ) (ps : List ℕ) (space : List Region)
    → clean_up k f mypid (p ∷ ps) [] space ≡ fault
unfolding clean_up
clean_up-orphan k f mypid p ps space =
    bind-fault (delete_receivers f.fifo_id (p ∷ ps) space)
      (delete_receivers-ne-hang f.fifo_id (p ∷ ps) space)

module _ (k : Kernel) (i mypid : ℕ) (f : Fifo) (space : List Region) (o : Open k i f)
    (l : Leaves k f mypid space) where
  close_fifo-open : close_fifo k i mypid ≡ (
      if not (contains f.recvlist mypid)
      then fault
      else (clean_up (locking k i) f mypid (unlink mypid f.recvlist) (unlink mypid f.sendlist) space
          >>= λ k'. returns (success, with_mutex k' 0)))
  unfolding close_fifo
  close_fifo-open = simp (o.mutex, o.found, o.lock, l.closing, l.left)

  -- A process that is no receiver cannot close: its missing entry is a NULL pointer that is freed.
  pub close_fifo_stranger : contains f.recvlist mypid ≡ false → close_fifo k i mypid ≡ fault
  close_fifo_stranger h = close_fifo-open ∙ ground arith

  -- With both locks free and one FIFO of the id, the close of its last receiver, a process that exists
  -- and whose region for the FIFO, if it has one, can be deleted, returns success: the FIFO is found no
  -- more, the others are found as before, there is one FIFO less, and the list's lock is free.
  pub close_fifo_last :
      contains f.recvlist mypid ≡ true
      → unlink mypid f.recvlist ≡ []
      → occurs i k.fifos ≡ 1
      → (k' : Kernel) × (close_fifo k i mypid ≡ returns (success, k'))
        × (find_fifo i k'.fifos ≡ none)
        × (length k'.fifos + 1 ≡ length k.fifos)
        × ((j : ℕ) → i ≢ j → find_fifo j k'.fifos ≡ find_fifo j k.fifos)
        × (k'.fifo_list_mutex ≡ 0)
  unfolding clean_up delete_receivers
  close_fifo_last h e single =
      (closed, close_fifo-open ∙ simp (h, e), gone, counted, λ j ne. others j ne, refl)
    where
      closed : Kernel
      closed =
          with_mutex
            (record (put_space (locking k i) mypid space) {
              fifos = remove_fifo f.fifo_id (locking k i).fifos;
            })
            0

      id : f.fifo_id ≡ i
      id = find_fifo_id i k.fifos f o.found

      gone : find_fifo i closed.fifos ≡ none
      gone = rw id (
          find-remove_fifo i (locking k i).fifos
            (occurs-update_fifo i i _ k.fifos (λ x. refl) ∙ single))

      counted : length closed.fifos + 1 ≡ length k.fifos
      counted = rw id (
          length-remove_fifo i (locking k i).fifos (record f { lock = 1 })
            (find-update_fifo i _ k.fifos f id o.found)
          ∙ length-update_fifo i _ k.fifos)

      others : (j : ℕ) → i ≢ j → find_fifo j closed.fifos ≡ find_fifo j k.fifos
      others j ne = rw id (
          find-remove_fifo_ne i j (locking k i).fifos ne
          ∙ find-update_fifo_ne i j _ k.fifos (λ x. refl) ne)

  -- A receiver's close that leaves a sender and a receiver takes its pid off both lists, and frees
  -- the locks.
  pub close_fifo_stays :
      (p q : ℕ) (ps qs : List ℕ)
      → contains f.recvlist mypid ≡ true
      → unlink mypid f.recvlist ≡ p ∷ ps
      → unlink mypid f.sendlist ≡ q ∷ qs
      → (k' : Kernel) × (close_fifo k i mypid ≡ returns (success, k'))
        × (find_fifo i k'.fifos
            ≡ some (record f { recvlist = p ∷ ps; sendlist = q ∷ qs; lock = 0 }))
        × (k'.fifo_list_mutex ≡ 0)
  unfolding clean_up
  close_fifo_stays p q ps qs h e g = (kept, close_fifo-open ∙ simp (h, e, g), found, refl)
    where
      kept : Kernel
      kept =
          with_mutex
            (put (put_space (locking k i) mypid space) f.fifo_id
              (λ x. record x { recvlist = p ∷ ps; sendlist = q ∷ qs; lock = 0 }))
            0

      id : f.fifo_id ≡ i
      id = find_fifo_id i k.fifos f o.found

      found :
          find_fifo i kept.fifos
          ≡ some (record f { recvlist = p ∷ ps; sendlist = q ∷ qs; lock = 0 })
      found =
          ap
            (λ a. find_fifo i (
              update_fifo a (λ x. record x { recvlist = p ∷ ps; sendlist = q ∷ qs; lock = 0 })
                (locking k i).fifos))
            id
          ∙ find-update_fifo i _ (locking k i).fifos (record f { lock = 1 }) id
              (find-update_fifo i _ k.fifos f id o.found)

  -- Where the last sender closes and another receiver is left, the clean-up goes wrong: it frees the
  -- receivers' entries twice.
  pub close_fifo_orphan :
      (p : ℕ) (ps : List ℕ)
      → contains f.recvlist mypid ≡ true
      → unlink mypid f.recvlist ≡ p ∷ ps
      → unlink mypid f.sendlist ≡ []
      → close_fifo k i mypid ≡ fault
  close_fifo_orphan p ps h e g =
      close_fifo-open ∙ simp (h, e, g, clean_up-orphan (locking k i) f mypid p ps space)
