-- ===== src/Kfifo/Acl/Senders.antt =====
-- kfifo_update_senders (sys/common/kfifo.c): what a fork does to the lists of senders.
use akaris_old.Base.{
  ℕ, suc, ◌≤◌, ◌≡◌, refl, false, ◌&&◌, ◌||◌, some, List, [], ◌∷◌, ◌++◌, ◌==◌, if◌then◌else◌, arith,
  contains,
}
use akaris_old.State.{Fifo, Kernel, find_fifo}
use akaris_old.Kfifo.{success}
use akaris_old.Kfifo.Acl.{behind_last, add_sender, add_senders, update_senders}

-- How often a pid stands in a list.
unfoldable pub count : ℕ → List ℕ → ℕ
count p [] = 0
count p (x ∷ xs) = if x == p then suc (count p xs) else count p xs

contains-count : (p : ℕ) (xs : List ℕ) → count p xs ≡ 0 → contains xs p ≡ false
unfolding count
contains-count p [] h = refl
contains-count p (x ∷ xs) h = ground (arith, contains-count p xs)

behind_last_none :
    (old : ℕ) (xs keep : List ℕ) → contains xs old ≡ false → behind_last old xs keep ≡ keep
unfolding behind_last
behind_last_none old [] keep h = refl
behind_last_none old (x ∷ xs) keep h = ground (arith, behind_last_none old xs keep)

behind_last_some :
    (old : ℕ) (xs ys keep : List ℕ)
    → contains ys old ≡ false
    → behind_last old (xs ++ old ∷ ys) keep ≡ ys
unfolding behind_last
behind_last_some old [] ys keep h = ground (arith, behind_last_none old ys ys)
behind_last_some old (x ∷ xs) ys keep h =
    behind_last_some old xs ys (if x == old then xs ++ old ∷ ys else keep) h

-- Where the old pid stands at most once, the new one is added if the old one is there, and nothing
-- else changes.
pub contains-add_sender :
    (old new q : ℕ) (xs : List ℕ)
    → count old xs ≤ 1
    → contains (add_sender old new xs) q ≡ (contains xs q || (contains xs old && (new == q)))
unfolding add_sender count
contains-add_sender old new q [] h = refl
contains-add_sender old new q (x ∷ xs) h =
    ground
      (arith, contains-add_sender old new q xs, contains-count old xs, behind_last_none old xs xs)

-- Where the old pid stands twice, each entry between the two is lost, and with it the permission of
-- a sender that stands nowhere else.
pub add_sender_drops :
    (old new : ℕ) (xs ys zs : List ℕ)
    → contains xs old ≡ false
    → contains zs old ≡ false
    → add_sender old new (xs ++ old ∷ (ys ++ old ∷ zs)) ≡ xs ++ old ∷ new ∷ zs
unfolding add_sender
add_sender_drops old new [] ys zs h g = ground (arith, behind_last_some old ys zs (ys ++ old ∷ zs))
add_sender_drops old new (x ∷ xs) ys zs h g = ground (arith, add_sender_drops old new xs ys zs)

find-add_senders :
    (old new i : ℕ) (fs : List Fifo) (f : Fifo)
    → find_fifo i fs ≡ some f
    → find_fifo i (add_senders old new fs)
      ≡ some (record f { sendlist = add_sender old new f.sendlist })
unfolding find_fifo add_senders
find-add_senders old new i [] f e = cc
find-add_senders old new i (x ∷ fs) f e = ground (arith, find-add_senders old new i fs f)

-- After a fork's update, with the list free: the child may send to a FIFO if its parent may (or it
-- could before), and all others as before, where the parent stands at most once among the senders.
pub update_senders_lem :
    (k : Kernel) (old new i q : ℕ) (f : Fifo)
    → k.fifo_list_mutex ≡ 0
    → find_fifo i k.fifos ≡ some f
    → count old f.sendlist ≤ 1
    → (f' : Fifo) × ((update_senders k old new).0 ≡ success)
      × (find_fifo i (update_senders k old new).1.fifos ≡ some f')
      × (f'.recvlist ≡ f.recvlist)
      × (contains f'.sendlist q
          ≡ (contains f.sendlist q || (contains f.sendlist old && (new == q))))
unfolding update_senders
update_senders_lem k old new i q f m e c = (
  record f { sendlist = add_sender old new f.sendlist },
  ground arith,
  ground (arith, find-add_senders old new i k.fifos f),
  refl,
  contains-add_sender old new q f.sendlist c,
)
