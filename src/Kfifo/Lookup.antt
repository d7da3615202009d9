-- ===== src/Kfifo/Lookup.antt =====
-- Writes through the pointer to a FIFO or a context, as updates of the list that holds it.
use akaris_old.Base.{ℕ, ◌≡◌, refl, ◌≢◌, some, List, [], ◌∷◌, arith}
use akaris_old.State.{Fifo, Context, find_fifo, update_fifo, find_context, update_context}

pub find-update_fifo :
    (i : ℕ) (f : Fifo → Fifo) (fs : List Fifo) (x : Fifo)
    → (f x).fifo_id ≡ i
    → find_fifo i fs ≡ some x
    → find_fifo i (update_fifo i f fs) ≡ some (f x)
unfolding find_fifo update_fifo
find-update_fifo i f [] x p e = ground arith
find-update_fifo i f (y ∷ fs) x p e = ground (arith, find-update_fifo i f fs x)

pub find-update_fifo_ne :
    (i j : ℕ) (f : Fifo → Fifo) (fs : List Fifo)
    → ((x : Fifo) → (f x).fifo_id ≡ x.fifo_id)
    → i ≢ j
    → find_fifo j (update_fifo i f fs) ≡ find_fifo j fs
unfolding find_fifo update_fifo
find-update_fifo_ne i j f [] p ne = refl
find-update_fifo_ne i j f (y ∷ fs) p ne = ground (arith, p y, find-update_fifo_ne i j f fs p ne)

pub update-update_fifo :
    (i : ℕ) (f g : Fifo → Fifo) (fs : List Fifo)
    → ((x : Fifo) → (f x).fifo_id ≡ x.fifo_id)
    → update_fifo i g (update_fifo i f fs) ≡ update_fifo i (λ x. g (f x)) fs
unfolding update_fifo
update-update_fifo i f g [] p = refl
update-update_fifo i f g (y ∷ fs) p = ground (arith, p y, update-update_fifo i f g fs p)

-- An update that leaves the FIFO found as it is leaves the list as it is.
pub update_fifo_same :
    (i : ℕ) (f : Fifo → Fifo) (fs : List Fifo) (x : Fifo)
    → find_fifo i fs ≡ some x
    → f x ≡ x
    → update_fifo i f fs ≡ fs
unfolding find_fifo update_fifo
update_fifo_same i f [] x e p = refl
update_fifo_same i f (y ∷ fs) x e p = ground (arith, update_fifo_same i f fs x)

pub find_fifo_id : (i : ℕ) (fs : List Fifo) (x : Fifo) → find_fifo i fs ≡ some x → x.fifo_id ≡ i
unfolding find_fifo
find_fifo_id i [] x e = cc
find_fifo_id i (y ∷ fs) x e = ground (arith, find_fifo_id i fs x)

pub update_context_same :
    (p : ℕ) (f : Context → Context) (cs : List Context) (c : Context)
    → find_context p cs ≡ some c
    → f c ≡ c
    → update_context p f cs ≡ cs
unfolding find_context update_context
update_context_same p f [] c e h = refl
update_context_same p f (d ∷ cs) c e h = ground (arith, update_context_same p f cs c)

pub find-update_context :
    (p : ℕ) (f : Context → Context) (cs : List Context) (c : Context)
    → (f c).pid ≡ p
    → find_context p cs ≡ some c
    → find_context p (update_context p f cs) ≡ some (f c)
unfolding find_context update_context
find-update_context p f [] c h e = ground arith
find-update_context p f (d ∷ cs) c h e = ground (arith, find-update_context p f cs c)

pub find_context_pid :
    (p : ℕ) (cs : List Context) (c : Context) → find_context p cs ≡ some c → c.pid ≡ p
unfolding find_context
find_context_pid p [] c e = cc
find_context_pid p (d ∷ cs) c e = ground (arith, find_context_pid p cs c)

pub find-update_context_ne :
    (p q : ℕ) (f : Context → Context) (cs : List Context)
    → ((c : Context) → (f c).pid ≡ c.pid)
    → q ≢ p
    → find_context q (update_context p f cs) ≡ find_context q cs
unfolding find_context update_context
find-update_context_ne p q f [] h ne = refl
find-update_context_ne p q f (d ∷ cs) h ne =
    ground (arith, h d, find-update_context_ne p q f cs h ne)
