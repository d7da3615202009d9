-- ===== src/Lifecycle/Fifos.antt =====
-- The operations on FIFOs leave the pids as they are.
use akaris_old.Base.{
  ℕ, suc, refl, ◌||◌, not, Option-cases, inl, inr, List, [], ◌∷◌, ◌==◌, ltb, Outcome, returns,
  ◌>>=◌, Returns, Returns-bind, Returns-if, Returns-then, get_elem?, length, contains, sub32,
}
use akaris_old.State.{Region, ipc, Fifo, Kernel, get_process, find_fifo}
use akaris_old.Space.{clone_region, delete_region, find_ipc, create_region}
use akaris_old.Ring.{cur_free, cur_size}
use akaris_old.Kfifo.{
  Stale, put_space, copy_in, writer_pid, write_locked, write_fifo, read_locked, read_fifo,
  create_fifo, with_mutex, put, region_pages,
}
use akaris_old.Kfifo.Acl.{
  is_empty, free_again, remove_fifo, clean_up, delete_receivers, unlink, close_fifo,
}
use akaris_old.Lifecycle.Pids.{
  SamePids, pids-update, then-SamePids, trigger_events-SamePids, untrigger_events-SamePids,
}

pub put_space-SamePids :
    (k : Kernel) (p : ℕ) (space : List Region) → SamePids k (put_space k p space)
put_space-SamePids k p space =
    (pids-update p (λ c. record c { space = space }) k.contexts (λ c. refl), refl)

-- The result of an operation with a code.
abbrev pub KeepsPids {ℓ} : {A : Type ℓ} → Kernel → A × Kernel → Type 0
KeepsPids k (e, k') = SamePids k k'

abbrev pub KeepsBoth {ℓ κ} : {A : Type ℓ} {B : Type κ} → Kernel → A × B × Kernel → Type 0
KeepsBoth k (e, b, k') = SamePids k k'

copy_in-SamePids :
    (k : Kernel) (fifo : Fifo) (p : ℕ) (buf : List ℕ) (len : ℕ)
    → Returns (SamePids k) (copy_in k fifo p buf len)
unfolding copy_in
copy_in-SamePids k fifo p buf len = copied fifo.recvlist
  where
    copied :
        (rs : List ℕ) → Returns (SamePids k) (copy_in k (record fifo { recvlist = rs }) p buf len)
    copied [] = tt
    copied (r ∷ rs) = elim (Option-cases (get_process k r)) [
      | inl e ↦ rw (copy_in, e) tt
      | inr (rc, e) ↦ elim (Option-cases (find_ipc fifo.fifo_id rc.space)) [
        | inl f ↦ rw (copy_in, e, f) tt
        | inr (i, f) ↦ elim (Option-cases (get_elem? rc.space i)) [
          | inl g ↦ rw (copy_in, e, f, g) tt
          | inr (mr, g) ↦ elim (Option-cases (get_process k (writer_pid k p))) [
            | inl h ↦ rw (copy_in, e, f, g, h) tt
            | inr (wc, h) ↦
                rw (copy_in, e, f, g, h)
                  (Returns-then (SamePids k)
                    (clone_region wc.space mr >>= λ cloned. delete_region cloned 0) _
                    (λ s. put_space-SamePids k (writer_pid k p) s))
          ]
        ]
      ]
    ]

write_locked-SamePids :
    (k : Kernel) (fifo : Fifo) (p : ℕ) (buf : List ℕ) (len : ℕ)
    → Returns (KeepsPids k) (write_locked k fifo p buf len)
unfolding write_locked
write_locked-SamePids k fifo p buf len =
    Returns-if (KeepsPids k) (ltb (sub32 fifo.size 1) len) _ _ (refl, refl)
      (Returns-if (KeepsPids k) (ltb (cur_free fifo.size fifo.start fifo.end) len) _ _ (refl, refl)
        (Returns-if (KeepsPids k) (not (contains fifo.sendlist p)) _ _ (refl, refl)
          (Returns-bind (SamePids k) (KeepsPids k) (copy_in k fifo p buf len) _
            (copy_in-SamePids k fifo p buf len)
            (λ k' s.
              Returns-bind (SamePids k) (KeepsPids k) _ _
                (then-SamePids k k' _ s
                  (trigger_events-SamePids (suc (length k.events)) _ fifo.ke_list))
                (λ k'' s'. s')))))

pub write_fifo-SamePids :
    (k : Kernel) (i p : ℕ) (buf : List ℕ) (len : ℕ)
    → Returns (KeepsPids k) (write_fifo k i p buf len)
unfolding write_fifo
write_fifo-SamePids k i p buf len =
    Returns-if (KeepsPids k) (not (k.fifo_list_mutex == 0)) _ _ (refl, refl)
      (elim (Option-cases (find_fifo i k.fifos)) [
        | inl e ↦ rw e (refl, refl)
        | inr (f, e) ↦ rw e (
            Returns-if (KeepsPids k) (not (f.lock == 0)) _ _ (refl, refl)
              (write_locked-SamePids (put (with_mutex k 0) i (λ f. record f { lock = 1 }))
                (record f { lock = 1 }) p buf len))
      ])

read_locked-SamePids :
    (k : Kernel) (fifo : Fifo) (p : ℕ) (buf : List ℕ) (len : ℕ)
    → Returns (KeepsBoth k) (read_locked k fifo p buf len)
unfolding read_locked
read_locked-SamePids k fifo p buf len =
    Returns-if (KeepsBoth k) (not (contains fifo.recvlist p)) _ _ (refl, refl)
      (Returns-if (KeepsBoth k) (ltb (cur_size fifo.size fifo.start fifo.end) len) _ _ (refl, refl)
        (elim (Option-cases (get_process k p)) [
          | inl e ↦ rw e tt
          | inr (c, e) ↦ rw e (elim (Option-cases (find_ipc fifo.fifo_id c.space)) [
            | inl f ↦ rw f tt
            | inr (i, f) ↦ rw f (elim (Option-cases (get_elem? c.space i)) [
              | inl g ↦ rw g tt
              | inr (mr, g) ↦ rw g (
                  Returns-bind (SamePids k) (KeepsBoth k) _ _
                    (untrigger_events-SamePids (suc (length k.events)) _ _ fifo.ke_list)
                    (λ k' s. s))
            ])
          ])
        ]))

pub read_fifo-SamePids :
    (k : Kernel) (i p : ℕ) (buf : List ℕ) (len : ℕ)
    → Returns (KeepsBoth k) (read_fifo k i p buf len)
unfolding read_fifo
read_fifo-SamePids k i p buf len =
    Returns-if (KeepsBoth k) (not (k.fifo_list_mutex == 0)) _ _ (refl, refl)
      (elim (Option-cases (find_fifo i k.fifos)) [
        | inl e ↦ rw e (refl, refl)
        | inr (f, e) ↦ rw e (
            Returns-if (KeepsBoth k) (not (f.lock == 0)) _ _ (refl, refl)
              (read_locked-SamePids (put (with_mutex k 0) i (λ f. record f { lock = 1 }))
                (record f { lock = 1 }) p buf len))
      ])

pub create_fifo-SamePids :
    (stale : Stale) (k : Kernel) (recv send : List ℕ) (size : ℕ)
    → Returns (KeepsBoth k) (create_fifo stale k recv send size)
unfolding create_fifo
create_fifo-SamePids stale k recv send size =
    Returns-if (KeepsBoth k) (not (k.fifo_list_mutex == 0)) _ _ (refl, refl) (received recv)
  where
    received :
        (rs : List ℕ)
        → Returns (KeepsBoth k) (create_fifo stale (record k { fifo_list_mutex = 0 }) rs send size)
    received [] = tt
    received (r ∷ rs) = elim (Option-cases (get_process k r)) [
      | inl e ↦ rw e tt
      | inr (c, e) ↦
          rw e
            (elim (Option-cases
              (create_region c.space (region_pages size) ipc 2 k.cur_fifo_id k.next_backing)) [
                | inl f ↦ rw f tt
                | inr (space, f) ↦ rw f (put_space-SamePids k r space)
              ])
    ]

clean_up-SamePids :
    (k : Kernel) (fifo : Fifo) (p : ℕ) (rs ss : List ℕ) (space : List Region)
    → Returns (SamePids k) (clean_up k fifo p rs ss space)
unfolding clean_up
clean_up-SamePids k fifo p rs ss space =
    Returns-if (SamePids k) (is_empty rs || is_empty ss) _
      (returns (
        put (put_space k p space) fifo.fifo_id
          (λ f. record f { recvlist = rs; sendlist = ss; lock = 0 })))
      (Returns-then (SamePids k) (delete_receivers fifo.fifo_id rs space)
        (λ s. free_again rs s >>= removed)
        (λ s.
          Returns-then (SamePids k) (free_again rs s) removed (λ s'. put_space-SamePids k p s')))
      (put_space-SamePids k p space)
  where
    removed : List Region → Outcome Kernel
    removed s = returns (record (put_space k p s) { fifos = remove_fifo fifo.fifo_id k.fifos })

pub close_fifo-SamePids : (k : Kernel) (i p : ℕ) → Returns (KeepsPids k) (close_fifo k i p)
unfolding close_fifo
close_fifo-SamePids k i p =
    Returns-if (KeepsPids k) (not (k.fifo_list_mutex == 0)) _ _ (refl, refl)
      (elim (Option-cases (find_fifo i k.fifos)) [
        | inl e ↦ rw e tt
        | inr (f, e) ↦ rw e (
            Returns-if (KeepsPids k) (not (f.lock == 0)) _ _ (refl, refl)
              (elim (Option-cases (get_process k p)) [
                | inl g ↦ rw g tt
                | inr (c, g) ↦ rw g (
                    Returns-then (KeepsPids k) _ _ (λ space.
                      Returns-if (KeepsPids k) (not (contains f.recvlist p)) _ _ tt (
                        Returns-bind (SamePids k) (KeepsPids k) _ _
                          (clean_up-SamePids _ f p (unlink p f.recvlist) (unlink p f.sendlist)
                            space)
                          (λ k' s. s))))
              ]))
      ])
