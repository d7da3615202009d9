-- ===== src/Kfifo/Acl.antt =====
-- Who may use a FIFO: kfifo_clone_fifo, kfifo_update_senders and kfifo_close_fifo
-- (sys/common/kfifo.c).
pub mod Close
pub mod Senders
mod Tests
use akaris_old.Base.{
  ℕ, zero, suc, Bool, true, false, not, ◌||◌, Option, none, some, List, [], ◌∷◌, ◌++◌, map, ◌==◌,
  if◌then◌else◌, Outcome, returns, fault, hang, ◌>>=◌, contains,
}
use akaris_old.State.{
  Region, Fifo, Kernel, test_and_set, find_context, update_context, get_process, find_fifo,
  update_fifo,
}
use akaris_old.Space.{delete_region, find_ipc}
use akaris_old.Kfifo.{Error, success, locked, exist, put, unlock, with_mutex, put_space}

-- kfifo_clone_fifo: the new pid stands first among the receivers.
unfoldable pub clone_fifo : Kernel → (fifo_id newpid : ℕ) → Error × Kernel
unfolding find_fifo update_fifo
clone_fifo k fifo_id newpid =
    let (old, mutex) = test_and_set 1 k.fifo_list_mutex in
    if not (old == 0) then (locked, with_mutex k mutex) else elim (find_fifo fifo_id k.fifos) [
      | none ↦ (exist, with_mutex k 0)
      | some fifo ↦
          let (held, lock) = test_and_set 1 fifo.lock in
          let k' = put (with_mutex k 0) fifo_id (λ f. record f { lock = lock }) in
          if not (held == 0) then (locked, k') else (
            success,
            unlock (put k' fifo_id (λ f. record f { recvlist = newpid ∷ f.recvlist })) fifo_id,
          )
    ]

-- The rest of the list behind the last entry with the pid, or `keep` if there is none.
unfoldable pub behind_last : ℕ → List ℕ → (keep : List ℕ) → List ℕ
behind_last pid [] keep = keep
behind_last pid (x ∷ xs) keep = behind_last pid xs (if x == pid then xs else keep)

-- The walk of kfifo_update_senders over one list. There is one new entry for the whole walk: it is
-- linked in behind the first entry with the old pid, and each later one moves its `next` on.
unfoldable pub add_sender : (oldpid newpid : ℕ) → List ℕ → List ℕ
unfolding behind_last
add_sender oldpid newpid [] = []
add_sender oldpid newpid (x ∷ xs) =
    if x == oldpid then x ∷ newpid ∷ behind_last oldpid xs xs else x ∷ add_sender oldpid newpid xs

unfoldable pub add_senders : (oldpid newpid : ℕ) → List Fifo → List Fifo
unfolding add_sender
add_senders oldpid newpid [] = []
add_senders oldpid newpid (f ∷ fs) =
    record f { sendlist = add_sender oldpid newpid f.sendlist } ∷ add_senders oldpid newpid fs

-- kfifo_update_senders. The locks of the FIFOs are not taken.
unfoldable pub update_senders : Kernel → (oldpid newpid : ℕ) → Error × Kernel
unfolding add_senders
update_senders k oldpid newpid =
    let (old, mutex) = test_and_set 1 k.fifo_list_mutex in
    if not (old == 0)
    then (locked, with_mutex k mutex)
    else (success, record k { fifos = add_senders oldpid newpid k.fifos; fifo_list_mutex = 0 })

-- A list without its first entry with the pid.
unfoldable pub unlink : ℕ → List ℕ → List ℕ
unlink pid [] = []
unlink pid (x ∷ xs) = if x == pid then xs else x ∷ unlink pid xs

unfoldable pub remove_fifo : ℕ → List Fifo → List Fifo
remove_fifo i [] = []
remove_fifo i (f ∷ fs) = if f.fifo_id == i then fs else f ∷ remove_fifo i fs

abbrev pub is_empty : List ℕ → Bool
is_empty [] = true
is_empty (x ∷ xs) = false

-- The first walk of the clean-up: for each receiver that is left, a region of the closing process is
-- deleted and the entry is freed. The sentinel, where no region is found, is no region to delete.
unfoldable pub delete_receivers : (fifo_id : ℕ) → List ℕ → List Region → Outcome (List Region)
unfolding find_ipc delete_region
delete_receivers fifo_id [] space = returns space
delete_receivers fifo_id (p ∷ ps) space = elim (find_ipc fifo_id space) [
  | none ↦ fault
  | some i ↦ delete_region space i >>= λ space'. delete_receivers fifo_id ps space'
]

-- The second walk of the clean-up, over `recvlist` once more: its entries are freed already.
abbrev pub free_again : List ℕ → List Region → Outcome (List Region)
free_again [] space = returns space
free_again (p ∷ ps) space = fault

-- The end of kfifo_close_fifo: a FIFO that has lost its last sender or receiver goes.
unfoldable pub clean_up :
    Kernel → Fifo → (mypid : ℕ) → (recvlist sendlist : List ℕ) → List Region → Outcome Kernel
unfolding delete_receivers remove_fifo update_fifo update_context
clean_up k fifo mypid recvlist sendlist space =
    if is_empty recvlist || is_empty sendlist
    then (delete_receivers fifo.fifo_id recvlist space >>= λ space'.
        free_again recvlist space' >>= λ space''.
        returns (record (put_space k mypid space'') { fifos = remove_fifo fifo.fifo_id k.fifos }))
    else returns (
        put (put_space k mypid space) fifo.fifo_id
          (λ f. record f { recvlist = recvlist; sendlist = sendlist; lock = 0 }))

-- kfifo_close_fifo. A FIFO that is not found, and a pid that is no receiver, are NULL pointers that
-- are followed: the one to its lock, the other by the deallocation of its entry.
unfoldable pub close_fifo : Kernel → (fifo_id mypid : ℕ) → Outcome (Error × Kernel)
unfolding find_fifo update_fifo find_context find_ipc delete_region unlink clean_up
close_fifo k fifo_id mypid =
    let (old, mutex) = test_and_set 1 k.fifo_list_mutex in
    if not (old == 0)
    then returns (locked, with_mutex k mutex)
    else elim (find_fifo fifo_id k.fifos) [
      | none ↦ fault
      | some fifo ↦
          let (held, lock) = test_and_set 1 fifo.lock in
          let k' = put k fifo_id (λ f. record f { lock = lock }) in
          if not (held == 0)
          then returns (locked, with_mutex k' 0)
          else elim (get_process k mypid) [
            | none ↦ fault
            | some c ↦
                elim (find_ipc fifo.fifo_id c.space) [
                  | none ↦ returns c.space
                  | some i ↦ delete_region c.space i
                ]
                >>= λ space.
                    if not (contains fifo.recvlist mypid)
                    then fault
                    else (clean_up (with_mutex k' 1) fifo mypid (unlink mypid fifo.recvlist)
                          (unlink mypid fifo.sendlist) space
                        >>= λ k''. returns (success, with_mutex k'' 0))
          ]
    ]
