-- ===== src/Kfifo/Acl/Tests.antt =====
-- The theorems on closing, cloning and forking at a small kernel.
use akaris_old.Base.{
  none, ℕ, ◌+◌, ◌≡◌, ◌≢◌, refl, true, some, List, [], ◌∷◌, arith, returns, fault, length, contains,
}
use akaris_old.State.{Region, Fifo, Kernel, find_context, find_fifo}
use akaris_old.Space.{delete_region, find_ipc}
use akaris_old.Kfifo.{success}
use akaris_old.Kfifo.Write.{Open}
use akaris_old.Kfifo.Acl.{unlink, add_sender, update_senders, close_fifo}
use akaris_old.Kfifo.Acl.Senders.{count, add_sender_drops, update_senders_lem}
use akaris_old.Kfifo.Acl.Close.{
  Leaves, close_fifo_stranger, close_fifo_last, close_fifo_stays, close_fifo_orphan,
}
use akaris_old.Examples.{receiver, sender, block, stack_region, pipe, kernel_with}

-- A FIFO with two receivers, and one with itself among the senders.
abbrev shared : List ℕ → List ℕ → Fifo
shared recv send = record (pipe 0 0) { recvlist = recv; sendlist = send }

opened : (recv send : List ℕ) → Open (kernel_with (shared recv send)) 1 (shared recv send)
unfolding find_fifo
opened recv send = record { mutex = refl; found = refl; lock = refl }

-- The receiver's space without its region for the FIFO.
abbrev merged_space : List Region
merged_space = block 0x70000 ∷ stack_region ∷ []

Leaves-receiver :
    (recv send : List ℕ) → Leaves (kernel_with (shared recv send)) (shared recv send) 1 merged_space
unfolding find_context find_ipc delete_region
Leaves-receiver recv send = record { c = receiver; closing = refl; left = refl }

Leaves-sender :
    (recv send : List ℕ) → Leaves (kernel_with (shared recv send)) (shared recv send) 2 sender.space
unfolding find_context find_ipc
Leaves-sender recv send = record { c = sender; closing = refl; left = refl }

close_fifo_stranger_small : close_fifo (kernel_with (shared (1 ∷ []) (2 ∷ []))) 1 2 ≡ fault
close_fifo_stranger_small =
    close_fifo_stranger (kernel_with (shared (1 ∷ []) (2 ∷ []))) 1 2 (shared (1 ∷ []) (2 ∷ []))
      sender.space (opened (1 ∷ []) (2 ∷ [])) (Leaves-sender (1 ∷ []) (2 ∷ [])) refl

close_fifo_last_example :
    (k' : Kernel) × (close_fifo (kernel_with (shared (1 ∷ []) (2 ∷ []))) 1 1
      ≡ returns (success, k'))
    × (find_fifo 1 k'.fifos ≡ none)
    × (length k'.fifos + 1 ≡ 1)
    × ((j : ℕ)
        → 1 ≢ j
        → find_fifo j k'.fifos ≡ find_fifo j (kernel_with (shared (1 ∷ []) (2 ∷ []))).fifos)
    × (k'.fifo_list_mutex ≡ 0)
unfolding unlink
close_fifo_last_example =
    close_fifo_last (kernel_with (shared (1 ∷ []) (2 ∷ []))) 1 1 (shared (1 ∷ []) (2 ∷ []))
      merged_space (opened (1 ∷ []) (2 ∷ [])) (Leaves-receiver (1 ∷ []) (2 ∷ [])) refl refl refl

close_fifo_stays_small :
    (k' : Kernel) × (close_fifo (kernel_with (shared (1 ∷ 2 ∷ []) (2 ∷ 1 ∷ []))) 1 1
      ≡ returns (success, k'))
    × (find_fifo 1 k'.fifos ≡ some (shared (2 ∷ []) (2 ∷ [])))
    × (k'.fifo_list_mutex ≡ 0)
unfolding unlink
close_fifo_stays_small =
    close_fifo_stays (kernel_with (shared (1 ∷ 2 ∷ []) (2 ∷ 1 ∷ []))) 1 1
      (shared (1 ∷ 2 ∷ []) (2 ∷ 1 ∷ [])) merged_space (opened (1 ∷ 2 ∷ []) (2 ∷ 1 ∷ []))
      (Leaves-receiver (1 ∷ 2 ∷ []) (2 ∷ 1 ∷ [])) 2 2 [] [] refl refl refl

close_fifo_orphan_small : close_fifo (kernel_with (shared (1 ∷ 2 ∷ []) (1 ∷ []))) 1 1 ≡ fault
unfolding unlink
close_fifo_orphan_small =
    close_fifo_orphan (kernel_with (shared (1 ∷ 2 ∷ []) (1 ∷ []))) 1 1
      (shared (1 ∷ 2 ∷ []) (1 ∷ [])) merged_space (opened (1 ∷ 2 ∷ []) (1 ∷ []))
      (Leaves-receiver (1 ∷ 2 ∷ []) (1 ∷ [])) 2 [] refl refl refl

-- The permission of 7 and 8 is lost.
add_sender_drops_small : add_sender 2 3 (9 ∷ 2 ∷ 7 ∷ 8 ∷ 2 ∷ 6 ∷ []) ≡ 9 ∷ 2 ∷ 3 ∷ 6 ∷ []
add_sender_drops_small = add_sender_drops 2 3 (9 ∷ []) (7 ∷ 8 ∷ []) (6 ∷ []) refl refl

update_senders_lem_example :
    (f' : Fifo) × ((update_senders (kernel_with (pipe 0 0)) 2 3).0 ≡ success)
    × (find_fifo 1 (update_senders (kernel_with (pipe 0 0)) 2 3).1.fifos ≡ some f')
    × (f'.recvlist ≡ 1 ∷ [])
    × (contains f'.sendlist 3 ≡ true)
unfolding find_fifo count
update_senders_lem_example =
    update_senders_lem (kernel_with (pipe 0 0)) 2 3 1 3 (pipe 0 0) refl refl (omega arith)
