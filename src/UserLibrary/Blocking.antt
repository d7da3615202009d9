-- ===== src/UserLibrary/Blocking.antt =====
-- A process that waits for events through the user library (KQUEUE_OP_BLOCK).
use akaris_old.Base.{
  ℕ, ◌≡◌, ◌≢◌, refl, ap, sym, false, List, ◌==◌, returns, ◌>>=◌, ==_refl, ==_ne, Bool-cases, inl,
  inr, leb,
}
use akaris_old.State.{Regs, Kernel}
use akaris_old.Scheduler.{schedule}
use akaris_old.Kqueue.{success, kqueue_block}
use akaris_old.Kqueue.Block.{Blocks, marked, sleeping, kqueue_block_lem}
use akaris_old.Kfifo.Lookup.{find_context_pid}
use akaris_old.Gates.{Machine, send_blank, acknowledge}
use akaris_old.Syscalls.{
  SyscallNumber, KqueueOp, KqueueOperation, System, Before, kernel_of, with_kernel,
}
use akaris_old.Syscalls.Handler.{syscall_handler, dispatch, kqueue_call, store_kop}
use akaris_old.UserLibrary.{end_interrupt, acknowledged, me, trap}
use akaris_old.UserLibrary.Calls.{store_at-user}
use akaris_old.UserLibrary.Queues.{ak_kqueue_block, fill_kop}

-- The structure of a blocking call on the queue.
abbrev pub block_op : (id : ℕ) → KqueueOp → KqueueOp
block_op id k = record k { operation = KqueueOperation.kqueue_op_block; kqueue_id = id }

-- The registers at the interrupt.
abbrev pub at_interrupt : Regs → (sp : ℕ) → Regs
at_interrupt regs sp = record regs { eax = 5; edx = sp; int_no = 0x80 }

kernel_kept : (m : Machine) (i : ℕ) → (acknowledge m i).kernel ≡ m.kernel
unfolding acknowledge
kernel_kept m i = elim (Bool-cases (leb 40 i)) [
  | inl e ↦ rw (acknowledge, e) refl
  | inr e ↦ rw (acknowledge, e) refl
]

module _ (b : Before) (s : System) (regs : Regs) (sp id : ℕ) (bs : List ℕ)
    (blocks : Blocks (kernel_of s) id bs) (framed : (regs.ebp == 0) ≡ false)
    (quiet : marked (kernel_of s).events bs ≡ false) where
  trap-block : trap b (fill_kop s sp (block_op id)) regs SyscallNumber.kqueue_op sp ≡ (
      (kqueue_block b.halts (kernel_of s) id (at_interrupt regs sp) >>= λ (e, regs', k). returns (
        regs',
        store_kop
            (with_kernel (fill_kop s sp (block_op id)) k)
            k.current
            sp
            (λ t. record t { err = e }),
      ))
      >>= end_interrupt)
  unfolding trap syscall_handler dispatch kqueue_call
  trap-block =
      rw
        (
          trap,
          syscall_handler,
          blocks.current,
          dispatch,
          find_context_pid (me s) (kernel_of s).contexts blocks.curproc blocks.current,
        )
        (ap
          (λ t.
            kqueue_call b (fill_kop s sp (block_op id)) (at_interrupt regs sp)
              (record blocks.curproc { pid = me s }) sp t.kop
            >>= end_interrupt)
          (store_at-user s (me s) sp (λ t. record t { kop = block_op id t.kop })))

  -- A process that waits on its queue gets its code stored in the address space of the process that
  -- runs next: that one's structure at the same address is overwritten, and the caller's keeps the
  -- code it held before, which ak_kqueue_block returns. No event of the queue is marked, the
  -- scheduler picks another process, and the interrupt that this one is in has no FIFO.
  pub ak_kqueue_block-strays :
      (regs' : Regs) (k' : Kernel)
      → schedule b.halts (sleeping (kernel_of s) id) (at_interrupt regs sp) ≡ returns (regs', k')
      → k'.current ≢ me s
      → s.machine.int_to_pid regs'.int_no ≡ 0
      → (s' : System) × (ak_kqueue_block b s regs sp id
          ≡ returns ((s.user (me s) sp).kop.err, regs', s'))
        × ((s'.user k'.current sp).kop ≡ record (s.user k'.current sp).kop { err = success })
        × (kernel_of s' ≡ k')
  unfolding ak_kqueue_block end_interrupt send_blank acknowledge
  ak_kqueue_block-strays regs' k' next other quiet' = (
    acknowledged
        (store_kop (with_kernel (fill_kop s sp (block_op id)) k') k'.current sp
          (λ t. record t { err = success }))
        regs'.int_no,
    rw
        (
          ak_kqueue_block,
          trap-block,
          kqueue_block_lem b.halts (kernel_of s) id (at_interrupt regs sp) bs blocks framed,
          quiet,
          next,
          end_interrupt,
          send_blank,
          quiet',
          ==_ne (me s) k'.current (λ e. other (sym e)),
          ==_refl (me s),
          ==_refl sp,
        )
        refl,
    rw (==_ne k'.current (me s) other, ==_refl k'.current, ==_refl sp) refl,
    kernel_kept (with_kernel s k').machine regs'.int_no,
  )
