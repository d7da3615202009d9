-- ===== src/UserLibrary/Queues.antt =====
-- The calls on kernel queues of sys/servers/libak/syscall.c.
use akaris_old.Base.{ℕ, List, Outcome, returns, ◌>>=◌}
use akaris_old.State.{Regs, Filter, Flag}
use akaris_old.Kqueue.{Change}
use akaris_old.Kqueue
use akaris_old.Syscalls.{SyscallNumber, KqueueOp, KqueueOperation, System, Before, store_at}
use akaris_old.UserLibrary.{me, trap}

abbrev pub fill_kop : System → (sp : ℕ) → (KqueueOp → KqueueOp) → System
fill_kop s sp f = store_at s (me s) sp (λ t. record t { kop = f t.kop })

-- ak_kqueue_create, with the id.
unfoldable pub ak_kqueue_create :
    Before → System → Regs → (sp : ℕ) → Outcome (Kqueue.Error × ℕ × System)
unfolding trap
ak_kqueue_create b s regs sp =
    let filled = fill_kop s sp (λ k. record k { operation = KqueueOperation.kqueue_op_create }) in
    trap b filled regs SyscallNumber.kqueue_op sp >>= λ (regs', s').
    let kop = (s'.user (me s) sp).kop in returns (kop.err, kop.kqueue_id, s')

-- ak_kqueue_event
unfoldable pub ak_kqueue_event :
    Before → System → Regs → (sp kid ident : ℕ) → Filter → Flag → Outcome (Kqueue.Error × System)
unfolding trap
ak_kqueue_event b s regs sp kid ident filter flag =
    let filled = fill_kop s sp (λ k. record k {
      operation = KqueueOperation.kqueue_op_event;
      kqueue_id = kid;
      newevent = record { filter = filter; flag = flag; ident = ident };
    }) in
    trap b filled regs SyscallNumber.kqueue_op sp >>= λ (regs', s').
    returns ((s'.user (me s) sp).kop.err, s')

-- ak_kqueue_poll, with the number of events and their list.
unfoldable pub ak_kqueue_poll :
    Before
    → System
    → Regs
    → (sp id nevents : ℕ) → List Change
    → Outcome (Kqueue.Error × ℕ × List Change × System)
unfolding trap
ak_kqueue_poll b s regs sp id nevents eventlist =
    let filled = fill_kop s sp (λ k. record k {
      operation = KqueueOperation.kqueue_op_poll;
      kqueue_id = id;
      max_events = nevents;
      changedevents = eventlist;
    }) in
    trap b filled regs SyscallNumber.kqueue_op sp >>= λ (regs', s').
    let kop = (s'.user (me s) sp).kop in returns (kop.err, kop.max_events, kop.changedevents, s')

-- ak_kqueue_block up to the end of the interrupt: the registers that go on running, and the code
-- that the call returns when its process goes on.
unfoldable pub ak_kqueue_block :
    Before → System → Regs → (sp id : ℕ) → Outcome (Kqueue.Error × Regs × System)
unfolding trap
ak_kqueue_block b s regs sp id =
    let filled =
      fill_kop s sp
        (λ k. record k { operation = KqueueOperation.kqueue_op_block; kqueue_id = id }) in
    trap b filled regs SyscallNumber.kqueue_op sp >>= λ (regs', s').
    returns ((s'.user (me s) sp).kop.err, regs', s')
