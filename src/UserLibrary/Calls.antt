-- ===== src/UserLibrary/Calls.antt =====
-- A call of the user library does in one step what the kernel's function does for the process.
use akaris_old.Base.{
  ℕ, ◌≡◌, refl, ap, ◌∙◌, Bool, true, false, ◌&&◌, some, List, ◌==◌, if◌then◌else◌, returns, ◌>>=◌,
  bind_chain_four, ==_refl,
}
use akaris_old.State.{Regs, Context, Kernel, get_process}
use akaris_old.Kfifo.Lookup.{find_context_pid}
use akaris_old.Kfifo.{write_fifo, read_fifo}
use akaris_old.Kfifo
use akaris_old.Kfifo.Acl.{close_fifo}
use akaris_old.Syscalls.{
  SyscallNumber, FifoOp, FifoOperation, Structs, System, Before, kernel_of, with_kernel, store_at,
}
use akaris_old.Syscalls.Handler.{syscall_handler, dispatch, fifo_call, report, store_fop}
use akaris_old.UserLibrary.{
  end_interrupt, end_interrupt-quiet, acknowledged, me, trap, fill_fop, ak_write, ak_read, ak_close,
}

-- What is stored at an address is found there.
pub store_at-user :
    (s : System) (p a : ℕ) (f : Structs → Structs) → (store_at s p a f).user p a ≡ f (s.user p a)
store_at-user s p a f = rw (==_refl p, ==_refl a) refl

-- A second write to the address is one write with the first.
pub store_at-store_at :
    (s : System) (p a : ℕ) (f g : Structs → Structs)
    → store_at (store_at s p a f) p a g ≡ store_at s p a (λ t. g (f t))
store_at-store_at s p a f g =
    ap (λ u. record s { user = u }) (λ i q b. both ((q == p) && (b == a)) (s.user q b) i)
  where
    both :
        (hit : Bool) (t : Structs)
        → (if hit then g (if hit then f t else t) else (if hit then f t else t))
          ≡ (if hit then g (f t) else t)
    both true t = refl
    both false t = refl

module _ (b : Before) (s : System) (regs : Regs) (sp : ℕ) (c : Context)
    (known : get_process (kernel_of s) (me s) ≡ some c)
    (quiet : s.machine.int_to_pid 0x80 ≡ 0) where
  -- The interrupt of a FIFO call leads to its case, with the structure that was filled in.
  trap-fifo :
      (f : FifoOp → FifoOp)
      → trap b (fill_fop s sp f) regs SyscallNumber.fifo_op sp ≡ (
          (fifo_call (fill_fop s sp f) sp (f (s.user (me s) sp).fop) >>= λ s'.
          returns (record regs { eax = 3; edx = sp; int_no = 0x80 }, s'))
          >>= end_interrupt)
  unfolding trap syscall_handler dispatch
  trap-fifo f =
      rw
        (
          trap,
          syscall_handler,
          known,
          dispatch,
          find_context_pid (me s) (kernel_of s).contexts c known,
        )
        (ap
          (λ t.
            (fifo_call (fill_fop s sp f) sp t.fop >>= λ s'.
            returns (record regs { eax = 3; edx = sp; int_no = 0x80 }, s'))
            >>= end_interrupt)
          (store_at-user s (me s) sp (λ t. record t { fop = f t.fop })))

  report-user : (e : Kfifo.Error) (t : System) (p : ℕ) → (report e t).user p sp ≡ t.user p sp
  report-user Kfifo.Error.success t p = refl
  report-user Kfifo.Error.locked t p = refl
  report-user Kfifo.Error.mem t p = refl
  report-user Kfifo.Error.perm t p = refl
  report-user Kfifo.Error.full t p = refl
  report-user Kfifo.Error.buflen t p = refl
  report-user Kfifo.Error.exist t p = refl

  -- What the call stores on top of what it has filled in.
  stored :
      (f g : FifoOp → FifoOp) (k : Kernel)
      → store_fop (with_kernel (fill_fop s sp f) k) (me s) sp g
        ≡ with_kernel (fill_fop s sp (λ t. g (f t))) k
  stored f g k =
      ap (λ t. with_kernel t k)
        (store_at-store_at s (me s) sp (λ t. record t { fop = f t.fop })
          (λ t. record t { fop = g t.fop }))

  abbrev reported : Kfifo.Error → Kernel → (FifoOp → FifoOp) → System
  reported e k f = report e (with_kernel (fill_fop s sp f) k)

  read_back :
      (e : Kfifo.Error) (k : Kernel) (f : FifoOp → FifoOp)
      → ((reported e k f).user (me s) sp).fop ≡ f (s.user (me s) sp).fop
  read_back e k f =
      ap (λ t. t.fop)
        (report-user e (with_kernel (fill_fop s sp f) k) (me s)
          ∙ store_at-user s (me s) sp (λ t. record t { fop = f t.fop }))

  -- What the stub reads, and the system after it, once the kernel has stored with `g`.
  finish {ℓ} :
      {R : Type ℓ} (e : Kfifo.Error) (k : Kernel) (f g : FifoOp → FifoOp) (r : FifoOp → R)
      → (let t = report e (store_fop (with_kernel (fill_fop s sp f) k) (me s) sp g) in
          ◌≡◌ {A = R × System}
            (r (t.user (me s) sp).fop, t)
            (r (g (f (s.user (me s) sp).fop)), reported e k (λ t. g (f t))))
  finish e k f g r =
      ap (λ t. (r ((report e t).user (me s) sp).fop, report e t)) (stored f g k)
      ∙ ap (λ o. (r o, reported e k (λ t. g (f t)))) (read_back e k (λ t. g (f t)))

  -- After a FIFO call: the kernel, the structure, the message for a lock, and the acknowledgement.
  abbrev pub answered : Kfifo.Error → Kernel → (FifoOp → FifoOp) → System
  answered e k f = acknowledged (reported e k f) 0x80

  report-quiet :
      (e : Kfifo.Error) (t : System)
      → t.machine.int_to_pid 0x80 ≡ 0
      → (report e t).machine.int_to_pid 0x80 ≡ 0
  report-quiet Kfifo.Error.success t h = h
  report-quiet Kfifo.Error.locked t h = h
  report-quiet Kfifo.Error.mem t h = h
  report-quiet Kfifo.Error.perm t h = h
  report-quiet Kfifo.Error.full t h = h
  report-quiet Kfifo.Error.buflen t h = h
  report-quiet Kfifo.Error.exist t h = h

  -- The same at the end of the interrupt.
  leaf {ℓ κ} :
      {R : Type ℓ} {Q : Type κ} (e : Kfifo.Error) (k : Kernel) (f g : FifoOp → FifoOp)
      (r : FifoOp → R) (out : R → System → Q)
      → (end_interrupt (
        record regs { eax = 3; edx = sp; int_no = 0x80 },
        report e (store_fop (with_kernel (fill_fop s sp f) k) (me s) sp g),
      )
          >>= λ (regs', s'). returns (out (r (s'.user (me s) sp).fop) s'))
        ≡ returns (out (r (g (f (s.user (me s) sp).fop))) (answered e k (λ t. g (f t))))
  leaf e k f g r out =
      rw
        (end_interrupt-quiet (record regs { eax = 3; edx = sp; int_no = 0x80 })
          (report e (store_fop (with_kernel (fill_fop s sp f) k) (me s) sp g))
          (report-quiet e (store_fop (with_kernel (fill_fop s sp f) k) (me s) sp g) quiet))
        (ap (λ (x, t). returns (out x (acknowledged t 0x80))) (finish e k f g r))

  -- Where interrupt 0x80 has no FIFO, ak_write, ak_read and ak_close do what the functions of the
  -- kernel's FIFOs do for the current process, and return their code (a read also the buffer): the
  -- kernel after the call is theirs, the structure on the stack holds the arguments and the results,
  -- the kernel prints a message if the FIFO was locked, and the interrupt is acknowledged. Where
  -- those functions do not return, the calls do not either.
  pub fifo_calls_lem :
      (pipe : ℕ) (buf : List ℕ) (len : ℕ)
      → (ak_write b s regs sp pipe buf len ≡ (
          write_fifo (kernel_of s) pipe (me s) buf len >>= λ (e, k). returns (
            e,
            answered e k (λ f. record {
              fifo_id = pipe;
              buf = buf;
              length = len;
              operation = FifoOperation.fifo_op_write;
              err = e;
            }),
          )))
        × (ak_read b s regs sp pipe buf len ≡ (
            read_fifo (kernel_of s) pipe (me s) buf len >>= λ (e, buf', k). returns (
              e,
              buf',
              answered e k (λ f. record {
                fifo_id = pipe;
                buf = buf';
                length = len;
                operation = FifoOperation.fifo_op_read;
                err = e;
              }),
            )))
        × (ak_close b s regs sp pipe ≡ (
            close_fifo (kernel_of s) pipe (me s) >>= λ (e, k). returns (
              e,
              answered e k (λ f. record f {
                fifo_id = pipe;
                operation = FifoOperation.fifo_op_close;
                err = e;
              }),
            )))
  unfolding ak_write ak_read ak_close fifo_call
  fifo_calls_lem pipe buf len = (
    rw (ak_write, trap-fifo)
        (bind_chain_four (write_fifo (kernel_of s) pipe (me s) buf len) _ _ _ _ (λ (e, k).
          leaf e k
            (λ f. record f {
              buf = buf;
              fifo_id = pipe;
              length = len;
              operation = FifoOperation.fifo_op_write;
            })
            (λ t. record t { err = e }) (λ f. f.err) (λ x t. (x, t)))),
    rw (ak_read, trap-fifo)
        (bind_chain_four (read_fifo (kernel_of s) pipe (me s) buf len) _ _ _ _ (λ (e, buf', k).
          leaf e k
            (λ f. record f {
              buf = buf;
              fifo_id = pipe;
              length = len;
              operation = FifoOperation.fifo_op_read;
            })
            (λ t. record t { buf = buf'; err = e }) (λ f. (f.err, f.buf)) (λ (x, y) t. (x, y, t)))),
    rw (ak_close, trap-fifo)
        (bind_chain_four (close_fifo (kernel_of s) pipe (me s)) _ _ _ _ (λ (e, k).
          leaf e k (λ f. record f { operation = FifoOperation.fifo_op_close; fifo_id = pipe })
            (λ t. record t { err = e }) (λ f. f.err) (λ x t. (x, t)))),
  )
