-- ===== src/UserLibrary/DeviceCalls.antt =====
-- The calls on devices do in one step what sys/common/device_interface.c does for the process.
use akaris_old.Base.{
  ◌%◌, ◌^◌, ◌≢◌, sym, ==_ne, ℕ, ◌≡◌, ap, ◌∙◌, some, [], ◌∷◌, returns, ◌>>=◌, bind_chain_four,
  page_size,
}
use akaris_old.State.{Regs, Context, get_process}
use akaris_old.Kfifo.{kernel_pid}
use akaris_old.Kfifo.Lookup.{find_context_pid}
use akaris_old.Gates.{link_irq_to_fifo}
use akaris_old.Devices
use akaris_old.Devices.{Devices, devnode_register, devnode_connect, devnode_accept, make_pipe}
use akaris_old.Syscalls.{
  SyscallNumber, DevnodeOp, DevnodeOperation, Structs, System, Before, kernel_of, with_kernel,
  devices_of, with_devices, store_at,
}
use akaris_old.Syscalls.Handler.{syscall_handler, dispatch, devnode_call}
use akaris_old.UserLibrary.{
  end_interrupt, end_interrupt-quiet, acknowledged, me, trap, fill_dop, ak_register, ak_connect,
  ak_accept, ak_link_irq,
}
use akaris_old.UserLibrary.Calls.{store_at-user, store_at-store_at}

module _ (b : Before) (s : System) (regs : Regs) (sp : ℕ) (c : Context)
    (known : get_process (kernel_of s) (me s) ≡ some c)
    (quiet : s.machine.int_to_pid 0x80 ≡ 0) where
  trap-device :
      (f : DevnodeOp → DevnodeOp)
      → trap b (fill_dop s sp f) regs SyscallNumber.devnode_op sp ≡ (
          (devnode_call b (fill_dop s sp f) sp (f (s.user (me s) sp).dop) >>= λ s'.
          returns (record regs { eax = 4; edx = sp; int_no = 0x80 }, s'))
          >>= end_interrupt)
  unfolding trap syscall_handler dispatch
  trap-device f =
      rw
        (
          trap,
          syscall_handler,
          known,
          dispatch,
          find_context_pid (me s) (kernel_of s).contexts c known,
        )
        (ap
          (λ t.
            (devnode_call b (fill_dop s sp f) sp t.dop >>= λ s'.
            returns (record regs { eax = 4; edx = sp; int_no = 0x80 }, s'))
            >>= end_interrupt)
          (store_at-user s (me s) sp (λ t. record t { dop = f t.dop })))

  -- What the stub reads, and the system after it, once the kernel has stored with `g`; `w` is what
  -- else the kernel has changed.
  finish {ℓ} :
      {R : Type ℓ} (f g : DevnodeOp → DevnodeOp) (w : (ℕ → ℕ → Structs) → System)
      (r : DevnodeOp → R)
      → (let u = (store_at (fill_dop s sp f) (me s) sp (λ t. record t { dop = g t.dop })).user in
          ◌≡◌ {A = R × System}
            (r (u (me s) sp).dop, w u)
            (r (g (f (s.user (me s) sp).dop)), w (fill_dop s sp (λ t. g (f t))).user))
  finish f g w r =
      ap (λ t. (r (t.user (me s) sp).dop, w t.user))
        (store_at-store_at s (me s) sp (λ t. record t { dop = f t.dop })
          (λ t. record t { dop = g t.dop }))
      ∙ ap (λ t. (r t.dop, w (fill_dop s sp (λ o. g (f o))).user))
          (store_at-user s (me s) sp (λ t. record t { dop = g (f t.dop) }))

  -- The same at the end of the interrupt; `after` is what the kernel leaves but for the structures.
  leaf {ℓ κ} :
      {R : Type ℓ} {Q : Type κ} (f g : DevnodeOp → DevnodeOp) (after : System) (r : DevnodeOp → R)
      (out : R → System → Q)
      → after.machine.int_to_pid 0x80 ≡ 0
      → (end_interrupt (
        record regs { eax = 4; edx = sp; int_no = 0x80 },
        record after {
          user = (store_at (fill_dop s sp f) (me s) sp (λ t. record t { dop = g t.dop })).user;
        },
      )
          >>= λ (regs', s'). returns (out (r (s'.user (me s) sp).dop) s'))
        ≡ returns (
            out
              (r (g (f (s.user (me s) sp).dop)))
              (acknowledged (record after { user = (fill_dop s sp (λ t. g (f t))).user }) 0x80))
  leaf f g after r out silent =
      rw
        (end_interrupt-quiet (record regs { eax = 4; edx = sp; int_no = 0x80 })
          (record after {
            user = (store_at (fill_dop s sp f) (me s) sp (λ t. record t { dop = g t.dop })).user;
          })
          silent)
        (ap (λ (x, t). returns (out x (acknowledged t 0x80)))
          (finish f g (λ u. record after { user = u }) r))

  -- The system with these devices and the structure on the stack, and the interrupt acknowledged.
  abbrev pub device_answer : (DevnodeOp → DevnodeOp) → Devices → System
  device_answer f d = acknowledged (with_devices (fill_dop s sp f) d) 0x80

  -- Where interrupt 0x80 has no FIFO and is not to be linked, ak_register, ak_connect, ak_accept and
  -- ak_link_irq do what devnode_register, devnode_connect, devnode_accept and a new FIFO from the
  -- kernel with link_irq_to_fifo do for the current process, and return their codes and ids: the
  -- devices, the kernel and the interrupts after the call are theirs, the structure on the stack holds
  -- the arguments and the results, and the interrupt is acknowledged. Where those functions do not
  -- return, the calls do not either.
  pub device_calls_lem :
      (name : ℕ → ℕ) (irq : ℕ)
      → irq % 2 ^ 8 ≢ 0x80
      → (let old = (s.user (me s) sp).dop.fifos in
          (ak_register b s regs sp name ≡ (
            let (e, d) = devnode_register b.devnode (devices_of s) name (me s) in
            returns (
              e,
              device_answer
                  (λ o. record o {
                    operation = DevnodeOperation.devnode_op_register;
                    devname = name;
                    err = e;
                  })
                  d,
            )))
          × (ak_connect b s regs sp name ≡ (
              devnode_connect b.stale0 b.stale1 b.frame (devices_of s) name old (me s)
              >>= λ (e, pipes, d). returns (
                e,
                pipes,
                device_answer
                    (λ o. record o {
                      operation = DevnodeOperation.devnode_op_connect;
                      devname = name;
                      fifos = pipes;
                      err = e;
                    })
                    d,
              )))
          × (ak_accept b s regs sp name ≡ (
              devnode_accept b.stale0 (devices_of s) name old.0 (me s) >>= λ (e, id, d). returns (
                e,
                id,
                device_answer
                    (λ o. record o {
                      operation = DevnodeOperation.devnode_op_accept;
                      devname = name;
                      fifos = (id, o.fifos.1);
                      err = e;
                    })
                    d,
              )))
          × (ak_link_irq b s regs sp irq ≡ (
              make_pipe b.stale0 (kernel_of s) old.0 (me s ∷ 0 ∷ []) (kernel_pid ∷ 0 ∷ []) page_size
              >>= λ (id, k). returns (
                Devices.Error.success,
                id,
                acknowledged
                    (record (fill_dop s sp (λ o. record o {
                      operation = DevnodeOperation.devnode_op_link_irq;
                      irq = irq % 2 ^ 8;
                      fifos = (id, o.fifos.1);
                    })) { machine = link_irq_to_fifo (with_kernel s k).machine (irq % 2 ^ 8) id })
                    0x80,
              ))))
  unfolding ak_register ak_connect ak_accept ak_link_irq devnode_call link_irq_to_fifo
  device_calls_lem name irq other =
      let old = (s.user (me s) sp).dop.fifos in
      (
        rw (ak_register, trap-device)
            (let (e, d) = devnode_register b.devnode (devices_of s) name (me s) in
              (leaf
                (λ o. record o { operation = DevnodeOperation.devnode_op_register; devname = name })
                (λ o. record o { err = e }) (with_devices s d) (λ o. o.err) (λ x t. (x, t)) quiet)),
        rw (ak_connect, trap-device)
            (bind_chain_four
              (devnode_connect b.stale0 b.stale1 b.frame (devices_of s) name old (me s)) _ _ _ _
              (λ (e, pipes, d).
                (leaf
                  (λ o. record o {
                    operation = DevnodeOperation.devnode_op_connect;
                    devname = name;
                  })
                  (λ o. record o { fifos = pipes; err = e }) (with_devices s d)
                  (λ o. (o.err, o.fifos)) (λ (x, y) t. (x, y, t)) quiet))),
        rw (ak_accept, trap-device)
            (bind_chain_four (devnode_accept b.stale0 (devices_of s) name old.0 (me s)) _ _ _ _
              (λ (e, id, d).
                (leaf
                  (λ o. record o { operation = DevnodeOperation.devnode_op_accept; devname = name })
                  (λ o. record o { fifos = (id, o.fifos.1); err = e }) (with_devices s d)
                  (λ o. (o.err, o.fifos.0)) (λ (x, y) t. (x, y, t)) quiet))),
        rw (ak_link_irq, trap-device)
            (bind_chain_four
              (make_pipe b.stale0 (kernel_of s) old.0 (me s ∷ 0 ∷ []) (kernel_pid ∷ 0 ∷ [])
                page_size)
              _ _ _ _
              (λ (id, k).
                (leaf
                  (λ o. record o {
                    operation = DevnodeOperation.devnode_op_link_irq;
                    irq = irq % 2 ^ 8;
                  })
                  (λ o. record o { fifos = (id, o.fifos.1) })
                  (record s {
                    machine = link_irq_to_fifo (with_kernel s k).machine (irq % 2 ^ 8) id;
                  })
                  (λ o. o.fifos.0) (λ x t. (Devices.Error.success, x, t))
                  (rw (==_ne 0x80 (irq % 2 ^ 8) (λ e. other (sym e))) quiet)))),
      )
