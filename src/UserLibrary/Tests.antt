-- ===== src/UserLibrary/Tests.antt =====
-- Calls of processes 1 and 2 of the small kernel.
use akaris_old.Base.{
  ℕ, ◌+◌, ◌%◌, ◌≡◌, refl, none, some, [], ◌∷◌, arith, get_or, returns, ◌>>=◌, page_size,
}
use akaris_old.State.{Kernel, waiting, find_context, find_kqueue, get_process, fifo, fifo_readable}
use akaris_old.Scheduler.{schedule}
use akaris_old.Kqueue.{Change, success}
use akaris_old.Kqueue
use akaris_old.Kqueue.Block.{Blocks, sleeping}
use akaris_old.Kfifo.{Stale, kernel_pid, write_fifo, read_fifo}
use akaris_old.Kfifo
use akaris_old.Kfifo.Acl.{close_fifo}
use akaris_old.Gates.{outportb, link_irq_to_fifo}
use akaris_old.Devices.{
  Devnode, Frame, devnode_register, devnode_connect, devnode_accept, make_pipe,
}
use akaris_old.Devices
use akaris_old.Syscalls.{
  FifoOperation, DevnodeOperation, KqueueOperation, MmapOperation, Structs, System, Before,
  kernel_of, with_kernel, devices_of,
}
use akaris_old.UserLibrary.{
  acknowledged, me, fill_dop, ak_write, ak_read, ak_close, ak_inb, ak_outb, ak_register, ak_connect,
  ak_accept, ak_link_irq,
}
use akaris_old.UserLibrary.Queues.{ak_kqueue_block}
use akaris_old.UserLibrary.Calls.{answered, fifo_calls_lem}
use akaris_old.UserLibrary.DeviceCalls.{device_answer, device_calls_lem}
use akaris_old.UserLibrary.Ports.{ports_lem}
use akaris_old.UserLibrary.Blocking.{at_interrupt, ak_kqueue_block-strays}
use akaris_old.Examples.{
  regs, block, stack_region, receiver, sender, event, queue, pipe, kernel_with,
}

abbrev stale : Stale
stale = record { acl_pid = 0; acl_next = []; fifo_next = []; page_bytes = [] }

abbrev before : Before
before = record {
  mapping = λ virtual_address pages. returns [];
  context = sender;
  free_region = block 0;
  stack_region = stack_region;
  devnode = record { pid = 0; devname = []; accept_fifo_id = 0 };
  stale0 = stale;
  stale1 = stale;
  frame = record { pipe0 = 0; pipe1 = 0; receivers = []; senders = [] };
  fifos = (0, 0);
  inportb = λ port. port + 7;
  halts = [];
  backing_at = λ phys. 9;
}

abbrev blank : Structs
blank = record {
  fop = record {
    fifo_id = 0;
    buf = [];
    length = 0;
    operation = FifoOperation.fifo_op_block;
    err = Kfifo.Error.perm;
  };
  dop = record {
    operation = DevnodeOperation.devnode_op_register;
    devname = λ a. 0;
    irq = 0;
    fifos = (0, 0);
    err = Devices.Error.perm;
  };
  kop = record {
    operation = KqueueOperation.kqueue_op_create;
    kqueue_id = 0;
    err = Kqueue.Error.perm;
    newevent = record { filter = fifo; flag = fifo_readable; ident = 0 };
    changedevents = [];
    max_events = 0;
  };
  mop = record { operation = MmapOperation.mmap_op_anon; virt = 0; phys = 0; size = 0 };
}

abbrev system : (current : ℕ) → System
system current = record {
  machine = record {
    kernel = record (kernel_with (pipe 0 0)) { current = current };
    int_handler = λ a. none;
    int_to_pid = λ a. 0;
    ports = [];
    idt = [];
  };
  devlist = [];
  devlock = 0;
  user = λ pid addr. blank;
  printed = [];
}

current-sender : get_process (kernel_of (system 2)) 2 ≡ some sender
unfolding find_context
current-sender = refl

ports_lem_example :
    (ak_outb before (system 2) regs 0x60 0xED
      ≡ returns (
          acknowledged
            (record (system 2) { machine = outportb (system 2).machine 0x60 0xED })
            0x80))
    × (ak_inb before (system 2) regs 0x60
        ≡ returns ((0x60 + 7) % 256, acknowledged (system 2) 0x80))
ports_lem_example =
    ports_lem before (system 2) regs sender 0x60 0xED current-sender refl (omega arith)
      (omega arith)

-- Process 1 waits with the scheduler's next process 2.
abbrev switched : Kernel
switched = record (kernel_with (pipe 0 0)) {
  current = 2;
  contexts =
      record receiver {
        registers = at_interrupt regs 0xBFFF_FF00;
        kqueue_block = 1;
        status = waiting;
      }
      ∷ sender
      ∷ [];
}

switch_runs :
    schedule [] (sleeping (kernel_of (system 1)) 1) (at_interrupt regs 0xBFFF_FF00)
    ≡ returns (regs, switched)
unfolding schedule sleeping
switch_runs = refl

waits : Blocks (kernel_of (system 1)) 1 (0 ∷ [])
unfolding find_context find_kqueue
waits = record {
  curproc = receiver;
  current = refl;
  curkq = queue;
  found = refl;
  owner = refl;
  chain = (event, refl, refl, refl);
  room = omega arith;
}

ak_kqueue_block-strays_example :
    (s' : System) × (ak_kqueue_block before (system 1) regs 0xBFFF_FF00 1
      ≡ returns (Kqueue.Error.perm, regs, s'))
    × ((s'.user 2 0xBFFF_FF00).kop ≡ record blank.kop { err = success })
    × (kernel_of s' ≡ switched)
ak_kqueue_block-strays_example =
    ak_kqueue_block-strays before (system 1) regs 0xBFFF_FF00 1 (0 ∷ []) waits refl refl regs
      switched switch_runs (λ e. absurd (omega (arith, e))) refl

fifo_calls_lem_example :
    (ak_write before (system 2) regs 0xBFFF_FF00 1 (65 ∷ []) 1 ≡ (
      write_fifo (kernel_of (system 2)) 1 (me (system 2)) (65 ∷ []) 1 >>= λ (e, k). returns (
        e,
        answered before (system 2) regs 0xBFFF_FF00 sender current-sender refl e k (λ f. record {
          fifo_id = 1;
          buf = 65 ∷ [];
          length = 1;
          operation = FifoOperation.fifo_op_write;
          err = e;
        }),
      )))
    × (ak_read before (system 2) regs 0xBFFF_FF00 1 (65 ∷ []) 1 ≡ (
        read_fifo (kernel_of (system 2)) 1 (me (system 2)) (65 ∷ []) 1 >>= λ (e, buf', k). returns (
          e,
          buf',
          answered before (system 2) regs 0xBFFF_FF00 sender current-sender refl e k (λ f. record {
            fifo_id = 1;
            buf = buf';
            length = 1;
            operation = FifoOperation.fifo_op_read;
            err = e;
          }),
        )))
    × (ak_close before (system 2) regs 0xBFFF_FF00 1 ≡ (
        close_fifo (kernel_of (system 2)) 1 (me (system 2)) >>= λ (e, k). returns (
          e,
          answered before
              (system 2)
              regs
              0xBFFF_FF00
              sender
              current-sender
              refl
              e
              k
              (λ f. record f { fifo_id = 1; operation = FifoOperation.fifo_op_close; err = e }),
        )))
fifo_calls_lem_example =
    fifo_calls_lem before (system 2) regs 0xBFFF_FF00 sender current-sender refl 1 (65 ∷ []) 1

abbrev kbd : ℕ → ℕ
kbd a = get_or (107 ∷ 98 ∷ 100 ∷ 0 ∷ []) a 0

device_calls_lem_example :
    (let old = ((system 2).user (me (system 2)) 0xBFFF_FF00).dop.fifos in
      (ak_register before (system 2) regs 0xBFFF_FF00 kbd ≡ (
        let (e, d) = devnode_register before.devnode (devices_of (system 2)) kbd (me (system 2)) in
        returns (
          e,
          device_answer before
              (system 2)
              regs
              0xBFFF_FF00
              sender
              current-sender
              refl
              (λ o. record o {
                operation = DevnodeOperation.devnode_op_register;
                devname = kbd;
                err = e;
              })
              d,
        )))
      × (ak_connect before (system 2) regs 0xBFFF_FF00 kbd ≡ (
          devnode_connect before.stale0 before.stale1 before.frame
            (devices_of (system 2))
            kbd
            old
            (me (system 2))
          >>= λ (e, pipes, d). returns (
            e,
            pipes,
            device_answer before
                (system 2)
                regs
                0xBFFF_FF00
                sender
                current-sender
                refl
                (λ o. record o {
                  operation = DevnodeOperation.devnode_op_connect;
                  devname = kbd;
                  fifos = pipes;
                  err = e;
                })
                d,
          )))
      × (ak_accept before (system 2) regs 0xBFFF_FF00 kbd ≡ (
          devnode_accept before.stale0 (devices_of (system 2)) kbd old.0 (me (system 2))
          >>= λ (e, id, d). returns (
            e,
            id,
            device_answer before
                (system 2)
                regs
                0xBFFF_FF00
                sender
                current-sender
                refl
                (λ o. record o {
                  operation = DevnodeOperation.devnode_op_accept;
                  devname = kbd;
                  fifos = (id, o.fifos.1);
                  err = e;
                })
                d,
          )))
      × (ak_link_irq before (system 2) regs 0xBFFF_FF00 1 ≡ (
          make_pipe before.stale0
            (kernel_of (system 2))
            old.0
            (me (system 2) ∷ 0 ∷ [])
            (kernel_pid ∷ 0 ∷ [])
            page_size
          >>= λ (id, k). returns (
            Devices.Error.success,
            id,
            acknowledged
                (record (fill_dop (system 2) 0xBFFF_FF00 (λ o. record o {
                  operation = DevnodeOperation.devnode_op_link_irq;
                  irq = 1;
                  fifos = (id, o.fifos.1);
                })) { machine = link_irq_to_fifo (with_kernel (system 2) k).machine 1 id })
                0x80,
          ))))
device_calls_lem_example =
    device_calls_lem before (system 2) regs 0xBFFF_FF00 sender current-sender refl kbd 1
      (omega arith)
