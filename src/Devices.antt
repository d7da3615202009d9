-- ===== src/Devices.antt =====
-- The devices of sys/common/device_interface.c: a name of at most 64 bytes leads to the process that
-- serves it. A `devname` argument is the function that gives the bytes behind the pointer. What slab
-- objects, new pages and the stack held before is an argument where the source reads it.
pub mod Names
pub mod Register
mod Tests
use akaris_old.Base.{
  ℕ, zero, suc, ◌+◌, ◌-◌, ◌/◌, ◌%◌, ◌^◌, Bool, true, false, not, Option, none, some, List, [], ◌∷◌,
  ◌++◌, ltb, ◌==◌, if◌then◌else◌, Outcome, returns, fault, hang, ◌>>=◌, get_elem?, get_or, set,
  tabulate, page_size, until_zero,
}
use akaris_old.State.{Kernel, test_and_set}
use akaris_old.Ring.{memcpy}
use akaris_old.Console.{Sign, null, strncmp, strlen}
use akaris_old.Kfifo.{Stale, kernel_pid, create_fifo, write_fifo}
use akaris_old.Kfifo

-- dev_error
pub data Error : Type 0 where
  success perm locked exist : Error

-- devnode_t; `devname` has 64 bytes.
pub record Devnode : Type 0 where
  pub pid : ℕ
  pub devname : List ℕ
  pub accept_fifo_id : ℕ

-- devlist and devlock, with the kernel.
pub record Devices : Type 0 where
  pub kernel : Kernel
  pub devlist : List Devnode
  pub devlock : ℕ

-- The bytes of a node from its name on, up to the first of accept_fifo_id, which strncmp may read.
abbrev pub name_bytes : Devnode → List ℕ
name_bytes node = node.devname ++ (node.accept_fifo_id % 256) ∷ []

-- A memory with the node's name at 0 and the other string at 128.
abbrev pub side_by_side : Devnode → (ℕ → ℕ) → ℕ → ℕ
side_by_side node name a = if ltb a 128 then get_or (name_bytes node) a 0 else name (a - 128)

-- `strncmp (temp->devname, devname, 64) == 0`
unfoldable pub same_name : Devnode → (ℕ → ℕ) → Bool
unfolding strncmp
same_name node name = elim (strncmp (side_by_side node name) 0 128 64) [ null ↦ true | _ ↦ false ]

-- The walk to the first device of that name: its place in the list.
unfoldable pub find_device : (ℕ → ℕ) → List Devnode → Option ℕ
unfolding same_name
find_device name [] = none
find_device name (d ∷ ds) =
    if same_name d name
    then some 0
    else elim (find_device name ds) [ none ↦ none | some i ↦ some (suc i) ]

-- The node that devnode_register fills in.
unfoldable pub new_devnode : (old : Devnode) → (ℕ → ℕ) → (mypid : ℕ) → Devnode
unfolding memcpy strlen
new_devnode old name mypid = record old {
  pid = mypid;
  devname = memcpy old.devname 0 (tabulate 64 name) 0 (strlen name 0 64);
}

-- devnode_register
unfoldable pub devnode_register :
    (old : Devnode) → Devices → (ℕ → ℕ) → (mypid : ℕ) → Error × Devices
unfolding find_device new_devnode
devnode_register old d name mypid =
    let (held, lock) = test_and_set 1 d.devlock in
    if not (held == 0)
    then (Error.locked, record d { devlock = lock })
    else elim (find_device name d.devlist) [
      | some i ↦ (Error.exist, record d { devlock = 0 })
      | none ↦ (
        Error.success,
        record d { devlist = new_devnode old name mypid ∷ d.devlist; devlock = 0 },
      )
    ]

abbrev stored : Kfifo.Error → (old new : ℕ) → ℕ
stored Kfifo.Error.success old new = new
stored _ old new = old

-- A call of kfifo_create_fifo whose code is ignored: what stands in the id's place after it.
unfoldable pub make_pipe :
    Stale → Kernel → (old : ℕ) → (recv send : List ℕ) → (size : ℕ) → Outcome (ℕ × Kernel)
unfolding create_fifo
make_pipe stale k old recv send size =
    create_fifo stale k (until_zero recv) (until_zero send) size >>= λ (e, id, k').
    returns (stored e old id, k')

-- The four bytes of a uint32.
abbrev pub word_bytes : ℕ → List ℕ
word_bytes w = (w % 256) ∷ (w / 2 ^ 8) % 256 ∷ (w / 2 ^ 16) % 256 ∷ (w / 2 ^ 24) % 256 ∷ []

-- What the stack holds in devnode_connect before it is written: `pipes`, and behind the first
-- elements of `receivers` and `senders`.
pub record Frame : Type 0 where
  pub pipe0 : ℕ
  pub pipe1 : ℕ
  pub receivers : List ℕ
  pub senders : List ℕ

-- devnode_connect, with the two ids for the caller. The codes of the FIFO operations are ignored.
unfoldable pub devnode_connect :
    (stale0 stale1 : Stale)
    → Frame
    → Devices
    → (ℕ → ℕ)
    → (rpipes : ℕ × ℕ) → (mypid : ℕ) → Outcome (Error × (ℕ × ℕ) × Devices)
unfolding find_device make_pipe write_fifo
devnode_connect stale0 stale1 frame d name rpipes mypid =
    let (held, lock) = test_and_set 1 d.devlock in
    if not (held == 0)
    then returns (Error.locked, rpipes, record d { devlock = lock })
    else elim (find_device name d.devlist) [
      | none ↦ returns (Error.locked, rpipes, record d { devlock = 0 })
      | some i ↦ elim (get_elem? d.devlist i) [
        | none ↦ fault
        | some node ↦
            let receivers = node.pid ∷ frame.receivers in
            let senders = mypid ∷ frame.senders in
            make_pipe stale0 d.kernel frame.pipe0 receivers senders page_size >>= λ (p0, k0).
            make_pipe stale1 k0 frame.pipe1 senders receivers page_size >>= λ (p1, k1).
            write_fifo k1 node.accept_fifo_id kernel_pid (word_bytes p0 ++ word_bytes p1) 8
            >>= λ (e, k2). returns (Error.success, (p0, p1), record d { kernel = k2; devlock = 0 })
      ]
    ]

-- devnode_accept, with the id for the caller. It does not take the lock.
unfoldable pub devnode_accept :
    Stale → Devices → (ℕ → ℕ) → (fifo : ℕ) → (mypid : ℕ) → Outcome (Error × ℕ × Devices)
unfolding find_device make_pipe
devnode_accept stale d name fifo mypid = elim (find_device name d.devlist) [
  | none ↦ returns (Error.exist, fifo, d)
  | some i ↦ elim (get_elem? d.devlist i) [
    | none ↦ fault
    | some node ↦
        make_pipe stale d.kernel fifo (mypid ∷ []) (kernel_pid ∷ []) page_size >>= λ (id, k).
        returns (
          Error.success,
          id,
          record d { kernel = k; devlist = set d.devlist i (record node { accept_fifo_id = id }) },
        )
  ]
]
