-- ===== src/Kfifo.antt =====
-- The kernel FIFOs of sys/common/kfifo.c. Each function takes the kernel and returns the code that
-- the source returns with the kernel after it. Slab objects are always granted; `Stale` is what
-- the memory that they and the new pages take held before, for the fields that the source leaves
-- as they are.
pub mod Acl
pub mod Admission
pub mod Hook
pub mod Lookup
pub mod Read
mod Tests
pub mod Write
use akaris_old.Base.{
  ℕ, zero, suc, ◌+◌, ◌-◌, ◌*◌, ◌/◌, Bool, true, false, not, ◌&&◌, ◌||◌, Option, none, some, List,
  [], ◌∷◌, ◌++◌, ltb, leb, ◌==◌, if◌then◌else◌, Outcome, returns, fault, hang, ◌>>=◌, length,
  get_elem?, set, contains, add32, sub32, page_size,
}
use akaris_old.State.{
  Region, RegionType, ipc, Context, Kevent, Flag, fifo_readable, fifo_writable, proc_quit, Fifo,
  Kernel, test_and_set, find_context, update_context, get_process, find_fifo, update_fifo,
}
use akaris_old.Space.{create_region, clone_region, delete_region, find_ipc}
use akaris_old.Ring.{cur_free, cur_size, advance, write_bytes, read_bytes}
use akaris_old.Trigger.{is_readable_flag, trigger_events, untrigger_events}

-- kfifo_error
pub data Error : Type 0 where
  success locked mem perm full buflen exist : Error

-- kfifo_kernel_pid
abbrev pub kernel_pid : ℕ
kernel_pid = 0xFFFF_FFFF

pub record Stale : Type 0 where
  pub acl_pid : ℕ
  pub acl_next : List ℕ
  pub fifo_next : List Fifo
  pub page_bytes : List ℕ

-- The list built from a zero-terminated array of pids. The last entry's `next` is left as it was,
-- and so is the pid of the one entry of an empty array.
abbrev pub acl_list : Stale → List ℕ → List ℕ
acl_list stale [] = stale.acl_pid ∷ stale.acl_next
acl_list stale (p ∷ ps) = p ∷ (ps ++ stale.acl_next)

-- A write through the pointer to the FIFO.
abbrev pub put : Kernel → ℕ → (Fifo → Fifo) → Kernel
put k i f = record k { fifos = update_fifo i f k.fifos }

abbrev pub unlock : Kernel → ℕ → Kernel
unlock k i = put k i (λ f. record f { lock = 0 })

abbrev pub with_mutex : Kernel → ℕ → Kernel
with_mutex k m = record k { fifo_list_mutex = m }

abbrev pub store_bytes : Kernel → ℕ → List ℕ → Kernel
store_bytes k b bytes = record k { memory = λ c. if c == b then bytes else k.memory c }

abbrev pub put_space : Kernel → ℕ → List Region → Kernel
put_space k p space = record k {
  contexts = update_context p (λ c. record c { space = space }) k.contexts;
}

-- `((size + PAGE_SIZE - 1) / PAGE_SIZE) * PAGE_SIZE`
abbrev pub round_size : ℕ → ℕ
round_size size = add32 size (page_size - 1) / page_size * page_size

-- The pages of the FIFO's region: `(size + PAGE_SIZE) / PAGE_SIZE`.
abbrev pub region_pages : ℕ → ℕ
region_pages size = add32 size page_size / page_size

abbrev new_fifo : Kernel → Stale → (recv send : List ℕ) → ℕ → Fifo
new_fifo k stale recv send size = record {
  recvlist = acl_list stale recv;
  sendlist = acl_list stale send;
  size = round_size size;
  start = 0;
  end = 0;
  lock = 0;
  fifo_id = k.cur_fifo_id;
  ke_list = none;
}

-- What follows the new FIFO in the list: its `next` is written only if there was one before.
abbrev behind : Stale → List Fifo → List Fifo
behind stale [] = stale.fifo_next
behind stale (f ∷ fs) = f ∷ fs

-- kfifo_create_fifo, with the id that it stores.
unfoldable pub create_fifo :
    Stale → Kernel → (recv send : List ℕ) → (size : ℕ) → Outcome (Error × ℕ × Kernel)
unfolding find_context update_context create_region
create_fifo stale k recv send size =
    let (old, mutex) = test_and_set 1 k.fifo_list_mutex in
    if not (old == 0) then returns (locked, 0, with_mutex k mutex) else elim recv [
      | [] ↦ fault
      | receiver ∷ others ↦ elim (get_process k receiver) [
        | none ↦ fault
        | some c ↦
            elim (create_region c.space (region_pages size) ipc 2 k.cur_fifo_id k.next_backing) [
              | none ↦ fault
              | some space ↦ returns (
                success,
                k.cur_fifo_id,
                record (put_space (store_bytes k k.next_backing stale.page_bytes) receiver space) {
                  cur_fifo_id = add32 k.cur_fifo_id 1;
                  next_backing = k.next_backing + 1;
                  fifos = new_fifo k stale (receiver ∷ others) send size ∷ behind stale k.fifos;
                  fifo_list_mutex = 0;
                },
              )
            ]
      ]
    ]

-- Whose address space the clone goes to.
abbrev pub writer_pid : Kernel → ℕ → ℕ
writer_pid k mypid = if mypid == kernel_pid then k.current else mypid

-- The copy of kfifo_write_fifo through a clone of the receiver's region in the address space of
-- the writer, which is deleted afterwards. With no region for the FIFO the kernel stops.
unfoldable pub copy_in : Kernel → Fifo → (mypid : ℕ) → (buf : List ℕ) → (len : ℕ) → Outcome Kernel
unfolding find_context update_context find_ipc clone_region delete_region write_bytes
copy_in k fifo mypid buf len = elim fifo.recvlist [
  | [] ↦ fault
  | receiver ∷ _ ↦ elim (get_process k receiver) [
    | none ↦ fault
    | some rc ↦ elim (find_ipc fifo.fifo_id rc.space) [
      | none ↦ hang
      | some i ↦ elim (get_elem? rc.space i) [
        | none ↦ hang
        | some r_mr ↦
            let writer = writer_pid k mypid in
            elim (get_process k writer) [
              | none ↦ fault
              | some wc ↦
                  (clone_region wc.space r_mr >>= λ cloned. delete_region cloned 0) >>= λ space.
                  returns (
                    store_bytes (put_space k writer space) r_mr.backing
                      (write_bytes (k.memory r_mr.backing) fifo.size fifo.start buf len))
            ]
      ]
    ]
  ]
]

-- kfifo_write_fifo once the FIFO is found and its lock is held.
unfoldable pub write_locked :
    Kernel → Fifo → (mypid : ℕ) → (buf : List ℕ) → (len : ℕ) → Outcome (Error × Kernel)
unfolding copy_in trigger_events update_fifo advance cur_free
write_locked k fifo mypid buf len =
    if ltb (sub32 fifo.size 1) len
    then returns (buflen, unlock k fifo.fifo_id)
    else if ltb (cur_free fifo.size fifo.start fifo.end) len
    then returns (full, unlock k fifo.fifo_id)
    else if not (contains fifo.sendlist mypid)
    then returns (perm, unlock k fifo.fifo_id)
    else (copy_in k fifo mypid buf len >>= λ k'.
        trigger_events (suc (length k.events))
          (put k' fifo.fifo_id
            (λ f. record f { start = advance fifo.size fifo.start len; lock = 0 }))
          fifo.ke_list
        >>= λ k''. returns (success, k''))

-- kfifo_write_fifo
unfoldable pub write_fifo :
    Kernel → (fifo_id mypid : ℕ) → (buf : List ℕ) → (len : ℕ) → Outcome (Error × Kernel)
unfolding find_fifo update_fifo write_locked
write_fifo k fifo_id mypid buf len =
    let (old, mutex) = test_and_set 1 k.fifo_list_mutex in
    if not (old == 0)
    then returns (locked, with_mutex k mutex)
    else elim (find_fifo fifo_id k.fifos) [
      | none ↦ returns (exist, with_mutex k 0)
      | some fifo ↦
          let (held, lock) = test_and_set 1 fifo.lock in
          let k' = put (with_mutex k 0) fifo_id (λ f. record f { lock = lock }) in
          if not (held == 0)
          then returns (locked, k')
          else write_locked k' (record fifo { lock = lock }) mypid buf len
    ]

-- kfifo_read_fifo once the FIFO is found and its lock is held, with the reader's buffer after it.
unfoldable pub read_locked :
    Kernel → Fifo → (mypid : ℕ) → (buf : List ℕ) → (len : ℕ) → Outcome (Error × List ℕ × Kernel)
unfolding find_context find_ipc untrigger_events update_fifo advance cur_size read_bytes
read_locked k fifo mypid buf len =
    if not (contains fifo.recvlist mypid)
    then returns (perm, buf, unlock k fifo.fifo_id)
    else if ltb (cur_size fifo.size fifo.start fifo.end) len
    then returns (buflen, buf, unlock k fifo.fifo_id)
    else elim (get_process k mypid) [
      | none ↦ fault
      | some c ↦ elim (find_ipc fifo.fifo_id c.space) [
        | none ↦ hang
        | some i ↦ elim (get_elem? c.space i) [
          | none ↦ hang
          | some mr ↦
              let end' = advance fifo.size fifo.end len in
              untrigger_events (suc (length k.events))
                (put k fifo.fifo_id (λ f. record f { end = end' })) (fifo.start == end')
                fifo.ke_list
              >>= λ k'. returns (
                success,
                read_bytes (k.memory mr.backing) fifo.size fifo.end buf len,
                unlock k' fifo.fifo_id,
              )
        ]
      ]
    ]

-- kfifo_read_fifo
unfoldable pub read_fifo :
    Kernel → (fifo_id mypid : ℕ) → (buf : List ℕ) → (len : ℕ) → Outcome (Error × List ℕ × Kernel)
unfolding find_fifo update_fifo read_locked
read_fifo k fifo_id mypid buf len =
    let (old, mutex) = test_and_set 1 k.fifo_list_mutex in
    if not (old == 0)
    then returns (locked, buf, with_mutex k mutex)
    else elim (find_fifo fifo_id k.fifos) [
      | none ↦ returns (exist, buf, with_mutex k 0)
      | some fifo ↦
          let (held, lock) = test_and_set 1 fifo.lock in
          let k' = put (with_mutex k 0) fifo_id (λ f. record f { lock = lock }) in
          if not (held == 0)
          then returns (locked, buf, k')
          else read_locked k' (record fifo { lock = lock }) mypid buf len
    ]
