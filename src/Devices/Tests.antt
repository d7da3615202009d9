-- ===== src/Devices/Tests.antt =====
-- The keyboard driver: process 1 registers as "kbd".
use akaris_old.Base.{ℕ, zero, suc, ◌<◌, ◌≡◌, ◌≢◌, refl, some, [], ◌∷◌, arith, get_or, replicate}
use akaris_old.Kfifo.{Stale}
use akaris_old.Devices.{Error, Devnode, Devices, Frame, find_device, devnode_register}
use akaris_old.Devices.Names.{EndsAt}
use akaris_old.Devices.Register.{devnode_register_lem}
use akaris_old.Examples.{pipe, kernel_with}

abbrev kbd : ℕ → ℕ
kbd a = get_or (107 ∷ 98 ∷ 100 ∷ 0 ∷ []) a 0

kbd-EndsAt : EndsAt kbd 3
kbd-EndsAt = record { inside = omega arith; chars = letters; terminator = refl }
  where
    letters : (j : ℕ) → j < 3 → kbd j ≢ 0
    letters zero l = omega arith
    letters (suc zero) l = omega arith
    letters (suc (suc zero)) l = omega arith
    letters (suc (suc (suc j))) l = absurd (omega arith)

abbrev blank_node : Devnode
blank_node = record { pid = 77; devname = replicate 64 7; accept_fifo_id = 9 }

abbrev no_devices : Devices
no_devices = record { kernel = kernel_with (pipe 0 0); devlist = []; devlock = 0 }

abbrev stale : Stale
stale = record { acl_pid = 0; acl_next = []; fifo_next = []; page_bytes = [] }

abbrev frame : Frame
frame = record { pipe0 = 5; pipe1 = 6; receivers = 0 ∷ []; senders = 0 ∷ [] }

devnode_register_lem_example :
    let (e, d') = devnode_register blank_node no_devices kbd 1 in
    (e ≡ Error.success)
    × (find_device kbd d'.devlist ≡ some 0)
    × ((node : Devnode) × (d'.devlist ≡ node ∷ []) × (node.pid ≡ 1))
    × (d'.devlock ≡ 0)
    × ((old' : Devnode) (pid' : ℕ) → devnode_register old' d' kbd pid' ≡ (Error.exist, d'))
unfolding find_device
devnode_register_lem_example =
    devnode_register_lem blank_node no_devices kbd 1 3 refl kbd-EndsAt refl refl
