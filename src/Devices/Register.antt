-- ===== src/Devices/Register.antt =====
-- Registration makes a name known once, and what connecting to an unknown name answers.
use akaris_old.Base.{ℕ, ◌≡◌, refl, none, some, List, ◌∷◌, length, returns}
use akaris_old.Kfifo.{Stale}
use akaris_old.Devices.{
  Error, Devnode, Devices, Frame, find_device, new_devnode, devnode_register, devnode_connect,
  devnode_accept,
}
use akaris_old.Devices.Names.{EndsAt, new_devnode-same_name}

-- The two results of devnode_register once it has the lock.
register-known :
    (old : Devnode) (d : Devices) (name : ℕ → ℕ) (mypid i : ℕ)
    → d.devlock ≡ 0
    → find_device name d.devlist ≡ some i
    → devnode_register old d name mypid ≡ (Error.exist, d)
unfolding devnode_register
register-known old d name mypid i free known = rw (devnode_register, free, known) refl

register-unknown :
    (old : Devnode) (d : Devices) (name : ℕ → ℕ) (mypid : ℕ)
    → d.devlock ≡ 0
    → find_device name d.devlist ≡ none
    → devnode_register old d name mypid
      ≡ (Error.success, record d { devlist = new_devnode old name mypid ∷ d.devlist; devlock = 0 })
unfolding devnode_register
register-unknown old d name mypid free unknown = rw (devnode_register, free, unknown) refl

find_device-new :
    (old : Devnode) (name : ℕ → ℕ) (mypid i : ℕ) (ds : List Devnode)
    → length old.devname ≡ 64
    → EndsAt name i
    → find_device name (new_devnode old name mypid ∷ ds) ≡ some 0
unfolding find_device
find_device-new old name mypid i ds h ends = rw (new_devnode-same_name old name mypid i h ends) refl

-- Where the lock is free and no device has the name, which ends within 64 bytes, devnode_register
-- returns success, the name leads to the caller's pid at once, and the lock is free; the devices
-- from before stay behind the new one. Registering the name once more is refused with EXIST and
-- changes nothing.
pub devnode_register_lem :
    (old : Devnode) (d : Devices) (name : ℕ → ℕ) (mypid i : ℕ)
    → length old.devname ≡ 64
    → EndsAt name i
    → d.devlock ≡ 0
    → find_device name d.devlist ≡ none
    → let (e, d') = devnode_register old d name mypid in
      (e ≡ Error.success)
      × (find_device name d'.devlist ≡ some 0)
      × ((node : Devnode) × (d'.devlist ≡ node ∷ d.devlist) × (node.pid ≡ mypid))
      × (d'.devlock ≡ 0)
      × ((old' : Devnode) (pid' : ℕ) → devnode_register old' d' name pid' ≡ (Error.exist, d'))
unfolding new_devnode
devnode_register_lem old d name mypid i h ends free unknown =
    let found = find_device-new old name mypid i d.devlist h ends in
    rw (register-unknown old d name mypid free unknown) (
      refl,
      found,
      (new_devnode old name mypid, refl, refl),
      refl,
      λ old' pid'.
          register-known old'
            (record d { devlist = new_devnode old name mypid ∷ d.devlist; devlock = 0 }) name pid' 0
            refl found,
    )

-- Where the lock is free and no device has the name, both ids and the kernel stay as they were:
-- devnode_connect answers LOCKED, where devnode_accept answers EXIST.
devnode_connect_unknown :
    (stale0 stale1 : Stale) (frame : Frame) (d : Devices) (name : ℕ → ℕ) (rpipes : ℕ × ℕ)
    (fifo mypid : ℕ)
    → d.devlock ≡ 0
    → find_device name d.devlist ≡ none
    → (devnode_connect stale0 stale1 frame d name rpipes mypid ≡ returns (Error.locked, rpipes, d))
      × (devnode_accept stale0 d name fifo mypid ≡ returns (Error.exist, fifo, d))
unfolding devnode_connect devnode_accept
devnode_connect_unknown stale0 stale1 frame d name rpipes fifo mypid free unknown =
    (rw (devnode_connect, free, unknown) refl, rw (devnode_accept, unknown) refl)
