-- ===== src/Ring.antt =====
-- The byte ring of a kernel FIFO: the index arithmetic and the copies of kfifo_write_fifo and
-- kfifo_read_fifo (sys/common/kfifo.c), and memcpy (sys/i386/bootvideo.c).
-- `start` is where the writer goes on, `end` where the reader does; all three are uint32.
pub mod Copy
pub mod Refine
use akaris_old.Base.{
  ℕ, zero, suc, ◌+◌, Bool, true, false, List, ltb, leb, ◌==◌, if◌then◌else◌, get_or, set, add32,
  sub32, is_neg,
}

-- memcpy: `length` bytes of `src` from index `s` on go to `dst` from index `d` on. The two arrays
-- do not overlap.
unfoldable pub memcpy : List ℕ → ℕ → List ℕ → ℕ → ℕ → List ℕ
memcpy dst d src s zero = dst
memcpy dst d src s (suc length) = memcpy (set dst d (get_or src s 0)) (d + 1) src (s + 1) length

-- `curfree` of kfifo_write_fifo, an int read back as unsigned.
unfoldable pub cur_free : (size start end : ℕ) → ℕ
cur_free size start end =
    let gap = sub32 start end in
    let back = if is_neg gap then add32 gap size else gap in sub32 (sub32 size back) 1

-- `cursize` of kfifo_read_fifo, an int read back as unsigned.
unfoldable pub cur_size : (size start end : ℕ) → ℕ
cur_size size start end = let gap = sub32 end start in if is_neg gap then add32 gap size else gap

-- `fifo->start += len; if (fifo->start >= fifo->size) fifo->start -= fifo->size;`
unfoldable pub advance : (size at len : ℕ) → ℕ
advance size at len = let next = add32 at len in if leb size next then sub32 next size else next

-- The copies of kfifo_write_fifo into the ring's bytes.
unfoldable pub write_bytes : (ring : List ℕ) (size start : ℕ) (buf : List ℕ) (len : ℕ) → List ℕ
write_bytes ring size start buf len =
    let room = sub32 size start in
    if leb len room
    then memcpy ring start buf 0 len
    else (if ltb size (add32 start len)
        then memcpy (memcpy ring start buf 0 room) 0 buf room (sub32 len room)
        else memcpy ring start buf 0 len)

-- The copies of kfifo_read_fifo out of the ring's bytes.
unfoldable pub read_bytes : (ring : List ℕ) (size end : ℕ) (buf : List ℕ) (len : ℕ) → List ℕ
read_bytes ring size end buf len =
    let room = sub32 size end in
    if leb len room
    then memcpy buf 0 ring end len
    else memcpy (memcpy buf 0 ring end room) room ring 0 (sub32 len room)
