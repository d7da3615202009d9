-- ===== src/Ring/Refine.antt =====
-- The ring's operations against the queue of the bytes that it holds, oldest first.
use akaris_old.Base.{
  ℕ, ◌+◌, ◌-◌, ◌^◌, ◌≤◌, ◌<◌, ◌≡◌, List, ◌++◌, arith, ltb, leb, if◌then◌else◌, ◌==◌, length, get_or,
  tabulate, tabulate-append, sub32, ◌&&◌,
}
use akaris_old.Ring.{cur_free, cur_size, advance, write_bytes, read_bytes, memcpy}
use akaris_old.Ring.Copy.{length-memcpy, get_or-memcpy}

-- A position up to twice round the ring.
abbrev pub wrap : (size at : ℕ) → ℕ
wrap size at = if ltb at size then at else at - size

-- How many bytes wait between the reader and the writer.
abbrev pub used : (size start end : ℕ) → ℕ
used size start end = if leb end start then start - end else start + size - end

-- The bytes that wait, oldest first.
abbrev pub contents : (ring : List ℕ) (size start end : ℕ) → List ℕ
contents ring size start end =
    tabulate (used size start end) (λ i. get_or ring (wrap size (end + i)) 0)

-- The first `len` bytes of a buffer, at `from` on.
abbrev pub slice : (buf : List ℕ) (from len : ℕ) → List ℕ
slice buf from len = tabulate len (λ i. get_or buf (from + i) 0)

-- A ring whose indices lie in its bytes.
pub record IsRing (ring : List ℕ) (size start end : ℕ) : Type 0 where
  pub small : size < 2 ^ 31
  pub start_in : start < size
  pub end_in : end < size
  pub backed : size ≤ length ring

module _ {ring : List ℕ} {size start end : ℕ} (v : IsRing ring size start end) where
  pub cur_free_lem : cur_free size start end + used size start end + 1 ≡ size
  unfolding cur_free
  cur_free_lem = ground arith

  pub used-lt : used size start end < size
  used-lt = ground arith

  -- The reader's count is what is free, plus one, unless the ring is empty.
  pub cur_size_lem :
      cur_size size start end ≡ (if used size start end == 0 then 0 else size - used size start end)
  unfolding cur_size
  cur_size_lem = ground arith

pub advance_lem :
    (size at len : ℕ)
    → size < 2 ^ 31
    → at < size
    → len ≤ size
    → advance size at len ≡ wrap size (at + len)
unfolding advance
advance_lem size at len h a l = ground arith

pub length-write_bytes :
    (ring : List ℕ) (size start : ℕ) (buf : List ℕ) (len : ℕ)
    → length (write_bytes ring size start buf len) ≡ length ring
unfolding write_bytes
length-write_bytes ring size start buf len = ground (
  arith,
  length-memcpy len ring start buf 0,
  length-memcpy (sub32 size start) ring start buf 0,
  length-memcpy (sub32 len (sub32 size start)) (memcpy ring start buf 0 (sub32 size start)) 0 buf
      (sub32 size start),
)

-- Byte `j` of the ring after a write: one of the buffer's, or what it was.
pub get_or-write_bytes :
    (ring : List ℕ) (size start : ℕ) (buf : List ℕ) (len j : ℕ)
    → size < 2 ^ 31
    → start < size
    → size ≤ length ring
    → len < size
    → j < size
    → get_or (write_bytes ring size start buf len) j 0 ≡ (
        if leb start j && ltb j (start + len)
        then get_or buf (j - start) 0
        else (if ltb (j + size) (start + len)
            then get_or buf (j + size - start) 0
            else get_or ring j 0))
unfolding write_bytes
get_or-write_bytes ring size start buf len j h a b l i = ground (
  arith,
  length-memcpy (sub32 size start) ring start buf 0,
  get_or-memcpy len ring start buf 0 j,
  get_or-memcpy (sub32 size start) ring start buf 0 j,
  get_or-memcpy (sub32 len (sub32 size start)) (memcpy ring start buf 0 (sub32 size start)) 0 buf
      (sub32 size start) j,
)

-- A buffer after the reader's copies: the bytes from `end` on, and the rest of the buffer as it was.
pub get_or-read_bytes :
    (ring : List ℕ) (size end : ℕ) (buf : List ℕ) (len j : ℕ)
    → size < 2 ^ 31
    → end < size
    → len ≤ size
    → len ≤ length buf
    → get_or (read_bytes ring size end buf len) j 0
      ≡ (if ltb j len then get_or ring (wrap size (end + j)) 0 else get_or buf j 0)
unfolding read_bytes
get_or-read_bytes ring size end buf len j h a l b = ground (
  arith,
  length-memcpy (sub32 size end) buf 0 ring end,
  get_or-memcpy len buf 0 ring end j,
  get_or-memcpy (sub32 size end) buf 0 ring end j,
  get_or-memcpy (sub32 len (sub32 size end)) (memcpy buf 0 ring end (sub32 size end))
      (sub32 size end) ring 0 j,
)

-- The ring with `len` bytes written keeps its shape.
pub write-IsRing :
    {ring : List ℕ} {size start end : ℕ} (buf : List ℕ) (len : ℕ)
    → IsRing ring size start end
    → len < size
    → IsRing (write_bytes ring size start buf len) size (advance size start len) end
write-IsRing {ring} {size} {start} {end} buf len v l =
    ground (arith, length-write_bytes ring size start buf len, advance_lem size start len)

pub read-IsRing :
    {ring : List ℕ} {size start end : ℕ} (len : ℕ)
    → IsRing ring size start end
    → len ≤ size
    → IsRing ring size start (advance size end len)
read-IsRing {ring} {size} {start} {end} len v l = ground (arith, advance_lem size end len)

-- What a write that fits does to the bytes that wait: it puts the buffer's behind them.
pub write_refines :
    {ring : List ℕ} {size start end : ℕ} (buf : List ℕ) (len : ℕ)
    → IsRing ring size start end
    → len ≤ cur_free size start end
    → contents (write_bytes ring size start buf len) size (advance size start len) end
      ≡ contents ring size start end ++ slice buf 0 len
write_refines {ring} {size} {start} {end} buf len v l =
    tabulate-append (used size start end) len _ _ _ _
      (ground (arith, cur_free_lem v, advance_lem size start len))
      (λ i p.
        ground
          (arith, cur_free_lem v, get_or-write_bytes ring size start buf len (wrap size (end + i))))
      (λ i p. ground (
        arith,
        cur_free_lem v,
        get_or-write_bytes ring size start buf len (wrap size (end + (used size start end + i))),
      ))

-- A read of no more than what waits takes the oldest bytes, in order.
pub read_refines :
    {ring : List ℕ} {size start end : ℕ} (buf : List ℕ) (len : ℕ)
    → IsRing ring size start end
    → len ≤ used size start end
    → len ≤ length buf
    → contents ring size start end
      ≡ slice (read_bytes ring size end buf len) 0 len
        ++ contents ring size start (advance size end len)
read_refines {ring} {size} {start} {end} buf len v l b =
    tabulate-append len (used size start (advance size end len)) (used size start end) _ _ _
      (ground (arith, advance_lem size end len))
      (λ i p. ground (arith, get_or-read_bytes ring size end buf len i))
      (λ i p. ground (arith, advance_lem size end len))
