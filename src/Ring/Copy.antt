-- ===== src/Ring/Copy.antt =====
-- What memcpy leaves in its destination, byte by byte.
use akaris_old.Base.{
  ℕ, zero, suc, ◌+◌, ◌-◌, ◌≤◌, ◌≡◌, refl, ◌∙◌, ◌&&◌, List, arith, ltb, leb, if◌then◌else◌, length,
  get_or, set, length-set, get_or-set,
}
use akaris_old.Ring.{memcpy}

pub length-memcpy :
    (n : ℕ) (dst : List ℕ) (d : ℕ) (src : List ℕ) (s : ℕ)
    → length (memcpy dst d src s n) ≡ length dst
unfolding memcpy
length-memcpy zero dst d src s = refl
length-memcpy (suc n) dst d src s =
    length-memcpy n (set dst d (get_or src s 0)) (d + 1) src (s + 1) ∙ length-set dst d _

-- Within the destination, the bytes of the run are the source's and all others stay.
pub get_or-memcpy :
    (n : ℕ) (dst : List ℕ) (d : ℕ) (src : List ℕ) (s j : ℕ)
    → d + n ≤ length dst
    → get_or (memcpy dst d src s n) j 0
      ≡ (if leb d j && ltb j (d + n) then get_or src (s + (j - d)) 0 else get_or dst j 0)
unfolding memcpy
get_or-memcpy zero dst d src s j h = ground arith
get_or-memcpy (suc n) dst d src s j h = ground (
  arith,
  get_or-memcpy n (set dst d (get_or src s 0)) (d + 1) src (s + 1) j,
  length-set dst d (get_or src s 0),
  get_or-set dst d j (get_or src s 0) 0,
)
