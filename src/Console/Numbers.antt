-- ===== src/Console/Numbers.antt =====
-- itoa of sys/i386/bootvideo.c: the bytes that it leaves in its buffer, the last one 0.
use akaris_old.Base.{
  ℕ, zero, suc, ◌+◌, ◌-◌, ◌/◌, ◌%◌, ◌&&◌, List, [], ◌∷◌, ◌++◌, ◌==◌, ltb, if◌then◌else◌, length,
  get_or, set, is_neg, u32_mod,
}

abbrev pub digit_char : ℕ → ℕ
digit_char remainder = if ltb remainder 10 then remainder + 48 else remainder + 97 - 10

-- The do loop: the digits, lowest first. A 32-bit number has fewer than 32 of them.
unfoldable pub digits : (rounds ud divisor : ℕ) → List ℕ
digits zero ud divisor = []
digits (suc n) ud divisor =
    let rest = digits n (ud / divisor) divisor in
    digit_char (ud % divisor) ∷ (if ud / divisor == 0 then [] else rest)

-- The loop that reverses the buffer in place. Each round brings the ends closer.
unfoldable pub swap_ends : (rounds : ℕ) → List ℕ → (p1 p2 : ℕ) → List ℕ
swap_ends zero buf p1 p2 = buf
swap_ends (suc n) buf p1 p2 =
    let rest =
      swap_ends n (set (set buf p1 (get_or buf p2 0)) p2 (get_or buf p1 0)) (p1 + 1) (p2 - 1) in
    if ltb p1 p2 then rest else buf

unfoldable pub number_chars : (ud divisor : ℕ) → List ℕ
unfolding digits swap_ends
number_chars ud divisor =
    let buf = digits 32 ud divisor in swap_ends 32 buf 0 (length buf - 1) ++ 0 ∷ []

-- itoa: `base` is one of the characters of a format, and `d` the pattern of an `int`.
unfoldable pub itoa : (base d : ℕ) → List ℕ
unfolding number_chars
itoa base d =
    if base == 100 && is_neg d
    then 45 ∷ number_chars (u32_mod - d) 10
    else number_chars d (if base == 120 then 16 else 10)
