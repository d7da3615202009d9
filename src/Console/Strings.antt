-- ===== src/Console/Strings.antt =====
-- strncmp reads one character more than it is told to.
use akaris_old.Base.{ℕ, zero, suc, ◌+◌, ◌<◌, ◌≤◌, ◌≡◌, ◌≢◌, refl, arith}
use native.Mathlib.Numerals.{unary_clauses}
use akaris_old.Console.{null, sign_of, compare_chars, strncmp, count_chars, strlen}

shift : (a i : ℕ) → a + 1 + i ≡ a + suc i
shift a i = omega arith

compare_chars_past :
    (mem : ℕ → ℕ) (n1 n2 size : ℕ)
    → n2 ≢ 0
    → ((i : ℕ) → i < size → mem (n1 + i) ≢ 0)
    → ((i : ℕ) → i < size → mem (n1 + i) ≡ mem (n2 + i))
    → compare_chars mem n1 n2 size ≡ sign_of (mem (n1 + size)) (mem (n2 + size))
unfolding compare_chars
compare_chars_past mem n1 n2 zero p nz same = simp unary_clauses refl
compare_chars_past mem n1 n2 (suc size) p nz same = ground (
  arith,
  nz 0 (omega arith),
  same 0 (omega arith),
  compare_chars_past mem (n1 + 1) (n2 + 1) size (omega arith)
      (λ i l. rw (shift n1 i) (nz (suc i) (omega arith)))
      (λ i l. rw (shift n1 i, shift n2 i) (same (suc i) (omega arith))),
)

-- Where the first `size` characters of both strings agree and none of them is the end, strncmp with
-- a size that is not 0 answers by the characters behind them.
pub strncmp_past :
    (mem : ℕ → ℕ) (n1 n2 size : ℕ)
    → 0 < size
    → n2 ≢ 0
    → ((i : ℕ) → i < size → mem (n1 + i) ≢ 0)
    → ((i : ℕ) → i < size → mem (n1 + i) ≡ mem (n2 + i))
    → strncmp mem n1 n2 size ≡ sign_of (mem (n1 + size)) (mem (n2 + size))
unfolding strncmp
strncmp_past mem n1 n2 size h p nz same =
    ground (arith, compare_chars_past mem n1 n2 size p nz same)

count_chars_lem :
    (mem : ℕ → ℕ) (n1 len rounds length i : ℕ)
    → length ≤ i
    → i < length + rounds
    → ((j : ℕ) → j < i → mem (n1 + j) ≢ 0)
    → mem (n1 + i) ≡ 0
    → count_chars mem n1 len rounds length ≡ i + 1
unfolding count_chars
count_chars_lem mem n1 len zero length i l u nz e = absurd (omega arith)
count_chars_lem mem n1 len (suc rounds) length i l u nz e =
    ground (arith, nz length, count_chars_lem mem n1 len rounds (length + 1) i)

-- strlen counts the characters of a string with its terminator, which lies in the first `len`.
pub strlen_lem :
    (mem : ℕ → ℕ) (n1 len i : ℕ)
    → i < len
    → ((j : ℕ) → j < i → mem (n1 + j) ≢ 0)
    → mem (n1 + i) ≡ 0
    → strlen mem n1 len ≡ i + 1
unfolding strlen
strlen_lem mem n1 len i u nz e = count_chars_lem mem n1 len len 0 i (omega arith) (omega arith) nz e

compare_chars_equal :
    (mem : ℕ → ℕ) (n1 n2 size i : ℕ)
    → n2 ≢ 0
    → i < size
    → ((j : ℕ) → j < i → mem (n1 + j) ≢ 0)
    → ((j : ℕ) → j < i → mem (n1 + j) ≡ mem (n2 + j))
    → mem (n1 + i) ≡ 0
    → mem (n2 + i) ≡ 0
    → compare_chars mem n1 n2 size ≡ null
unfolding compare_chars
compare_chars_equal mem n1 n2 zero i p l nz same e f = absurd (omega arith)
compare_chars_equal mem n1 n2 (suc size) zero p l nz same e f = ground arith
compare_chars_equal mem n1 n2 (suc size) (suc i) p l nz same e f = ground (
  arith,
  nz 0 (omega arith),
  same 0 (omega arith),
  compare_chars_equal mem (n1 + 1) (n2 + 1) size i (omega arith) (omega arith)
      (λ j m. rw (shift n1 j) (nz (suc j) (omega arith)))
      (λ j m. rw (shift n1 j, shift n2 j) (same (suc j) (omega arith))) (rw (shift n1 i) e)
      (rw (shift n2 i) f),
)

-- Two strings that end at the same place within the size, with the same characters, are equal.
pub strncmp_equal :
    (mem : ℕ → ℕ) (n1 n2 size i : ℕ)
    → n2 ≢ 0
    → i < size
    → ((j : ℕ) → j < i → mem (n1 + j) ≢ 0)
    → ((j : ℕ) → j < i → mem (n1 + j) ≡ mem (n2 + j))
    → mem (n1 + i) ≡ 0
    → mem (n2 + i) ≡ 0
    → strncmp mem n1 n2 size ≡ null
unfolding strncmp
strncmp_equal mem n1 n2 size i p l nz same e f =
    ground (arith, compare_chars_equal mem n1 n2 size i p l nz same e f)
