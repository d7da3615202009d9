-- ===== src/Pages/User/Words.antt =====
-- Entries of page tables as numbers: a frame's address with its flags.
use akaris_old.Base.{
  ℕ, zero, suc, ◌+◌, ◌*◌, ◌/◌, ◌%◌, ◌^◌, ◌<◌, ◌≡◌, refl, ap, ap₂, ◌∙◌, arith, or_bit, or_bits,
}
use native.Mathlib.Numerals.{unary_clauses}
use akaris_old.Pages.{set_pte}

pow_suc : (w : ℕ) → 2 ^ suc w ≡ 2 * 2 ^ w
pow_suc w = simp unary_clauses (omega arith)

or_bits_zero : (w b : ℕ) → b < 2 ^ w → or_bits w 0 b ≡ b
or_bits_zero zero b h = omega arith
or_bits_zero (suc w) b h =
    omega (arith, or_zero (b % 2), or_bits_zero w (b / 2) (omega (arith, pow_suc w)))
  where
    or_zero : (a : ℕ) → or_bit 0 a ≡ a
    or_zero a = refl

or_bits_none : (w : ℕ) → or_bits w 0 0 ≡ 0
or_bits_none zero = refl
or_bits_none (suc w) = omega (arith, or_bits_none w)

or_bit_zero : (a : ℕ) → a < 2 → or_bit a 0 ≡ a
or_bit_zero zero h = refl
or_bit_zero (suc a) h = omega arith

or_bit_bound : (a b : ℕ) → b < 2 → or_bit a b < 2
or_bit_bound zero b h = h
or_bit_bound (suc a) b h = omega arith

-- An even second word.
shift : (w a c v : ℕ) → or_bits w (a / 2) c ≡ v → or_bits (suc w) a (2 * c) ≡ a % 2 + 2 * v
shift w a c v h = rw (even, half) (omega (arith, h, or_bit_zero (a % 2) (omega arith)))
  where
    even : (2 * c) % 2 ≡ 0
    even = omega arith

    half : 2 * c / 2 ≡ c
    half = omega arith

half_bound : (w a b n : ℕ) → or_bits w (a / 2) (b / 2) < n → or_bits (suc w) a b < 2 * n
half_bound w a b n h = omega (arith, h, or_bit_bound (a % 2) (b % 2) (omega arith))

-- The flags of a kernel page stand below the address of its frame.
pub or_page : (f : ℕ) → f < 2 ^ 20 → or_bits 32 771 (f * 4096) ≡ f * 4096 + 771
or_page f l =
    ap (or_bits 32 771) {y = doubled} (omega arith)
    ∙ shift 31 771 _ _ (
        shift 30 385 _ _ (
          shift 29 192 _ _ (
            shift 28 96 _ _ (
              shift 27 48 _ _ (
                shift 26 24 _ _ (
                  shift 25 12 _ _ (
                    shift 24 6 _ _ (
                      shift 23 3 _ _ (
                        shift 22 1 _ _
                          (shift 21 0 _ _ (shift 20 0 f f (or_bits_zero 20 f l))))))))))))
    ∙ omega arith
  where
    doubled : ℕ
    doubled = 2 * (2 * (2 * (2 * (2 * (2 * (2 * (2 * (2 * (2 * (2 * (2 * f)))))))))))

or_bits_bound : (k w a b : ℕ) → a < 2 ^ k → b < 2 ^ k → or_bits w a b < 2 ^ k
or_bits_bound zero w a b l h =
    rw (ap₂ (or_bits w) {x = a} {y = 0} {u = b} {v = 0} (omega arith) (omega arith))
      (omega (arith, or_bits_none w))
or_bits_bound (suc k) zero a b l h = omega arith
or_bits_bound (suc k) (suc w) a b l h = omega (
  arith,
  pow_suc k,
  half_bound w a b (2 ^ k)
      (or_bits_bound k w (a / 2) (b / 2) (omega (arith, pow_suc k)) (omega (arith, pow_suc k))),
)

pub or_flags_bound : (a b : ℕ) → a < 4096 → b < 4096 → or_bits 32 a b < 4096
or_flags_bound a b l h = or_bits_bound 12 32 a b l h

-- The frame of an entry, and the address and the flags that it was made of.
pub set_pte-frame :
    (address flags : ℕ)
    → address < 2 ^ 32
    → flags < 4096
    → (set_pte address flags / 4096) ≡ address / 4096
set_pte-frame address flags l h = omega arith
