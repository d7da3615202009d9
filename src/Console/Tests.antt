-- ===== src/Console/Tests.antt =====
-- A screen of lines numbered by their first byte, and two strings in memory.
use akaris_old.Base.{
  ℕ, ◌+◌, ◌*◌, ◌/◌, ◌<◌, ◌≡◌, ◌≢◌, refl, List, [], ◌∷◌, ◌++◌, until_zero, returns, arith, ltb,
  if◌then◌else◌, get_or,
}
use akaris_old.Console.{Console, blank_byte, putc, put_string, sign_of, strncmp}
use akaris_old.Console.Numbers.{itoa}
use akaris_old.Console.Format.{is_common, sprintf, bootvideo_printf, printf_sprintf}
use akaris_old.Console.Itoa.{read_int, read_number, itoa_reads}
use akaris_old.Console.Screen.{OnScreen, putc_scrolls, put_string-OnScreen}
use akaris_old.Console.Strings.{strncmp_past}

abbrev full_screen : Console
full_screen = record { video = λ a. a / 160; row = 24; col = 3 }

putc_scrolls_small :
    ((putc full_screen 10).row ≡ 24)
    × ((putc full_screen 10).col ≡ 0)
    × ((a : ℕ)
        → (putc full_screen 10).video a ≡ (
            if ltb a (24 * 160)
            then (a + 160) / 160
            else if ltb a (25 * 160)
            then blank_byte a
            else a / 160))
putc_scrolls_small = putc_scrolls full_screen refl

put_string-OnScreen_example : OnScreen (put_string full_screen (65 ∷ 10 ∷ 66 ∷ []))
put_string-OnScreen_example =
    put_string-OnScreen full_screen (65 ∷ 10 ∷ 66 ∷ []) (omega arith, omega arith)

-- "ab" at 1 and "ac" at 4.
abbrev strings : ℕ → ℕ
strings a = get_or (0 ∷ 97 ∷ 98 ∷ 0 ∷ 97 ∷ 99 ∷ 0 ∷ []) a 0

strncmp_past_small : strncmp strings 1 4 1 ≡ sign_of 98 99
strncmp_past_small =
    strncmp_past strings 1 4 1 (omega arith) (omega arith) (λ i l. rw (below_one i l) (omega arith))
      (λ i l. rw (below_one i l) refl)
  where
    below_one : (i : ℕ) → i < 1 → i ≡ 0
    below_one i l = omega arith

-- -120 in decimal, and 0x2f as a hexadecimal number.
minus_120 : itoa 100 4294967176 ≡ 45 ∷ 49 ∷ 50 ∷ 48 ∷ 0 ∷ []
unfolding itoa
minus_120 = refl

hex_2f : itoa 120 47 ≡ 50 ∷ 102 ∷ 0 ∷ []
unfolding itoa
hex_2f = refl

-- The number 65 for "%d!".
abbrev words : ℕ → ℕ
words i = 65

abbrev no_strings : ℕ → List ℕ
no_strings a = []

printf_sprintf_example :
    (out : List ℕ) × (sprintf no_strings words (37 ∷ 100 ∷ 33 ∷ []) ≡ returns (out ++ 0 ∷ []))
    × ((s : Console)
        → bootvideo_printf no_strings words s (37 ∷ 100 ∷ 33 ∷ []) ≡ returns (put_string s out))
unfolding is_common
printf_sprintf_example = printf_sprintf no_strings words (37 ∷ 100 ∷ 33 ∷ []) refl

itoa_reads_example :
    (read_int (until_zero (itoa 100 4294967176)) ≡ 4294967176)
    × (read_number 16 0 (until_zero (itoa 120 4294967176)) ≡ 4294967176)
    × ((c : ℕ) → c ≢ 100 → c ≢ 120 → read_number 10 0 (until_zero (itoa c 4294967176)) ≡ 4294967176)
itoa_reads_example = itoa_reads 4294967176 (omega arith)
