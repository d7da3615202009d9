-- ===== src/Console.antt =====
-- The text screen and the string functions of sys/i386/bootvideo.c (sys/x86_64/bootvideo.c is the
-- same text). Video memory and memory are functions from addresses to bytes, video memory from its
-- first byte.
pub mod Screen
pub mod Strings
pub mod Numbers
pub mod Itoa
pub mod Reverse
pub mod Format
mod Tests
use akaris_old.Base.{
  ℕ, zero, suc, ◌+◌, ◌*◌, ◌/◌, ◌%◌, ◌-◌, ◌<◌, ◌^◌, Bool, ◌&&◌, List, [], ◌∷◌, ◌==◌, ltb, leb,
  if◌then◌else◌,
}

-- NUM_COLS, NUM_ROWS
abbrev pub num_cols : ℕ
num_cols = 80

abbrev pub num_rows : ℕ
num_rows = 25

pub record Console : Type 0 where
  pub video : ℕ → ℕ
  pub row : ℕ
  pub col : ℕ

-- The bytes of the word 0x07000700, which is two blanks.
abbrev pub blank_byte : ℕ → ℕ
blank_byte a = if a % 2 == 0 then 0 else 7

-- The byte `a` lies in the word `pos` (an `int` of four bytes).
abbrev pub in_word : (pos a : ℕ) → Bool
in_word pos a = leb (4 * pos) a && ltb a (4 * pos + 4)

-- The loops that store 0x07000700 in `words` words from `pos` on.
unfoldable pub blank_words : (words pos : ℕ) → (ℕ → ℕ) → ℕ → ℕ
blank_words zero pos video = video
blank_words (suc n) pos video =
    blank_words n (pos + 1) (λ a. if in_word pos a then blank_byte a else video a)

-- The loop `*pos = *(pos + NUM_COLS / 2)`, upwards: it copies each word from 40 words on.
unfoldable pub copy_up : (words pos : ℕ) → (ℕ → ℕ) → ℕ → ℕ
copy_up zero pos video = video
copy_up (suc n) pos video =
    copy_up n (pos + 1) (λ a. if in_word pos a then video (a + 4 * (num_cols / 2)) else video a)

-- bootvideo_cls
unfoldable pub cls : Console → Console
unfolding blank_words
cls c = record { video = blank_words (2 * num_cols * num_rows / 4) 0 c.video; row = 0; col = 0 }

-- The first `if` of bootvideo_putc: a line feed, or a character at the cursor.
unfoldable pub put_char : Console → ℕ → Console
put_char s c = if c == 10 then record s { col = 0; row = s.row + 1 } else record s {
  video = λ a. if a == (s.row * num_cols + s.col) * 2 then c else s.video a;
  col = s.col + 1;
}

-- The second `if`.
unfoldable pub wrap : Console → Console
wrap s = if leb num_cols s.col then record s { col = 0; row = s.row + 1 } else s

-- The third `if`.
unfoldable pub scroll : Console → Console
unfolding copy_up blank_words
scroll s =
    if leb num_rows s.row
    then record s {
      row = num_rows - 1;
      video =
          blank_words (2 * num_cols / 4) (2 * num_cols * (num_rows - 1) / 4)
            (copy_up (2 * num_cols * (num_rows - 1) / 4) 0 s.video);
    }
    else s

-- bootvideo_putc
unfoldable pub putc : Console → ℕ → Console
unfolding put_char wrap scroll
putc s c = scroll (wrap (put_char s c))

-- The loop of bootvideo_printf over the characters of a string.
unfoldable pub put_string : Console → List ℕ → Console
unfolding putc
put_string s [] = s
put_string s (c ∷ cs) = put_string (putc s c) cs

-- A `char` is signed: its place in the order of the signed bytes.
abbrev pub char_order : ℕ → ℕ
char_order c = if ltb c 128 then c + 128 else c - 128

-- The three results of strncmp.
pub data Sign : Type 0 where
  minus_one null one : Sign

-- The comparison at the end of strncmp.
abbrev pub sign_of : ℕ → ℕ → Sign
sign_of a b =
    if ltb (char_order b) (char_order a)
    then one
    else if ltb (char_order a) (char_order b)
    then minus_one
    else null

-- The loop of strncmp and the comparison behind it. The third test is on the pointer `n2`.
unfoldable pub compare_chars : (ℕ → ℕ) → (n1 n2 size : ℕ) → Sign
compare_chars mem n1 n2 zero = sign_of (mem n1) (mem n2)
compare_chars mem n1 n2 (suc size) =
    let rest = compare_chars mem (n1 + 1) (n2 + 1) size in
    if mem n1 == 0
    then (if mem n2 == 0 then null else minus_one)
    else if n2 == 0
    then one
    else if ltb (char_order (mem n2)) (char_order (mem n1))
    then one
    else if ltb (char_order (mem n1)) (char_order (mem n2))
    then minus_one
    else rest

-- strncmp
unfoldable pub strncmp : (ℕ → ℕ) → (n1 n2 size : ℕ) → Sign
unfolding compare_chars
strncmp mem n1 n2 size = if ltb size 1 then null else compare_chars mem n1 n2 size

unfoldable pub count_chars : (ℕ → ℕ) → (n1 len rounds length : ℕ) → ℕ
count_chars mem n1 len zero length = len
count_chars mem n1 len (suc rounds) length =
    let rest = count_chars mem n1 len rounds (length + 1) in
    if mem (n1 + length) == 0 then length + 1 else rest

-- strlen, whose loop takes `len` rounds at most.
unfoldable pub strlen : (ℕ → ℕ) → (n1 len : ℕ) → ℕ
unfolding count_chars
strlen mem n1 len = count_chars mem n1 len len 0

-- memset, which stores words: `value` at each fourth byte below `dest + length`. A word is given
-- by its four bytes.
unfoldable pub memset : (rounds : ℕ) → (ℕ → ℕ) → (cur bound value : ℕ) → ℕ → ℕ
memset zero mem cur bound value = mem
memset (suc n) mem cur bound value =
    let rest =
      memset n (λ a. if leb cur a && ltb a (cur + 4) then value / 256 ^ (a - cur) % 256 else mem a)
        (cur + 4) bound value in
    if ltb cur bound then rest else mem
