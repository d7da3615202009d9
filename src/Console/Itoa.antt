-- ===== src/Console/Itoa.antt =====
-- The numbers that itoa prints can be read back.
use native.Mathlib.Nat.{mul_comm}
use akaris_old.Base.{
  ℕ, zero, suc, ◌+◌, ◌-◌, ◌*◌, ◌/◌, ◌%◌, ◌^◌, ◌≤◌, ◌<◌, ◌≡◌, ◌≢◌, refl, ap, ap₂, ◌∙◌, Bool-cases,
  inl, inr, List, [], ◌∷◌, ◌++◌, arith, ltb, ◌==◌, ==_ne, if◌then◌else◌, length, until_zero, is_neg,
  u32_mod,
}
use akaris_old.Console.Numbers.{digit_char, digits, number_chars, itoa}
use akaris_old.Console.Reverse.{rev, swap_ends-rev}

abbrev pub digit_value : ℕ → ℕ
digit_value c = if ltb c 58 then c - 48 else c - 87

-- The number that the digits stand for, highest first.
abbrev pub read_number : (base acc : ℕ) → List ℕ → ℕ
read_number base acc [] = acc
read_number base acc (c ∷ cs) = read_number base (acc * base + digit_value c) cs

-- The 32-bit pattern of a decimal number with a sign.
abbrev pub read_int : List ℕ → ℕ
read_int [] = 0
read_int (c ∷ cs) = if c == 45 then u32_mod - read_number 10 0 cs else read_number 10 0 (c ∷ cs)

abbrev low : (base : ℕ) → List ℕ → ℕ
low base [] = 0
low base (c ∷ cs) = digit_value c + base * low base cs

abbrev AllDigits : List ℕ → Type 0
AllDigits [] = Unit {0}
AllDigits (c ∷ cs) = (48 ≤ c) × AllDigits cs

read-snoc :
    (base acc : ℕ) (xs : List ℕ) (c : ℕ)
    → read_number base acc (xs ++ c ∷ []) ≡ read_number base acc xs * base + digit_value c
read-snoc base acc [] c = refl
read-snoc base acc (x ∷ xs) c = read-snoc base (acc * base + digit_value x) xs c

read-rev : (base : ℕ) (xs : List ℕ) → read_number base 0 (rev xs) ≡ low base xs
read-rev base [] = refl
read-rev base (x ∷ xs) =
    read-snoc base 0 (rev xs) x
    ∙ ap (λ t. t * base + digit_value x) (read-rev base xs)
    ∙ turn (low base xs) (digit_value x)
  where
    turn : (a b : ℕ) → a * base + b ≡ b + base * a
    turn a b = omega (arith, mul_comm a base)

append-AllDigits : (xs ys : List ℕ) → AllDigits xs → AllDigits ys → AllDigits (xs ++ ys)
append-AllDigits [] ys h l = l
append-AllDigits (x ∷ xs) ys (h, hs) l = (h, append-AllDigits xs ys hs l)

rev-AllDigits : (xs : List ℕ) → AllDigits xs → AllDigits (rev xs)
rev-AllDigits [] h = tt
rev-AllDigits (x ∷ xs) (h, hs) = append-AllDigits (rev xs) (x ∷ []) (rev-AllDigits xs hs) (h, tt)

until_zero-AllDigits : (xs : List ℕ) → AllDigits xs → until_zero (xs ++ 0 ∷ []) ≡ xs
until_zero-AllDigits [] h = refl
until_zero-AllDigits (x ∷ xs) (h, hs) =
    rw (==_ne x 0 (omega arith)) (ap (λ l. x ∷ l) (until_zero-AllDigits xs hs))

digit_char-digit : (r : ℕ) → 48 ≤ digit_char r
digit_char-digit r = ground arith

digit_value-digit_char : (r : ℕ) → r < 16 → digit_value (digit_char r) ≡ r
digit_value-digit_char r h = ground arith

-- A base of at least 2 and at most 16, by what the loop needs of it.
module _ (base : ℕ) (digit : (d : ℕ) → d % base < 16)
    (division : (d : ℕ) → d % base + base * (d / base) ≡ d)
    (halves : (d n : ℕ) → d < 2 ^ suc n → d / base < 2 ^ n) where
  digits-low : (n d : ℕ) → d < 2 ^ n → low base (digits n d base) ≡ d
  unfolding digits
  digits-low zero d h = omega arith
  digits-low (suc n) d h =
      ap₂ (λ r t. r + base * t) (digit_value-digit_char (d % base) (digit d))
        (elim (Bool-cases (d / base == 0)) [
          | inl e ↦ rw e (ground arith)
          | inr e ↦ rw e (digits-low n (d / base) (halves d n h))
        ])
      ∙ division d

  digits-AllDigits : (n d : ℕ) → AllDigits (digits n d base)
  unfolding digits
  digits-AllDigits zero d = tt
  digits-AllDigits (suc n) d = (
    digit_char-digit (d % base),
    elim (Bool-cases (d / base == 0)) [
      | inl e ↦ rw e tt
      | inr e ↦ rw e (digits-AllDigits n (d / base))
    ],
  )

  length-digits : (n d : ℕ) → length (digits n d base) ≤ n
  unfolding digits
  length-digits zero d = omega arith
  length-digits (suc n) d = elim (Bool-cases (d / base == 0)) [
    | inl e ↦ rw (digits, e) (omega arith)
    | inr e ↦ rw (digits, e) (omega (arith, length-digits n (d / base)))
  ]

  number_chars-rev : (d : ℕ) → number_chars d base ≡ rev (digits 32 d base) ++ 0 ∷ []
  unfolding number_chars
  number_chars-rev d =
      ap (λ l. l ++ 0 ∷ [])
        (swap_ends-rev 32 (digits 32 d base) (omega (arith, length-digits 32 d)))

  -- The characters of a number: they are digits, and are read as the number.
  number_chars-read :
      (d : ℕ)
      → d < 2 ^ 32
      → (chars : List ℕ) × (number_chars d base ≡ chars ++ 0 ∷ [])
        × AllDigits chars
        × (read_number base 0 chars ≡ d)
  number_chars-read d h = (
    rev (digits 32 d base),
    number_chars-rev d,
    rev-AllDigits (digits 32 d base) (digits-AllDigits 32 d),
    read-rev base (digits 32 d base) ∙ digits-low 32 d h,
  )

decimal :
    (d : ℕ)
    → d < 2 ^ 32
    → (chars : List ℕ) × (number_chars d 10 ≡ chars ++ 0 ∷ [])
      × AllDigits chars
      × (read_number 10 0 chars ≡ d)
decimal = number_chars-read 10 (λ d. omega arith) (λ d. omega arith) (λ d n h. omega arith)

hexadecimal :
    (d : ℕ)
    → d < 2 ^ 32
    → (chars : List ℕ) × (number_chars d 16 ≡ chars ++ 0 ∷ [])
      × AllDigits chars
      × (read_number 16 0 chars ≡ d)
hexadecimal = number_chars-read 16 (λ d. omega arith) (λ d. omega arith) (λ d n h. omega arith)

read_int-AllDigits : (cs : List ℕ) → AllDigits cs → read_int cs ≡ read_number 10 0 cs
read_int-AllDigits [] h = refl
read_int-AllDigits (c ∷ cs) (h, hs) = rw (==_ne c 45 (omega arith)) refl

-- Up to the terminator, a printed number with its properties.
until_chars :
    (base d : ℕ) (chars : List ℕ)
    → number_chars d base ≡ chars ++ 0 ∷ []
    → AllDigits chars
    → until_zero (number_chars d base) ≡ chars
until_chars base d chars e h = ap until_zero e ∙ until_zero-AllDigits chars h

signed : (d : ℕ) → d < 2 ^ 32 → read_int (until_zero (itoa 100 d)) ≡ d
unfolding itoa
signed d h = elim (Bool-cases (is_neg d)) [
  | inl e ↦
      let (chars, printed, all, value) = decimal (u32_mod - d) (ground arith) in
      rw (itoa, e, until_chars 10 (u32_mod - d) chars printed all, value) (ground arith)
  | inr e ↦
      let (chars, printed, all, value) = decimal d h in
      rw (itoa, e, until_chars 10 d chars printed all) (read_int-AllDigits chars all ∙ value)
]

-- The string that itoa leaves for a 32-bit number is read back as it: with its sign for `d`, in
-- base 16 for `x`, and in base 10 without a sign for every other character.
pub itoa_reads :
    (d : ℕ)
    → d < 2 ^ 32
    → (read_int (until_zero (itoa 100 d)) ≡ d)
      × (read_number 16 0 (until_zero (itoa 120 d)) ≡ d)
      × ((c : ℕ) → c ≢ 100 → c ≢ 120 → read_number 10 0 (until_zero (itoa c d)) ≡ d)
unfolding itoa
itoa_reads d h =
    let (chars, printed, all, value) = decimal d h in
    let (chars', printed', all', value') = hexadecimal d h in
    (
      signed d h,
      rw (itoa, until_chars 16 d chars' printed' all') value',
      λ c n m. rw (itoa, ==_ne c 100 n, ==_ne c 120 m, until_chars 10 d chars printed all) value,
    )
