-- ===== src/Console/Format.antt =====
-- The format loops: bootvideo_printf of sys/i386/bootvideo.c, and sprintf of
-- sys/servers/libak/syscall.c, whose itoa is the same text. `arg` gives the words of the call behind
-- the format, and `strings` the characters of the string at an address. A format that ends in `%` is
-- read behind its end, which is a fault here.
use akaris_old.Base.{
  ℕ, suc, ◌%◌, Bool, true, false, not, ◌&&◌, ◌||◌, ◌≡◌, refl, sym, ap, ◌∙◌, List, [], ◌∷◌, ◌++◌,
  ◌==◌, if◌then◌else◌, Outcome, returns, fault, ◌>>=◌, until_zero, Bool-cases, inl, inr, arith,
}
use akaris_old.Console.{Console, putc, put_string}
use akaris_old.Console.Numbers.{itoa}

-- "(null)"
abbrev pub null_string : List ℕ
null_string = 40 ∷ 110 ∷ 117 ∷ 108 ∷ 108 ∷ 41 ∷ []

-- The cases `s` and default of both switches.
unfoldable pub other_chars : (strings : ℕ → List ℕ) → (c word : ℕ) → List ℕ
other_chars strings c word =
    if c == 115 then (if word == 0 then null_string else strings word) else word % 256 ∷ []

-- The switch of bootvideo_printf: `d`, `u`, `x` and `l` are numbers.
unfoldable pub printf_chars : (strings : ℕ → List ℕ) → (c word : ℕ) → List ℕ
unfolding itoa other_chars
printf_chars strings c word =
    if (c == 100) || (c == 117) || (c == 120) || (c == 108)
    then until_zero (itoa c word)
    else other_chars strings c word

-- The switch of sprintf: `d`, `u` and `x` are numbers.
unfoldable pub sprintf_chars : (strings : ℕ → List ℕ) → (c word : ℕ) → List ℕ
unfolding itoa other_chars
sprintf_chars strings c word =
    if (c == 100) || (c == 117) || (c == 120)
    then until_zero (itoa c word)
    else other_chars strings c word

-- The loop of bootvideo_printf, from the argument `i` on.
unfoldable pub printf_loop :
    (strings : ℕ → List ℕ) → (arg : ℕ → ℕ) → (i : ℕ) → Console → List ℕ → Outcome Console
unfolding putc put_string printf_chars
printf_loop strings arg i s [] = returns s
printf_loop strings arg i s (c ∷ []) = if c == 37 then fault else returns (putc s c)
printf_loop strings arg i s (c ∷ d ∷ cs) = elim (c == 37) [
  | false ↦ printf_loop strings arg i (putc s c) (d ∷ cs)
  | true ↦ printf_loop strings arg (suc i) (put_string s (printf_chars strings d (arg i))) cs
]

-- bootvideo_printf
unfoldable pub bootvideo_printf :
    (strings : ℕ → List ℕ) → (arg : ℕ → ℕ) → Console → (format : List ℕ) → Outcome Console
unfolding printf_loop
bootvideo_printf strings arg s format = printf_loop strings arg 0 s format

-- The loop of sprintf: the characters that it stores.
unfoldable pub sprintf_loop :
    (strings : ℕ → List ℕ) → (arg : ℕ → ℕ) → (i : ℕ) → List ℕ → Outcome (List ℕ)
unfolding sprintf_chars
sprintf_loop strings arg i [] = returns []
sprintf_loop strings arg i (c ∷ []) = if c == 37 then fault else returns (c ∷ [])
sprintf_loop strings arg i (c ∷ d ∷ cs) = elim (c == 37) [
  | false ↦ sprintf_loop strings arg i (d ∷ cs) >>= λ out. returns (c ∷ out)
  | true ↦ sprintf_loop strings arg (suc i) cs >>= λ out.
      returns (sprintf_chars strings d (arg i) ++ out)
]

-- sprintf, with its terminator.
unfoldable pub sprintf :
    (strings : ℕ → List ℕ) → (arg : ℕ → ℕ) → (format : List ℕ) → Outcome (List ℕ)
unfolding sprintf_loop
sprintf strings arg format = sprintf_loop strings arg 0 format >>= λ out. returns (out ++ 0 ∷ [])

-- A format that has no `%l`, and does not end in `%`.
unfoldable pub is_common : List ℕ → Bool
is_common [] = true
is_common (c ∷ []) = not (c == 37)
is_common (c ∷ d ∷ cs) = elim (c == 37) [
  | false ↦ is_common (d ∷ cs)
  | true ↦ not (d == 108) && is_common cs
]

no_fourth {ℓ} :
    {A : Type ℓ} (a b c : Bool) (u v : A)
    → (if a || b || c || false then u else v) ≡ (if a || b || c then u else v)
no_fourth true b c u v = refl
no_fourth false true c u v = refl
no_fourth false false true u v = refl
no_fourth false false false u v = refl

printf_chars-sprintf_chars :
    (strings : ℕ → List ℕ) (c word : ℕ)
    → (c == 108) ≡ false
    → printf_chars strings c word ≡ sprintf_chars strings c word
unfolding printf_chars sprintf_chars
printf_chars-sprintf_chars strings c word h =
    rw (printf_chars, sprintf_chars, h)
      (no_fourth (c == 100) (c == 117) (c == 120) (until_zero (itoa c word))
        (other_chars strings c word))

put_string-append :
    (s : Console) (xs ys : List ℕ) → put_string s (xs ++ ys) ≡ put_string (put_string s xs) ys
unfolding put_string
put_string-append s [] ys = refl
put_string-append s (x ∷ xs) ys = put_string-append (putc s x) xs ys

and_true : (a b : Bool) → (not a && b) ≡ true → (a ≡ false) × (b ≡ true)
and_true false true q = (refl, refl)
and_true false false q = cc
and_true true b q = cc

loops_agree :
    (strings : ℕ → List ℕ) (arg : ℕ → ℕ) (i : ℕ) (format : List ℕ)
    → is_common format ≡ true
    → (out : List ℕ) × (sprintf_loop strings arg i format ≡ returns out)
      × ((s : Console) → printf_loop strings arg i s format ≡ returns (put_string s out))
unfolding is_common printf_loop sprintf_loop put_string
loops_agree strings arg i [] h = ([], refl, λ s. refl)
loops_agree strings arg i (c ∷ []) h = elim (Bool-cases (c == 37)) [
  | inl e ↦ absurd (ground (arith, e))
  | inr e ↦ (c ∷ [], rw (sprintf_loop, e) refl, λ s. rw (printf_loop, e) refl)
]
loops_agree strings arg i (c ∷ d ∷ cs) h = elim (Bool-cases (c == 37)) [
  | inl e ↦
      let (short, later) = and_true (d == 108) (is_common cs) (rw (e, is_common) at h) in
      let (out, stored, shown) = loops_agree strings arg (suc i) cs later in
      let chars = sprintf_chars strings d (arg i) in
      (
        chars ++ out,
        rw (sprintf_loop, e, stored) refl,
        λ s.
            rw (printf_loop, e, printf_chars-sprintf_chars strings d (arg i) short)
              (shown (put_string s chars) ∙ ap returns (sym (put_string-append s chars out))),
      )
  | inr e ↦
      let (out, stored, shown) = loops_agree strings arg i (d ∷ cs) (rw (e, is_common) at h) in
      (c ∷ out, rw (sprintf_loop, e, stored) refl, λ s. rw (printf_loop, e) (shown (putc s c)))
]

-- For a format without `%l` that does not end in `%`, sprintf returns a string, and
-- bootvideo_printf puts just its characters on the screen.
pub printf_sprintf :
    (strings : ℕ → List ℕ) (arg : ℕ → ℕ) (format : List ℕ)
    → is_common format ≡ true
    → (out : List ℕ) × (sprintf strings arg format ≡ returns (out ++ 0 ∷ []))
      × ((s : Console) → bootvideo_printf strings arg s format ≡ returns (put_string s out))
unfolding sprintf bootvideo_printf
printf_sprintf strings arg format h =
    let (out, stored, shown) = loops_agree strings arg 0 format h in
    (out, rw (sprintf, stored) refl, λ s. shown s)
