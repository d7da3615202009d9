-- ===== src/Console/Screen.antt =====
-- The cursor stays on the screen, and scrolling moves every line up by one.
use akaris_old.Base.{
  ℕ, zero, suc, ◌+◌, ◌*◌, ◌<◌, ◌≡◌, refl, ◌&&◌, List, [], ◌∷◌, arith, ltb, leb, true, if◌then◌else◌,
}
use akaris_old.Console.{
  Console, num_cols, num_rows, blank_byte, blank_words, copy_up, put_char, wrap, scroll, putc,
  put_string,
}

abbrev pub OnScreen : Console → Type 0
OnScreen s = (s.row < num_rows) × (s.col < num_cols)

blank_words_lem :
    (n pos : ℕ) (v : ℕ → ℕ) (a : ℕ)
    → blank_words n pos v a
      ≡ (if leb (4 * pos) a && ltb a (4 * (pos + n)) then blank_byte a else v a)
unfolding blank_words
blank_words_lem zero pos v a = ground arith
blank_words_lem (suc n) pos v a = ground (
  arith,
  blank_words_lem n (pos + 1)
      (λ b. if leb (4 * pos) b && ltb b (4 * pos + 4) then blank_byte b else v b) a,
)

copy_up_lem :
    (n pos : ℕ) (v : ℕ → ℕ) (a : ℕ)
    → copy_up n pos v a ≡ (if leb (4 * pos) a && ltb a (4 * (pos + n)) then v (a + 160) else v a)
unfolding copy_up
copy_up_lem zero pos v a = ground arith
copy_up_lem (suc n) pos v a = ground (
  arith,
  copy_up_lem n (pos + 1) (λ b. if leb (4 * pos) b && ltb b (4 * pos + 4) then v (b + 160) else v b)
      a,
)

scrolled :
    (v : ℕ → ℕ) (a : ℕ)
    → blank_words 40 960 (copy_up 960 0 v) a
      ≡ (if ltb a (24 * 160) then v (a + 160) else if ltb a (25 * 160) then blank_byte a else v a)
scrolled v a = ground (arith, blank_words_lem 40 960 (copy_up 960 0 v) a, copy_up_lem 960 0 v a)

-- What a line feed on the last line leaves: each line holds what the line below it held, the last
-- one is blank, and nothing past the screen changes. The cursor is at the start of the last line.
pub putc_scrolls :
    (s : Console)
    → s.row ≡ 24
    → ((putc s 10).row ≡ 24)
      × ((putc s 10).col ≡ 0)
      × ((a : ℕ)
          → (putc s 10).video a ≡ (
              if ltb a (24 * 160)
              then s.video (a + 160)
              else if ltb a (25 * 160)
              then blank_byte a
              else s.video a))
unfolding putc put_char wrap scroll
putc_scrolls s h = rw at-end (refl, refl, λ a. scrolled s.video a)
  where
    at-end : leb 25 (s.row + 1) ≡ true
    at-end = ground arith

putc-OnScreen : (s : Console) (c : ℕ) → OnScreen s → OnScreen (putc s c)
unfolding putc put_char wrap scroll
putc-OnScreen s c h = ground arith

-- Whatever is printed, a cursor on the screen stays there.
pub put_string-OnScreen : (s : Console) (cs : List ℕ) → OnScreen s → OnScreen (put_string s cs)
unfolding put_string
put_string-OnScreen s [] h = h
put_string-OnScreen s (c ∷ cs) h = put_string-OnScreen (putc s c) cs (putc-OnScreen s c h)
