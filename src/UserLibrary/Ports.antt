-- ===== src/UserLibrary/Ports.antt =====
-- ak_outb and ak_inb: a byte, a port and the direction travel in one register.
use native.Mathlib.Nat.{mul_left_comm}
use akaris_old.Base.{
  ℕ, zero, suc, ◌+◌, ◌*◌, ◌/◌, ◌%◌, ◌^◌, ◌<◌, ◌≡◌, refl, ap, ◌∙◌, some, arith, ◌==◌, returns,
  or_bits, or_bit, true, false,
}
use akaris_old.State.{Regs, Context, get_process}
use akaris_old.Gates.{send_blank, outportb}
use akaris_old.Syscalls.{System, Before, kernel_of}
use akaris_old.Syscalls.Handler.{syscall_handler, dispatch, request_io}
use akaris_old.UserLibrary.{end_interrupt, acknowledged, me, trap, ak_inb, ak_outb}

or_bit_zero : (r : ℕ) → r < 2 → or_bit r 0 ≡ r
or_bit_zero zero h = refl
or_bit_zero (suc zero) h = refl
or_bit_zero (suc (suc r)) h = absurd (omega arith)

or_bits_zero : (w a : ℕ) → a < 2 ^ w → or_bits w a 0 ≡ a
or_bits_zero zero a h = omega arith
or_bits_zero (suc w) a h =
    ap (λ t. or_bit (a % 2) 0 + 2 * t) (or_bits_zero w (a / 2) (omega arith))
    ∙ omega (arith, or_bit_zero (a % 2) (omega arith))

or_bits_even : (w x b : ℕ) → or_bits (suc w) (2 * x) b ≡ b % 2 + 2 * or_bits w x (b / 2)
or_bits_even w x b =
    ap (λ t. or_bit t (b % 2) + 2 * or_bits w (2 * x / 2) (b / 2)) {y = 0} (omega arith)
    ∙ ap (λ t. b % 2 + 2 * or_bits w t (b / 2)) {y = x} (omega arith)

double : (a t u : ℕ) → u ≡ 2 * t → a * u ≡ 2 * (a * t)
double a t u e = ap (λ v. a * v) e ∙ mul_left_comm a 2 t

-- A number below a power of two falls into the gap below a multiple of it.
or_bits_shifted :
    (k w a b : ℕ) → a < 2 ^ w → b < 2 ^ k → or_bits (k + w) (a * 2 ^ k) b ≡ a * 2 ^ k + b
or_bits_shifted zero w a b h l =
    ap (λ t. or_bits t (a * 1) b) {y = w} (omega arith)
    ∙ ap (λ t. or_bits w (a * 1) t) {y = 0} (omega arith)
    ∙ ap (λ t. or_bits w t 0) {y = a} (omega arith)
    ∙ or_bits_zero w a h
    ∙ omega arith
or_bits_shifted (suc k) w a b h l =
    ap (λ t. or_bits t (a * 2 ^ suc k) b) {y = suc (k + w)} (omega arith)
    ∙ ap (λ t. or_bits (suc (k + w)) t b) (double a (2 ^ k) (2 ^ suc k) (omega arith))
    ∙ or_bits_even (k + w) (a * 2 ^ k) b
    ∙ omega (
      arith,
      or_bits_shifted k w a (b / 2) h (omega arith),
      double a (2 ^ k) (2 ^ suc k) (omega arith),
    )

-- What request_io reads off the two words.
out_word :
    (port a : ℕ)
    → port < 2 ^ 16
    → a < 256
    → (((a * 2 ^ 16 + port) / 2 ^ 24 % 256 == 0) ≡ true)
      × ((a * 2 ^ 16 + port) % 2 ^ 16 ≡ port)
      × ((a * 2 ^ 16 + port) / 2 ^ 16 % 256 ≡ a)
out_word port a h l = (ground arith, omega arith, omega arith)

in_word :
    (port : ℕ)
    → port < 2 ^ 16
    → (((255 * 2 ^ 24 + port) / 2 ^ 24 % 256 == 0) ≡ false)
      × ((255 * 2 ^ 24 + port) % 2 ^ 16 ≡ port)
in_word port h = (ground arith, omega arith)

-- The byte and the port that ak_outb puts into one register reach the port; ak_inb asks for a byte of
-- its port and returns it; besides, both only acknowledge the interrupt. The port is below 2^16, the
-- byte below 256, and interrupt 0x80 has no FIFO.
pub ports_lem :
    (b : Before) (s : System) (regs : Regs) (c : Context) (port a : ℕ)
    → get_process (kernel_of s) (me s) ≡ some c
    → s.machine.int_to_pid 0x80 ≡ 0
    → port < 2 ^ 16
    → a < 256
    → (ak_outb b s regs port a
        ≡ returns (acknowledged (record s { machine = outportb s.machine port a }) 0x80))
      × (ak_inb b s regs port ≡ returns (b.inportb port % 256, acknowledged s 0x80))
unfolding ak_outb ak_inb trap end_interrupt send_blank syscall_handler dispatch request_io
ports_lem b s regs c port a known quiet small byte =
    let (output, low, high) = out_word port a small byte in
    let (input, low') = in_word port small in
    (
      rw
          (
            ak_outb,
            trap,
            syscall_handler,
            known,
            dispatch,
            request_io,
            or_bits_shifted 16 16 a port (omega arith) small,
            output,
            low,
            high,
            end_interrupt,
            send_blank,
            quiet,
          )
          refl,
      rw
          (
            ak_inb,
            trap,
            syscall_handler,
            known,
            dispatch,
            request_io,
            or_bits_shifted 24 8 255 port (omega arith) (omega arith),
            input,
            low',
            end_interrupt,
            send_blank,
            quiet,
          )
          refl,
    )
