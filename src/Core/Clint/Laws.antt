-- ===== src/Core/Clint/Laws.antt =====
-- The timer's registers and its interrupt line.
use redplanet.Base.{
  ℕ, zero, suc, ◌+◌, ◌*◌, ◌/◌, ◌%◌, ◌^◌, ◌<◌, ◌≡◌, ap, refl, arith, Bool, true, false, bit_and,
  bit_or, List, [], ◌∷◌, ◌++◌, ◌↔◌, length, u32_to_le_bytes, u64_to_le_bytes,
}
use redplanet.Base.Bits.{bit_or_fields, bit_and_high_low, bit_and_field, bit_and_mask}
use redplanet.Interrupt.{Signal, raise, line_after}
use redplanet.Core.Clint.{
  State, new, needs_interrupt, update, reset, step, write_u32, write_u64, write, read, write_bytes,
  mtime_addr_lo, mtime_addr_hi, mtimecmp_addr_lo, mtimecmp_addr_hi,
}

higher_zero : (v m : ℕ) → v < 2 ^ 32 → bit_and ((v * 2 ^ 32) % 2 ^ 64) (bit_and m 0xffff_ffff) ≡ 0
higher_zero v m h =
    rw (bit_and_mask 32 m, fits v h) (bit_and_high_low 32 v (m % 2 ^ 32) (omega arith))
  where
    fits : (v : ℕ) → v < 2 ^ 32 → (v * 2 ^ 32) % 2 ^ 64 ≡ v * 2 ^ 32
    fits v h = omega arith

lower_zero : (v m : ℕ) → bit_and (bit_and m 0xffff_ffff_0000_0000) (bit_and v 0xffff_ffff) ≡ 0
lower_zero v m =
    rw (bit_and_mask 32 v, bit_and_field 32 32 m)
      (bit_and_high_low 32 (m / 2 ^ 32 % 2 ^ 32) (v % 2 ^ 32) (omega arith))

-- A 32-bit write to either half of `mtime` clears the whole register, whatever the 32-bit value
-- written, and one to either half of `mtimecmp` clears that; the other register is left alone.
pub write_u32-clears :
    (value : ℕ) (s : State)
    → value < 2 ^ 32
    → ((write_u32 mtime_addr_lo value s).0 ≡ record s { mtime = 0 })
      × ((write_u32 mtime_addr_hi value s).0 ≡ record s { mtime = 0 })
      × ((write_u32 mtimecmp_addr_lo value s).0 ≡ record s { mtimecmp = 0 })
      × ((write_u32 mtimecmp_addr_hi value s).0 ≡ record s { mtimecmp = 0 })
unfolding write_u32
write_u32-clears value s h = (
  rw (lower_zero value s.mtime) refl,
  rw (higher_zero value s.mtime h) refl,
  rw (lower_zero value s.mtimecmp) refl,
  rw (higher_zero value s.mtimecmp h) refl,
)

update-tracks :
    (op : State → State) (s : State)
    → line_after (needs_interrupt s) (update op s).1 ≡ needs_interrupt (update op s).0
unfolding update
update-tracks op s = ground arith

-- What the rest of the machine can do to the timer.
pub data Op : Type 0 where
  tick restart : Op
  store : (address : ℕ) (buf : List ℕ) → Op

pub apply : Op → State → State × Signal
apply tick s = step s
apply restart s = reset s
apply (store address buf) s = write address buf s

pub run : List Op → State → Bool → State × Bool
run [] s line = (s, line)
run (op ∷ ops) s line = run ops (apply op s).0 (line_after line (apply op s).1)

write_bytes-tracks :
    (address : ℕ) (buf : List ℕ) (s : State)
    → line_after (needs_interrupt s) (write_bytes address buf s).1
      ≡ needs_interrupt (write_bytes address buf s).0
unfolding write_bytes
write_bytes-tracks address (a ∷ b ∷ c ∷ d ∷ []) s = ground arith
write_bytes-tracks address (a ∷ b ∷ c ∷ d ∷ e ∷ f ∷ g ∷ h ∷ []) s = ground arith
write_bytes-tracks address _ s = refl

apply-tracks :
    (op : Op) (s : State)
    → line_after (needs_interrupt s) (apply op s).1 ≡ needs_interrupt (apply op s).0
unfolding apply step reset write
apply-tracks tick s = update-tracks (λ t. record t { mtime = (t.mtime + 1) % 2 ^ 64 }) s
apply-tracks restart s = update-tracks (λ t. record t { mtime = 0 }) s
apply-tracks (store address buf) s = ground (arith, write_bytes-tracks address buf s)

-- Once the line shows whether the timer needs an interrupt, it does so after every sequence of
-- ticks, restarts and stores.
pub run-tracks :
    (ops : List Op) (s : State)
    → (run ops s (needs_interrupt s)).1 ≡ needs_interrupt (run ops s (needs_interrupt s)).0
unfolding run
run-tracks [] s = refl
run-tracks (op ∷ ops) s = rw (apply-tracks op s, run) (run-tracks ops (apply op s).0)

-- Where the time does not wrap, a tick raises the line exactly when the time reaches the compare
-- register.
pub step-raise :
    (s : State) → s.mtime + 1 < 2 ^ 64 → ((step s).1 ≡ raise) ↔ (s.mtime + 1 ≡ s.mtimecmp)
unfolding step needs_interrupt
step-raise s h = ground arith

abbrev pub ticks : ℕ → List Op
ticks zero = []
ticks (suc n) = tick ∷ ticks n

run-ticks :
    (n m : ℕ)
    → m + n < 2 ^ 64
    → run (ticks n) (record { mtime = m; mtimecmp = 0 }) false
      ≡ (record { mtime = m + n; mtimecmp = 0 }, false)
unfolding run apply step needs_interrupt
run-ticks zero m h = ground arith
run-ticks (suc n) m h = ground (arith, run-ticks n (m + 1))

-- The timer is constructed with its interrupt condition true and the line low. Fewer than 2 ^ 64 ticks
-- count one each, leave the compare register at 0 and the condition true, and do not raise the line.
pub fresh_timer_silent :
    (n : ℕ)
    → n < 2 ^ 64
    → (run (ticks n) new false ≡ (record { mtime = n; mtimecmp = 0 }, false))
      × (needs_interrupt (run (ticks n) new false).0 ≡ true)
unfolding new needs_interrupt
fresh_timer_silent n h =
    rw (run-ticks n 0 (omega arith))
      (ap (λ m. (record { mtime = m; mtimecmp = 0 }, false)) (omega arith), ground arith)

halves :
    (lo hi : ℕ)
    → lo < 2 ^ 32
    → hi < 2 ^ 32
    → u64_to_le_bytes (lo * 2 ^ 32 + hi % 2 ^ 32) ≡ u32_to_le_bytes hi ++ u32_to_le_bytes lo
halves lo hi hl hh = rw (low lo hi hh, high lo hi hh)
  where
    low : (lo hi : ℕ) → hi < 2 ^ 32 → (lo * 2 ^ 32 + hi % 2 ^ 32) % 2 ^ 32 ≡ hi
    low lo hi hh = omega arith

    high : (lo hi : ℕ) → hi < 2 ^ 32 → (lo * 2 ^ 32 + hi % 2 ^ 32) / 2 ^ 32 ≡ lo
    high lo hi hh = omega arith

-- A 64-bit value has to be written at the address of the high word of `mtime` or `mtimecmp`, and goes to
-- that register alone; read back as 64 bits from the address of the low word, it comes with its two halves
-- exchanged. A write at the address of a low word changes nothing.
pub read-write_u64 :
    (value : ℕ) (buf : List ℕ) (s : State)
    → value < 2 ^ 64
    → length buf ≡ 8
    → (let exchanged = u32_to_le_bytes (value / 2 ^ 32) ++ u32_to_le_bytes (value % 2 ^ 32) in
        (read buf (write_u64 mtimecmp_addr_hi value s).0 mtimecmp_addr_lo ≡ exchanged)
        × (read buf (write_u64 mtime_addr_hi value s).0 mtime_addr_lo ≡ exchanged))
      × ((write_u64 mtimecmp_addr_hi value s).0.mtime ≡ s.mtime)
      × ((write_u64 mtime_addr_hi value s).0.mtimecmp ≡ s.mtimecmp)
      × ((write_u64 mtimecmp_addr_lo value s).0 ≡ s)
      × ((write_u64 mtime_addr_lo value s).0 ≡ s)
unfolding read write_u64
read-write_u64 value buf s h len =
    ((rw (len, joined) exchanged, rw (len, joined) exchanged), refl, refl, refl, refl)
  where
    joined :
        bit_or (value % 2 ^ 32 * 2 ^ 32) (value / 2 ^ 32 % 2 ^ 32)
        ≡ value % 2 ^ 32 * 2 ^ 32 + value / 2 ^ 32 % 2 ^ 32
    joined = bit_or_fields 32 (value % 2 ^ 32) (value / 2 ^ 32 % 2 ^ 32) (omega arith)

    exchanged :
        u64_to_le_bytes (value % 2 ^ 32 * 2 ^ 32 + value / 2 ^ 32 % 2 ^ 32)
        ≡ u32_to_le_bytes (value / 2 ^ 32) ++ u32_to_le_bytes (value % 2 ^ 32)
    exchanged = halves (value % 2 ^ 32) (value / 2 ^ 32) (omega arith) (omega arith)
