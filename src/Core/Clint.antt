-- ===== src/Core/Clint.antt =====
-- The core local interruptor, red-planet-core/src/core/clint.rs: the timer and its compare register.
pub mod Laws
use redplanet.Base.{
  ℕ, ◌+◌, ◌*◌, ◌/◌, ◌%◌, ◌^◌, ◌==◌, if◌then◌else◌, leb, Bool, List, [], ◌∷◌, ◌<<<◌, ◌>>>◌, u32, u64,
  bit_and, bit_or, length, u32_to_le_bytes, u64_to_le_bytes, u32_from_le_bytes, wrapping_add,
}
use redplanet.Interrupt.{Signal, quiet, signal_of}

abbrev pub swi_size : ℕ
swi_size = 0x4000

abbrev pub mtimecmp_addr_lo : ℕ
mtimecmp_addr_lo = swi_size

abbrev pub mtimecmp_addr_hi : ℕ
mtimecmp_addr_hi = mtimecmp_addr_lo + 4

abbrev pub mtime_addr_lo : ℕ
mtime_addr_lo = swi_size + 0x7ff8

abbrev pub mtime_addr_hi : ℕ
mtime_addr_hi = mtime_addr_lo + 4

pub record State : Type 0 where
  pub mtime : ℕ
  pub mtimecmp : ℕ

unfoldable pub new : State
new = record { mtime = 0; mtimecmp = 0 }

unfoldable pub set_mtime_higher : ℕ → State → State
set_mtime_higher value s = record s {
  mtime = bit_and (u64 (value <<< 32)) (bit_and s.mtime 0xffff_ffff);
}

unfoldable pub set_mtime_lower : ℕ → State → State
set_mtime_lower value s = record s {
  mtime = bit_and (bit_and s.mtime 0xffff_ffff_0000_0000) (bit_and value 0xffff_ffff);
}

unfoldable pub set_mtimecmp_higher : ℕ → State → State
set_mtimecmp_higher value s = record s {
  mtimecmp = bit_and (u64 (value <<< 32)) (bit_and s.mtimecmp 0xffff_ffff);
}

unfoldable pub set_mtimecmp_lower : ℕ → State → State
set_mtimecmp_lower value s = record s {
  mtimecmp = bit_and (bit_and s.mtimecmp 0xffff_ffff_0000_0000) (bit_and value 0xffff_ffff);
}

unfoldable pub needs_interrupt : State → Bool
needs_interrupt s = leb s.mtimecmp s.mtime

-- The new state, and the call of the interrupt callback.
unfoldable pub update : (State → State) → State → State × Signal
update op s = (op s, signal_of (needs_interrupt s) (needs_interrupt (op s)))

unfoldable pub reset : State → State × Signal
unfolding update
reset s = update (λ s. record s { mtime = 0 }) s

unfoldable pub step : State → State × Signal
unfolding update
step s = update (λ s. record s { mtime = u64 (s.mtime + 1) }) s

unfoldable pub read_u32 : State → ℕ → ℕ
read_u32 s address =
    if address == mtimecmp_addr_hi
    then u32 (s.mtimecmp >>> 32)
    else if address == mtimecmp_addr_lo
    then u32 s.mtimecmp
    else if address == mtime_addr_hi
    then u32 (s.mtime >>> 32)
    else if address == mtime_addr_lo
    then u32 s.mtime
    else 0

unfoldable pub write_u32 : ℕ → ℕ → State → State × Signal
unfolding update set_mtimecmp_higher set_mtimecmp_lower set_mtime_higher set_mtime_lower
write_u32 address value s =
    if address == mtimecmp_addr_hi
    then update (set_mtimecmp_higher value) s
    else if address == mtimecmp_addr_lo
    then update (set_mtimecmp_lower value) s
    else if address == mtime_addr_hi
    then update (set_mtime_higher value) s
    else if address == mtime_addr_lo
    then update (set_mtime_lower value) s
    else (s, quiet)

unfoldable pub write_u64 : ℕ → ℕ → State → State × Signal
unfolding update
write_u64 address value s =
    if address == mtimecmp_addr_hi
    then update (λ s. record s { mtimecmp = value }) s
    else if address == mtime_addr_hi
    then update (λ s. record s { mtime = value }) s
    else (s, quiet)

-- The bytes of a read into a buffer; the buffer is left alone where the access is not supported.
-- `address + 4` does not overflow on the device's addresses.
unfoldable pub read : List ℕ → State → ℕ → List ℕ
unfolding read_u32
read buf s address =
    if address == address / 4 * 4
    then (if length buf == 4
        then u32_to_le_bytes (read_u32 s address)
        else if length buf == 8
        then u64_to_le_bytes (bit_or (read_u32 s address <<< 32) (read_u32 s (address + 4)))
        else buf)
    else buf

unfoldable pub write_bytes : ℕ → List ℕ → State → State × Signal
unfolding write_u32 write_u64
write_bytes address (a ∷ b ∷ c ∷ d ∷ []) s = write_u32 address (u32_from_le_bytes a b c d) s
write_bytes address (a ∷ b ∷ c ∷ d ∷ e ∷ f ∷ g ∷ h ∷ []) s =
    write_u64 address (u32_from_le_bytes a b c d + u32_from_le_bytes e f g h * 2 ^ 32) s
write_bytes address _ s = (s, quiet)

unfoldable pub write : ℕ → List ℕ → State → State × Signal
unfolding write_bytes
write address buf s = if address == address / 4 * 4 then write_bytes address buf s else (s, quiet)
