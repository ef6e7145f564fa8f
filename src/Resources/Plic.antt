-- ===== src/Resources/Plic.antt =====
-- The platform-level interrupt controller, red-planet-core/src/resources/plic.rs. The `BitArr!`
-- fields are the words of their raw slices; in their `Msb0` order bit 0 is a word's highest. `none`
-- is the panic of an index out of range.
pub mod Selection
pub mod Muted
pub mod Reach
use redplanet.Base.{
  ℕ, zero, suc, ◌+◌, ◌-◌, ◌/◌, ◌*◌, ◌%◌, ◌==◌, if◌then◌else◌, leb, ltb, Bool, true, false, ◌&&◌,
  not, List, [], ◌∷◌, Option, some, none, bit, set_bit, bit_and, min, get_elem?, get_or, set,
  replicate, length, u32_to_le_bytes, u32_from_le_bytes,
}
use redplanet.Interrupt.{Signal, quiet, signal_of}

abbrev pub priority_base_addr : ℕ
priority_base_addr = 0x4

abbrev pub priority_last_addr : ℕ
priority_last_addr = 0xD0

abbrev pub pending_base_addr : ℕ
pending_base_addr = 0x1000

abbrev pub pending_last_addr : ℕ
pending_last_addr = 0x1004

abbrev pub enables_base_addr : ℕ
enables_base_addr = 0x2000

abbrev pub enables_last_addr : ℕ
enables_last_addr = 0x2004

abbrev pub threshold_addr : ℕ
threshold_addr = 0x20_0000

abbrev pub claimcomplete_addr : ℕ
claimcomplete_addr = 0x20_0004

pub record State : Type 0 where
  pub priorities : List ℕ
  pub pending : List ℕ
  pub enabled : List ℕ
  pub priority_threshold : ℕ

unfoldable pub new : State
new = record {
  priorities = replicate 53 0;
  pending = 0 ∷ 0 ∷ [];
  enabled = 0 ∷ 0 ∷ [];
  priority_threshold = 0;
}

-- Bit `i` of a bit array, and the array with the bit changed (`none` past the last word).
abbrev pub get_bit : List ℕ → ℕ → Bool
get_bit words i = bit (get_or words (i / 32) 0) (31 - i % 32)

unfoldable pub put_bit : List ℕ → ℕ → Bool → Option (List ℕ)
put_bit words i v = elim (get_elem? words (i / 32)) [
  | none ↦ none
  | some w ↦ some (set words (i / 32) (set_bit w (31 - i % 32) v))
]

-- `as_raw_mut_slice()[i] = value` and `priorities[i] = value`.
unfoldable pub put_elem : List ℕ → ℕ → ℕ → Option (List ℕ)
put_elem words i v = if ltb i (length words) then some (set words i v) else none

unfoldable pub set_pending_to : Bool → ℕ → State → Option State
unfolding put_bit
set_pending_to v index s = elim (put_bit s.pending index v) [
  | none ↦ none
  | some words ↦ some (record s { pending = words })
]

unfoldable pub set_pending : ℕ → State → Option State
unfolding set_pending_to
set_pending index s = set_pending_to true index s

unfoldable pub set_complete : ℕ → State → Option State
unfolding set_pending_to
set_complete index s = set_pending_to false index s

unfoldable pub set_priority : ℕ → ℕ → State → Option State
unfolding put_elem
set_priority index value s = elim (put_elem s.priorities index (min value 7)) [
  | none ↦ none
  | some words ↦ some (record s { priorities = words })
]

unfoldable pub set_priority_threshold : ℕ → State → State
set_priority_threshold value s = record s { priority_threshold = min value 7 }

-- `max_by` keeps the later of two elements that compare equal.
unfoldable pub later_max : Option (ℕ × ℕ) → ℕ × ℕ → Option (ℕ × ℕ)
later_max none new = some new
later_max (some best) new = if ltb new.1 best.1 then some best else some new

-- The enabled and pending interrupts below `n`, from the highest index down, folded by `max_by`.
unfoldable pub max_pending : State → ℕ → Option (ℕ × ℕ) → Option (ℕ × ℕ)
unfolding later_max
max_pending s zero best = best
max_pending s (suc i) best = max_pending s i (
    if get_bit s.enabled i && get_bit s.pending i
    then later_max best (i, get_or s.priorities i 0)
    else best)

unfoldable pub above_threshold : State → Option (ℕ × ℕ) → ℕ
above_threshold s none = 0
above_threshold s (some (idx, priority)) = if leb priority s.priority_threshold then 0 else idx

unfoldable pub highest_priority_pending : State → ℕ
unfolding max_pending above_threshold
highest_priority_pending s = above_threshold s (max_pending s 53 none)

unfoldable pub claim_highest_priority_pending : State → Option (ℕ × State)
unfolding highest_priority_pending set_pending_to
claim_highest_priority_pending s =
    let idx = highest_priority_pending s in
    if not (idx == 0)
    then elim (set_pending_to false idx s) [ none ↦ none | some s' ↦ some (idx, s') ]
    else some (idx, s)

unfoldable pub needs_interrupt : State → Bool
unfolding highest_priority_pending
needs_interrupt s = not (highest_priority_pending s == 0)

pub data AddrAccessor : Type 0 where
  priorities pending enabled : ℕ → AddrAccessor
  threshold claim_complete : AddrAccessor

abbrev within : ℕ → ℕ → ℕ → Bool
within lo hi address = leb lo address && leb address hi

unfoldable pub from_address : ℕ → Option AddrAccessor
from_address address =
    if within priority_base_addr priority_last_addr address
    then some (AddrAccessor.priorities (address - priority_base_addr + 1))
    else if within pending_base_addr pending_last_addr address
    then some (AddrAccessor.pending (address - pending_base_addr))
    else if within enables_base_addr enables_last_addr address
    then some (AddrAccessor.enabled (address - enables_base_addr))
    else if address == threshold_addr
    then some AddrAccessor.threshold
    else if address == claimcomplete_addr
    then some AddrAccessor.claim_complete
    else none

-- `update` for an operation that may panic and returns a value.
unfoldable pub update :
    {R : Type 0} → (State → Option (R × State)) → State → Option (R × State × Signal)
update op s = elim (op s) [
  | none ↦ none
  | some (res, s') ↦ some (res, s', signal_of (needs_interrupt s) (needs_interrupt s'))
]

-- An operation with no result.
abbrev pub with_unit : Option State → Option (Unit {0} × State)
with_unit none = none
with_unit (some s) = some (tt, s)

unfoldable pub reset : State → Option (Unit {0} × State × Signal)
unfolding update new
reset s = update (λ _. some (tt, new)) s

unfoldable pub raise : ℕ → State → Option (Unit {0} × State × Signal)
unfolding update set_pending
raise index s = update (λ t. with_unit (set_pending index t)) s

-- The PLIC ignores lowers.
unfoldable pub lower : ℕ → State → State
lower index s = s

abbrev pub reading : Option ℕ → State → Option (ℕ × State × Signal)
reading none s = none
reading (some v) s = some (v, s, quiet)

unfoldable pub read_at : State → AddrAccessor → Option (ℕ × State × Signal)
unfolding update claim_highest_priority_pending
read_at s (AddrAccessor.priorities i) = reading (get_elem? s.priorities i) s
read_at s (AddrAccessor.enabled i) = reading (get_elem? s.enabled i) s
read_at s (AddrAccessor.pending i) = reading (get_elem? s.pending i) s
read_at s AddrAccessor.threshold = some (s.priority_threshold, s, quiet)
read_at s AddrAccessor.claim_complete = update claim_highest_priority_pending s

unfoldable pub read_u32 : State → ℕ → Option (ℕ × State × Signal)
unfolding from_address read_at
read_u32 s address = elim (from_address address) [
  | none ↦ some (0, s, quiet)
  | some accessor ↦ read_at s accessor
]

unfoldable pub read_debug_at : State → AddrAccessor → Option ℕ
unfolding highest_priority_pending
read_debug_at s (AddrAccessor.priorities i) = get_elem? s.priorities i
read_debug_at s (AddrAccessor.enabled i) = get_elem? s.enabled i
read_debug_at s (AddrAccessor.pending i) = get_elem? s.pending i
read_debug_at s AddrAccessor.threshold = some s.priority_threshold
read_debug_at s AddrAccessor.claim_complete = some (highest_priority_pending s)

unfoldable pub read_u32_debug : State → ℕ → Option ℕ
unfolding from_address read_debug_at
read_u32_debug s address = elim (from_address address) [
  | none ↦ some 0
  | some accessor ↦ read_debug_at s accessor
]

-- `if i == 0 { value & 0x8000_0000 } else { value }`
unfoldable pub writable : ℕ → ℕ → ℕ
writable i value = if i == 0 then bit_and value 0x8000_0000 else value

unfoldable pub write_at : AddrAccessor → ℕ → State → Option State
unfolding set_priority put_elem writable set_priority_threshold set_complete
write_at (AddrAccessor.priorities i) value s = set_priority i value s
write_at (AddrAccessor.enabled i) value s = elim (put_elem s.enabled i (writable i value)) [
  | none ↦ none
  | some words ↦ some (record s { enabled = words })
]
write_at (AddrAccessor.pending i) value s = elim (put_elem s.pending i (writable i value)) [
  | none ↦ none
  | some words ↦ some (record s { pending = words })
]
write_at AddrAccessor.threshold value s = some (set_priority_threshold value s)
write_at AddrAccessor.claim_complete value s =
    if leb 1 value && leb value 52 then set_complete value s else some s

abbrev pub write_accessor : Option AddrAccessor → ℕ → State → Option (Unit {0} × State × Signal)
unfolding update write_at
write_accessor none value s = some (tt, s, quiet)
write_accessor (some accessor) value s = update (λ t. with_unit (write_at accessor value t)) s

unfoldable pub write_u32 : ℕ → ℕ → State → Option (Unit {0} × State × Signal)
unfolding from_address write_accessor
write_u32 address value s = write_accessor (from_address address) value s

abbrev pub received : Option (ℕ × State × Signal) → Option (List ℕ × State × Signal)
received none = none
received (some (v, s, signal)) = some (u32_to_le_bytes v, s, signal)

-- `Bus::read`: the bytes that a buffer of the given length receives; one of another length, and
-- any buffer at an address that is no multiple of 4, is left alone.
unfoldable pub bus_read : List ℕ → State → ℕ → Option (List ℕ × State × Signal)
unfolding read_u32
bus_read buf s address =
    if not (address == address / 4 * 4)
    then some (buf, s, quiet)
    else if length buf == 4
    then received (read_u32 s address)
    else some (buf, s, quiet)

unfoldable pub write_buf : ℕ → List ℕ → State → Option (Unit {0} × State × Signal)
unfolding write_u32
write_buf address (a ∷ b ∷ c ∷ d ∷ []) s = write_u32 address (u32_from_le_bytes a b c d) s
write_buf address _ s = some (tt, s, quiet)

-- `Bus::write`
unfoldable pub bus_write : ℕ → List ℕ → State → Option (Unit {0} × State × Signal)
unfolding write_buf
bus_write address buf s =
    if not (address == address / 4 * 4) then some (tt, s, quiet) else write_buf address buf s
