-- ===== src/AddressRange.antt =====
-- Ranges of addresses, `AddressRange` of red-planet-core/src/address_range.rs. An error carries the
-- bounds that were refused. A `usize` has at least 64 bits, so that every size is representable.
pub mod Laws
use redplanet.Base.{ℕ, ◌+◌, ◌-◌, ◌^◌, ◌==◌, leb, Bool, ◌&&◌, Option, none, some, if◌then◌else◌}

pub record AddressRange : Type 0 where
  pub start : ℕ
  pub end : ℕ

-- `Result<_, InvalidBoundsError>`
pub data Bounded (A : Type 0) : Type 0 where
  valid : A → Bounded A
  invalid_bounds : (start end : ℕ) → Bounded A

unfoldable pub new : (start end : ℕ) → Bounded AddressRange
new start end =
    if leb start end then valid (record { start = start; end = end }) else invalid_bounds start end

abbrev pub full : AddressRange
full = record { start = 0; end = 2 ^ 32 - 1 }

unfoldable pub with_start : ℕ → AddressRange → Bounded AddressRange
with_start start r =
    if leb start r.end
    then valid (record { start = start; end = r.end })
    else invalid_bounds start r.end

unfoldable pub with_end : ℕ → AddressRange → Bounded AddressRange
with_end end r =
    if leb r.start end
    then valid (record { start = r.start; end = end })
    else invalid_bounds r.start end

-- The old bound, and the range that is left in either case.
unfoldable pub set_start : ℕ → AddressRange → Bounded ℕ × AddressRange
set_start start r =
    if leb start r.end
    then (valid r.start, record r { start = start })
    else (invalid_bounds start r.end, r)

unfoldable pub set_end : ℕ → AddressRange → Bounded ℕ × AddressRange
set_end end r =
    if leb r.start end
    then (valid r.end, record r { end = end })
    else (invalid_bounds r.start end, r)

unfoldable pub contains : (address : ℕ) → AddressRange → Bool
contains address r = leb r.start address && leb address r.end

unfoldable pub delta : AddressRange → ℕ
delta r = r.end - r.start

unfoldable pub size : AddressRange → Option ℕ
unfolding delta
size r = some (delta r + 1)

-- `TryFrom<Range<u32>>`, of a range whose end is excluded.
unfoldable pub of_range : (start end : ℕ) → Bounded AddressRange
unfolding new
of_range start end = if end == 0 then invalid_bounds start end else new start (end - 1)

-- `TryFrom<AddressRange> for Range<u32>`: `none` where the end does not fit.
unfoldable pub to_range : AddressRange → Option (ℕ × ℕ)
to_range r = if r.end == 2 ^ 32 - 1 then none else some (r.start, r.end + 1)
