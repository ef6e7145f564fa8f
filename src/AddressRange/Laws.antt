-- ===== src/AddressRange/Laws.antt =====
-- The invariant of address ranges, and ranges with an excluded end.
use redplanet.Base.{
  ℕ, ◌+◌, ◌^◌, ◌<◌, ◌≤◌, ◌≡◌, refl, arith, leb, Bool, true, false, some, if◌then◌else◌,
}
use redplanet.AddressRange

pub record IsRange (r : AddressRange.AddressRange) : Type 0 where
  pub ordered : r.start ≤ r.end
  pub word : r.end < 2 ^ 32

-- What an operation returns is a range.
abbrev pub IsRangeResult : AddressRange.Bounded AddressRange.AddressRange → Type 0
IsRangeResult (AddressRange.Bounded.valid r) = IsRange r
IsRangeResult (AddressRange.Bounded.invalid_bounds start end) = end < start

-- A range is made exactly when its bounds are ordered; else the bounds come back as the error.
pub new-IsRange : (start end : ℕ) → end < 2 ^ 32 → IsRangeResult (AddressRange.new start end)
unfolding AddressRange.new
new-IsRange start end h = go (leb start end) (λ e. ground (arith, e)) (λ e. ground (arith, e))
  where
    go :
        (b : Bool)
        → (b ≡ true → start ≤ end)
        → (b ≡ false → end < start)
        → IsRangeResult (
            if b
            then AddressRange.Bounded.valid (record { start = start; end = end })
            else AddressRange.Bounded.invalid_bounds start end)
    go true k l = record { ordered = k refl; word = h }
    go false k l = l refl

-- A range with an excluded end, made of an address range, gives that range back.
pub of_range-to_range :
    (r : AddressRange.AddressRange) (start end : ℕ)
    → IsRange r
    → AddressRange.to_range r ≡ some (start, end)
    → AddressRange.of_range start end ≡ AddressRange.Bounded.valid r
unfolding AddressRange.to_range AddressRange.of_range AddressRange.new
of_range-to_range r start end h e = ground (arith, h.ordered, h.word, e)

-- The size is that of the addresses that are contained: the first, the last, and what lies between.
pub contains-range :
    (r : AddressRange.AddressRange) (offset : ℕ)
    → IsRange r
    → AddressRange.contains (r.start + offset) r ≡ leb offset (AddressRange.delta r)
unfolding AddressRange.contains AddressRange.delta
contains-range r offset h = ground (arith, h.ordered)
