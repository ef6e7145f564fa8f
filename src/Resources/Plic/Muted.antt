-- ===== src/Resources/Plic/Muted.antt =====
-- A PLIC in which no interrupt can be enabled: every access keeps it so and leaves the line alone.
use redplanet.Base.{
  ℕ, zero, suc, ◌*◌, ◌/◌, ◌^◌, ◌≤◌, ◌<◌, ◌≡◌, refl, u32_from_le_bytes, ◌⊎◌, inl, inr, arith, Bool,
  true, false, not, Option, some, none, List, [], ◌∷◌, Option-cases, length, ltb, set, min, ◌==◌,
  ◌&&◌, leb, Bool-cases,
}
use redplanet.Base.Bits.{bit_and_field}
use redplanet.Interrupt.{Signal, signal_of, quiet}
use redplanet.Resources.Plic.{
  State, get_bit, later_max, max_pending, above_threshold, highest_priority_pending,
  needs_interrupt, AddrAccessor, from_address, update, set_pending_to, set_complete, set_priority,
  put_elem, put_bit, writable, write_at, write_u32, read_at, read_u32, set_priority_threshold,
  bus_read, bus_write, write_buf, write_accessor, received, claim_highest_priority_pending,
  with_unit, reading,
}

-- At most interrupt 0, which stands for "no interrupt", is enabled.
abbrev pub IsMuted : State → Type 0
IsMuted s = (s.enabled ≡ 0 ∷ 0 ∷ []) ⊎ (s.enabled ≡ 2 ^ 31 ∷ 0 ∷ [])

-- The bits from 1 up to the given one are clear.
all_clear : List ℕ → ℕ → Bool
all_clear words zero = true
all_clear words (suc i) = all_clear words i && not (get_bit words (suc i))

all_clear-get_bit :
    (words : List ℕ) (last i : ℕ)
    → all_clear words last ≡ true
    → suc i ≤ last
    → get_bit words (suc i) ≡ false
unfolding all_clear
all_clear-get_bit words zero i clear h = absurd (omega (arith, h))
all_clear-get_bit words (suc last) i clear h =
    ground (arith, clear, h, all_clear-get_bit words last i)

enabled_bit : (s : State) → IsMuted s → (i : ℕ) → suc i < 53 → get_bit s.enabled (suc i) ≡ false
unfolding all_clear
enabled_bit s (inl e) i h = rw e (all_clear-get_bit (0 ∷ 0 ∷ []) 52 i refl (omega (arith, h)))
enabled_bit s (inr e) i h = rw e (all_clear-get_bit (2 ^ 31 ∷ 0 ∷ []) 52 i refl (omega (arith, h)))

muted_scan :
    (s : State) → IsMuted s → (n : ℕ) → n ≤ 53 → above_threshold s (max_pending s n none) ≡ 0
unfolding above_threshold max_pending later_max
muted_scan s m zero h = refl
muted_scan s m (suc zero) h = ground arith
muted_scan s m (suc (suc i)) h =
    rw (enabled_bit s m i (omega arith)) (muted_scan s m (suc i) (omega arith))

pub muted_quiet : (s : State) → IsMuted s → needs_interrupt s ≡ false
unfolding needs_interrupt highest_priority_pending
muted_quiet s m = rw (muted_scan s m 53 (omega arith))

writable_zero : (value : ℕ) → (writable 0 value ≡ 0) ⊎ (writable 0 value ≡ 2 ^ 31)
unfolding writable
writable_zero value = ground (arith, bit_and_field 1 31 value)

abbrev pub IsMutedState : {R : Type 0} → Option (R × State) → Type 0
IsMutedState none = Unit
IsMutedState (some (r, s)) = IsMuted s

abbrev pub IsQuiet : {R : Type 0} → Option (R × State × Signal) → Type 0
IsQuiet none = Unit
IsQuiet (some (r, s, signal)) = IsMuted s × (signal ≡ quiet)

finish : {R : Type 0} → State → Option (R × State) → Option (R × State × Signal)
finish s none = none
finish s (some (res, s')) = some (res, s', signal_of (needs_interrupt s) (needs_interrupt s'))

finish-IsQuiet :
    {R : Type 0} (s : State) (o : Option (R × State))
    → IsMuted s
    → IsMutedState o
    → IsQuiet (finish s o)
unfolding finish
finish-IsQuiet s none m h = tt
finish-IsQuiet s (some (r, s')) m h = (h, rw (muted_quiet s m, muted_quiet s' h) refl)

pub update-IsQuiet :
    {R : Type 0} (op : State → Option (R × State)) (s : State)
    → IsMuted s
    → IsMutedState (op s)
    → IsQuiet (update op s)
unfolding update finish
update-IsQuiet op s m h = finish-IsQuiet s (op s) m h

pub set_pending_to-muted :
    (v : Bool) (i : ℕ) (s : State) → IsMuted s → IsMutedState (with_unit (set_pending_to v i s))
unfolding set_pending_to
set_pending_to-muted v i s m = elim (Option-cases (put_bit s.pending i v)) [
  | inl e ↦ rw (e, IsMutedState, with_unit) tt
  | inr (w, e) ↦ rw (e, IsMutedState, with_unit) m
]

claim-muted : (s : State) → IsMuted s → IsMutedState (claim_highest_priority_pending s)
unfolding claim_highest_priority_pending highest_priority_pending
claim-muted s m = rw (muted_scan s m 53 (omega arith)) m

reading-IsQuiet : (o : Option ℕ) (s : State) → IsMuted s → IsQuiet (reading o s)
reading-IsQuiet none s m = tt
reading-IsQuiet (some v) s m = (m, refl)

read_at-IsQuiet : (a : AddrAccessor) (s : State) → IsMuted s → IsQuiet (read_at s a)
unfolding read_at
read_at-IsQuiet (AddrAccessor.priorities i) s m = reading-IsQuiet _ s m
read_at-IsQuiet (AddrAccessor.pending i) s m = reading-IsQuiet _ s m
read_at-IsQuiet (AddrAccessor.enabled i) s m = reading-IsQuiet _ s m
read_at-IsQuiet AddrAccessor.threshold s m = (m, refl)
read_at-IsQuiet AddrAccessor.claim_complete s m =
    update-IsQuiet claim_highest_priority_pending s m (claim-muted s m)

-- The enable word at a byte offset that is a multiple of 4 is the first one or none.
IsReachable : AddrAccessor → Type 0
IsReachable (AddrAccessor.enabled i) = (i ≡ 0) ⊎ (2 ≤ i)
IsReachable _ = Unit

two_words : (s : State) → IsMuted s → length s.enabled ≡ 2
two_words s (inl e) = rw e refl
two_words s (inr e) = rw e refl

first_word :
    (s : State) (w : ℕ)
    → IsMuted s
    → (w ≡ 0) ⊎ (w ≡ 2 ^ 31)
    → IsMuted (record s { enabled = set s.enabled 0 w })
first_word s w (inl e) (inl z) = rw (e, z) (inl refl)
first_word s w (inr e) (inl z) = rw (e, z) (inl refl)
first_word s w (inl e) (inr z) = rw (e, z) (inr refl)
first_word s w (inr e) (inr z) = rw (e, z) (inr refl)

put_enabled-muted :
    (i value : ℕ) (s : State)
    → IsMuted s
    → (i ≡ 0) ⊎ (2 ≤ i)
    → IsMutedState (with_unit (write_at (AddrAccessor.enabled i) value s))
unfolding write_at put_elem
put_enabled-muted i value s m (inl e) =
    rw (e, two_words s m, IsMutedState, with_unit)
      (first_word s (writable 0 value) m (writable_zero value))
put_enabled-muted i value s m (inr le) =
    rw (beyond i (length s.enabled) (two_words s m) le, IsMutedState, with_unit) tt
  where
    beyond : (i n : ℕ) → n ≡ 2 → 2 ≤ i → ltb i n ≡ false
    beyond i n e le = ground (arith, e, le)

write_at-muted :
    (a : AddrAccessor) (value : ℕ) (s : State)
    → IsMuted s
    → IsReachable a
    → IsMutedState (with_unit (write_at a value s))
unfolding write_at IsReachable set_priority put_elem set_priority_threshold set_complete
write_at-muted (AddrAccessor.priorities i) value s m r =
    elim (Option-cases (put_elem s.priorities i (min value 7))) [
      | inl e ↦ rw (e, IsMutedState, with_unit) tt
      | inr (w, e) ↦ rw (e, IsMutedState, with_unit) m
    ]
write_at-muted (AddrAccessor.pending i) value s m r =
    elim (Option-cases (put_elem s.pending i (writable i value))) [
      | inl e ↦ rw (e, IsMutedState, with_unit) tt
      | inr (w, e) ↦ rw (e, IsMutedState, with_unit) m
    ]
write_at-muted (AddrAccessor.enabled i) value s m r = put_enabled-muted i value s m r
write_at-muted AddrAccessor.threshold value s m r = m
write_at-muted AddrAccessor.claim_complete value s m r =
    elim (Bool-cases (leb 1 value && leb value 52)) [
      | inl e ↦ rw e (set_pending_to-muted false value s m)
      | inr e ↦ rw (e, IsMutedState, with_unit) m
    ]

abbrev IsReachableOption : Option AddrAccessor → Type 0
IsReachableOption none = Unit
IsReachableOption (some a) = IsReachable a

from_address-IsReachable :
    (address : ℕ) → address ≡ address / 4 * 4 → IsReachableOption (from_address address)
unfolding from_address IsReachable
from_address-IsReachable address h = ground (arith, h)

write_u32-IsQuiet :
    (address value : ℕ) (s : State)
    → IsMuted s
    → IsReachableOption (from_address address)
    → IsQuiet (write_u32 address value s)
unfolding write_u32 write_accessor
write_u32-IsQuiet address value s m = go (from_address address)
  where
    go : (o : Option AddrAccessor) → IsReachableOption o → IsQuiet (write_accessor o value s)
    go none r = (m, refl)
    go (some a) r =
        update-IsQuiet (λ t. with_unit (write_at a value t)) s m (write_at-muted a value s m r)

write_buf-IsQuiet :
    (address : ℕ) (buf : List ℕ) (s : State)
    → IsMuted s
    → IsReachableOption (from_address address)
    → IsQuiet (write_buf address buf s)
unfolding write_buf
write_buf-IsQuiet address (a ∷ b ∷ c ∷ d ∷ []) s m r =
    write_u32-IsQuiet address (u32_from_le_bytes a b c d) s m r
write_buf-IsQuiet address _ s m r = (m, refl)

pub bus_write-IsQuiet :
    (address : ℕ) (buf : List ℕ) (s : State) → IsMuted s → IsQuiet (bus_write address buf s)
unfolding bus_write
bus_write-IsQuiet address buf s m = elim (Bool-cases (address == address / 4 * 4)) [
  | inl e ↦
      rw e
        (write_buf-IsQuiet address buf s m (from_address-IsReachable address (ground (arith, e))))
  | inr e ↦ rw e (m, refl)
]

read_u32-IsQuiet : (s : State) (address : ℕ) → IsMuted s → IsQuiet (read_u32 s address)
unfolding read_u32
read_u32-IsQuiet s address m = elim (Option-cases (from_address address)) [
  | inl e ↦ rw (e, IsQuiet) (m, refl)
  | inr (a, e) ↦ rw (e, IsQuiet) (read_at-IsQuiet a s m)
]

pub bus_read-IsQuiet :
    (buf : List ℕ) (s : State) (address : ℕ) → IsMuted s → IsQuiet (bus_read buf s address)
unfolding bus_read
bus_read-IsQuiet buf s address m = elim (Bool-cases (address == address / 4 * 4)) [
  | inr e ↦ rw e (m, refl)
  | inl e ↦ rw e (elim (Bool-cases (length buf == 4)) [
    | inr f ↦ rw f (m, refl)
    | inl f ↦ rw f (go (read_u32 s address) (read_u32-IsQuiet s address m))
  ])
]
  where
    go : (o : Option (ℕ × State × Signal)) → IsQuiet o → IsQuiet (received o)
    go none q = tt
    go (some (v, s', signal)) q = q
