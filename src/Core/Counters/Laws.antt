-- ===== src/Core/Counters/Laws.antt =====
-- The counters: their invariant, and that the two halves count as one 64-bit number.
use redplanet.Base.{
  ℕ, ◌+◌, ◌*◌, ◌%◌, ◌^◌, ◌<◌, ◌≡◌, refl, arith, Bool, true, false, if◌then◌else◌, bit, not_u32,
  wrapping_add, Bool-cases, inl, inr,
}
use redplanet.Base.Bounds.{bit_and-lt, bit_or-lt}
use redplanet.Base.Masks.{masked-lt}
use redplanet.Core.Counters

pub record IsSoundCounters (s : Counters.Counters) : Type 0 where
  pub mcycle : s.mcycle < 2 ^ 32
  pub mcycleh : s.mcycleh < 2 ^ 32
  pub minstret : s.minstret < 2 ^ 32
  pub minstreth : s.minstreth < 2 ^ 32

pub record IsSoundControl (s : Counters.CounterControl) : Type 0 where
  pub mcounteren : s.mcounteren < 2 ^ 32
  pub scounteren : s.scounteren < 2 ^ 32
  pub mcountinhibit : s.mcountinhibit < 2 ^ 32

pub new-IsSound : IsSoundCounters Counters.new × IsSoundControl Counters.new_control
unfolding Counters.new Counters.new_control
new-IsSound = omega arith

module _ (value mask : ℕ) (k : value < 2 ^ 32) where
  module _ (s : Counters.Counters) (h : IsSoundCounters s) where
    pub write_mcycle-IsSound : IsSoundCounters (Counters.write_mcycle value mask s)
    unfolding Counters.write_mcycle
    write_mcycle-IsSound = record {
      mcycle = masked-lt s.mcycle value mask h.mcycle k;
      mcycleh = h.mcycleh;
      minstret = h.minstret;
      minstreth = h.minstreth;
    }

    pub write_mcycleh-IsSound : IsSoundCounters (Counters.write_mcycleh value mask s)
    unfolding Counters.write_mcycleh
    write_mcycleh-IsSound = record {
      mcycle = h.mcycle;
      mcycleh = masked-lt s.mcycleh value mask h.mcycleh k;
      minstret = h.minstret;
      minstreth = h.minstreth;
    }

    pub write_minstret-IsSound : IsSoundCounters (Counters.write_minstret value mask s)
    unfolding Counters.write_minstret
    write_minstret-IsSound = record {
      mcycle = h.mcycle;
      mcycleh = h.mcycleh;
      minstret = masked-lt s.minstret value mask h.minstret k;
      minstreth = h.minstreth;
    }

    pub write_minstreth-IsSound : IsSoundCounters (Counters.write_minstreth value mask s)
    unfolding Counters.write_minstreth
    write_minstreth-IsSound = record {
      mcycle = h.mcycle;
      mcycleh = h.mcycleh;
      minstret = h.minstret;
      minstreth = masked-lt s.minstreth value mask h.minstreth k;
    }

  module _ (s : Counters.CounterControl) (h : IsSoundControl s) where
    pub write_mcounteren-IsSound : IsSoundControl (Counters.write_mcounteren value mask s)
    unfolding Counters.write_mcounteren
    write_mcounteren-IsSound = record {
      mcounteren = masked-lt s.mcounteren value mask h.mcounteren k;
      scounteren = h.scounteren;
      mcountinhibit = h.mcountinhibit;
    }

    pub write_scounteren-IsSound : IsSoundControl (Counters.write_scounteren value mask s)
    unfolding Counters.write_scounteren
    write_scounteren-IsSound = record {
      mcounteren = h.mcounteren;
      scounteren = masked-lt s.scounteren value mask h.scounteren k;
      mcountinhibit = h.mcountinhibit;
    }

    pub write_mcountinhibit-IsSound : IsSoundControl (Counters.write_mcountinhibit value mask s)
    unfolding Counters.write_mcountinhibit
    write_mcountinhibit-IsSound = record {
      mcounteren = h.mcounteren;
      scounteren = h.scounteren;
      mcountinhibit =
          bit_or-lt 32 _ _ (bit_and-lt 32 s.mcountinhibit (not_u32 mask) h.mcountinhibit)
            (bit_and-lt 32 _ (not_u32 0b10) (bit_and-lt 32 value mask k));
    }

-- The two halves of a counter.
abbrev pub cycles : Counters.Counters → ℕ
cycles s = s.mcycleh * 2 ^ 32 + s.mcycle

abbrev pub retired : Counters.Counters → ℕ
retired s = s.minstreth * 2 ^ 32 + s.minstret

carry_lem :
    (low high : ℕ)
    → low < 2 ^ 32
    → high < 2 ^ 32
    → Counters.carry (wrapping_add low 1) high * 2 ^ 32 + wrapping_add low 1
      ≡ (high * 2 ^ 32 + low + 1) % 2 ^ 64
carry_lem low high h k = ground arith

-- What a step does to one counter: it is skipped once after a write, stands still while it is
-- inhibited, and else goes up by one modulo 2 ^ 64.
abbrev pub counted : (skip inhibited : Bool) (before : ℕ) → ℕ
counted true inhibited before = before
counted false true before = before
counted false false before = (before + 1) % 2 ^ 64

-- The cycle counter after a step, and that the other counter is left alone and no skip stays.
pub increment_cycle_counter_lem :
    (control : Counters.CounterControl) (s : Counters.Counters)
    → IsSoundCounters s
    → (cycles (Counters.increment_cycle_counter control s)
        ≡ counted s.skip_next_mcycle_increment (bit control.mcountinhibit 0) (cycles s))
      × (retired (Counters.increment_cycle_counter control s) ≡ retired s)
      × ((Counters.increment_cycle_counter control s).skip_next_mcycle_increment ≡ false)
unfolding Counters.increment_cycle_counter
increment_cycle_counter_lem control s h = elim (Bool-cases s.skip_next_mcycle_increment) [
  | inl skip ↦ rw skip (refl, refl, refl)
  | inr go ↦ rw go (elim (Bool-cases (bit control.mcountinhibit 0)) [
    | inl stay ↦ rw stay (refl, refl, refl)
    | inr on ↦ rw on (carry_lem s.mcycle s.mcycleh h.mcycle h.mcycleh, refl, refl)
  ])
]

pub increment_instret_counter_lem :
    (control : Counters.CounterControl) (s : Counters.Counters)
    → IsSoundCounters s
    → (retired (Counters.increment_instret_counter control s)
        ≡ counted s.skip_next_minstret_increment (bit control.mcountinhibit 2) (retired s))
      × (cycles (Counters.increment_instret_counter control s) ≡ cycles s)
      × ((Counters.increment_instret_counter control s).skip_next_minstret_increment ≡ false)
unfolding Counters.increment_instret_counter
increment_instret_counter_lem control s h = elim (Bool-cases s.skip_next_minstret_increment) [
  | inl skip ↦ rw skip (refl, refl, refl)
  | inr go ↦ rw go (elim (Bool-cases (bit control.mcountinhibit 2)) [
    | inl stay ↦ rw stay (refl, refl, refl)
    | inr on ↦ rw on (carry_lem s.minstret s.minstreth h.minstret h.minstreth, refl, refl)
  ])
]

carry-lt : (low high : ℕ) → high < 2 ^ 32 → Counters.carry low high < 2 ^ 32
carry-lt low high h = ground arith

module _ (control : Counters.CounterControl) (s : Counters.Counters) (h : IsSoundCounters s) where
  pub increment_cycle_counter-IsSound : IsSoundCounters (Counters.increment_cycle_counter control s)
  unfolding Counters.increment_cycle_counter
  increment_cycle_counter-IsSound = go s.skip_next_mcycle_increment (bit control.mcountinhibit 0)
    where
      go :
          (skip inhibited : Bool)
          → IsSoundCounters (
              if skip
              then record s { skip_next_mcycle_increment = false }
              else if inhibited
              then s
              else record s {
                mcycle = wrapping_add s.mcycle 1;
                mcycleh = Counters.carry (wrapping_add s.mcycle 1) s.mcycleh;
              })
      go true inhibited = record {
        mcycle = h.mcycle;
        mcycleh = h.mcycleh;
        minstret = h.minstret;
        minstreth = h.minstreth;
      }
      go false true = h
      go false false = record {
        mcycle = omega arith;
        mcycleh = carry-lt _ s.mcycleh h.mcycleh;
        minstret = h.minstret;
        minstreth = h.minstreth;
      }

  pub increment_instret_counter-IsSound :
      IsSoundCounters (Counters.increment_instret_counter control s)
  unfolding Counters.increment_instret_counter
  increment_instret_counter-IsSound =
      go s.skip_next_minstret_increment (bit control.mcountinhibit 2)
    where
      go :
          (skip inhibited : Bool)
          → IsSoundCounters (
              if skip
              then record s { skip_next_minstret_increment = false }
              else if inhibited
              then s
              else record s {
                minstret = wrapping_add s.minstret 1;
                minstreth = Counters.carry (wrapping_add s.minstret 1) s.minstreth;
              })
      go true inhibited = record {
        mcycle = h.mcycle;
        mcycleh = h.mcycleh;
        minstret = h.minstret;
        minstreth = h.minstreth;
      }
      go false true = h
      go false false = record {
        mcycle = h.mcycle;
        mcycleh = h.mcycleh;
        minstret = omega arith;
        minstreth = carry-lt _ s.minstreth h.minstreth;
      }

-- A count of 64 bits goes up by one, unless it is inhibited or its skip is pending; the other counter
-- stays, and no skip is left.
abbrev pub IsCounted : Counters.CounterControl → Counters.Counters → Type 0
unfolding Counters.increment_cycle_counter Counters.increment_instret_counter
IsCounted control s =
    (cycles (Counters.increment_cycle_counter control s)
      ≡ counted s.skip_next_mcycle_increment (bit control.mcountinhibit 0) (cycles s))
    × (retired (Counters.increment_cycle_counter control s) ≡ retired s)
    × ((Counters.increment_cycle_counter control s).skip_next_mcycle_increment ≡ false)
    × (retired (Counters.increment_instret_counter control s)
        ≡ counted s.skip_next_minstret_increment (bit control.mcountinhibit 2) (retired s))
    × (cycles (Counters.increment_instret_counter control s) ≡ cycles s)
    × ((Counters.increment_instret_counter control s).skip_next_minstret_increment ≡ false)

-- Over halves that are words, one call of increment_cycle_counter adds one to the 64-bit cycle counter,
-- and one of increment_instret_counter adds one to the 64-bit instret counter, modulo 2 ^ 64, but for a
-- counter that is inhibited or that has just been written. Neither touches the other counter, and neither leaves a skip pending.
pub increment_counters_lem :
    (control : Counters.CounterControl) (s : Counters.Counters)
    → IsSoundCounters s
    → IsCounted control s
unfolding IsCounted
increment_counters_lem control s h =
    let (cycling, others, skips) = increment_cycle_counter_lem control s h in
    let (retiring, others', skips') = increment_instret_counter_lem control s h in
    (cycling, others, skips, retiring, others', skips')
