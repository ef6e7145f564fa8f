-- ===== src/Core/Execute/Sound/Generic.antt =====
-- The generic implementations keep the invariant of the core.
use redplanet.Base.{
  ℕ, ◌^◌, ◌<◌, ◌≡◌, arith, inl, inr, Bool, true, false, ltb, Bool-cases, wrapping_add,
}
use redplanet.Base.Bits.{bit_and_mask}
use redplanet.Registers.{Registers, x, set_pc}
use redplanet.Registers.Laws.{set_x-IsValid, set_pc-IsValid}
use redplanet.Core.Machine.{Core}
use redplanet.Core.Execute.{
  is_word_aligned, next, reg_imm_op, reg_shamt_op, reg_reg_op, jump_op, cond_branch,
}
use redplanet.Core.Execute.Sound.{
  Contract, IsCodeAddress, IsSoundCore, IsSoundOutcome, next-IsSound, write-IsSound, set_x-pc,
}

aligned_address : (a : ℕ) → a < 2 ^ 32 → is_word_aligned a ≡ true → IsCodeAddress a
aligned_address a h e = record { word = h; aligned = ground (arith, e, bit_and_mask 2 a) }

module _ {W : Type 0} {R : Contract W} where
  pub stay-IsSound : (c : Core W) → IsSoundCore R c → IsSoundOutcome R (next c.registers c)
  stay-IsSound c s = next-IsSound c.registers c s.valid s.pc s.hart

  pub reg_imm_op-IsSound :
      (dest src imm : ℕ) (op : ℕ → ℕ → ℕ) (c : Core W)
      → IsSoundCore R c
      → dest < 32
      → ((a : ℕ) → a < 2 ^ 32 → op a imm < 2 ^ 32)
      → IsSoundOutcome R (reg_imm_op dest src imm op c)
  unfolding reg_imm_op
  reg_imm_op-IsSound dest src imm op c s h k =
      write-IsSound c dest _ s h (k (x c.registers src) (s.valid.words src))

  pub reg_shamt_op-IsSound :
      (dest src shamt : ℕ) (op : ℕ → ℕ → ℕ) (c : Core W)
      → IsSoundCore R c
      → dest < 32
      → shamt < 32
      → ((a : ℕ) → a < 2 ^ 32 → op a shamt < 2 ^ 32)
      → IsSoundOutcome R (reg_shamt_op dest src shamt op c)
  unfolding reg_shamt_op
  reg_shamt_op-IsSound dest src shamt op c s h hs k =
      rw (in_range shamt hs)
        (write-IsSound c dest _ s h (k (x c.registers src) (s.valid.words src)))
    where
      in_range : (n : ℕ) → n < 32 → ltb 31 n ≡ false
      in_range n h = ground (arith, h)

  pub reg_reg_op-IsSound :
      (dest src1 src2 : ℕ) (op : ℕ → ℕ → ℕ) (c : Core W)
      → IsSoundCore R c
      → dest < 32
      → ((a b : ℕ) → a < 2 ^ 32 → b < 2 ^ 32 → op a b < 2 ^ 32)
      → IsSoundOutcome R (reg_reg_op dest src1 src2 op c)
  unfolding reg_reg_op
  reg_reg_op-IsSound dest src1 src2 op c s h k =
      write-IsSound c dest _ s h
        (k (x c.registers src1) (x c.registers src2) (s.valid.words src1) (s.valid.words src2))

  pub jump_op-IsSound :
      (dest : ℕ) (target : Registers → ℕ) (c : Core W)
      → IsSoundCore R c
      → dest < 32
      → target c.registers < 2 ^ 32
      → IsSoundOutcome R (jump_op dest target c)
  unfolding jump_op set_pc
  jump_op-IsSound dest target c s h k = elim (Bool-cases (is_word_aligned (target c.registers))) [
    | inr off ↦ rw off (k, s)
    | inl on ↦ rw on (record {
      valid = set_x-IsValid _ dest _ (set_pc-IsValid c.registers _ s.valid) h (omega arith);
      pc =
          rw
            (set_x-pc (set_pc c.registers (target c.registers)) dest
              (wrapping_add c.registers.pc 4))
            (aligned_address (target c.registers) k on);
      hart = s.hart;
    })
  ]

  pub cond_branch-IsSound :
      (src1 src2 offset : ℕ) (predicate : ℕ → ℕ → Bool) (c : Core W)
      → IsSoundCore R c
      → IsSoundOutcome R (cond_branch src1 src2 offset predicate c)
  unfolding cond_branch set_pc
  cond_branch-IsSound src1 src2 offset predicate c s =
      elim (Bool-cases (predicate (x c.registers src1) (x c.registers src2))) [
        | inr no_branch ↦ rw no_branch (stay-IsSound c s)
        | inl taken ↦
            rw taken (elim (Bool-cases (is_word_aligned (wrapping_add c.registers.pc offset))) [
              | inr off ↦ rw off (omega arith, s)
              | inl on ↦ rw on (record {
                valid = set_pc-IsValid c.registers _ s.valid;
                pc = aligned_address (wrapping_add c.registers.pc offset) (omega arith) on;
                hart = s.hart;
              })
            ])
      ]
