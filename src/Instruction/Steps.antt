-- ===== src/Instruction/Steps.antt =====
-- The decoder on a word whose fields are known: one lemma for each kind of instruction.
use redplanet.Base.{ℕ, ◌+◌, ◌/◌, ◌%◌, ◌^◌, ◌≡◌, refl, ◌∙◌, some}
use redplanet.Instruction.Types.{
  Instruction, Opcode, SysPriv, CsrOp, RegImmOp, RegShiftImmOp, AmoOp, RegRegOp, BranchCondition,
  LoadWidth, StoreWidth,
}
use redplanet.Instruction.Fields.{
  opcode, rd, rs1, rs2, csr, shamt, amo_rl, amo_aq, i_sys, sys_priv, i_mem, i_imm, s_imm, b_imm,
  u_imm, j_imm, funct3, funct7,
}
use redplanet.Instruction.Decode.{
  Decoded, ok, decode, decode_opcode, decode_op_imm, decode_system, decode_misc_mem, decode_priv,
  or_illegal, fence_order,
}
use redplanet.Instruction.Encode.{
  reg_imm_f3, shift_f7, shift_f3, amo_f5, reg_reg_f7, reg_reg_f3, branch_f3, load_f3, store_f3,
  csr_f3,
}
use redplanet.Instruction.Functs.{
  decode_by_opcode, i_funct_of, r_funct_of, b_funct_of, i_width_of, s_width_of, amo_op_of,
  i_shfunct_of,
}

pub decode-op_imm :
    (raw : ℕ) (op : RegImmOp)
    → raw % 2 ^ 7 ≡ 0x13
    → funct3 raw ≡ reg_imm_f3 op
    → decode raw ≡ ok (Instruction.op_imm op (rd raw) (rs1 raw) (i_imm raw))
unfolding decode_opcode
decode-op_imm raw op e p =
    decode_by_opcode raw 0x13 Opcode.op_imm e (unfold opcode in refl)
    ∙ rw (i_funct_of raw op p, decode_op_imm)

pub decode-op_shift_imm :
    (raw : ℕ) (op : RegShiftImmOp)
    → raw % 2 ^ 7 ≡ 0x13
    → funct7 raw ≡ shift_f7 op
    → funct3 raw ≡ shift_f3 op
    → decode raw ≡ ok (Instruction.op_shift_imm op (rd raw) (rs1 raw) (shamt raw))
unfolding decode_opcode
decode-op_shift_imm raw op e q p =
    decode_by_opcode raw 0x13 Opcode.op_imm e (unfold opcode in refl)
    ∙ rw ((i_shfunct_of raw op q p).0, (i_shfunct_of raw op q p).1, decode_op_imm, or_illegal)

pub decode-auipc :
    (raw : ℕ) → raw % 2 ^ 7 ≡ 0x17 → decode raw ≡ ok (Instruction.auipc (rd raw) (u_imm raw))
unfolding decode_opcode
decode-auipc raw e = decode_by_opcode raw 0x17 Opcode.auipc e (unfold opcode in refl)

pub decode-lui :
    (raw : ℕ) → raw % 2 ^ 7 ≡ 0x37 → decode raw ≡ ok (Instruction.lui (rd raw) (u_imm raw))
unfolding decode_opcode
decode-lui raw e = decode_by_opcode raw 0x37 Opcode.lui e (unfold opcode in refl)

pub decode-jal :
    (raw : ℕ) → raw % 2 ^ 7 ≡ 0x6F → decode raw ≡ ok (Instruction.jal (rd raw) (j_imm raw))
unfolding decode_opcode
decode-jal raw e = decode_by_opcode raw 0x6F Opcode.jal e (unfold opcode in refl)

pub decode-jalr :
    (raw : ℕ)
    → raw % 2 ^ 7 ≡ 0x67
    → decode raw ≡ ok (Instruction.jalr (rd raw) (rs1 raw) (i_imm raw))
unfolding decode_opcode
decode-jalr raw e = decode_by_opcode raw 0x67 Opcode.jalr e (unfold opcode in refl)

pub decode-amo :
    (raw : ℕ) (op : AmoOp)
    → raw % 2 ^ 7 ≡ 0x2F
    → funct7 raw / 2 ^ 2 ≡ amo_f5 op
    → funct3 raw ≡ 2
    → decode raw ≡ ok (Instruction.amo op (amo_aq raw) (amo_rl raw) (rs2 raw) (rs1 raw) (rd raw))
unfolding decode_opcode
decode-amo raw op e q p =
    decode_by_opcode raw 0x2F Opcode.amo e (unfold opcode in refl)
    ∙ rw (amo_op_of raw op q p, or_illegal)

pub decode-op :
    (raw : ℕ) (op : RegRegOp)
    → raw % 2 ^ 7 ≡ 0x33
    → funct7 raw ≡ reg_reg_f7 op
    → funct3 raw ≡ reg_reg_f3 op
    → decode raw ≡ ok (Instruction.op op (rd raw) (rs1 raw) (rs2 raw))
unfolding decode_opcode
decode-op raw op e q p =
    decode_by_opcode raw 0x33 Opcode.op e (unfold opcode in refl)
    ∙ rw (r_funct_of raw op q p, or_illegal)

pub decode-branch :
    (raw : ℕ) (op : BranchCondition)
    → raw % 2 ^ 7 ≡ 0x63
    → funct3 raw ≡ branch_f3 op
    → decode raw ≡ ok (Instruction.branch op (rs1 raw) (rs2 raw) (b_imm raw))
unfolding decode_opcode
decode-branch raw op e p =
    decode_by_opcode raw 0x63 Opcode.branch e (unfold opcode in refl)
    ∙ rw (b_funct_of raw op p, or_illegal)

pub decode-load :
    (raw : ℕ) (op : LoadWidth)
    → raw % 2 ^ 7 ≡ 0x03
    → funct3 raw ≡ load_f3 op
    → decode raw ≡ ok (Instruction.load op (rd raw) (rs1 raw) (i_imm raw))
unfolding decode_opcode
decode-load raw op e p =
    decode_by_opcode raw 0x03 Opcode.load e (unfold opcode in refl)
    ∙ rw (i_width_of raw op p, or_illegal)

pub decode-store :
    (raw : ℕ) (op : StoreWidth)
    → raw % 2 ^ 7 ≡ 0x23
    → funct3 raw ≡ store_f3 op
    → decode raw ≡ ok (Instruction.store op (rs2 raw) (rs1 raw) (s_imm raw))
unfolding decode_opcode
decode-store raw op e p =
    decode_by_opcode raw 0x23 Opcode.store e (unfold opcode in refl)
    ∙ rw (s_width_of raw op p, or_illegal)

pub i_sys_of_csr :
    (raw : ℕ) (op : CsrOp)
    → funct3 raw ≡ csr_f3 op
    → decode_system raw ≡ ok (Instruction.csr op (rd raw) (csr raw) (rs1 raw))
unfolding decode_system i_sys
i_sys_of_csr raw CsrOp.read_write p = rw (p, decode_system)
i_sys_of_csr raw CsrOp.read_set p = rw (p, decode_system)
i_sys_of_csr raw CsrOp.read_clear p = rw (p, decode_system)

pub i_sys_of_csri :
    (raw : ℕ) (op : CsrOp)
    → funct3 raw ≡ csr_f3 op + 4
    → decode_system raw ≡ ok (Instruction.csri op (rd raw) (csr raw) (rs1 raw))
unfolding decode_system i_sys
i_sys_of_csri raw CsrOp.read_write p = rw (p, decode_system)
i_sys_of_csri raw CsrOp.read_set p = rw (p, decode_system)
i_sys_of_csri raw CsrOp.read_clear p = rw (p, decode_system)

-- The privileged instructions, from what the two tests before them return.
pub decode_system_priv :
    (raw : ℕ) {r : Decoded} → funct3 raw ≡ 0 → decode_priv raw ≡ r → decode_system raw ≡ r
unfolding decode_system i_sys
decode_system_priv raw p e = rw (p, decode_system) e

pub sfence_vma_of :
    (raw : ℕ)
    → funct3 raw ≡ 0
    → rd raw ≡ 0
    → funct7 raw ≡ 9
    → decode_system raw ≡ ok (Instruction.sfence_vma (rs1 raw) (rs2 raw))
unfolding decode_priv
sfence_vma_of raw p d f = decode_system_priv raw p (rw (found, or_illegal))
  where
    found : sys_priv raw ≡ some SysPriv.sfence_vma
    found = unfold sys_priv in rw (d, f)

pub decode-system :
    (raw : ℕ) {r : Decoded} → raw % 2 ^ 7 ≡ 0x73 → decode_system raw ≡ r → decode raw ≡ r
unfolding decode_opcode
decode-system raw e p = decode_by_opcode raw 0x73 Opcode.system e (unfold opcode in refl) ∙ p

pub decode-fence :
    (raw : ℕ)
    → raw % 2 ^ 7 ≡ 0x0F
    → funct3 raw ≡ 0
    → decode raw
      ≡ ok (Instruction.fence (fence_order raw 27 26 25 24) (fence_order raw 23 22 21 20))
unfolding decode_opcode decode_misc_mem i_mem
decode-fence raw e p = decode_by_opcode raw 0x0F Opcode.misc_mem e (unfold opcode in refl) ∙ rw p
