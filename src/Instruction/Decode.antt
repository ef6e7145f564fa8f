-- ===== src/Instruction/Decode.antt =====
-- `Instruction::decode`, with one function for each opcode that looks further.
use redplanet.Base.{ℕ, ◌==◌, Option, some, none}
use redplanet.Instruction.Types.{
  Instruction, DecodeError, Opcode, SysFunct, SysPriv, CsrOp, FenceOrderCombination,
}
use redplanet.Instruction.Fields.{
  bits, opcode, rd, rs1, rs2, csr, shamt, amo_rl, amo_aq, i_funct, i_shfunct, i_sys, sys_priv,
  i_mem, i_width, s_width, r_funct, b_funct, amo_op, i_imm, s_imm, b_imm, u_imm, j_imm,
}

pub data Decoded : Type 0 where
  ok : Instruction → Decoded
  err : DecodeError → Decoded

-- `match option { Some(x) => Ok(f x), None => Err(IllegalInstruction) }`
abbrev pub or_illegal : {A : Type 0} → Option A → (A → Instruction) → Decoded
or_illegal (some a) f = ok (f a)
or_illegal none f = err DecodeError.illegal_instruction

unfoldable pub decode_op_imm : ℕ → Decoded
decode_op_imm raw = elim (i_funct raw) [
  | some op ↦ ok (Instruction.op_imm op (rd raw) (rs1 raw) (i_imm raw))
  | none ↦
      or_illegal (i_shfunct raw) λ op. Instruction.op_shift_imm op (rd raw) (rs1 raw) (shamt raw)
]

-- The set of four flags whose first is bit `hi`.
abbrev pub fence_order : ℕ → ℕ → ℕ → ℕ → ℕ → FenceOrderCombination
fence_order raw i o r w = record {
  device_input = bits raw i 1 == 1;
  device_output = bits raw o 1 == 1;
  memory_reads = bits raw r 1 == 1;
  memory_writes = bits raw w 1 == 1;
}

-- The fields that a FENCE leaves unused are ignored.
unfoldable pub decode_misc_mem : ℕ → Decoded
decode_misc_mem raw =
    or_illegal (i_mem raw)
      λ mem_funct. Instruction.fence (fence_order raw 27 26 25 24) (fence_order raw 23 22 21 20)

abbrev pub of_priv : SysPriv → ℕ → Instruction
of_priv SysPriv.ecall raw = Instruction.ecall
of_priv SysPriv.ebreak raw = Instruction.ebreak
of_priv SysPriv.sret raw = Instruction.sret
of_priv SysPriv.mret raw = Instruction.mret
of_priv SysPriv.wfi raw = Instruction.wfi
of_priv SysPriv.sfence_vma raw = Instruction.sfence_vma (rs1 raw) (rs2 raw)

unfoldable pub decode_priv : ℕ → Decoded
decode_priv raw = or_illegal (sys_priv raw) (λ priv. of_priv priv raw)

unfoldable pub decode_sys : SysFunct → ℕ → Decoded
unfolding decode_priv
decode_sys SysFunct.priv raw = decode_priv raw
decode_sys SysFunct.csrrw raw = ok (Instruction.csr CsrOp.read_write (rd raw) (csr raw) (rs1 raw))
decode_sys SysFunct.csrrs raw = ok (Instruction.csr CsrOp.read_set (rd raw) (csr raw) (rs1 raw))
decode_sys SysFunct.csrrc raw = ok (Instruction.csr CsrOp.read_clear (rd raw) (csr raw) (rs1 raw))
decode_sys SysFunct.csrrwi raw = ok (Instruction.csri CsrOp.read_write (rd raw) (csr raw) (rs1 raw))
decode_sys SysFunct.csrrsi raw = ok (Instruction.csri CsrOp.read_set (rd raw) (csr raw) (rs1 raw))
decode_sys SysFunct.csrrci raw = ok (Instruction.csri CsrOp.read_clear (rd raw) (csr raw) (rs1 raw))

unfoldable pub decode_system : ℕ → Decoded
unfolding decode_sys
decode_system raw = elim (i_sys raw) [
  | some sys ↦ decode_sys sys raw
  | none ↦ err DecodeError.illegal_instruction
]

unfoldable pub decode_opcode : Opcode → ℕ → Decoded
unfolding decode_op_imm decode_misc_mem decode_system
decode_opcode Opcode.op_imm raw = decode_op_imm raw
decode_opcode Opcode.auipc raw = ok (Instruction.auipc (rd raw) (u_imm raw))
decode_opcode Opcode.lui raw = ok (Instruction.lui (rd raw) (u_imm raw))
decode_opcode Opcode.amo raw =
    or_illegal (amo_op raw)
      λ op. Instruction.amo op (amo_aq raw) (amo_rl raw) (rs2 raw) (rs1 raw) (rd raw)
decode_opcode Opcode.op raw =
    or_illegal (r_funct raw) λ op. Instruction.op op (rd raw) (rs1 raw) (rs2 raw)
decode_opcode Opcode.jal raw = ok (Instruction.jal (rd raw) (j_imm raw))
decode_opcode Opcode.jalr raw = ok (Instruction.jalr (rd raw) (rs1 raw) (i_imm raw))
decode_opcode Opcode.branch raw =
    or_illegal (b_funct raw)
      λ condition. Instruction.branch condition (rs1 raw) (rs2 raw) (b_imm raw)
decode_opcode Opcode.load raw =
    or_illegal (i_width raw) λ width. Instruction.load width (rd raw) (rs1 raw) (i_imm raw)
decode_opcode Opcode.store raw =
    or_illegal (s_width raw) λ width. Instruction.store width (rs2 raw) (rs1 raw) (s_imm raw)
decode_opcode Opcode.misc_mem raw = decode_misc_mem raw
decode_opcode Opcode.system raw = decode_system raw

unfoldable pub decode : ℕ → Decoded
unfolding decode_opcode
decode raw = elim (opcode raw) [
  | some code ↦ decode_opcode code raw
  | none ↦ err DecodeError.unsupported_opcode
]
