-- ===== src/Instruction/RoundTrip.antt =====
-- The decoder inverts the specification's encoding.
use redplanet.Base.{◌+◌, ◌*◌, ◌≡◌, refl, ◌∙◌, arith, from_bool}
use redplanet.Instruction.Types.{Instruction}
use redplanet.Instruction.Fields.{opcode, rd, rs1, rs2, i_sys, sys_priv, funct3, funct7, funct12}
use redplanet.Instruction.Decode.{ok, decode, decode_priv}
use redplanet.Instruction.Encode.{
  encode, IsEncodable, reg_imm_f3, shift_f7, shift_f3, amo_f5, reg_reg_f7, reg_reg_f3, branch_f3,
  load_f3, store_f3, csr_f3,
}
use redplanet.Instruction.Functs.{r_type-HasFields}
use redplanet.Instruction.Steps.{
  decode-op_imm, decode-op_shift_imm, decode-auipc, decode-lui, decode-jal, decode-jalr, decode-amo,
  decode-op, decode-branch, decode-load, decode-store, i_sys_of_csr, i_sys_of_csri, sfence_vma_of,
  decode-system, decode-fence,
}
use redplanet.Instruction.Words.{
  reg_imm_f3-lt, shift-lt, amo_f5-lt, reg_reg-lt, branch_f3-lt, load_f3-lt, store_f3-lt, csr_f3-lt,
  below_4096, i_type-fields, s_type-fields, b_type-fields, u_type-fields, j_type-fields,
  from_bool-le, amo_flags, fence_flags, shamt-rs2,
}

-- An instruction whose operands fit their fields is what the decoder makes of its encoding.
pub decode-encode : (i : Instruction) → IsEncodable i → decode (encode i) ≡ ok i
unfolding encode
decode-encode (Instruction.op_imm op dest src imm) h =
    let (f, e, c) =
      i_type-fields imm src (reg_imm_f3 op) dest 0x13 h.1 (reg_imm_f3-lt op) h.0 (omega arith) in
    decode-op_imm _ op f.code_eq f.f3_eq ∙ cc (f.rd_eq, f.rs1_eq, e, h.2)
decode-encode (Instruction.op_shift_imm op dest src imm) h =
    let f =
      r_type-HasFields (shift_f7 op) imm src (shift_f3 op) dest 0x13 (shift-lt op).0 h.2 h.1
        (shift-lt op).1 h.0 (omega arith) in
    decode-op_shift_imm _ op f.code_eq f.f7_eq f.f3_eq
    ∙ cc
        (f.rd_eq, f.rs1_eq, f.rs2_eq, shamt-rs2 (encode (Instruction.op_shift_imm op dest src imm)))
decode-encode (Instruction.auipc dest imm) h =
    let (c, d, e) = u_type-fields imm dest 0x17 h.0 (omega arith) h.1 h.2 in
    decode-auipc _ c ∙ cc (d, e)
decode-encode (Instruction.lui dest imm) h =
    let (c, d, e) = u_type-fields imm dest 0x37 h.0 (omega arith) h.1 h.2 in
    decode-lui _ c ∙ cc (d, e)
decode-encode (Instruction.amo op aq rl src addr dest) h =
    let f =
      r_type-HasFields (amo_f5 op * 4 + from_bool aq * 2 + from_bool rl) src addr 2 dest 0x2F
        (omega (arith, amo_f5-lt op, from_bool-le aq, from_bool-le rl)) h.0 h.1 (omega arith) h.2
        (omega arith) in
    let g = amo_flags (amo_f5 op) src addr dest aq rl (amo_f5-lt op) h.0 h.1 h.2 in
    decode-amo _ op f.code_eq (omega (arith, f.f7_eq, from_bool-le aq, from_bool-le rl)) f.f3_eq
    ∙ cc (f.rd_eq, f.rs1_eq, f.rs2_eq, g.0, g.1)
decode-encode (Instruction.op op dest src1 src2) h =
    let f =
      r_type-HasFields (reg_reg_f7 op) src2 src1 (reg_reg_f3 op) dest 0x33 (reg_reg-lt op).0 h.2 h.1
        (reg_reg-lt op).1 h.0 (omega arith) in
    decode-op _ op f.code_eq f.f7_eq f.f3_eq ∙ cc (f.rd_eq, f.rs1_eq, f.rs2_eq)
decode-encode (Instruction.jal dest offset) h =
    let (c, d, e) = j_type-fields offset dest 0x6F h.0 (omega arith) h.1 in
    decode-jal _ c ∙ cc (d, e, h.2)
decode-encode (Instruction.jalr dest base offset) h =
    let (f, e, c) = i_type-fields offset base 0 dest 0x67 h.1 (omega arith) h.0 (omega arith) in
    decode-jalr _ f.code_eq ∙ cc (f.rd_eq, f.rs1_eq, e, h.2)
decode-encode (Instruction.branch op src1 src2 offset) h =
    let (f, e) =
      b_type-fields offset src2 src1 (branch_f3 op) 0x63 h.1 h.0 (branch_f3-lt op) (omega arith)
        h.2 in
    decode-branch _ op f.code_eq f.f3_eq ∙ cc (f.rs1_eq, f.rs2_eq, e, h.3)
decode-encode (Instruction.load op dest base offset) h =
    let (f, e, c) =
      i_type-fields offset base (load_f3 op) dest 0x03 h.1 (load_f3-lt op) h.0 (omega arith) in
    decode-load _ op f.code_eq f.f3_eq ∙ cc (f.rd_eq, f.rs1_eq, e, h.2)
decode-encode (Instruction.store op src base offset) h =
    let (f, e) =
      s_type-fields offset src base (store_f3 op) 0x23 h.0 h.1 (store_f3-lt op) (omega arith) in
    decode-store _ op f.code_eq f.f3_eq ∙ cc (f.rs1_eq, f.rs2_eq, e, h.2)
decode-encode (Instruction.fence p q) h =
    let (c, f3, e, g) = fence_flags p q in decode-fence _ c f3 ∙ cc (e, g)
decode-encode (Instruction.sfence_vma vaddr asid) h =
    let f =
      r_type-HasFields 9 asid vaddr 0 0 0x73 (omega arith) h.1 h.0 (omega arith) (omega arith)
        (omega arith) in
    decode-system _ f.code_eq (sfence_vma_of _ f.f3_eq f.rd_eq f.f7_eq) ∙ cc (f.rs1_eq, f.rs2_eq)
decode-encode (Instruction.csr op dest spec src) h =
    let (f, e, c) =
      i_type-fields spec src (csr_f3 op) dest 0x73 h.2 (omega (arith, csr_f3-lt op)) h.0
        (omega arith) in
    decode-system _ f.code_eq (i_sys_of_csr _ op f.f3_eq)
    ∙ cc (f.rd_eq, f.rs1_eq, c, below_4096 spec h.1)
decode-encode (Instruction.csri op dest spec imm) h =
    let (f, e, c) =
      i_type-fields spec imm (csr_f3 op + 4) dest 0x73 h.2 (omega (arith, csr_f3-lt op)) h.0
        (omega arith) in
    decode-system _ f.code_eq (i_sys_of_csri _ op f.f3_eq)
    ∙ cc (f.rd_eq, f.rs1_eq, c, below_4096 spec h.1)
decode-encode Instruction.ecall h =
    unfold decode opcode i_sys sys_priv decode_priv rd rs1 rs2 funct3 funct7 funct12 in refl
decode-encode Instruction.ebreak h =
    unfold decode opcode i_sys sys_priv decode_priv rd rs1 rs2 funct3 funct7 funct12 in refl
decode-encode Instruction.sret h =
    unfold decode opcode i_sys sys_priv decode_priv rd rs1 rs2 funct3 funct7 funct12 in refl
decode-encode Instruction.mret h =
    unfold decode opcode i_sys sys_priv decode_priv rd rs1 rs2 funct3 funct7 funct12 in refl
decode-encode Instruction.wfi h =
    unfold decode opcode i_sys sys_priv decode_priv rd rs1 rs2 funct3 funct7 funct12 in refl
