-- ===== src/Instruction/Range.antt =====
-- The operands of a decoded instruction are in range.
use redplanet.Base.{ℕ, ◌/◌, ◌^◌, ◌<◌, ◌≡◌, arith, Option, some, none, Option-cases, subst, inl, inr}
use redplanet.Base.Bits.{bit_and_mask}
use redplanet.Instruction.Types.{Instruction, Opcode, SysFunct, SysPriv}
use redplanet.Instruction.Fields.{
  opcode, rd, rs1, rs2, csr, shamt, i_funct, i_shfunct, i_sys, sys_priv, i_mem, i_width, s_width,
  r_funct, b_funct, amo_op, i_imm, s_imm, b_imm, u_imm, j_imm,
}
use redplanet.Instruction.Immediates.{immediates_of_formats}
use redplanet.Instruction.Decode.{
  Decoded, ok, err, or_illegal, decode, decode_opcode, decode_op_imm, decode_misc_mem,
  decode_system, decode_sys, decode_priv, of_priv,
}

-- The operands that an instruction can be decoded with: specifiers of registers, shift amounts of
-- five bits, and words.
abbrev pub IsInRange : Instruction → Type 0
IsInRange (Instruction.op_imm op dest src imm) = (dest < 32) × (src < 32) × (imm < 2 ^ 32)
IsInRange (Instruction.op_shift_imm op dest src shamt) = (dest < 32) × (src < 32) × (shamt < 32)
IsInRange (Instruction.auipc dest imm) = (dest < 32) × (imm < 2 ^ 32)
IsInRange (Instruction.lui dest imm) = (dest < 32) × (imm < 2 ^ 32)
IsInRange (Instruction.amo op aq rl src addr dest) = (src < 32) × (addr < 32) × (dest < 32)
IsInRange (Instruction.op op dest src1 src2) = (dest < 32) × (src1 < 32) × (src2 < 32)
IsInRange (Instruction.jal dest offset) = (dest < 32) × (offset < 2 ^ 32)
IsInRange (Instruction.jalr dest base offset) = (dest < 32) × (base < 32) × (offset < 2 ^ 32)
IsInRange (Instruction.branch condition src1 src2 offset) =
    (src1 < 32) × (src2 < 32) × (offset < 2 ^ 32)
IsInRange (Instruction.load width dest base offset) = (dest < 32) × (base < 32) × (offset < 2 ^ 32)
IsInRange (Instruction.store width src base offset) = (src < 32) × (base < 32) × (offset < 2 ^ 32)
IsInRange (Instruction.fence predecessor successor) = Unit
IsInRange Instruction.ecall = Unit
IsInRange Instruction.ebreak = Unit
IsInRange Instruction.sret = Unit
IsInRange Instruction.mret = Unit
IsInRange Instruction.wfi = Unit
IsInRange (Instruction.sfence_vma vaddr asid) = (vaddr < 32) × (asid < 32)
IsInRange (Instruction.csr op dest csr src) = (dest < 32) × (src < 32) × (csr < 2 ^ 12)
IsInRange (Instruction.csri op dest csr imm) = (dest < 32) × (imm < 32) × (csr < 2 ^ 12)

abbrev IsDecodedInRange : Decoded → Type 0
IsDecodedInRange (ok i) = IsInRange i
IsDecodedInRange (err e) = Unit

or_illegal-IsInRange :
    {A : Type 0} (o : Option A) (f : A → Instruction)
    → ((a : A) → IsInRange (f a))
    → IsDecodedInRange (or_illegal o f)
or_illegal-IsInRange none f h = tt
or_illegal-IsInRange (some a) f h = h a

specifier-lt : (raw : ℕ) → (rd raw < 32) × (rs1 raw < 32) × (rs2 raw < 32)
unfolding rd rs1 rs2
specifier-lt raw = (omega arith, omega arith, omega arith)

immediate-lt :
    (raw : ℕ)
    → raw < 2 ^ 32
    → (i_imm raw < 2 ^ 32)
      × (s_imm raw < 2 ^ 32)
      × (b_imm raw < 2 ^ 32)
      × (j_imm raw < 2 ^ 32)
      × (u_imm raw < 2 ^ 32)
immediate-lt raw h =
    let (i, s, b, j, u) = immediates_of_formats raw h in
    (
      rw i (ground arith),
      rw s (ground arith),
      rw b (ground arith),
      rw j (ground arith),
      rw u (omega arith),
    )

csr-lt : (raw : ℕ) → raw < 2 ^ 32 → csr raw < 2 ^ 12
unfolding csr
csr-lt raw h = omega arith

priv-IsInRange : (raw : ℕ) → IsDecodedInRange (decode_priv raw)
unfolding decode_priv
priv-IsInRange raw = or_illegal-IsInRange (sys_priv raw) _ go
  where
    go : (priv : SysPriv) → IsInRange (of_priv priv raw)
    go SysPriv.ecall = tt
    go SysPriv.ebreak = tt
    go SysPriv.sret = tt
    go SysPriv.mret = tt
    go SysPriv.wfi = tt
    go SysPriv.sfence_vma = ((specifier-lt raw).1, (specifier-lt raw).2)

sys-IsInRange : (sys : SysFunct) (raw : ℕ) → raw < 2 ^ 32 → IsDecodedInRange (decode_sys sys raw)
unfolding decode_sys
sys-IsInRange SysFunct.priv raw h = priv-IsInRange raw
sys-IsInRange SysFunct.csrrw raw h = let (d, s, _) = specifier-lt raw in (d, s, csr-lt raw h)
sys-IsInRange SysFunct.csrrs raw h = let (d, s, _) = specifier-lt raw in (d, s, csr-lt raw h)
sys-IsInRange SysFunct.csrrc raw h = let (d, s, _) = specifier-lt raw in (d, s, csr-lt raw h)
sys-IsInRange SysFunct.csrrwi raw h = let (d, s, _) = specifier-lt raw in (d, s, csr-lt raw h)
sys-IsInRange SysFunct.csrrsi raw h = let (d, s, _) = specifier-lt raw in (d, s, csr-lt raw h)
sys-IsInRange SysFunct.csrrci raw h = let (d, s, _) = specifier-lt raw in (d, s, csr-lt raw h)

shamt-lt : (raw : ℕ) → shamt raw < 32
unfolding shamt
shamt-lt raw = omega (arith, bit_and_mask 5 (raw / 2 ^ 20))

op_imm-IsInRange : (raw : ℕ) → raw < 2 ^ 32 → IsDecodedInRange (decode_op_imm raw)
unfolding decode_op_imm
op_imm-IsInRange raw h =
    let (d, s, _) = specifier-lt raw in
    elim (Option-cases (i_funct raw)) [
      | inr (op, e) ↦ rw (e, IsDecodedInRange) (d, s, (immediate-lt raw h).0)
      | inl e ↦
          rw (e, IsDecodedInRange)
            (or_illegal-IsInRange (i_shfunct raw) _ (λ op. (d, s, shamt-lt raw)))
    ]

system-IsInRange : (raw : ℕ) → raw < 2 ^ 32 → IsDecodedInRange (decode_system raw)
unfolding decode_system
system-IsInRange raw h = elim (Option-cases (i_sys raw)) [
  | inl e ↦ rw (e, IsDecodedInRange) tt
  | inr (sys, e) ↦ rw (e, IsDecodedInRange) (sys-IsInRange sys raw h)
]

opcode-IsInRange :
    (code : Opcode) (raw : ℕ) → raw < 2 ^ 32 → IsDecodedInRange (decode_opcode code raw)
unfolding decode_opcode decode_misc_mem
opcode-IsInRange Opcode.op_imm raw h = op_imm-IsInRange raw h
opcode-IsInRange Opcode.auipc raw h = ((specifier-lt raw).0, (immediate-lt raw h).4)
opcode-IsInRange Opcode.lui raw h = ((specifier-lt raw).0, (immediate-lt raw h).4)
opcode-IsInRange Opcode.amo raw h =
    let (d, s1, s2) = specifier-lt raw in or_illegal-IsInRange (amo_op raw) _ (λ op. (s2, s1, d))
opcode-IsInRange Opcode.op raw h = or_illegal-IsInRange (r_funct raw) _ (λ op. specifier-lt raw)
opcode-IsInRange Opcode.jal raw h = ((specifier-lt raw).0, (immediate-lt raw h).3)
opcode-IsInRange Opcode.jalr raw h =
    ((specifier-lt raw).0, (specifier-lt raw).1, (immediate-lt raw h).0)
opcode-IsInRange Opcode.branch raw h =
    or_illegal-IsInRange (b_funct raw) _
      (λ op. ((specifier-lt raw).1, (specifier-lt raw).2, (immediate-lt raw h).2))
opcode-IsInRange Opcode.load raw h =
    or_illegal-IsInRange (i_width raw) _
      (λ op. ((specifier-lt raw).0, (specifier-lt raw).1, (immediate-lt raw h).0))
opcode-IsInRange Opcode.store raw h =
    or_illegal-IsInRange (s_width raw) _
      (λ op. ((specifier-lt raw).2, (specifier-lt raw).1, (immediate-lt raw h).1))
opcode-IsInRange Opcode.misc_mem raw h = or_illegal-IsInRange (i_mem raw) _ (λ op. tt)
opcode-IsInRange Opcode.system raw h = system-IsInRange raw h

decoded-IsInRange : (raw : ℕ) → raw < 2 ^ 32 → IsDecodedInRange (decode raw)
unfolding decode
decoded-IsInRange raw h = elim (Option-cases (opcode raw)) [
  | inl e ↦ rw (e, IsDecodedInRange) tt
  | inr (code, e) ↦ rw (e, IsDecodedInRange) (opcode-IsInRange code raw h)
]

-- The instruction decoded from a 32-bit word has its operands in range.
pub decode-IsInRange : (raw : ℕ) (i : Instruction) → raw < 2 ^ 32 → decode raw ≡ ok i → IsInRange i
decode-IsInRange raw i h e = subst IsDecodedInRange e (decoded-IsInRange raw h)
