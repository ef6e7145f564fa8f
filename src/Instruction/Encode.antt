-- ===== src/Instruction/Encode.antt =====
-- The RISC-V encoding of the supported instructions, written from the format tables of the
-- specification. It is independent of the decoder, which `RoundTrip` compares it with.
use redplanet.Base.{ℕ, ◌+◌, ◌*◌, ◌/◌, ◌%◌, ◌^◌, ◌<◌, ◌≡◌, from_bool}
use redplanet.Instruction.Types.{
  Instruction, RegImmOp, RegShiftImmOp, AmoOp, RegRegOp, BranchCondition, LoadWidth, StoreWidth,
  CsrOp, FenceOrderCombination,
}
use redplanet.Instruction.Immediates.{sign_extend}

-- The R format; the others put parts of an immediate in these places.
abbrev pub r_type : (f7 rs2 rs1 f3 rd code : ℕ) → ℕ
r_type f7 rs2 rs1 f3 rd code =
    f7 * 2 ^ 25 + rs2 * 2 ^ 20 + rs1 * 2 ^ 15 + f3 * 2 ^ 12 + rd * 2 ^ 7 + code

abbrev pub i_type : (imm rs1 f3 rd code : ℕ) → ℕ
i_type imm rs1 f3 rd code = r_type (imm / 2 ^ 5 % 2 ^ 7) (imm % 2 ^ 5) rs1 f3 rd code

abbrev pub s_type : (imm rs2 rs1 f3 code : ℕ) → ℕ
s_type imm rs2 rs1 f3 code = r_type (imm / 2 ^ 5 % 2 ^ 7) rs2 rs1 f3 (imm % 2 ^ 5) code

-- imm[12|10:5] above, imm[4:1|11] below
abbrev pub b_type : (imm rs2 rs1 f3 code : ℕ) → ℕ
b_type imm rs2 rs1 f3 code =
    r_type (imm / 2 ^ 12 % 2 * 2 ^ 6 + imm / 2 ^ 5 % 2 ^ 6) rs2 rs1 f3
      (imm / 2 % 2 ^ 4 * 2 + imm / 2 ^ 11 % 2) code

abbrev pub u_type : (imm rd code : ℕ) → ℕ
u_type imm rd code = imm / 2 ^ 12 % 2 ^ 20 * 2 ^ 12 + rd * 2 ^ 7 + code

-- imm[20|10:1|11|19:12]
abbrev pub j_type : (imm rd code : ℕ) → ℕ
j_type imm rd code =
    imm / 2 ^ 20 % 2 * 2 ^ 31
    + imm / 2 % 2 ^ 10 * 2 ^ 21
    + imm / 2 ^ 11 % 2 * 2 ^ 20
    + imm / 2 ^ 12 % 2 ^ 8 * 2 ^ 12
    + rd * 2 ^ 7
    + code

abbrev pub reg_imm_f3 : RegImmOp → ℕ
reg_imm_f3 RegImmOp.addi = 0
reg_imm_f3 RegImmOp.slti = 2
reg_imm_f3 RegImmOp.sltiu = 3
reg_imm_f3 RegImmOp.xori = 4
reg_imm_f3 RegImmOp.ori = 6
reg_imm_f3 RegImmOp.andi = 7

abbrev pub shift_f7 : RegShiftImmOp → ℕ
shift_f7 RegShiftImmOp.srai = 32
shift_f7 _ = 0

abbrev pub shift_f3 : RegShiftImmOp → ℕ
shift_f3 RegShiftImmOp.slli = 1
shift_f3 _ = 5

abbrev pub amo_f5 : AmoOp → ℕ
amo_f5 AmoOp.lr = 2
amo_f5 AmoOp.sc = 3
amo_f5 AmoOp.swap = 1
amo_f5 AmoOp.add = 0
amo_f5 AmoOp.xor = 4
amo_f5 AmoOp.and = 12
amo_f5 AmoOp.or = 8
amo_f5 AmoOp.min = 16
amo_f5 AmoOp.max = 20
amo_f5 AmoOp.minu = 24
amo_f5 AmoOp.maxu = 28

abbrev pub reg_reg_f7 : RegRegOp → ℕ
reg_reg_f7 RegRegOp.sub = 32
reg_reg_f7 RegRegOp.sra = 32
reg_reg_f7 RegRegOp.mul = 1
reg_reg_f7 RegRegOp.mulh = 1
reg_reg_f7 RegRegOp.mulhsu = 1
reg_reg_f7 RegRegOp.mulhu = 1
reg_reg_f7 RegRegOp.div = 1
reg_reg_f7 RegRegOp.divu = 1
reg_reg_f7 RegRegOp.rem = 1
reg_reg_f7 RegRegOp.remu = 1
reg_reg_f7 _ = 0

abbrev pub reg_reg_f3 : RegRegOp → ℕ
reg_reg_f3 RegRegOp.add = 0
reg_reg_f3 RegRegOp.sub = 0
reg_reg_f3 RegRegOp.sll = 1
reg_reg_f3 RegRegOp.slt = 2
reg_reg_f3 RegRegOp.sltu = 3
reg_reg_f3 RegRegOp.xor = 4
reg_reg_f3 RegRegOp.srl = 5
reg_reg_f3 RegRegOp.sra = 5
reg_reg_f3 RegRegOp.or = 6
reg_reg_f3 RegRegOp.and = 7
reg_reg_f3 RegRegOp.mul = 0
reg_reg_f3 RegRegOp.mulh = 1
reg_reg_f3 RegRegOp.mulhsu = 2
reg_reg_f3 RegRegOp.mulhu = 3
reg_reg_f3 RegRegOp.div = 4
reg_reg_f3 RegRegOp.divu = 5
reg_reg_f3 RegRegOp.rem = 6
reg_reg_f3 RegRegOp.remu = 7

abbrev pub branch_f3 : BranchCondition → ℕ
branch_f3 BranchCondition.beq = 0
branch_f3 BranchCondition.bne = 1
branch_f3 BranchCondition.blt = 4
branch_f3 BranchCondition.bge = 5
branch_f3 BranchCondition.bltu = 6
branch_f3 BranchCondition.bgeu = 7

abbrev pub load_f3 : LoadWidth → ℕ
load_f3 LoadWidth.lb = 0
load_f3 LoadWidth.lh = 1
load_f3 LoadWidth.lw = 2
load_f3 LoadWidth.lbu = 4
load_f3 LoadWidth.lhu = 5

abbrev pub store_f3 : StoreWidth → ℕ
store_f3 StoreWidth.sb = 0
store_f3 StoreWidth.sh = 1
store_f3 StoreWidth.sw = 2

abbrev pub csr_f3 : CsrOp → ℕ
csr_f3 CsrOp.read_write = 1
csr_f3 CsrOp.read_set = 2
csr_f3 CsrOp.read_clear = 3

abbrev pub order_bits : FenceOrderCombination → ℕ
order_bits f =
    from_bool f.device_input * 8
    + from_bool f.device_output * 4
    + from_bool f.memory_reads * 2
    + from_bool f.memory_writes

unfoldable pub encode : Instruction → ℕ
encode (Instruction.op_imm op dest src imm) = i_type imm src (reg_imm_f3 op) dest 0x13
encode (Instruction.op_shift_imm op dest src shamt) =
    r_type (shift_f7 op) shamt src (shift_f3 op) dest 0x13
encode (Instruction.auipc dest imm) = u_type imm dest 0x17
encode (Instruction.lui dest imm) = u_type imm dest 0x37
encode (Instruction.amo op aq rl src addr dest) =
    r_type (amo_f5 op * 4 + from_bool aq * 2 + from_bool rl) src addr 2 dest 0x2F
encode (Instruction.op op dest src1 src2) =
    r_type (reg_reg_f7 op) src2 src1 (reg_reg_f3 op) dest 0x33
encode (Instruction.jal dest offset) = j_type offset dest 0x6F
encode (Instruction.jalr dest base offset) = i_type offset base 0 dest 0x67
encode (Instruction.branch condition src1 src2 offset) =
    b_type offset src2 src1 (branch_f3 condition) 0x63
encode (Instruction.load width dest base offset) = i_type offset base (load_f3 width) dest 0x03
encode (Instruction.store width src base offset) = s_type offset src base (store_f3 width) 0x23
encode (Instruction.fence predecessor successor) =
    (order_bits predecessor * 16 + order_bits successor) * 2 ^ 20 + 0x0F
encode Instruction.ecall = i_type 0 0 0 0 0x73
encode Instruction.ebreak = i_type 1 0 0 0 0x73
encode Instruction.sret = r_type 8 2 0 0 0 0x73
encode Instruction.mret = r_type 24 2 0 0 0 0x73
encode Instruction.wfi = r_type 8 5 0 0 0 0x73
encode (Instruction.sfence_vma vaddr asid) = r_type 9 asid vaddr 0 0 0x73
encode (Instruction.csr op dest csr src) = i_type csr src (csr_f3 op) dest 0x73
encode (Instruction.csri op dest csr imm) = i_type csr imm (csr_f3 op + 4) dest 0x73

abbrev FitsSigned : ℕ → ℕ → Type 0
FitsSigned width imm = sign_extend width (imm % 2 ^ width) ≡ imm

-- Every operand fits its field: five bits for a specifier, a shift amount or a CSR immediate, the
-- signed range of the format for an offset, and no low bits where the format drops them.
abbrev pub IsEncodable : Instruction → Type 0
IsEncodable (Instruction.op_imm op dest src imm) = (dest < 32) × (src < 32) × FitsSigned 12 imm
IsEncodable (Instruction.op_shift_imm op dest src shamt) = (dest < 32) × (src < 32) × (shamt < 32)
IsEncodable (Instruction.auipc dest imm) = (dest < 32) × (imm < 2 ^ 32) × (imm % 2 ^ 12 ≡ 0)
IsEncodable (Instruction.lui dest imm) = (dest < 32) × (imm < 2 ^ 32) × (imm % 2 ^ 12 ≡ 0)
IsEncodable (Instruction.amo op aq rl src addr dest) = (src < 32) × (addr < 32) × (dest < 32)
IsEncodable (Instruction.op op dest src1 src2) = (dest < 32) × (src1 < 32) × (src2 < 32)
IsEncodable (Instruction.jal dest offset) = (dest < 32) × (offset % 2 ≡ 0) × FitsSigned 21 offset
IsEncodable (Instruction.jalr dest base offset) = (dest < 32) × (base < 32) × FitsSigned 12 offset
IsEncodable (Instruction.branch condition src1 src2 offset) =
    (src1 < 32) × (src2 < 32) × (offset % 2 ≡ 0) × FitsSigned 13 offset
IsEncodable (Instruction.load width dest base offset) =
    (dest < 32) × (base < 32) × FitsSigned 12 offset
IsEncodable (Instruction.store width src base offset) =
    (src < 32) × (base < 32) × FitsSigned 12 offset
IsEncodable (Instruction.sfence_vma vaddr asid) = (vaddr < 32) × (asid < 32)
IsEncodable (Instruction.csr op dest csr src) = (dest < 32) × (csr < 2 ^ 12) × (src < 32)
IsEncodable (Instruction.csri op dest csr imm) = (dest < 32) × (csr < 2 ^ 12) × (imm < 32)
IsEncodable _ = Unit
