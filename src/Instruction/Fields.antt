-- ===== src/Instruction/Fields.antt =====
-- The fields of an encoded 32-bit instruction word. A match on numbers is a ladder of tests; a mask
-- of low bits after a shift is a remainder (`Base.Bits.bit_and_mask`).
use redplanet.Base.{
  ℕ, ◌%◌, ◌^◌, ◌==◌, if◌then◌else◌, Bool, ◌&&◌, not, Option, some, none, u8, ◌>>>◌, ◌<<<◌, bit_and,
  bit_or, sra_i32, u32,
}
use redplanet.Registers.{Specifier}
use redplanet.Instruction.Types.{
  RegImmOp, RegShiftImmOp, AmoOp, RegRegOp, BranchCondition, LoadWidth, StoreWidth, Opcode,
  SysFunct, SysPriv, MemFunct, CsrSpecifier,
}

-- `(raw >> lo) & (2 ^ width - 1)`
abbrev pub bits : ℕ → ℕ → ℕ → ℕ
bits raw lo width = (raw >>> lo) % 2 ^ width

unfoldable pub opcode : ℕ → Option Opcode
opcode raw =
    let code = raw % 2 ^ 7 in
    if code == 0b000_0011
    then some Opcode.load
    else if code == 0b000_1111
    then some Opcode.misc_mem
    else if code == 0b001_0011
    then some Opcode.op_imm
    else if code == 0b001_0111
    then some Opcode.auipc
    else if code == 0b010_0011
    then some Opcode.store
    else if code == 0b010_1111
    then some Opcode.amo
    else if code == 0b011_0011
    then some Opcode.op
    else if code == 0b011_0111
    then some Opcode.lui
    else if code == 0b110_0011
    then some Opcode.branch
    else if code == 0b110_0111
    then some Opcode.jalr
    else if code == 0b110_1111
    then some Opcode.jal
    else if code == 0b111_0011
    then some Opcode.system
    else none

-- `from_u5` cannot panic on the five bits that these three take (`Immediates.specifiers_fit`).
unfoldable pub rd : ℕ → Specifier
rd raw = bits raw 7 5

unfoldable pub rs1 : ℕ → Specifier
rs1 raw = bits raw 15 5

unfoldable pub rs2 : ℕ → Specifier
rs2 raw = bits raw 20 5

unfoldable pub csr : ℕ → CsrSpecifier
csr raw = (raw >>> 20) % 2 ^ 16

unfoldable pub funct3 : ℕ → ℕ
funct3 raw = bits raw 12 3

unfoldable pub funct7 : ℕ → ℕ
funct7 raw = u8 (raw >>> 25)

unfoldable pub funct12 : ℕ → ℕ
funct12 raw = raw >>> 20

unfoldable pub shamt : ℕ → ℕ
shamt raw = bits raw 20 5

unfoldable pub amo_rl : ℕ → Bool
amo_rl raw = bits raw 25 1 == 1

unfoldable pub amo_aq : ℕ → Bool
amo_aq raw = bits raw 26 1 == 1

unfoldable pub i_funct : ℕ → Option RegImmOp
i_funct raw =
    let f3 = funct3 raw in
    if f3 == 0b000
    then some RegImmOp.addi
    else if f3 == 0b010
    then some RegImmOp.slti
    else if f3 == 0b011
    then some RegImmOp.sltiu
    else if f3 == 0b100
    then some RegImmOp.xori
    else if f3 == 0b110
    then some RegImmOp.ori
    else if f3 == 0b111
    then some RegImmOp.andi
    else none

unfoldable pub i_shfunct : ℕ → Option RegShiftImmOp
i_shfunct raw =
    let bit30 = bits raw 30 1 in
    let f3 = funct3 raw in
    if bit30 == 0 && f3 == 0b001
    then some RegShiftImmOp.slli
    else if bit30 == 0 && f3 == 0b101
    then some RegShiftImmOp.srli
    else if bit30 == 1 && f3 == 0b101
    then some RegShiftImmOp.srai
    else none

unfoldable pub i_sys : ℕ → Option SysFunct
i_sys raw =
    let f3 = funct3 raw in
    if f3 == 0b000
    then some SysFunct.priv
    else if f3 == 0b001
    then some SysFunct.csrrw
    else if f3 == 0b010
    then some SysFunct.csrrs
    else if f3 == 0b011
    then some SysFunct.csrrc
    else if f3 == 0b101
    then some SysFunct.csrrwi
    else if f3 == 0b110
    then some SysFunct.csrrsi
    else if f3 == 0b111
    then some SysFunct.csrrci
    else none

unfoldable pub sys_priv : ℕ → Option SysPriv
sys_priv raw =
    if not (rd raw == 0)
    then none
    else if funct7 raw == 0b0001001
    then some SysPriv.sfence_vma
    else if not (rs1 raw == 0)
    then none
    else if not (funct12 raw >>> 11 == 0)
    then none
    else if funct12 raw == 0
    then some SysPriv.ecall
    else if funct12 raw == 1
    then some SysPriv.ebreak
    else if funct7 raw == 0b0001000 && rs2 raw == 2
    then some SysPriv.sret
    else if funct7 raw == 0b0011000 && rs2 raw == 2
    then some SysPriv.mret
    else if funct7 raw == 0b0001000 && rs2 raw == 5
    then some SysPriv.wfi
    else none

unfoldable pub i_mem : ℕ → Option MemFunct
i_mem raw = if funct3 raw == 0b000 then some MemFunct.fence else none

unfoldable pub i_width : ℕ → Option LoadWidth
i_width raw =
    let f3 = funct3 raw in
    if f3 == 0b000
    then some LoadWidth.lb
    else if f3 == 0b001
    then some LoadWidth.lh
    else if f3 == 0b010
    then some LoadWidth.lw
    else if f3 == 0b100
    then some LoadWidth.lbu
    else if f3 == 0b101
    then some LoadWidth.lhu
    else none

unfoldable pub s_width : ℕ → Option StoreWidth
s_width raw =
    let f3 = funct3 raw in
    if f3 == 0b000
    then some StoreWidth.sb
    else if f3 == 0b001
    then some StoreWidth.sh
    else if f3 == 0b010
    then some StoreWidth.sw
    else none

-- The first ladder is the rows of funct7 == 0b0000000, the last those of MULDIV.
unfoldable pub r_funct : ℕ → Option RegRegOp
r_funct raw =
    let f7 = funct7 raw in
    let f3 = funct3 raw in
    if f7 == 0b0000000
    then (if f3 == 0b000
        then some RegRegOp.add
        else if f3 == 0b001
        then some RegRegOp.sll
        else if f3 == 0b010
        then some RegRegOp.slt
        else if f3 == 0b011
        then some RegRegOp.sltu
        else if f3 == 0b100
        then some RegRegOp.xor
        else if f3 == 0b101
        then some RegRegOp.srl
        else if f3 == 0b110
        then some RegRegOp.or
        else if f3 == 0b111
        then some RegRegOp.and
        else none)
    else if f7 == 0b0100000
    then (if f3 == 0b000
        then some RegRegOp.sub
        else if f3 == 0b101
        then some RegRegOp.sra
        else none)
    else if f7 == 0b0000001
    then (if f3 == 0b000
        then some RegRegOp.mul
        else if f3 == 0b001
        then some RegRegOp.mulh
        else if f3 == 0b010
        then some RegRegOp.mulhsu
        else if f3 == 0b011
        then some RegRegOp.mulhu
        else if f3 == 0b100
        then some RegRegOp.div
        else if f3 == 0b101
        then some RegRegOp.divu
        else if f3 == 0b110
        then some RegRegOp.rem
        else if f3 == 0b111
        then some RegRegOp.remu
        else none)
    else none

unfoldable pub b_funct : ℕ → Option BranchCondition
b_funct raw =
    let f3 = funct3 raw in
    if f3 == 0b000
    then some BranchCondition.beq
    else if f3 == 0b001
    then some BranchCondition.bne
    else if f3 == 0b100
    then some BranchCondition.blt
    else if f3 == 0b101
    then some BranchCondition.bge
    else if f3 == 0b110
    then some BranchCondition.bltu
    else if f3 == 0b111
    then some BranchCondition.bgeu
    else none

unfoldable pub amo_op : ℕ → Option AmoOp
amo_op raw =
    let funct5 = funct7 raw >>> 2 in
    if not (funct3 raw == 0b010)
    then none
    else if funct5 == 0b00010
    then some AmoOp.lr
    else if funct5 == 0b00011
    then some AmoOp.sc
    else if funct5 == 0b00001
    then some AmoOp.swap
    else if funct5 == 0b00000
    then some AmoOp.add
    else if funct5 == 0b00100
    then some AmoOp.xor
    else if funct5 == 0b01100
    then some AmoOp.and
    else if funct5 == 0b01000
    then some AmoOp.or
    else if funct5 == 0b10000
    then some AmoOp.min
    else if funct5 == 0b10100
    then some AmoOp.max
    else if funct5 == 0b11000
    then some AmoOp.minu
    else if funct5 == 0b11100
    then some AmoOp.maxu
    else none

-- `raw as i32 >> 20`
unfoldable pub i_imm : ℕ → ℕ
i_imm raw = sra_i32 raw 20

unfoldable pub s_imm : ℕ → ℕ
s_imm raw =
    let imm_11_5 = bit_and raw 0xFE00_0000 in
    let imm_4_0 = bit_and raw 0x0000_0F80 in sra_i32 (bit_or imm_11_5 (u32 (imm_4_0 <<< 13))) 20

unfoldable pub b_imm : ℕ → ℕ
b_imm raw =
    let imm_12 = bit_and raw 0x8000_0000 in
    let imm_10_5 = bit_and raw 0x7E00_0000 in
    let imm_4_1 = bit_and raw 0x0000_0F00 in
    let imm_11 = bit_and raw 0x0000_0080 in
    sra_i32
      (bit_or (bit_or (bit_or imm_12 (u32 (imm_11 <<< 23))) (imm_10_5 >>> 1))
        (u32 (imm_4_1 <<< 12)))
      19

unfoldable pub u_imm : ℕ → ℕ
u_imm raw = bit_and raw 0xFFFF_F000

unfoldable pub j_imm : ℕ → ℕ
j_imm raw =
    let imm_20 = bit_and raw 0x8000_0000 in
    let imm_10_1 = bit_and raw 0x7FE0_0000 in
    let imm_11 = bit_and raw 0x0010_0000 in
    let imm_19_12 = bit_and raw 0x000F_F000 in
    sra_i32
      (bit_or (bit_or (bit_or imm_20 (u32 (imm_19_12 <<< 11))) (u32 (imm_11 <<< 2)))
        (imm_10_1 >>> 9))
      11
