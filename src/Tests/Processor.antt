-- ===== src/Tests/Processor.antt =====
-- The registers and the decoder on concrete inputs.
use redplanet.Base.{◌≡◌, refl, arith, some}
use redplanet.Registers
use redplanet.Registers.Laws
use redplanet.Instruction.Types
use redplanet.Instruction.Fields
use redplanet.Instruction.Decode
use redplanet.Instruction.Encode
use redplanet.Instruction.Immediates
use redplanet.Instruction.RoundTrip
use redplanet.Instruction.Range

x-set_x_example : Registers.x (Registers.set_x (Registers.new 0x8000_0000) 5 42) 5 ≡ 42
x-set_x_example =
    Laws.x-set_x (Registers.new 0x8000_0000) 5 5 42 (Laws.new-IsValid 0x8000_0000) (omega arith)

set_x-IsValid_example : Laws.IsValid (Registers.set_x (Registers.new 0) 5 42)
set_x-IsValid_example =
    Laws.set_x-IsValid (Registers.new 0) 5 42 (Laws.new-IsValid 0) (omega arith) (omega arith)

-- `addi x1, x2, -1`
addi_minus_one :
    Decode.decode 0xFFF1_0093
    ≡ Decode.ok (Types.Instruction.op_imm Types.RegImmOp.addi 1 2 0xFFFF_FFFF)
unfolding Decode.decode Fields.opcode Fields.i_funct Fields.funct3 Fields.rd Fields.rs1 Fields.i_imm
addi_minus_one = refl

decode-encode_example :
    Decode.decode (Encode.encode (Types.Instruction.op_imm Types.RegImmOp.addi 1 2 0xFFFF_FFFF))
    ≡ Decode.ok (Types.Instruction.op_imm Types.RegImmOp.addi 1 2 0xFFFF_FFFF)
decode-encode_example =
    RoundTrip.decode-encode (Types.Instruction.op_imm Types.RegImmOp.addi 1 2 0xFFFF_FFFF)
      (omega arith, omega arith, refl)

immediates_of_formats_example :
    (Fields.i_imm 0xFE62_1EE3 ≡ 0xFFFF_FFE6)
    × (Fields.s_imm 0xFE62_1EE3 ≡ 0xFFFF_FFFD)
    × (Fields.b_imm 0xFE62_1EE3 ≡ 0xFFFF_FFFC)
    × (Fields.j_imm 0xFE62_1EE3 ≡ 0xFFF2_17E6)
    × (Fields.u_imm 0xFE62_1EE3 ≡ 0xFE62_1000)
immediates_of_formats_example = Immediates.immediates_of_formats 0xFE62_1EE3 (omega arith)

specifiers_fit_example :
    (Registers.from_u5 (Fields.rd 0xFFF1_0093) ≡ some (Fields.rd 0xFFF1_0093))
    × (Registers.from_u5 (Fields.rs1 0xFFF1_0093) ≡ some (Fields.rs1 0xFFF1_0093))
    × (Registers.from_u5 (Fields.rs2 0xFFF1_0093) ≡ some (Fields.rs2 0xFFF1_0093))
specifiers_fit_example = Immediates.specifiers_fit 0xFFF1_0093

decode-IsInRange_example :
    Range.IsInRange (Types.Instruction.op_imm Types.RegImmOp.addi 1 2 0xFFFF_FFFF)
decode-IsInRange_example =
    Range.decode-IsInRange 0xFFF1_0093
      (Types.Instruction.op_imm Types.RegImmOp.addi 1 2 0xFFFF_FFFF) (omega arith) addi_minus_one
