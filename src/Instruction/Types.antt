-- ===== src/Instruction/Types.antt =====
-- The decoded form of an instruction. An `i32` immediate is kept as the 32-bit word with its bits.
use redplanet.Base.{ℕ, Bool}
use redplanet.Registers.{Specifier}

pub data RegImmOp : Type 0 where
  addi slti sltiu xori ori andi : RegImmOp

pub data RegShiftImmOp : Type 0 where
  slli srli srai : RegShiftImmOp

pub data AmoOp : Type 0 where
  lr sc swap add xor and or min max minu maxu : AmoOp

pub data RegRegOp : Type 0 where
  add slt sltu and or xor sll srl sub sra mul mulh mulhsu mulhu div divu rem remu : RegRegOp

pub data BranchCondition : Type 0 where
  beq bne blt bltu bge bgeu : BranchCondition

pub data LoadWidth : Type 0 where
  lb lh lw lbu lhu : LoadWidth

pub data StoreWidth : Type 0 where
  sb sh sw : StoreWidth

pub data CsrOp : Type 0 where
  read_write read_set read_clear : CsrOp

pub record FenceOrderCombination : Type 0 where
  pub device_input : Bool
  pub device_output : Bool
  pub memory_reads : Bool
  pub memory_writes : Bool

-- `CsrSpecifier`, a 12-bit number.
abbrev pub CsrSpecifier : Type 0
CsrSpecifier = ℕ

-- The arguments stand in the order of the fields in the source.
pub data Instruction : Type 0 where
  op_imm : (op : RegImmOp) (dest src : Specifier) (immediate : ℕ) → Instruction
  op_shift_imm : (op : RegShiftImmOp) (dest src : Specifier) (shift_amount_u5 : ℕ) → Instruction
  auipc : (dest : Specifier) (immediate : ℕ) → Instruction
  lui : (dest : Specifier) (immediate : ℕ) → Instruction
  amo : (op : AmoOp) (aq rl : Bool) (src addr dest : Specifier) → Instruction
  op : (op : RegRegOp) (dest src1 src2 : Specifier) → Instruction
  jal : (dest : Specifier) (offset : ℕ) → Instruction
  jalr : (dest base : Specifier) (offset : ℕ) → Instruction
  branch : (condition : BranchCondition) (src1 src2 : Specifier) (offset : ℕ) → Instruction
  load : (width : LoadWidth) (dest base : Specifier) (offset : ℕ) → Instruction
  store : (width : StoreWidth) (src base : Specifier) (offset : ℕ) → Instruction
  fence : (predecessor successor : FenceOrderCombination) → Instruction
  ecall ebreak sret mret wfi : Instruction
  sfence_vma : (vaddr asid : Specifier) → Instruction
  csr : (op : CsrOp) (dest : Specifier) (csr : CsrSpecifier) (src : Specifier) → Instruction
  csri : (op : CsrOp) (dest : Specifier) (csr : CsrSpecifier) (immediate : ℕ) → Instruction

pub data DecodeError : Type 0 where
  unsupported_opcode illegal_instruction : DecodeError

pub data Opcode : Type 0 where
  op_imm auipc lui amo op jal jalr branch load store misc_mem system : Opcode

pub data SysFunct : Type 0 where
  priv csrrw csrrs csrrc csrrwi csrrsi csrrci : SysFunct

pub data SysPriv : Type 0 where
  ecall ebreak sret mret wfi sfence_vma : SysPriv

pub data MemFunct : Type 0 where
  fence : MemFunct
