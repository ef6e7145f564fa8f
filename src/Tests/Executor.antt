-- ===== src/Tests/Executor.antt =====
-- The executor on a machine whose memory is the word at address 0 and whose one CSR is mstatus.
use redplanet.Base.{
  ℕ, ◌+◌, ◌*◌, ◌%◌, ◌^◌, ◌<◌, ◌≡◌, refl, arith, ◌==◌, Bool, true, false, if◌then◌else◌, some,
}
use redplanet.Registers
use redplanet.Registers.Laws
use redplanet.Privilege.{PrivilegeLevel}
use redplanet.Instruction.Types.{Instruction, LoadWidth}
use redplanet.Instruction.Fields
use redplanet.Core.Status.{mpp, tsr, spp}
use redplanet.Core.Status.Csr
use redplanet.Core.Status.Laws as StatusLaws
use redplanet.Core.Muldiv
use redplanet.Core.Muldiv.Laws as MuldivLaws
use redplanet.Core.Machine.{
  Exception, MemoryError, Hart, Core, Access, Machine, Result, CsrAccessError, CsrWriteError,
  success, failure, done, raised,
}
use redplanet.Core.Execute.Dispatch
use redplanet.Core.Execute.System
use redplanet.Core.Execute.Sound
use redplanet.Core.Execute.Sound.Every
use redplanet.Core.Execute.Exceptions
use redplanet.Core.Execute.Returns

abbrev read_cell : (bytes address : ℕ) → Hart ℕ → Access (Hart ℕ) ℕ
read_cell bytes address h =
    if address == 0
    then success (h.rest % 2 ^ (8 * bytes)) h
    else failure MemoryError.access_fault h

abbrev write_cell : (address value : ℕ) → Hart ℕ → Access (Hart ℕ) (Unit {0})
write_cell address value h =
    if address == 0
    then success tt (record h { rest = value })
    else failure MemoryError.access_fault h

abbrev read_one_csr : ℕ → PrivilegeLevel → Hart ℕ → Result CsrAccessError (Hart ℕ) ℕ
read_one_csr csr level h =
    if csr == 0x300
    then success (h.status.mstatus % 2 ^ 32) h
    else failure (CsrAccessError.csr_unsupported csr) h

abbrev write_one_csr :
    ℕ → PrivilegeLevel → (value mask : ℕ) → Hart ℕ → Result CsrWriteError (Hart ℕ) (Unit {0})
write_one_csr csr level value mask h =
    if csr == 0x300
    then success tt (record h { status = Csr.write_mstatus value mask h.status })
    else failure (CsrWriteError.access_error (CsrAccessError.csr_unsupported csr)) h

abbrev machine : Machine ℕ
machine = record {
  read_byte = read_cell 1;
  read_halfword = read_cell 2;
  read_word = read_cell 4;
  write_byte = write_cell;
  write_halfword = write_cell;
  write_word = write_cell;
  read_csr = read_one_csr;
  write_csr = write_one_csr;
}

abbrev AnyMemory : Sound.Contract ℕ
AnyMemory = record { holds = λ w. Unit; allows = λ p. ⊥ }

read_cell-IsSound :
    (bytes address : ℕ) (h : Hart ℕ)
    → (h.rest % 2 ^ (8 * bytes) < 2 ^ (8 * bytes))
    → Sound.IsSoundHart AnyMemory h
    → Sound.IsSoundRead AnyMemory (2 ^ (8 * bytes)) (read_cell bytes address h)
read_cell-IsSound bytes address h lt s = go (address == 0)
  where
    go :
        (b : Bool)
        → Sound.IsSoundRead AnyMemory
            (2 ^ (8 * bytes))
            (if b then success (h.rest % 2 ^ (8 * bytes)) h else failure MemoryError.access_fault h)
    go true = (lt, s)
    go false = s

write_cell-IsSound :
    (address value : ℕ) (h : Hart ℕ)
    → Sound.IsSoundHart AnyMemory h
    → Sound.IsSoundWrite AnyMemory (write_cell address value h)
write_cell-IsSound address value h s = go (address == 0)
  where
    go :
        (b : Bool)
        → Sound.IsSoundWrite AnyMemory (
            if b
            then success tt (record h { rest = value })
            else failure MemoryError.access_fault h)
    go true = record { legal = s.legal; sepc = s.sepc; mepc = s.mepc; rest = tt }
    go false = s

machine-IsSound : Sound.IsSoundMachine AnyMemory machine
machine-IsSound = record {
  byte_read = λ a h s. read_cell-IsSound 1 a h (omega arith) s;
  halfword_read = λ a h s. read_cell-IsSound 2 a h (omega arith) s;
  word_read = λ a h s. read_cell-IsSound 4 a h (omega arith) s;
  byte_written = λ a v h lt s. write_cell-IsSound a v h s;
  halfword_written = λ a v h lt s. write_cell-IsSound a v h s;
  word_written = λ a v h lt s. write_cell-IsSound a v h s;
  csr_read = λ csr level h s. read_sound csr h s;
  csr_written = λ csr level value mask h hv hm s. write_sound csr value mask h s;
}
  where
    read_sound :
        (csr : ℕ) (h : Hart ℕ)
        → Sound.IsSoundHart AnyMemory h
        → Sound.IsSoundCsrRead AnyMemory (read_one_csr csr PrivilegeLevel.machine h)
    read_sound csr h s = go (csr == 0x300)
      where
        go :
            (b : Bool)
            → Sound.IsSoundCsrRead AnyMemory (
                if b
                then success (h.status.mstatus % 2 ^ 32) h
                else failure (CsrAccessError.csr_unsupported csr) h)
        go true = (omega arith, s)
        go false = s

    write_sound :
        (csr value mask : ℕ) (h : Hart ℕ)
        → Sound.IsSoundHart AnyMemory h
        → Sound.IsSoundCsrWrite AnyMemory (write_one_csr csr PrivilegeLevel.machine value mask h)
    write_sound csr value mask h s = go (csr == 0x300)
      where
        written : Hart ℕ
        written = record h { status = Csr.write_mstatus value mask h.status }

        go :
            (b : Bool)
            → Sound.IsSoundCsrWrite AnyMemory (
                if b
                then success tt written
                else failure (CsrWriteError.access_error (CsrAccessError.csr_unsupported csr)) h)
        go true = record {
          legal = (StatusLaws.write_mstatus-IsLegal value mask h.status s.legal).0;
          sepc = s.sepc;
          mepc = s.mepc;
          rest = tt;
        }
        go false = s

abbrev start : Core ℕ
start = record {
  registers = Registers.new 0x1000;
  hart = record {
    privilege_mode = PrivilegeLevel.machine;
    status = record { mstatus = 0x1880; mstatush = 0 };
    sepc = 0x3000;
    mepc = 0x2000;
    rest = 0xFFFF_FF80;
  };
}

-- `lb x5, 0(x0)`
load_sign :
    Dispatch.execute_raw_instruction machine 0x0000_0283 start
    ≡ done (record {
      registers = Registers.set_pc (Registers.set_x (Registers.new 0x1000) 5 0xFFFF_FF80) 0x1004;
      hart = start.hart;
    })
unfolding Dispatch.execute_raw_instruction Fields.opcode Fields.i_width Fields.funct3
    Dispatch.execute_load Registers.x Registers.new Fields.rs1 Fields.i_imm Fields.rd
    Registers.set_x
load_sign = refl

start-IsSound : Sound.IsSoundCore AnyMemory start
unfolding Registers.new
start-IsSound = record {
  valid = Laws.new-IsValid 0x1000;
  pc = record { word = omega arith; aligned = refl };
  hart = record {
    legal = record { word = omega arith; level = omega arith; high = omega arith };
    sepc = record { word = omega arith; aligned = refl };
    mepc = record { word = omega arith; aligned = refl };
    rest = tt;
  };
}

-- `mret`
execute_raw_instruction-IsSound_example :
    Sound.IsSoundOutcome AnyMemory (Dispatch.execute_raw_instruction machine 0x3020_0073 start)
execute_raw_instruction-IsSound_example =
    Every.execute_raw_instruction-IsSound machine machine-IsSound 0x3020_0073 start (omega arith)
      start-IsSound

-- A word is loaded from an address without memory.
abbrev faulting_load : Instruction
faulting_load = Instruction.load LoadWidth.lw 5 0 8

load_faults :
    Dispatch.execute_instruction machine faulting_load start
    ≡ raised (Exception.load_access_fault 8) start
unfolding Dispatch.execute_instruction Dispatch.execute_load Registers.x Registers.new
load_faults = refl

raised-pc_example : start.registers.pc ≡ start.registers.pc
raised-pc_example =
    Exceptions.raised-pc machine faulting_load start start (Exception.load_access_fault 8)
      load_faults

raised-registers_example : start.registers ≡ start.registers
raised-registers_example =
    Exceptions.raised-registers machine faulting_load start start (Exception.load_access_fault 8) tt
      load_faults

previous_level : mpp start.hart.status ≡ some PrivilegeLevel.machine
unfolding mpp
previous_level = refl

mret-returns_example :
    (System.mret start
      ≡ done (
          Returns.returned 0x2000 PrivilegeLevel.machine
            (System.mret_status PrivilegeLevel.machine start.hart.status)
            start))
    × Returns.IsMretStatus start.hart.status PrivilegeLevel.machine
        (System.mret_status PrivilegeLevel.machine start.hart.status)
mret-returns_example = Returns.mret-returns start PrivilegeLevel.machine refl previous_level

abbrev supervised : Core ℕ
supervised = record start {
  hart = record start.hart {
    privilege_mode = PrivilegeLevel.supervisor;
    status = record { mstatus = 0x120; mstatush = 0 };
  };
}

supervised_status :
    (tsr supervised.hart.status ≡ false) × (spp supervised.hart.status ≡ PrivilegeLevel.supervisor)
unfolding tsr spp
supervised_status = (refl, refl)

sret-returns_example :
    (System.sret supervised
      ≡ done (
          Returns.returned 0x3000
            (spp supervised.hart.status)
            (System.sret_status (spp supervised.hart.status) supervised.hart.status)
            supervised))
    × Returns.IsSretStatus supervised.hart.status
        (System.sret_status (spp supervised.hart.status) supervised.hart.status)
sret-returns_example = Returns.sret-returns supervised (λ e. cc e) supervised_status.0

write_mstatus-IsLegal_example :
    StatusLaws.IsLegal (Csr.write_mstatus 0xFFFF_F7FF 0xFFFF_FFFF start.hart.status)
    × StatusLaws.IsLegal (Csr.write_sstatus 0xFFFF_F7FF 0xFFFF_FFFF start.hart.status)
    × StatusLaws.IsLegal (Csr.write_mstatush 0xFFFF_F7FF 0xFFFF_FFFF start.hart.status)
write_mstatus-IsLegal_example =
    StatusLaws.write_mstatus-IsLegal 0xFFFF_F7FF 0xFFFF_FFFF start.hart.status
      (record { word = omega arith; level = omega arith; high = omega arith })

write_mstatus-zero_example :
    (Csr.write_mstatus 0 0xFFFF_FFFF start.hart.status ≡ start.hart.status)
    × (Csr.write_sstatus 0 0xFFFF_FFFF start.hart.status ≡ start.hart.status)
write_mstatus-zero_example = StatusLaws.write_mstatus-zero 0xFFFF_FFFF start.hart.status

-- `-7 / 2` rounds towards zero.
seven_by_two :
    (Muldiv.div_i32 0xFFFF_FFF9 2 ≡ 0xFFFF_FFFD) × (Muldiv.rem_i32 0xFFFF_FFF9 2 ≡ 0xFFFF_FFFF)
unfolding Muldiv.div_i32 Muldiv.rem_i32
seven_by_two = (refl, refl)

div_i32-rem_i32_example :
    (Muldiv.div_i32 0xFFFF_FFF9 2 * 2 + Muldiv.rem_i32 0xFFFF_FFF9 2) % 2 ^ 32 ≡ 0xFFFF_FFF9
div_i32-rem_i32_example = MuldivLaws.div_i32-rem_i32 0xFFFF_FFF9 2 (omega arith) (omega arith)

mulhu_u32-mul_u32_example :
    Muldiv.mulhu_u32 0xFFFF_FFFF 3 * 2 ^ 32 + Muldiv.mul_u32 0xFFFF_FFFF 3 ≡ 0x2_FFFF_FFFD
mulhu_u32-mul_u32_example = MuldivLaws.mulhu_u32-mul_u32 0xFFFF_FFFF 3 (omega arith) (omega arith)

mulh_i32-mul_u32_example :
    Muldiv.mulh_i32 0xFFFF_FFFF 3 * 2 ^ 32 + Muldiv.mul_u32 0xFFFF_FFFF 3 ≡ 0xFFFF_FFFF_FFFF_FFFD
mulh_i32-mul_u32_example = MuldivLaws.mulh_i32-mul_u32 0xFFFF_FFFF 3 (omega arith) (omega arith)
