-- ===== src/Core/Execute/Sound/Accesses.antt =====
-- The generic implementations that access memory or CSRs keep the invariant of the core.
use redplanet.Base.{
  ℕ, ◌^◌, ◌<◌, arith, inl, inr, Bool, true, false, ◌||◌, Option, none, some, ◌==◌, if◌then◌else◌,
  not, Bool-cases, wrapping_add,
}
use redplanet.Registers.{Registers, Specifier, x, set_x}
use redplanet.Registers.Laws.{IsValid, set_x-IsValid}
use redplanet.Privilege.{PrivilegeLevel}
use redplanet.Instruction.Types.{CsrOp, CsrSpecifier}
use redplanet.Core.Machine.{
  Hart, Core, Access, Machine, MemoryError, CsrAccessError, CsrWriteError, Result, success, failure,
  crashed,
}
use redplanet.Core.Execute.{
  is_word_aligned, next, load_op, store_op, after_load, after_store, on_hart, amo_op, amo_read,
  load_error, store_error, amo_error, amo_written, csr_op, csr_loaded, csr_store, csr_written,
  csr_reg_op, csr_imm_op, csr_operands, is_read_write,
}
use redplanet.Core.Execute.Sound.{
  Contract, IsCodeAddress, IsSoundHart, IsSoundCore, IsSoundOutcome, IsSoundRead, IsSoundWrite,
  IsSoundCsrRead, IsSoundCsrWrite, IsWordException, IsSoundMachine, IsSoundLoad, IsSoundStore,
  next-IsSound, write-IsSound, set_x-pc,
}
use redplanet.Core.Execute.Sound.Generic.{stay-IsSound}

load_error-IsWord : (a : ℕ) (e : MemoryError) → a < 2 ^ 32 → IsWordException (load_error a e)
load_error-IsWord a MemoryError.misaligned_access h = h
load_error-IsWord a MemoryError.access_fault h = h
load_error-IsWord a MemoryError.page_fault h = h

store_error-IsWord : (a : ℕ) (e : MemoryError) → a < 2 ^ 32 → IsWordException (store_error a e)
store_error-IsWord a MemoryError.misaligned_access h = h
store_error-IsWord a MemoryError.access_fault h = h
store_error-IsWord a MemoryError.page_fault h = h

amo_error-IsWord : (a : ℕ) (e : MemoryError) → a < 2 ^ 32 → IsWordException (amo_error a e)
amo_error-IsWord a MemoryError.misaligned_access h = h
amo_error-IsWord a MemoryError.access_fault h = h
amo_error-IsWord a MemoryError.page_fault h = h

module _ {W : Type 0} {R : Contract W} where
  pub load_op-IsSound :
      (dest base offset : ℕ) (op : ℕ → Core W → Access (Core W) ℕ) (c : Core W)
      → IsSoundCore R c
      → dest < 32
      → ((address : ℕ) → IsSoundLoad R (op address c))
      → IsSoundOutcome R (load_op dest base offset op c)
  unfolding load_op after_load
  load_op-IsSound dest base offset op c s h k = go _ (k (wrapping_add (x c.registers base) offset))
    where
      go :
          (a : Access (Core W) ℕ)
          → IsSoundLoad R a
          → IsSoundOutcome R (after_load dest (wrapping_add (x c.registers base) offset) a)
      go (failure e c') s' = (load_error-IsWord _ e (omega arith), s')
      go (crashed p) s' = s'
      go (success v c') (hv, s') = write-IsSound c' dest v s' h hv

  pub store_op-IsSound :
      (src base offset : ℕ) (op : ℕ → ℕ → Core W → Access (Core W) (Unit {0})) (c : Core W)
      → IsSoundCore R c
      → ((address value : ℕ) → value < 2 ^ 32 → IsSoundStore R (op address value c))
      → IsSoundOutcome R (store_op src base offset op c)
  unfolding store_op after_store
  store_op-IsSound src base offset op c s k =
      go _ (k (wrapping_add (x c.registers base) offset) (x c.registers src) (s.valid.words src))
    where
      go :
          (a : Access (Core W) (Unit {0}))
          → IsSoundStore R a
          → IsSoundOutcome R (after_store (wrapping_add (x c.registers base) offset) a)
      go (failure e c') s' = (store_error-IsWord _ e (omega arith), s')
      go (crashed p) s' = s'
      go (success _ c') s' = stay-IsSound c' s'

  pub on_hart-IsSoundLoad :
      (c : Core W) (a : Access (Hart W) ℕ)
      → IsSoundCore R c
      → IsSoundRead R (2 ^ 32) a
      → IsSoundLoad R (on_hart c.registers a)
  on_hart-IsSoundLoad c (success v h) s (hv, sh) =
      (hv, record { valid = s.valid; pc = s.pc; hart = sh })
  on_hart-IsSoundLoad c (crashed p) s sh = sh
  on_hart-IsSoundLoad c (failure e h) s sh = record { valid = s.valid; pc = s.pc; hart = sh }

  pub on_hart-IsSoundStore :
      (c : Core W) (a : Access (Hart W) (Unit {0}))
      → IsSoundCore R c
      → IsSoundWrite R a
      → IsSoundStore R (on_hart c.registers a)
  on_hart-IsSoundStore c (success _ h) s sh = record { valid = s.valid; pc = s.pc; hart = sh }
  on_hart-IsSoundStore c (crashed p) s sh = sh
  on_hart-IsSoundStore c (failure e h) s sh = record { valid = s.valid; pc = s.pc; hart = sh }

  module _ (m : Machine W) (sound : IsSoundMachine R m) where
    amo_written-IsSound :
        (dest address v : ℕ) (a : Access (Core W) (Unit {0}))
        → dest < 32
        → address < 2 ^ 32
        → v < 2 ^ 32
        → IsSoundStore R a
        → IsSoundOutcome R (amo_written m dest address v a)
    unfolding amo_written next
    amo_written-IsSound dest address v (crashed p) h ha hv s = s
    amo_written-IsSound dest address v (failure e c) h ha hv s = (amo_error-IsWord address e ha, s)
    amo_written-IsSound dest address v (success _ c) h ha hv s = write-IsSound c dest v s h hv

    amo_read-IsSound :
        (dest address src_value : ℕ) (op : ℕ → ℕ → ℕ) (a : Access (Core W) ℕ)
        → dest < 32
        → address < 2 ^ 32
        → ((mem : ℕ) → mem < 2 ^ 32 → op mem src_value < 2 ^ 32)
        → IsSoundLoad R a
        → IsSoundOutcome R (amo_read m dest address src_value op a)
    unfolding amo_read amo_written
    amo_read-IsSound dest address src_value op (crashed p) h ha k s = s
    amo_read-IsSound dest address src_value op (failure e c) h ha k s =
        (amo_error-IsWord address e ha, s)
    amo_read-IsSound dest address src_value op (success v c) h ha k (hv, s) =
        amo_written-IsSound dest address v _ h ha hv (
          on_hart-IsSoundStore c _ s
            (sound.word_written address (op v src_value) c.hart (k v hv) s.hart))

    pub amo_op-IsSound :
        (dest src addr : ℕ) (op : ℕ → ℕ → ℕ) (c : Core W)
        → IsSoundCore R c
        → dest < 32
        → ((a b : ℕ) → a < 2 ^ 32 → b < 2 ^ 32 → op a b < 2 ^ 32)
        → IsSoundOutcome R (amo_op m dest src addr op c)
    unfolding amo_op
    amo_op-IsSound dest src addr op c s h k =
        elim (Bool-cases (is_word_aligned (x c.registers addr))) [
          | inr off ↦ rw off (s.valid.words addr, s)
          | inl on ↦ rw on (
              amo_read-IsSound dest (x c.registers addr) (x c.registers src) op _ h
                (s.valid.words addr) (λ v hv. k v (x c.registers src) hv (s.valid.words src))
                (on_hart-IsSoundLoad c _ s (sound.word_read (x c.registers addr) c.hart s.hart)))
        ]

    csr_operands-lt :
        (op : CsrOp) (v : ℕ)
        → v < 2 ^ 32
        → ((csr_operands op v).0 < 2 ^ 32) × ((csr_operands op v).1 < 2 ^ 32)
    csr_operands-lt CsrOp.read_write v h = (h, omega arith)
    csr_operands-lt CsrOp.read_set v h = (omega arith, h)
    csr_operands-lt CsrOp.read_clear v h = (omega arith, h)

    csr_written-IsSound :
        (r : Registers) (o : Result CsrWriteError (Hart W) (Unit {0}))
        → IsValid r
        → IsCodeAddress r.pc
        → IsSoundCsrWrite R o
        → IsSoundOutcome R (csr_written m o r)
    unfolding csr_written
    csr_written-IsSound r (success _ h) v a s =
        next-IsSound r (record { registers = r; hart = h }) v a s
    csr_written-IsSound r (crashed p) v a s = s
    csr_written-IsSound r (failure e h) v a s = (tt, record { valid = v; pc = a; hart = s })

    -- The operand of a CSR instruction, where it has one, is a word.
    abbrev IsOperand : Option ℕ → Type 0
    IsOperand none = Unit
    IsOperand (some v) = v < 2 ^ 32

    csr_store-IsSound :
        (op : CsrOp) (csr : CsrSpecifier) (o : Option ℕ) (level : PrivilegeLevel) (r : Registers)
        (h : Hart W)
        → IsOperand o
        → IsValid r
        → IsCodeAddress r.pc
        → IsSoundHart R h
        → IsSoundOutcome R (csr_store m op csr o level r h)
    unfolding csr_store next
    csr_store-IsSound op csr none level r h k v a s =
        next-IsSound r (record { registers = r; hart = h }) v a s
    csr_store-IsSound op csr (some value) level r h k v a s =
        let (hv, hm) = csr_operands-lt op value k in
        csr_written-IsSound r _ v a (sound.csr_written csr level _ _ h hv hm s)

    csr_loaded-IsSound :
        (op : CsrOp) (dest : Specifier) (csr : CsrSpecifier) (o : Option ℕ) (level : PrivilegeLevel)
        (r : Registers) (l : Result CsrAccessError (Hart W) ℕ)
        → dest < 32
        → IsOperand o
        → IsValid r
        → IsCodeAddress r.pc
        → IsSoundCsrRead R l
        → IsSoundOutcome R (csr_loaded m op dest csr o level r l)
    unfolding csr_loaded
    csr_loaded-IsSound op dest csr o level r (crashed p) hd k v a s = s
    csr_loaded-IsSound op dest csr o level r (failure e h) hd k v a s =
        (tt, record { valid = v; pc = a; hart = s })
    csr_loaded-IsSound op dest csr o level r (success old h) hd k v a (hv, s) =
        csr_store-IsSound op csr o level (set_x r dest old) h k (set_x-IsValid r dest old v hd hv)
          (rw (set_x-pc r dest old) a) s

    csr_op-IsSound :
        (op : CsrOp) (dest : Specifier) (csr : CsrSpecifier) (o : Option ℕ) (c : Core W)
        → IsSoundCore R c
        → dest < 32
        → IsOperand o
        → IsSoundOutcome R (csr_op m op dest csr o c)
    unfolding csr_op
    csr_op-IsSound op dest csr o c s hd k =
        elim (Bool-cases (not (is_read_write op) || not (dest == 0))) [
          | inl load ↦ rw load (
              csr_loaded-IsSound op dest csr o _ c.registers _ hd k s.valid s.pc
                (sound.csr_read csr c.hart.privilege_mode c.hart s.hart))
          | inr skip ↦
              rw skip (csr_store-IsSound op csr o _ c.registers c.hart k s.valid s.pc s.hart)
        ]

    IsOperand-lt : (b : Bool) (v : ℕ) → v < 2 ^ 32 → IsOperand (if b then some v else none)
    IsOperand-lt true v h = h
    IsOperand-lt false v h = tt

    pub csr_reg_op-IsSound :
        (op : CsrOp) (dest : Specifier) (csr : CsrSpecifier) (src : Specifier) (c : Core W)
        → IsSoundCore R c
        → dest < 32
        → IsSoundOutcome R (csr_reg_op m op dest csr src c)
    unfolding csr_reg_op
    csr_reg_op-IsSound op dest csr src c s hd =
        csr_op-IsSound op dest csr _ c s hd (
          IsOperand-lt (is_read_write op || not (src == 0)) (x c.registers src) (s.valid.words src))

    pub csr_imm_op-IsSound :
        (op : CsrOp) (dest : Specifier) (csr : CsrSpecifier) (imm : ℕ) (c : Core W)
        → IsSoundCore R c
        → dest < 32
        → imm < 2 ^ 32
        → IsSoundOutcome R (csr_imm_op m op dest csr imm c)
    unfolding csr_imm_op
    csr_imm_op-IsSound op dest csr imm c s hd hi =
        csr_op-IsSound op dest csr _ c s hd
          (IsOperand-lt (is_read_write op || not (imm == 0)) imm hi)
