-- ===== src/Core/Execute/Sound/Stores.antt =====
-- The loads, the stores, the atomic and the system instructions keep the invariant of the core, and
-- so does every instruction.
use redplanet.Base.{
  ℕ, ◌^◌, ◌<◌, arith, Bool, true, false, if◌then◌else◌, min, max, lt_i32, bit_and, bit_or, bit_xor,
  u8, u16, Bool-cases, wrapping_add, inl, inr,
}
use redplanet.Base.Bounds.{bit_and-lt, bit_or-lt, bit_xor-lt}
use redplanet.Registers.{set_x}
use redplanet.Registers.Laws.{set_x-IsValid}
use redplanet.Instruction.Types.{AmoOp, LoadWidth, StoreWidth}
use redplanet.Core.Machine.{Hart, Core, Access, Machine, success, failure, crashed}
use redplanet.Core.Execute.{is_word_aligned, with_registers, on_hart}
use redplanet.Core.Execute.Dispatch
use redplanet.Core.Execute.Memory
use redplanet.Core.Execute.Sound.{
  Contract, IsSoundCore, IsSoundOutcome, IsSoundLoad, IsSoundRead, IsSoundMachine, set_x-pc,
}
use redplanet.Core.Execute.Sound.Accesses.{
  load_op-IsSound, store_op-IsSound, on_hart-IsSoundLoad, on_hart-IsSoundStore, amo_op-IsSound,
}

if-lt : (b : Bool) (v w : ℕ) → v < 2 ^ 32 → w < 2 ^ 32 → (if b then v else w) < 2 ^ 32
if-lt true v w hv hw = hv
if-lt false v w hv hw = hw

module _ {W : Type 0} {R : Contract W} where
  widen-IsSound :
      (w : ℕ) (f : ℕ → ℕ) (c : Core W) (a : Access (Hart W) ℕ)
      → IsSoundCore R c
      → ((v : ℕ) → v < 2 ^ w → f v < 2 ^ 32)
      → IsSoundRead R (2 ^ w) a
      → IsSoundLoad R (Memory.map_access f (on_hart c.registers a))
  widen-IsSound w f c (success v h) s k (hv, sh) =
      (k v hv, record { valid = s.valid; pc = s.pc; hart = sh })
  widen-IsSound w f c (crashed p) s k sh = sh
  widen-IsSound w f c (failure e h) s k sh = record { valid = s.valid; pc = s.pc; hart = sh }

  narrow-IsSound :
      (w : ℕ) (c : Core W) (a : Access (Hart W) ℕ)
      → IsSoundCore R c
      → ((v : ℕ) → v < 2 ^ w → v < 2 ^ 32)
      → IsSoundRead R (2 ^ w) a
      → IsSoundLoad R (on_hart c.registers a)
  narrow-IsSound w c (success v h) s k (hv, sh) =
      (k v hv, record { valid = s.valid; pc = s.pc; hart = sh })
  narrow-IsSound w c (crashed p) s k sh = sh
  narrow-IsSound w c (failure e h) s k sh = record { valid = s.valid; pc = s.pc; hart = sh }

  module _ (m : Machine W) (sound : IsSoundMachine R m) where
    pub load-IsSound :
        (w : LoadWidth) (dest base offset : ℕ) (c : Core W)
        → IsSoundCore R c
        → dest < 32
        → IsSoundOutcome R (Dispatch.execute_load m w dest base offset c)
    unfolding Dispatch.execute_load Memory.lb Memory.lh Memory.lw Memory.lbu Memory.lhu
    load-IsSound LoadWidth.lb dest base offset c s h =
        load_op-IsSound dest base offset
          (λ a c. Memory.map_access Memory.extend_i8 (Memory.reading m.read_byte a c)) c s h
          (λ a.
            widen-IsSound 8 Memory.extend_i8 c _ s (λ v hv. ground arith)
              (sound.byte_read a c.hart s.hart))
    load-IsSound LoadWidth.lh dest base offset c s h =
        load_op-IsSound dest base offset
          (λ a c. Memory.map_access Memory.extend_i16 (Memory.reading m.read_halfword a c)) c s h
          (λ a.
            widen-IsSound 16 Memory.extend_i16 c _ s (λ v hv. ground arith)
              (sound.halfword_read a c.hart s.hart))
    load-IsSound LoadWidth.lw dest base offset c s h =
        load_op-IsSound dest base offset (Memory.reading m.read_word) c s h
          (λ a. on_hart-IsSoundLoad c _ s (sound.word_read a c.hart s.hart))
    load-IsSound LoadWidth.lbu dest base offset c s h =
        load_op-IsSound dest base offset (Memory.reading m.read_byte) c s h
          (λ a. narrow-IsSound 8 c _ s (λ v hv. omega arith) (sound.byte_read a c.hart s.hart))
    load-IsSound LoadWidth.lhu dest base offset c s h =
        load_op-IsSound dest base offset (Memory.reading m.read_halfword) c s h
          (λ a. narrow-IsSound 16 c _ s (λ v hv. omega arith) (sound.halfword_read a c.hart s.hart))

    pub store-IsSound :
        (w : StoreWidth) (src base offset : ℕ) (c : Core W)
        → IsSoundCore R c
        → IsSoundOutcome R (Dispatch.execute_store m w src base offset c)
    unfolding Dispatch.execute_store Memory.sb Memory.sh Memory.sw
    store-IsSound StoreWidth.sb src base offset c s =
        store_op-IsSound src base offset (λ a v. Memory.writing m.write_byte a (u8 v)) c s
          (λ a v hv.
            on_hart-IsSoundStore c _ s (sound.byte_written a (u8 v) c.hart (omega arith) s.hart))
    store-IsSound StoreWidth.sh src base offset c s =
        store_op-IsSound src base offset (λ a v. Memory.writing m.write_halfword a (u16 v)) c s
          (λ a v hv.
            on_hart-IsSoundStore c _ s
              (sound.halfword_written a (u16 v) c.hart (omega arith) s.hart))
    store-IsSound StoreWidth.sw src base offset c s =
        store_op-IsSound src base offset (Memory.writing m.write_word) c s
          (λ a v hv. on_hart-IsSoundStore c _ s (sound.word_written a v c.hart hv s.hart))

    reserved-IsSound :
        (dest src addr : ℕ) (c : Core W)
        → IsSoundCore R c
        → dest < 32
        → IsSoundOutcome R (Memory.lr m dest src addr c)
          × IsSoundOutcome R (Memory.sc m dest src addr c)
    unfolding Memory.lr Memory.sc
    reserved-IsSound dest src addr c s h = (
      load_op-IsSound dest addr 0 (Memory.reserved_read m) c s h (λ a.
          elim (Bool-cases (is_word_aligned a)) [
            | inr off ↦ rw off s
            | inl on ↦ rw on (on_hart-IsSoundLoad c _ s (sound.word_read a c.hart s.hart))
          ]),
      store_op-IsSound src addr 0 (Memory.conditional_write m dest) c s (λ a v hv.
          elim (Bool-cases (is_word_aligned a)) [
            | inr off ↦ rw off s
            | inl on ↦ rw on (
                on_hart-IsSoundStore (cleared c dest) _ (cleared-IsSound c dest s h)
                  (sound.word_written a v c.hart hv s.hart))
          ]),
    )
      where
        cleared : Core W → ℕ → Core W
        cleared c dest = with_registers c (set_x c.registers dest 0)

        cleared-IsSound :
            (c : Core W) (dest : ℕ) → IsSoundCore R c → dest < 32 → IsSoundCore R (cleared c dest)
        cleared-IsSound c dest s h = record {
          valid = set_x-IsValid c.registers dest 0 s.valid h (omega arith);
          pc = rw (set_x-pc c.registers dest 0) s.pc;
          hart = s.hart;
        }

    pub amo-IsSound :
        (op : AmoOp) (dest src addr : ℕ) (c : Core W)
        → IsSoundCore R c
        → dest < 32
        → IsSoundOutcome R (Dispatch.execute_amo m op dest src addr c)
    unfolding Dispatch.execute_amo Memory.amoswap Memory.amoadd Memory.amoxor Memory.amoand
        Memory.amoor Memory.amomin Memory.amomax Memory.amominu Memory.amomaxu
    amo-IsSound AmoOp.lr dest src addr c s h = (reserved-IsSound dest src addr c s h).0
    amo-IsSound AmoOp.sc dest src addr c s h = (reserved-IsSound dest src addr c s h).1
    amo-IsSound AmoOp.swap dest src addr c s h =
        amo_op-IsSound m sound dest src addr (λ _ reg. reg) c s h (λ a b ha hb. hb)
    amo-IsSound AmoOp.add dest src addr c s h =
        amo_op-IsSound m sound dest src addr wrapping_add c s h (λ a b ha hb. omega arith)
    amo-IsSound AmoOp.xor dest src addr c s h =
        amo_op-IsSound m sound dest src addr bit_xor c s h (λ a b ha hb. bit_xor-lt 32 a b ha hb)
    amo-IsSound AmoOp.and dest src addr c s h =
        amo_op-IsSound m sound dest src addr bit_and c s h (λ a b ha hb. bit_and-lt 32 a b ha)
    amo-IsSound AmoOp.or dest src addr c s h =
        amo_op-IsSound m sound dest src addr bit_or c s h (λ a b ha hb. bit_or-lt 32 a b ha hb)
    amo-IsSound AmoOp.min dest src addr c s h =
        amo_op-IsSound m sound dest src addr (λ mem reg. if lt_i32 reg mem then reg else mem) c s h
          (λ a b ha hb. if-lt (lt_i32 b a) b a hb ha)
    amo-IsSound AmoOp.max dest src addr c s h =
        amo_op-IsSound m sound dest src addr (λ mem reg. if lt_i32 mem reg then reg else mem) c s h
          (λ a b ha hb. if-lt (lt_i32 a b) b a hb ha)
    amo-IsSound AmoOp.minu dest src addr c s h =
        amo_op-IsSound m sound dest src addr min c s h (λ a b ha hb. omega arith)
    amo-IsSound AmoOp.maxu dest src addr c s h =
        amo_op-IsSound m sound dest src addr max c s h (λ a b ha hb. omega arith)
