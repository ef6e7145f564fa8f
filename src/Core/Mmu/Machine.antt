-- ===== src/Core/Mmu/Machine.antt =====
-- The memory management unit and the CSRs fill the interface that the executor takes: they read values
-- of their width, keep the invariant of the core and panic only where a device does, over any page tables.
use redplanet.Base.{
  ℕ, ◌+◌, ◌^◌, ◌<◌, ◌≢◌, refl, arith, Bool, true, false, not, Option, none, some, List, [], ◌∷◌,
  if◌then◌else◌, replicate,
}
use redplanet.Privilege.{PrivilegeLevel}
use redplanet.Alignment
use redplanet.Core.Machine.{
  MemoryError, Hart, Access, success, failure, crashed, access_fault, misaligned_access,
}
use redplanet.Core.Status.Laws.{mpp-total}
use redplanet.Core.Status.{mprv, mpp}
use redplanet.Core.State.{
  Rest, Config, SystemBus, AccessType, BusOutcome, accessed, bus_panicked, settle,
}
use redplanet.Core.Execute.Sound.{Contract, IsSoundHart, IsSoundRead, IsSoundWrite, IsSoundMachine}
use redplanet.Core.Sound.{
  IsBytesRead, IsKept, IsOfBus, CoreContract, IsSoundBus, IsBytes, from_le_bytes-lt,
}
use redplanet.Core.Csr.Sound.{with_bus-IsSound}
use redplanet.Core.Csr.Sound.Reads.{read_csr-IsSound}
use redplanet.Core.Csr.Sound.Writes.{write_csr-IsSound}
use redplanet.Core.Csr.Read.{from_le_bytes}
use redplanet.Core.Mmu
use redplanet.Core.Mmu.Ports
use redplanet.Core.Mmu.Sound.{
  LeavesSound, translate_common-IsSound, replicate-IsBytes, to_le_bytes-IsBytes, reverse-IsBytes,
}

module _ {B : Type 0} (P : B → Type 0) (config : Config) (bus : SystemBus B)
    (sound : IsSoundBus P bus) where
  abbrev R : Contract (Rest B)
  R = CoreContract P

  abbrev IsSound : Hart (Rest B) → Type 0
  IsSound = IsSoundHart R

  -- The read gives as many bytes as asked for.
  abbrev ReadsBytes : ℕ → Access (Hart (Rest B)) (List ℕ) → Type 0
  ReadsBytes n (success buf h) = IsBytes n buf × IsSound h
  ReadsBytes n (failure e h) = IsSound h
  ReadsBytes n (crashed p) = IsOfBus p

  -- A bus read of zeros, and a bus write.
  bus_read-IsSound :
      (n address : ℕ) (h : Hart (Rest B))
      → IsSound h
      → ReadsBytes n (settle (λ buf. buf) h (bus.read (replicate n 0) address h.rest.bus))
  bus_read-IsSound n address h s =
      go (bus.read (replicate n 0) address h.rest.bus)
        (sound.bytes_read n (replicate n 0) address h.rest.bus (replicate-IsBytes n) s.rest.bus)
    where
      go : (o : BusOutcome B (List ℕ)) → IsBytesRead P n o → ReadsBytes n (settle (λ buf. buf) h o)
      go (accessed buf b calls) (bytes, kept) = (bytes, with_bus-IsSound P h s b calls kept)
      go bus_panicked k = tt

  bus_write-IsSound :
      (n address : ℕ) (buf : List ℕ) (h : Hart (Rest B))
      → IsBytes n buf
      → IsSound h
      → LeavesSound P (settle {E = MemoryError} (λ u. u) h (bus.write address buf h.rest.bus))
  bus_write-IsSound n address buf h k s =
      go (bus.write address buf h.rest.bus)
        (sound.bytes_written n buf address h.rest.bus k s.rest.bus)
    where
      go :
          (o : BusOutcome B (Unit {0}))
          → IsKept P o
          → LeavesSound P (settle {E = MemoryError} (λ u. u) h o)
      go (accessed u b calls) kept = with_bus-IsSound P h s b calls kept
      go bus_panicked k = tt

  accepted-IsSound :
      {A : Type 0} (address size : ℕ) (t : AccessType) (h : Hart (Rest B))
      (rest : Access (Hart (Rest B)) A)
      → IsSound h
      → LeavesSound P rest
      → LeavesSound P (Mmu.access_physical bus address size t h rest)
  accepted-IsSound address size t h rest s k = go (bus.accepts address size t)
    where
      go : (b : Bool) → LeavesSound P (if b then rest else failure access_fault h)
      go true = k
      go false = s

  read_pte-IsSound :
      (address : ℕ) (h : Hart (Rest B)) → IsSound h → LeavesSound P (Mmu.read_pte bus address h)
  unfolding Mmu.read_pte
  read_pte-IsSound address h s =
      accepted-IsSound address 4 AccessType.read h _ s
        (go (bus.read (replicate 4 0) address h.rest.bus) (bus_read-IsSound 4 address h s))
    where
      go :
          (o : BusOutcome B (List ℕ))
          → ReadsBytes 4 (settle (λ buf. buf) h o)
          → LeavesSound P (settle {E = MemoryError} from_le_bytes h o)
      go (accessed buf b calls) k = k.1
      go bus_panicked k = k

  write_pte-IsSound :
      (address value : ℕ) (h : Hart (Rest B))
      → IsSound h
      → LeavesSound P (Mmu.write_pte bus address value h)
  unfolding Mmu.write_pte
  write_pte-IsSound address value h s =
      accepted-IsSound address 4 AccessType.write h _ s
        (bus_write-IsSound 4 address (Mmu.to_le_bytes 4 value) h (to_le_bytes-IsBytes 4 value) s)

  access_virtual-IsSound :
      (address size : ℕ) (t : AccessType) (level : PrivilegeLevel) (h : Hart (Rest B))
      → IsSound h
      → LeavesSound P (Ports.access_virtual config bus address size t level h)
  unfolding Ports.access_virtual Mmu.translate_address
  access_virtual-IsSound address size t level h s = go (Ports.passes_checks config bus address size)
    where
      checked :
          (o : Access (Hart (Rest B)) ℕ)
          → IsSoundRead R (address + 2 ^ 32) o
          → LeavesSound P (Ports.check_physical config bus size t o)
      checked (success physical h') (_, k) =
          accepted-IsSound physical size t h' (success physical h') k k
      checked (failure e h') k = k
      checked (crashed p) k = k

      go :
          (b : Bool)
          → LeavesSound P (
              if b
              then Ports.check_physical config bus size t (
                  Mmu.translate_address_common
                    (Mmu.read_pte bus)
                    (Mmu.write_pte bus)
                    address
                    t
                    level
                    h)
              else failure misaligned_access h)
      go true = checked _ (
          translate_common-IsSound P (address + 2 ^ 32) (omega arith) (Mmu.read_pte bus)
            (Mmu.write_pte bus) read_pte-IsSound write_pte-IsSound address t level h (omega arith)
            s)
      go false = s

  read-IsSound :
      (n address : ℕ) (level : PrivilegeLevel) (execute : Bool) (h : Hart (Rest B))
      → IsSound h
      → ReadsBytes n (Ports.read config bus n address level execute h)
  unfolding Ports.read
  read-IsSound n address level execute h s =
      go _ (access_virtual-IsSound address n (Ports.access_of config bus execute) level h s)
    where
      go :
          (o : Access (Hart (Rest B)) ℕ)
          → LeavesSound P o
          → ReadsBytes n (Ports.read_from config bus n o)
      go (success physical h') k = bus_read-IsSound n physical h' k
      go (failure e h') k = k
      go (crashed p) k = k

  write-IsSound :
      (address n : ℕ) (buf : List ℕ) (level : PrivilegeLevel) (h : Hart (Rest B))
      → IsBytes n buf
      → IsSound h
      → LeavesSound P (Ports.write config bus address n buf level h)
  unfolding Ports.write
  write-IsSound address n buf level h bytes s =
      go _ (access_virtual-IsSound address n AccessType.write level h s)
    where
      go :
          (o : Access (Hart (Rest B)) ℕ)
          → LeavesSound P o
          → LeavesSound P (Ports.write_to config bus buf o)
      go (success physical h') k = bus_write-IsSound n physical buf h' bytes k
      go (failure e h') k = k
      go (crashed p) k = k

  decoded-IsSound :
      (n bound : ℕ) (f : Hart (Rest B) → List ℕ → ℕ) (o : Access (Hart (Rest B)) (List ℕ))
      → ((h : Hart (Rest B)) (buf : List ℕ) → IsBytes n buf → f h buf < bound)
      → ReadsBytes n o
      → IsSoundRead R bound (Ports.decoded config bus f o)
  decoded-IsSound n bound f (success buf h) k (bytes, s) = (k h buf bytes, s)
  decoded-IsSound n bound f (failure e h) k s = s
  decoded-IsSound n bound f (crashed p) k s = s

  from_bytes-lt :
      (n : ℕ) (e : Alignment.Endianness) (buf : List ℕ)
      → IsBytes n buf
      → Ports.from_bytes e buf < 256 ^ n
  unfolding from_le_bytes
  from_bytes-lt n Alignment.Endianness.le buf k = from_le_bytes-lt n buf k
  from_bytes-lt n Alignment.Endianness.be buf k = from_le_bytes-lt n _ (reverse-IsBytes n buf k)

  to_bytes-IsBytes : (e : Alignment.Endianness) (n value : ℕ) → IsBytes n (Ports.to_bytes e n value)
  unfolding Mmu.to_le_bytes
  to_bytes-IsBytes Alignment.Endianness.le n value = to_le_bytes-IsBytes n value
  to_bytes-IsBytes Alignment.Endianness.be n value =
      reverse-IsBytes n _ (to_le_bytes-IsBytes n value)

  first_byte-lt : (buf : List ℕ) → IsBytes 1 buf → Ports.first_byte config bus buf < 2 ^ 8
  first_byte-lt [] (len, bytes) = absurd (omega arith)
  first_byte-lt (b ∷ buf) (len, (h, bytes)) = h

  -- In a legal status the effective privilege mode is a level.
  effective-total : (h : Hart (Rest B)) → IsSound h → Ports.effective_privilege_mode h ≢ none
  unfolding Ports.effective_privilege_mode
  effective-total h s = go (mprv h.status)
    where
      go : (b : Bool) → (if b then mpp h.status else some h.privilege_mode) ≢ none
      go true = mpp-total h.status s.legal
      go false = λ e. cc e

  module _ (a : ℕ) (h : Hart (Rest B)) (s : IsSound h) where
    read_value-IsSound : (n : ℕ) → IsSoundRead R (256 ^ n) (Ports.read_value config bus n a h)
    unfolding Ports.read_value
    read_value-IsSound n = go (Ports.effective_privilege_mode h) (effective-total h s)
      where
        go :
            (o : Option PrivilegeLevel)
            → o ≢ none
            → IsSoundRead R (256 ^ n) (Ports.read_at_level config bus n a o h)
        go none k = k refl
        go (some level) k =
            decoded-IsSound n (256 ^ n) _ _
              (λ h' buf. from_bytes-lt n (Ports.endianness level h') buf)
              (read-IsSound n a level false h s)

    read_byte-IsSound : IsSoundRead R (2 ^ 8) (Ports.read_byte config bus a h)
    unfolding Ports.read_byte
    read_byte-IsSound = go (Ports.effective_privilege_mode h) (effective-total h s)
      where
        go :
            (o : Option PrivilegeLevel)
            → o ≢ none
            → IsSoundRead R (2 ^ 8) (Ports.read_byte_at_level config bus a o h)
        go none k = k refl
        go (some level) k =
            decoded-IsSound 1 (2 ^ 8) _ _ (λ h' buf. first_byte-lt buf)
              (read-IsSound 1 a level false h s)

    write_value-IsSound : (n value : ℕ) → LeavesSound P (Ports.write_value config bus n a value h)
    unfolding Ports.write_value
    write_value-IsSound n value = go (Ports.effective_privilege_mode h) (effective-total h s)
      where
        go :
            (o : Option PrivilegeLevel)
            → o ≢ none
            → LeavesSound P (Ports.write_at_level config bus n a value o h)
        go none k = k refl
        go (some level) k =
            write-IsSound a n _ level h (to_bytes-IsBytes (Ports.endianness level h) n value) s

    write_byte-IsSound :
        (value : ℕ) → value < 2 ^ 8 → LeavesSound P (Ports.write_byte config bus a value h)
    unfolding Ports.write_byte
    write_byte-IsSound value b = go (Ports.effective_privilege_mode h) (effective-total h s)
      where
        go :
            (o : Option PrivilegeLevel)
            → o ≢ none
            → LeavesSound P (Ports.write_byte_at_level config bus a value o h)
        go none k = k refl
        go (some level) k = write-IsSound a 1 (value ∷ []) level h (refl, (b, tt)) s

    pub fetch_instruction-IsSound : IsSoundRead R (2 ^ 32) (Ports.fetch_instruction config bus a h)
    unfolding Ports.fetch_instruction
    fetch_instruction-IsSound = go (Alignment.is_aligned (Ports.instruction_alignment config bus) a)
      where
        go :
            (b : Bool)
            → IsSoundRead R (2 ^ 32) (
                if not b
                then failure misaligned_access h
                else Ports.decoded config bus
                    (λ h'. from_le_bytes)
                    (Ports.read config bus 4 a h.privilege_mode true h))
        go true =
            decoded-IsSound 4 (2 ^ 32) _ _ (λ h' buf. from_le_bytes-lt 4 buf)
              (read-IsSound 4 a h.privilege_mode true h s)
        go false = s

  -- Over a sound bus, the memory management unit and the CSRs are what the executor needs.
  pub machine-IsSound : config.hart_id < 2 ^ 32 → IsSoundMachine R (Ports.machine config bus)
  unfolding Ports.read_byte Ports.read_value Ports.write_byte Ports.write_value
  machine-IsSound id = record {
    byte_read = λ a h s. read_byte-IsSound a h s;
    halfword_read = λ a h s. read_value-IsSound a h s 2;
    word_read = λ a h s. read_value-IsSound a h s 4;
    byte_written = λ a v h hv s. go _ (write_byte-IsSound a h s v hv);
    halfword_written = λ a v h hv s. go _ (write_value-IsSound a h s 2 v);
    word_written = λ a v h hv s. go _ (write_value-IsSound a h s 4 v);
    csr_read = λ csr level h s. read_csr-IsSound P config bus sound csr level h id s;
    csr_written = λ csr level value mask h hv hm s. write_csr-IsSound P csr level value mask h hv s;
  }
    where
      go : (o : Access (Hart (Rest B)) (Unit {0})) → LeavesSound P o → IsSoundWrite R o
      go (success v h) k = k
      go (failure e h) k = k
      go (crashed p) k = k
