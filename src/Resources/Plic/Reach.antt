-- ===== src/Resources/Plic/Reach.antt =====
-- What bus accesses, resets and raised interrupts can bring a fresh PLIC to.
use redplanet.Base.{ℕ, ◌≡◌, refl, subst, inl, Bool, true, false, Option, some, none, List, [], ◌∷◌}
use redplanet.Interrupt.{Signal, quiet, line_after}
use redplanet.Resources.Plic.{
  State, new, needs_interrupt, reset, raise, set_pending, bus_read, bus_write, with_unit,
}
use redplanet.Resources.Plic.Muted.{
  IsMuted, IsQuiet, muted_quiet, update-IsQuiet, set_pending_to-muted, bus_read-IsQuiet,
  bus_write-IsQuiet,
}

-- One access or call that reaches the PLIC.
pub data Op : Type 0 where
  restart : Op
  interrupt : ℕ → Op
  load : List ℕ → ℕ → Op
  store : ℕ → List ℕ → Op

abbrev effect : {R : Type 0} → Option (R × State × Signal) → Option (State × Signal)
effect none = none
effect (some (r, s, signal)) = some (s, signal)

unfoldable pub apply : Op → State → Option (State × Signal)
unfolding reset raise bus_read bus_write
apply restart s = effect (reset s)
apply (interrupt index) s = effect (raise index s)
apply (load buf address) s = effect (bus_read buf s address)
apply (store address buf) s = effect (bus_write address buf s)

abbrev continue :
    Option (State × Signal) → (State → Bool → Option (State × Bool)) → Bool → Option (State × Bool)
continue none rest line = none
continue (some (s, signal)) rest line = rest s (line_after line signal)

-- A sequence of operations and the line they leave; `none` when one of them panics.
unfoldable pub run : List Op → State → Bool → Option (State × Bool)
unfolding apply
run [] s line = some (s, line)
run (op ∷ ops) s line = continue (apply op s) (run ops) line

abbrev IsQuietEffect : Option (State × Signal) → Type 0
IsQuietEffect none = Unit
IsQuietEffect (some (s, signal)) = IsMuted s × (signal ≡ quiet)

effect-IsQuiet :
    {R : Type 0} (o : Option (R × State × Signal)) → IsQuiet o → IsQuietEffect (effect o)
effect-IsQuiet none q = tt
effect-IsQuiet (some (r, s, signal)) q = q

apply-IsQuiet : (op : Op) (s : State) → IsMuted s → IsQuietEffect (apply op s)
unfolding apply reset raise new set_pending
apply-IsQuiet restart s m =
    effect-IsQuiet (reset s) (update-IsQuiet (λ _. some (tt, new)) s m (inl refl))
apply-IsQuiet (interrupt index) s m = effect-IsQuiet (raise index s) (
    update-IsQuiet (λ t. with_unit (set_pending index t)) s m (set_pending_to-muted true index s m))
apply-IsQuiet (load buf address) s m =
    effect-IsQuiet (bus_read buf s address) (bus_read-IsQuiet buf s address m)
apply-IsQuiet (store address buf) s m =
    effect-IsQuiet (bus_write address buf s) (bus_write-IsQuiet address buf s m)

abbrev IsSilent : Option (State × Bool) → Type 0
IsSilent none = Unit
IsSilent (some (s, line)) = IsMuted s × (line ≡ false)

continue-IsSilent :
    (o : Option (State × Signal)) (rest : State → Bool → Option (State × Bool))
    → ((s : State) → IsMuted s → IsSilent (rest s false))
    → IsQuietEffect o
    → IsSilent (continue o rest false)
continue-IsSilent none rest h q = tt
continue-IsSilent (some (s, signal)) rest h (m, q) = rw q (h s m)

run-IsSilent : (ops : List Op) (s : State) → IsMuted s → IsSilent (run ops s false)
unfolding run
run-IsSilent [] s m = (m, refl)
run-IsSilent (op ∷ ops) s m =
    continue-IsSilent (apply op s) (run ops) (run-IsSilent ops) (apply-IsQuiet op s m)

-- Whatever the sequence of resets, raised interrupts, loads and stores that a fresh PLIC goes
-- through without a panic, it needs no interrupt at its end and the line is low.
pub run-needs_interrupt :
    (ops : List Op) (s : State) (line : Bool)
    → run ops new false ≡ some (s, line)
    → (needs_interrupt s ≡ false) × (line ≡ false)
unfolding new
run-needs_interrupt ops s line h =
    let (m, low) = subst IsSilent h (run-IsSilent ops new (inl refl)) in (muted_quiet s m, low)
