-- ===== src/Tutorial/Faults.antt =====
-- What the tutorials on exceptions share: the choice that the reader makes, and an instruction that
-- faults, whose handler returns to it.
pub mod Retries
pub mod Division
pub mod PageFault
mod Tests
use toshokan.Base.{
  ℕ, zero, suc, ◌-◌, List, [], ◌∷◌, Option, none, some, leb, ◌&&◌, ◌==◌, if◌then◌else◌,
}
use toshokan.Tutorial.Idt.{Idt, offset}

-- `atoi` of a string of one character.
abbrev pub digit_of : ℕ → ℕ
digit_of c = if leb 48 c && leb c 57 then c - 48 else 0

-- wait_input, which reads characters until one is 1 or 2; what it prints is left out. At the end of
-- the input `getchar` gives none.
unfoldable pub wait_input : List ℕ → Option (ℕ × List ℕ)
wait_input [] = none
wait_input (c ∷ keys) =
    let rest = wait_input keys in
    let i = digit_of c in if leb 1 i && leb i 2 then some (i, keys) else rest

-- Why a core does not go on after a fault: the handler halts for ever, it faults itself, or the gate
-- leads to no handler of the program.
pub data Stop : Type 0 where
  halts : Stop
  double_fault : Stop
  no_handler : Stop

-- What a handler does: it returns, with a new state, or the core does not go on.
pub data Handling {ℓ} (A : Type ℓ) : Type ℓ where
  resumes : (a : A) → Handling A
  stops : (s : Stop) → Handling A

-- How a run ends: with a result; or it does not, since the fuel is used up while the instruction
-- still faults, the core has stopped, or the program still waits for a choice on the console.
pub data Outcome {ℓ} (B : Type ℓ) : Type ℓ where
  ended : (b : B) → Outcome B
  still_faulting : Outcome B
  stopped : (s : Stop) → Outcome B
  no_choice : Outcome B

abbrev pub map_outcome {ℓ₁ ℓ₂} : {B : Type ℓ₁} {C : Type ℓ₂} → (B → C) → Outcome B → Outcome C
map_outcome g (ended b) = ended (g b)
map_outcome g still_faulting = still_faulting
map_outcome g (stopped s) = stopped s
map_outcome g no_choice = no_choice

-- An instruction, and the handler that runs where it faults and returns to it; with fuel for the
-- times that it is tried.
unfoldable pub retry {ℓ₁ ℓ₂} :
    {A : Type ℓ₁} {B : Type ℓ₂} → (A → Option B) → (A → Handling A) → ℕ → A → Outcome B
retry run handler zero a = still_faulting
retry run handler (suc f) a = elim (run a) [
  | some b ↦ ended b
  | none ↦ elim (handler a) [ stops s ↦ stopped s | resumes a' ↦ retry run handler f a' ]
]

-- The processor goes to the address in the gate of the vector; each handler stands at an address of
-- its own, from the linker.
unfoldable pub deliver {ℓ} :
    {A : Type ℓ} → ℕ → ℕ → ℕ → (A → Handling A) → (A → Handling A) → Idt → A → Handling A
deliver vector address1 address2 handler1 handler2 t a =
    let at = offset (t.gates vector) in
    if at == address1 then handler1 a else if at == address2 then handler2 a else stops no_handler
