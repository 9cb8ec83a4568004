-- ===== src/Tutorial/Paging/Console.antt =====
-- What the programs of tutorial/paging share: the state of the core and of the console, and the
-- steps in which they are written.
pub mod Steps
use toshokan.Base.{
  ℕ, ◌+◌, ◌%◌, ◌/◌, ◌*◌, ◌^◌, List, [], ◌∷◌, Option, none, some, ◌==◌, if◌then◌else◌,
}
use toshokan.Tutorial.Cpu
use toshokan.Tutorial.Cpu.{Cpu, translate}

-- "[i/n] press Enter key to go to the next step:", a line of show_memdata, and "ready".
pub data Line : Type 0 where
  prompt : (i n : ℕ) → Line
  memdata : (vaddr x : ℕ) → Line
  ready : Line

-- Memory is read by words of 64 bits, by their physical address; the tables stand in `cpu`.
pub record System : Type 0 where
  pub cpu : Cpu
  pub words : ℕ → ℕ
  pub keys : List ℕ
  pub output : List Line

-- A step has no result where it does not end: after a page fault that nobody handles, or at the end
-- of the input.
abbrev pub Step : Type 0
Step = System → Option System

abbrev pub and_then : Option System → Step → Option System
and_then none g = none
and_then (some s) g = g s

infixl 5 ◌>>◌
abbrev pub ◌>>◌ : Step → Step → Step
◌>>◌ f g s = and_then (f s) g

abbrev pub k_512gb : ℕ
k_512gb = 512 * 1024 * 1024 * 1024

abbrev pub k_1gb : ℕ
k_1gb = 1024 * 1024 * 1024

abbrev pub k_2mb : ℕ
k_2mb = 2 * 1024 * 1024

abbrev pub k_4kb : ℕ
k_4kb = 4 * 1024

abbrev pub v2p : ℕ → ℕ
v2p vaddr = vaddr

abbrev pub store_entry : ℕ → ℕ → ℕ → Step
store_entry table i e s = some (record s { cpu = Cpu.store_entry table i e s.cpu })

abbrev pub invlpg : ℕ → Step
invlpg va s = some (record s { cpu = Cpu.invlpg va s.cpu })

pub show_memdata : ℕ → Step
unfolding translate
show_memdata vaddr s = elim (translate vaddr s.cpu) [
  | none ↦ none
  | some (pa, cpu) ↦ some (record s { cpu = cpu; output = memdata vaddr (s.words pa) ∷ s.output })
]

-- `do { c = getchar(); } while (c != '\n');`. At the end of the input `getchar` gives no newline.
unfoldable pub skip_line : List ℕ → Option (List ℕ)
skip_line [] = none
skip_line (c ∷ cs) = if c == 10 then some cs else skip_line cs

pub wait_input : ℕ → ℕ → Step
unfolding skip_line
wait_input n i s = elim (skip_line s.keys) [
  | none ↦ none
  | some keys ↦ some (record s { keys = keys; output = prompt i n ∷ s.output })
]
