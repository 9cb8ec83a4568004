-- ===== src/SampleOld/Apps.antt =====
-- The samples of sample_old/paging that copy two small binaries and call them in turn, with a context
-- that says where each goes on: sample_old/paging/021 to 024, 041 and 042.
pub mod Programs
pub mod Spaces
pub mod Runs
pub mod Window
pub mod Remapping
use toshokan.Base.{
  ℕ, zero, suc, ◌+◌, ◌-◌, ◌*◌, ◌/◌, ◌%◌, ◌^◌, List, [], ◌∷◌, Option, none, some, ltb, ◌==◌,
  if◌then◌else◌, update,
}
use mathlib.Core.Option
use toshokan.SampleOld.Machine.{System, Step, phys, locate, keep}
use toshokan.SampleOld.Common.{puts, return_value}

pub record Context : Type 0 where
  pub next : ℕ
  pub i : ℕ  -- an int, modulo 2 ^ 32

-- The functions of app1.cc and app2.cc, where `nullptr` is 0, and those that come next have the
-- addresses that the linker gives them.
abbrev pub entry1 : ℕ → Context → Context
entry1 entry2_address c = record c { i = 1; next = entry2_address }

abbrev pub entry2 : Context → Context
entry2 c = record c { i = (c.i + 1) % 2 ^ 32; next = 0 }

abbrev pub entry3 : ℕ → Context → Context
entry3 entry4_address c = record c { i = 9; next = entry4_address }

abbrev pub entry4 : Context → Context
entry4 c = record c { i = (c.i + (2 ^ 32 - 1)) % 2 ^ 32; next = 0 }

pub data Entry : Type 0 where
  app1_entry1 app1_entry2 app2_entry3 app2_entry4 : Entry

-- What the compiler and the linker make of the two binaries: where they stand in the friend binary,
-- their sizes, the addresses of the functions that come second, and whose code it is that stands at
-- an address of a memory, by the bytes there.
pub record Link : Type 0 where
  pub app1_start : ℕ
  pub app1_size : ℕ
  pub app2_start : ℕ
  pub app2_size : ℕ
  pub entry2_address : ℕ
  pub entry4_address : ℕ
  pub code : (ℕ → Option ℕ) → ℕ → Option Entry

-- A byte of virtual memory, as the core sees it.
abbrev pub seen : System → ℕ → Option ℕ
seen s va = if ltb va (2 ^ 30) then some (s.mem (phys va)) else Option.map s.mem (locate s va)

-- An access from 1 GB on leaves its translation in the core.
abbrev pub touch : ℕ → Step
touch va s =
    if ltb va (2 ^ 30)
    then some s
    else elim (locate s va) [ none ↦ none | some pa ↦ some (keep va pa s) ]

-- What a function does to its argument and to the system.
abbrev pub Body : Type 0
Body = Entry → Context → System → Option (Context × System)

abbrev pub body : Link → Body
body l app1_entry1 c s = some (entry1 l.entry2_address c, s)
body l app1_entry2 c s = some (entry2 c, s)
body l app2_entry3 c s = some (entry3 l.entry4_address c, s)
body l app2_entry4 c s = some (entry4 c, s)

-- `c.next(c)`.
pub call : Link → Body → Context → System → Option (Context × System)
call l run c s = elim (touch c.next s) [
  | none ↦ none
  | some s' ↦ elim (l.code (seen s') c.next) [ none ↦ none | some e ↦ run e c s' ]
]

-- `"i=0"` with its last character moved on by `i`.
pub show_i : ℕ → Step
show_i i = puts (105 ∷ 61 ∷ ((48 + i) % 256) ∷ [])

-- The local variables of `main`, and the machine.
pub record Frame : Type 0 where
  pub system : System
  pub c1 : Context
  pub c2 : Context

-- `main` is stuck, has returned, or goes on.
pub data Outcome : Type 0 where
  stuck : Outcome
  returned : (code : ℕ) (system : System) → Outcome
  running : (frame : Frame) → Outcome

abbrev pub Part : Type 0
Part = Frame → Outcome

abbrev pub go_on : Outcome → Part → Outcome
go_on stuck g = stuck
go_on (returned code system) g = returned code system
go_on (running frame) g = g frame

infixl 5 ◌>>◌
abbrev pub ◌>>◌ : Part → Part → Part
◌>>◌ f g frame = go_on (f frame) g

abbrev pub on_system : Step → Part
on_system f frame = elim (f frame.system) [
  | none ↦ stuck
  | some s ↦ running (record frame { system = s })
]

-- `c1.next = ...; c1.i = 0;`, and the same of `c2`.
abbrev pub set_c1 : ℕ → Part
set_c1 next frame = running (record frame { c1 = record { next = next; i = 0 } })

abbrev pub set_c2 : ℕ → Part
set_c2 next frame = running (record frame { c2 = record { next = next; i = 0 } })

-- `c1 = c1.next(c1);`, and the same of `c2`.
abbrev pub call_c1 : Link → Body → Part
call_c1 l run frame = elim (call l run frame.c1 frame.system) [
  | none ↦ stuck
  | some (c, s) ↦ running (record frame { system = s; c1 = c })
]

abbrev pub call_c2 : Link → Body → Part
call_c2 l run frame = elim (call l run frame.c2 frame.system) [
  | none ↦ stuck
  | some (c, s) ↦ running (record frame { system = s; c2 = c })
]

-- `return_value(f2h, code); return code;`.
abbrev pub leave : ℕ → Part
leave code frame = elim (return_value code frame.system) [ none ↦ stuck | some s ↦ returned code s ]

-- `show_i(f2h, c1.i); if (c1.i != i) { ... }`, and the same of `c2`.
pub check_c1 : ℕ → Part
check_c1 i frame =
    go_on (on_system (show_i frame.c1.i) frame)
      (λ frame. if frame.c1.i == i then running frame else leave 1 frame)

pub check_c2 : ℕ → Part
check_c2 i frame =
    go_on (on_system (show_i frame.c2.i) frame)
      (λ frame. if frame.c2.i == i then running frame else leave 1 frame)
