-- ===== src/Hakase/Interrupt.antt =====
-- hakase/deprecated/interrupt.cc and interrupt.h: the table of the functions that the host calls for
-- the vectors that a friend core sends. A callback is a number, and 0 is `nullptr`.
pub mod Vectors
use toshokan.Base.{
  ℕ, zero, suc, ◌+◌, ◌-◌, Option, none, some, Bool, true, false, update, ◌==◌, if◌then◌else◌,
}
use toshokan.Base.Int.{ℤ, pos, negsuc}

-- `_callback`: a function and its argument for each vector.
pub record InterruptController : Type 0 where
  pub callback : ℕ → ℕ
  pub arg : ℕ → ℕ

abbrev pub k_int_vector_num : ℕ
k_int_vector_num = 256

-- `ReservedIntVector::kError`.
abbrev pub k_error : ℤ
k_error = negsuc 0

-- The loop of Init, from `i` on for `n` rounds.
clear_from : ℕ → ℕ → InterruptController → InterruptController
clear_from zero i c = c
clear_from (suc n) i c = clear_from n (i + 1) (record c { callback = update c.callback i 0 })

pub init : InterruptController → InterruptController
unfolding clear_from
init c = clear_from k_int_vector_num 0 c

abbrev pub set_at : ℕ → ℕ → ℕ → InterruptController → InterruptController
set_at vector f x c = record c {
  callback = update c.callback vector f;
  arg = update c.arg vector x;
}

-- The loop of SetIntCallback, from `vector` on for `n` rounds.
set_from : ℕ → ℕ → ℕ → ℕ → InterruptController → ℤ × InterruptController
set_from zero vector f x c = (k_error, c)
set_from (suc n) vector f x c =
    let rest = set_from n (vector + 1) f x c in
    if c.callback vector == 0 then (pos vector, set_at vector f x c) else rest

pub set_int_callback : ℕ → ℕ → InterruptController → ℤ × InterruptController
unfolding set_from
set_int_callback f x c = set_from (k_int_vector_num - 32) 32 f x c

abbrev pub set_exception_callback : ℕ → ℕ → ℕ → InterruptController → InterruptController
set_exception_callback vector f x c = set_at vector f x c

-- ProcessInterrupt for the vector that the channel gives: the function that it calls, with its
-- argument, and whether it calls one.
abbrev pub process_interrupt : ℕ → InterruptController → Option (ℕ × ℕ) × Bool
process_interrupt vnum c =
    if c.callback vnum == 0 then (none, false) else (some (c.callback vnum, c.arg vnum), true)
