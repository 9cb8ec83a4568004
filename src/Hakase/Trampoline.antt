-- ===== src/Hakase/Trampoline.antt =====
-- The part of an x86 processor that hakase/friend_boot16.S uses, from the state that a startup IPI
-- leaves to 64-bit mode (Intel SDM, volume 3, 2.5, 3.4, 9.8; volume 2 for the instructions). An
-- instruction whose exception the manual states yields `none`: no handler is installed here. The
-- privilege level is 0 throughout. EFER.LMA is not kept: it is EFER.LME with CR0.PG. Reserved bits
-- of control registers and the limits of data segments are left out.
pub mod Code
pub mod Bytes
pub mod Steps
pub mod Flags
pub mod Real
pub mod Protected
pub mod Arrival
pub mod Installed
mod Tests
use toshokan.Base.{
  ℕ, zero, suc, ◌+◌, ◌*◌, ◌/◌, ◌%◌, ◌^◌, Bool, true, false, not, ◌&&◌, ◌||◌, Option, none, some,
  ltb, leb, ◌==◌, if◌then◌else◌,
}
use toshokan.Base.Options.{◌>>=◌}
use toshokan.Base.Bits.{flag, bit_of}
use toshokan.Hakase.PageTables.{PhysMem}
use toshokan.Hakase.PageTables.Walk.{walk}

-- For a segment register, its selector and what its hidden part keeps of the descriptor.
pub record Processor : Type 0 where
  pub rip : ℕ
  pub cs : ℕ
  pub cs_base : ℕ
  pub cs_big : Bool  -- D
  pub cs_long : Bool  -- L
  pub ds : ℕ
  pub ds_base : ℕ
  pub ss : ℕ
  pub gdt_base : ℕ
  pub gdt_limit : ℕ
  pub rax : ℕ
  pub rcx : ℕ
  pub rdx : ℕ
  pub rdi : ℕ
  pub cr0 : ℕ
  pub cr3 : ℕ
  pub cr4 : ℕ
  pub efer : ℕ
  pub interrupts : Bool

-- Physical memory: its bytes, and its page tables apart from them.
pub record Memory : Type 0 where
  pub bytes : ℕ → ℕ
  pub tables : PhysMem

-- The width that the processor decodes instructions for.
pub data Width : Type 0 where
  bits16 bits32 bits64 : Width

abbrev pub long_mode : Processor → Bool
long_mode p = flag 8 p.efer && flag 31 p.cr0

abbrev pub width : Processor → Width
width p = if long_mode p && p.cs_long then bits64 else if p.cs_big then bits32 else bits16

-- Where an access to a linear address goes. With CR0.PG, only the four levels of long mode are here.
unfoldable pub physical : Memory → Processor → ℕ → Option ℕ
physical m p a =
    let through = if long_mode p then walk m.tables p.cr3 a else none in
    if flag 31 p.cr0 then through else some a

-- The lowest byte first.
unfoldable pub load_bytes : Memory → Processor → ℕ → ℕ → Option ℕ
load_bytes m p a zero = some 0
load_bytes m p a (suc n) = do
  pa ← physical m p a
  rest ← load_bytes m p (a + 1) n
  some (m.bytes pa + 2 ^ 8 * rest)

-- A descriptor: P, S, and the kind of segment; then its base and limit.
abbrev pub is_code : ℕ → Bool
is_code d = flag 47 d && flag 44 d && flag 43 d && d / 2 ^ 45 % 4 == 0

abbrev pub is_readable : ℕ → Bool
is_readable d = flag 47 d && flag 44 d && (not (flag 43 d) || flag 41 d)

abbrev pub is_stack : ℕ → Bool
is_stack d = flag 47 d && flag 44 d && not (flag 43 d) && flag 41 d && d / 2 ^ 45 % 4 == 0

abbrev pub base_of : ℕ → ℕ
base_of d = d / 2 ^ 16 % 2 ^ 24 + d / 2 ^ 56 * 2 ^ 24

abbrev pub limit_of : ℕ → ℕ
limit_of d =
    let l = d % 2 ^ 16 + d / 2 ^ 48 % 2 ^ 4 * 2 ^ 16 in if flag 55 d then l * 2 ^ 12 + 4095 else l

-- The descriptor that a selector names, if the table has it. The selectors here have RPL 0.
unfoldable pub descriptor : Memory → Processor → ℕ → Option ℕ
unfolding load_bytes
descriptor m p sel =
    let found = load_bytes m p (p.gdt_base + sel) 8 in
    if leb (sel + 7) p.gdt_limit && not (sel == 0) then found else none

-- A far jump. A segment with both L and D is refused in long mode; a segment of 64-bit code has
-- neither a base nor a limit.
unfoldable pub far_jump : ℕ → ℕ → Memory → Processor → Option Processor
unfolding descriptor
far_jump sel offset m p = do
  d ← descriptor m p sel
  let long = long_mode p && flag 53 d
  let refused = not (is_code d) || (long && flag 54 d) || (not long && ltb (limit_of d) offset)
  let there = record p {
    rip = offset;
    cs = sel;
    cs_base = if long then 0 else base_of d;
    cs_big = flag 54 d;
    cs_long = long;
  }
  if refused then none else some there

-- `mov` to `%ds`: in real mode, the base is the selector times 16.
unfoldable pub to_ds : ℕ → Memory → Processor → Option Processor
unfolding descriptor
to_ds sel m p =
    let real = some (record p { ds = sel; ds_base = sel * 16 }) in
    let protected = (do
      d ← descriptor m p sel
      if is_readable d then some (record p { ds = sel; ds_base = base_of d }) else none) in
    if flag 0 p.cr0 then protected else real

unfoldable pub to_ss : ℕ → Memory → Processor → Option Processor
unfolding descriptor
to_ss sel m p =
    let real = some (record p { ss = sel }) in
    let protected = (do
      d ← descriptor m p sel
      if is_stack d then some (record p { ss = sel }) else none) in
    if flag 0 p.cr0 then protected else real

-- `mov` to `%cr0`: PG needs PE, NW needs CD, and, if it starts long mode, PAE and code that is not
-- 64-bit.
abbrev pub cr0_allowed : ℕ → Processor → Bool
cr0_allowed v p =
    (not (flag 31 v) || flag 0 v)
    && (not (flag 29 v) || flag 30 v)
    && (not (flag 31 v) || flag 31 p.cr0 || not (flag 8 p.efer) || (flag 5 p.cr4 && not p.cs_long))

unfoldable pub to_cr0 : ℕ → Processor → Option Processor
to_cr0 v p = if cr0_allowed v p then some (record p { cr0 = v }) else none

-- PAE cannot be cleared in long mode.
unfoldable pub to_cr4 : ℕ → Processor → Option Processor
to_cr4 v p = if long_mode p && not (flag 5 v) then none else some (record p { cr4 = v })

-- Of the model specific registers, EFER alone; LME cannot be changed while paging is on.
abbrev pub efer_msr : ℕ
efer_msr = 0xC000_0080

unfoldable pub read_msr : Processor → Option Processor
read_msr p =
    if p.rcx == efer_msr
    then some (record p { rax = p.efer % 2 ^ 32; rdx = p.efer / 2 ^ 32 })
    else none

unfoldable pub write_msr : Processor → Option Processor
write_msr p =
    let v = p.rdx * 2 ^ 32 + p.rax in
    let refused = flag 31 p.cr0 && not (bit_of 8 v == bit_of 8 p.efer) in
    if p.rcx == efer_msr then (if refused then none else some (record p { efer = v })) else none
