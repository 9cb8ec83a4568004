-- ===== src/Tutorial/Idt/Gates.antt =====
-- What the processor reads from the table is what setup_inthandler is given.
use toshokan.Base.{ℕ, ◌+◌, ◌*◌, ◌/◌, ◌%◌, ◌^◌, ◌≡◌, ◌≤◌, ◌<◌, ◌==◌, refl, true, arith}
use toshokan.Base.Words.{bit_or_low, bit_or_raised}
use toshokan.Tutorial.Idt.{
  Idt, gate_of, setup_inthandler, offset, selector, gate_type, gate_present, base, limit,
}

-- The first two words of a gate.
gate_words :
    (v : ℕ)
    → let g = gate_of v in
      (g.entry0 ≡ 0x10_0000 + v % 2 ^ 16) × (g.entry1 ≡ v / 2 ^ 16 % 2 ^ 16 * 2 ^ 16 + 0x8E00)
gate_words v =
    let a = v / 2 ^ 16 % 2 ^ 16 in
    let r = bit_or_raised 16 0x10 (v % 2 ^ 16) (omega arith) in
    let z : a * 2 ^ 16 ≡ 2 ^ 16 * a + 0 = omega arith in
    let l₁ = bit_or_low 16 a 0 0xE00 (omega arith) (omega arith) in
    let l₂ = bit_or_low 16 a 0xE00 0x8000 (omega arith) (omega arith) in
    (rw r (omega arith), rw (z, l₁, l₂) (omega arith))

-- Handler and table are any two addresses of 64 bits: the processor finds the handler's address in the
-- gate, a present interrupt gate of the code segment 0x10, and it finds the table, whose limit has
-- room for that gate and is that of 64 gates of 16 bytes.
pub setup_inthandler-read :
    (vector idt_addr handler : ℕ) (t : Idt)
    → vector < 64
    → idt_addr < 2 ^ 64
    → handler < 2 ^ 64
    → let u = setup_inthandler vector idt_addr handler t in
      let g = u.gates vector in
      (offset g ≡ handler)
      × (selector g ≡ 0x10)
      × (gate_type g ≡ 0xE)
      × (gate_present g ≡ true)
      × (base u.idtr ≡ idt_addr)
      × (16 * vector + 15 ≤ limit u.idtr)
      × (limit u.idtr + 1 ≡ 16 * 64)
unfolding setup_inthandler
setup_inthandler-read vector idt_addr handler t v a h =
    let (w₀, w₁) = gate_words handler in
    let s : (vector == vector) ≡ true = ground arith in
    rw (s, w₀, w₁)
      (omega arith, omega arith, omega arith, ground arith, omega arith, omega arith, refl)
