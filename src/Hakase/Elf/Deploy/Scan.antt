-- ===== src/Hakase/Elf/Deploy/Scan.antt =====
-- The two loops of Deploy as lists of what they write, in order, up to the first region that is
-- refused.
use toshokan.Base.{
  ℕ, zero, suc, ◌+◌, ◌^◌, ◌≡◌, ◌<◌, Bool, true, false, Option, none, some, List, [], ◌∷◌, ◌++◌,
  arith, refl, ap, ◌∙◌, if◌then◌else◌, Bool-cases, inl, inr,
}
use native.Mathlib.Nat.{add-zero}
use toshokan.Hakase.Elf.Headers.{
  Image, e_phnum, e_shnum, get_phdr_offset, get_shdr_offset, create_hdr,
}
use toshokan.Hakase.Elf.Deploy.{
  Mem, check_memory_region, Fill, fill, phdr_fill, shdr_fill, scan, scan_fuel, is_loadable, deploy,
}

-- The fills of `n` rounds from round `i` on.
abbrev pub fills : (ℕ → Option (Option Fill)) → ℕ → ℕ → List Fill
fills entry zero i = []
fills entry (suc n) i = elim (entry i) [
  | none ↦ []
  | some none ↦ fills entry n (i + 1)
  | some (some w) ↦ w ∷ fills entry n (i + 1)
]

unfoldable pub put_all : List Fill → Mem → Bool × Mem
put_all [] m = (true, m)
put_all (w ∷ ws) m =
    let rest = put_all ws (fill w m) in
    if check_memory_region w.vaddr w.size then rest else (false, m)

scan-put_all :
    (entry : ℕ → Option (Option Fill)) (n f i : ℕ) (m : Mem)
    → entry (i + n) ≡ none
    → n < f
    → scan entry f i m ≡ some (put_all (fills entry n i) m)
unfolding scan put_all
scan-put_all entry n zero i m e h = absurd (omega arith)
scan-put_all entry zero (suc f) i m e h = rw ((rw add-zero at e), scan)
scan-put_all entry (suc n) (suc f) i m e h = step (scan-put_all entry n f (i + 1)) (entry i) refl
  where
    next : entry (i + 1 + n) ≡ none
    next = ap entry (omega arith) ∙ e

    step :
        ((m' : Mem)
          → entry (i + 1 + n) ≡ none
          → n < f
          → scan entry f (i + 1) m' ≡ some (put_all (fills entry n (i + 1)) m'))
        → (x : Option (Option Fill)) → entry i ≡ x
        → scan entry (suc f) i m ≡ some (put_all (fills entry (suc n) i) m)
    step again none q = rw (q, scan, fills)
    step again (some none) q = rw (q, scan, fills) (again m next (omega arith))
    step again (some (some w)) q = elim (Bool-cases (check_memory_region w.vaddr w.size)) [
      | inl good ↦ rw (q, scan, fills, good) (again (fill w m) next (omega arith))
      | inr bad ↦ rw (q, scan, fills, bad)
    ]

-- What Deploy copies and what it clears, in order.
abbrev pub segments : Image → List Fill
segments img = fills (phdr_fill img) (e_phnum img) 0

abbrev pub sections : Image → List Fill
sections img = fills (shdr_fill img) (e_shnum img) 0

phdr_offset_end : (img : Image) (n : ℕ) → n ≡ e_phnum img → get_phdr_offset img n ≡ 0
unfolding get_phdr_offset
phdr_offset_end img n e = ground arith

phdr_fill_end : (img : Image) → phdr_fill img (0 + e_phnum img) ≡ none
unfolding phdr_fill create_hdr
phdr_fill_end img = rw (phdr_fill, phdr_offset_end img (0 + e_phnum img) (omega arith))

shdr_offset_end : (img : Image) (n : ℕ) → n ≡ e_shnum img → get_shdr_offset img n ≡ 0
unfolding get_shdr_offset
shdr_offset_end img n e = ground arith

shdr_fill_end : (img : Image) → shdr_fill img (0 + e_shnum img) ≡ none
unfolding shdr_fill create_hdr
shdr_fill_end img = rw (shdr_fill, shdr_offset_end img (0 + e_shnum img) (omega arith))

put_all-append :
    (vs ws : List Fill) (m : Mem)
    → put_all (vs ++ ws) m
      ≡ (let (b, m') = put_all vs m in if b then put_all ws m' else (false, m'))
unfolding put_all
put_all-append [] ws m = refl
put_all-append (v ∷ vs) ws m = ground (arith, put_all-append vs ws (fill v m))

-- `Deploy` ends, whatever the binary: a binary that is no ELF64 executable for Linux leaves memory
-- alone; of any other, the segments are copied and then the sections cleared, in order, up to the
-- first region that is refused, where the result is false.
pub deploy-put_all :
    (img : Image) (m : Mem)
    → e_phnum img < 2 ^ 16
    → e_shnum img < 2 ^ 16
    → deploy img m
      ≡ some (if is_loadable img then put_all (segments img ++ sections img) m else (false, m))
unfolding deploy
deploy-put_all img m hp hs = elim (Bool-cases (is_loadable img)) [
  | inr bad ↦ rw bad
  | inl good ↦ elim (Bool-cases (put_all (segments img) m).0) [
    | inl copied ↦ rw (good, first, put_all-append (segments img) (sections img) m, copied) second
    | inr refused ↦ rw (good, first, put_all-append (segments img) (sections img) m, refused)
  ]
]
  where
    first : scan (phdr_fill img) scan_fuel 0 m ≡ some (put_all (segments img) m)
    first =
        scan-put_all (phdr_fill img) (e_phnum img) scan_fuel 0 m (phdr_fill_end img) (omega arith)

    second :
        scan (shdr_fill img) scan_fuel 0 (put_all (segments img) m).1
        ≡ some (put_all (sections img) (put_all (segments img) m).1)
    second =
        scan-put_all (shdr_fill img) (e_shnum img) scan_fuel 0 (put_all (segments img) m).1
          (shdr_fill_end img) (omega arith)
