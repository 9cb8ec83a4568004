-- ===== src/Hakase/Elf/Deploy/Loaded.antt =====
-- What memory holds after Deploy.
use toshokan.Base.{
  ℕ, ◌+◌, ◌-◌, ◌^◌, ◌≡◌, ◌<◌, ◌≤◌, ◌⊎◌, Bool, true, Option, none, some, List, [], ◌∷◌, ◌++◌, arith,
  refl, ◌∙◌, if◌then◌else◌, Bool-cases, inl, inr,
}
use mathlib.Core.Option.{get_or}
use toshokan.Layout.{deploy_phys_addr_start, deploy_phys_addr_end}
use toshokan.Hakase.Elf.Headers.{Image, e_phnum, e_shnum}
use toshokan.Hakase.Elf.Deploy.{Mem, check_memory_region, Fill, covers, fill, deploy}
use toshokan.Hakase.Elf.Deploy.Region.{check_memory_region_iff}
use toshokan.Hakase.Elf.Deploy.Scan.{put_all, segments, sections, deploy-put_all}

abbrev pub or_else : Option ℕ → Option ℕ → Option ℕ
or_else (some b) o = some b
or_else none o = o

-- The byte at `a` of the last fill that covers it.
abbrev pub last_byte : List Fill → ℕ → Option ℕ
last_byte [] a = none
last_byte (w ∷ ws) a =
    or_else (last_byte ws a) (if covers w a then some (w.byte (a - w.vaddr)) else none)

put_all-last_byte :
    (ws : List Fill) (m : Mem) (a : ℕ)
    → (put_all ws m).0 ≡ true
    → (put_all ws m).1 a ≡ get_or (last_byte ws a) (m a)
unfolding put_all
put_all-last_byte [] m a h = refl
put_all-last_byte (w ∷ ws) m a h = ground (arith, put_all-last_byte ws (fill w m) a)

-- No region wraps round the end of the address space.
abbrev pub NoWrap : List Fill → Type 0
NoWrap [] = Unit {0}
NoWrap (w ∷ ws) = (w.vaddr + w.size < 2 ^ 64) × NoWrap ws

put_all-outside :
    (ws : List Fill) (m : Mem) (a : ℕ)
    → NoWrap ws
    → (a < deploy_phys_addr_start) ⊎ (deploy_phys_addr_end ≤ a)
    → (put_all ws m).1 a ≡ m a
unfolding put_all
put_all-outside [] m a n o = refl
put_all-outside (w ∷ ws) m a (n, ns) o = elim (Bool-cases (check_memory_region w.vaddr w.size)) [
  | inl good ↦
      let b = (check_memory_region_iff w.vaddr w.size n).0 good in
      rw good (put_all-outside ws (fill w m) a ns o ∙ ground arith)
  | inr bad ↦ rw bad
]

module _ (img : Image) (m : Mem) (hp : e_phnum img < 2 ^ 16) (hs : e_shnum img < 2 ^ 16) where
  -- Whether Deploy succeeds or fails, it writes nothing outside the memory of the friend cores, if
  -- every region of a segment that it copies or of a section that it clears ends below 2 ^ 64.
  pub deploy_confined :
      (b : Bool) (m' : Mem)
      → deploy img m ≡ some (b, m')
      → NoWrap (segments img ++ sections img)
      → (a : ℕ) → (a < deploy_phys_addr_start) ⊎ (deploy_phys_addr_end ≤ a)
      → m' a ≡ m a
  deploy_confined b m' e n a o =
      ground
        (arith, deploy-put_all img m hp hs, put_all-outside (segments img ++ sections img) m a n o)

  pub deploy-last_byte :
      (m' : Mem)
      → deploy img m ≡ some (true, m')
      → (a : ℕ) → m' a ≡ get_or (last_byte (segments img ++ sections img) a) (m a)
  deploy-last_byte m' e a =
      ground
        (arith, deploy-put_all img m hp hs, put_all-last_byte (segments img ++ sections img) m a)
