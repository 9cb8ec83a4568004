-- ===== src/Hakase/Elf/Deploy/Accepts.antt =====
-- Which binaries Deploy accepts.
use toshokan.Base.{
  ℕ, zero, suc, ◌+◌, ◌*◌, ◌%◌, ◌^◌, ◌≡◌, ◌≤◌, ◌<◌, ◌⊎◌, ◌↔◌, Bool, true, false, Option, some, List,
  [], ◌∷◌, ◌++◌, ◌&&◌, arith, refl, sym, ◌∙◌, if◌then◌else◌, Bool-cases, ℕ_discrete, inl, inr,
}
use toshokan.Layout.{deploy_phys_addr_start, deploy_phys_addr_end}
use toshokan.Hakase.Elf.Headers.{
  Image, e_phnum, e_shnum, is_elf, is_elf64, is_osabi_sysv, is_osabi_gnu, is_executable,
}
use toshokan.Hakase.Elf.Deploy.{
  Mem, check_memory_region, Fill, fill, phdr_fill, shdr_fill, is_loadable, deploy,
}
use toshokan.Hakase.Elf.Deploy.Listed.{
  HasTables, p_vaddr, p_filesz, is_load, sh_addr, sh_size, is_bss, segment, section,
}
use toshokan.Hakase.Elf.Deploy.Scan.{fills, put_all, segments, sections, deploy-put_all}
use toshokan.Hakase.Elf.Deploy.Entries.{Table, fills-next}
use toshokan.Hakase.Elf.Deploy.Contents.{phnum_small, shnum_small, phdrs, shdrs}

abbrev all_fit : List Fill → Bool
all_fit [] = true
all_fit (w ∷ ws) = check_memory_region w.vaddr w.size && all_fit ws

put_all-all_fit : (ws : List Fill) (m : Mem) → (put_all ws m).0 ≡ all_fit ws
unfolding put_all
put_all-all_fit [] m = refl
put_all-all_fit (w ∷ ws) m = ground (arith, put_all-all_fit ws (fill w m))

all_fit-append : (vs ws : List Fill) → all_fit (vs ++ ws) ≡ (all_fit vs && all_fit ws)
all_fit-append [] ws = refl
all_fit-append (v ∷ vs) ws = ground (arith, all_fit-append vs ws)

-- The region lies in the memory of the friend cores, its end taken modulo 2 ^ 64.
abbrev pub Fits : ℕ → ℕ → Type 0
Fits vaddr size =
    (deploy_phys_addr_start ≤ vaddr) × ((vaddr + size) % 2 ^ 64 ≤ deploy_phys_addr_end)

check-Fits : (vaddr size : ℕ) → (check_memory_region vaddr size ≡ true) ↔ Fits vaddr size
unfolding check_memory_region
check-Fits vaddr size = (λ e. ground arith, λ b. ground arith)

module _ (entry : ℕ → Option (Option Fill)) (is_listed : ℕ → Bool) (at : ℕ → Fill) where
  all_fit_entry :
      (n i : ℕ)
      → Table entry is_listed at 0 n i
      → all_fit (fills entry n i) ≡ true
      → (k : ℕ) → i ≤ k
      → k < i + n
      → is_listed k ≡ true
      → Fits (at k).vaddr (at k).size
  all_fit_entry zero i t h k lo hi l = absurd (omega arith)
  all_fit_entry (suc n) i t h k lo hi l =
      let e = fills-next entry n i (is_listed i) (at i) (t i (omega arith) (omega arith)) in
      let rest : all_fit (fills entry n (i + 1)) ≡ true = elim (Bool-cases (is_listed i)) [
        | inl y ↦ let h' = rw (e, y) at h in ground (arith, h')
        | inr n ↦ rw (e, n) at h
      ] in
      elim (ℕ_discrete i k) [
        | yes same ↦
            let h' = rw (e, same, l) at h in
            (check-Fits (at k).vaddr (at k).size).0 (ground (arith, h'))
        | no other ↦
            all_fit_entry n (i + 1) (λ j p q. t j (omega arith) (omega arith)) rest k (omega arith)
              (omega arith) l
      ]

  all_fit_lem :
      (n i : ℕ)
      → Table entry is_listed at 0 n i
      → ((k : ℕ) → i ≤ k → k < i + n → is_listed k ≡ true → Fits (at k).vaddr (at k).size)
      → all_fit (fills entry n i) ≡ true
  all_fit_lem zero i t h = refl
  all_fit_lem (suc n) i t h =
      let e = fills-next entry n i (is_listed i) (at i) (t i (omega arith) (omega arith)) in
      let rest =
        all_fit_lem n (i + 1) (λ j p q. t j (omega arith) (omega arith))
          (λ j p q. h j (omega arith) (omega arith)) in
      elim (Bool-cases (is_listed i)) [
        | inl y ↦
            let here =
              (check-Fits (at i).vaddr (at i).size).1 (h i (omega arith) (omega arith) y) in
            rw (e, y) (rw (here, rest) refl)
        | inr n ↦ rw (e, n) rest
      ]

-- An executable for Linux of 64 bits: the magic number, ELFCLASS64, ELFOSABI_SYSV or ELFOSABI_GNU,
-- and ET_EXEC.
pub record IsProgram (img : Image) : Type 0 where
  pub magic : (img 0 ≡ 0x7f) × (img 1 ≡ 0x45) × (img 2 ≡ 0x4c) × (img 3 ≡ 0x46)
  pub class64 : img 4 ≡ 2
  pub osabi : (img 7 ≡ 0) ⊎ (img 7 ≡ 3)
  pub exec : img 16 + 2 ^ 8 * img 17 ≡ 2

loadable-IsProgram : (img : Image) → (is_loadable img ≡ true) ↔ IsProgram img
unfolding is_loadable is_elf is_elf64 is_osabi_sysv is_osabi_gnu is_executable
loadable-IsProgram img = (
  λ h. record {
    magic = (ground arith, ground arith, ground arith, ground arith);
    class64 = ground arith;
    osabi = elim (ℕ_discrete (img 7) 0) [ yes z ↦ inl z | no n ↦ inr (ground arith) ];
    exec = ground arith;
  },
  λ v. ground (arith, v.magic, v.class64, v.osabi, v.exec),
)

-- What Deploy accepts.
pub record IsAccepted (img : Image) : Type 0 where
  pub is_program : IsProgram img
  pub segments_fit :
      (i : ℕ) → i < e_phnum img → is_load img i ≡ true → Fits (p_vaddr img i) (p_filesz img i)
  pub sections_fit :
      (i : ℕ) → i < e_shnum img → is_bss img i ≡ true → Fits (sh_addr img i) (sh_size img i)

module _ (img : Image) (v : HasTables img) where
  all_fit_iff : (all_fit (segments img ++ sections img) ≡ true) ↔ (
      ((i : ℕ) → i < e_phnum img → is_load img i ≡ true → Fits (p_vaddr img i) (p_filesz img i))
      × ((i : ℕ) → i < e_shnum img → is_bss img i ≡ true → Fits (sh_addr img i) (sh_size img i)))
  all_fit_iff =
      let both = all_fit-append (segments img) (sections img) in
      (
        λ h. (
          λ i p l.
              all_fit_entry (phdr_fill img) (is_load img) (segment img) (e_phnum img) 0
                (phdrs img v 0) (ground (arith, both, h)) i (omega arith) (omega arith) l,
          λ i p l.
              all_fit_entry (shdr_fill img) (is_bss img) (section img) (e_shnum img) 0
                (shdrs img v 0) (ground (arith, both, h)) i (omega arith) (omega arith) l,
        ),
        λ (ps, ss).
            let a =
              all_fit_lem (phdr_fill img) (is_load img) (segment img) (e_phnum img) 0
                (phdrs img v 0) (λ k lo hi l. ps k (omega arith) l) in
            let b =
              all_fit_lem (shdr_fill img) (is_bss img) (section img) (e_shnum img) 0 (shdrs img v 0)
                (λ k lo hi l. ss k (omega arith) l) in
            both ∙ rw (a, b) refl,
      )

  -- Deploy ends on every binary whose header tables are in place. Its result is true exactly if the
  -- binary is an executable for Linux of 64 bits, and the regions of all its segments of type
  -- PT_LOAD and of all its sections of type SHT_NOBITS with SHF_ALLOC, their ends taken modulo
  -- 2 ^ 64, lie in the memory of the friend cores; and it leaves memory alone if the binary is no
  -- such executable.
  pub deploy_accepts :
      (m : Mem)
      → (b : Bool) × (m' : Mem) × (deploy img m ≡ some (b, m'))
        × ((b ≡ true) ↔ IsAccepted img)
        × (¬ IsProgram img → m' ≡ m)
  deploy_accepts m = elim (Bool-cases (is_loadable img)) [
    | inr bad ↦ (
      false,
      m,
      e ∙ rw bad refl,
      (λ h. absurd (ground arith), λ a. absurd (no_program bad a.is_program)),
      λ _. refl,
    )
    | inl good ↦ (
      (put_all (segments img ++ sections img) m).0,
      (put_all (segments img ++ sections img) m).1,
      e ∙ rw good refl,
      (
        λ h.
            let (ps, ss) = all_fit_iff.0 (sym fit ∙ h) in
            record { is_program = program good; segments_fit = ps; sections_fit = ss },
        λ a. fit ∙ all_fit_iff.1 (a.segments_fit, a.sections_fit),
      ),
      λ n. absurd (n (program good)),
    )
  ]
    where
      e :
          deploy img m
          ≡ some (if is_loadable img then put_all (segments img ++ sections img) m else (false, m))
      e = deploy-put_all img m (phnum_small img v) (shnum_small img v)

      fit : (put_all (segments img ++ sections img) m).0 ≡ all_fit (segments img ++ sections img)
      fit = put_all-all_fit (segments img ++ sections img) m

      program : is_loadable img ≡ true → IsProgram img
      program = (loadable-IsProgram img).0

      no_program : is_loadable img ≡ false → ¬ IsProgram img
      no_program bad p = ground (arith, bad, (loadable-IsProgram img).1 p)
