-- ===== src/Hakase/Setup/Ready.antt =====
-- When `setup` succeeds.
use toshokan.Base.{
  ℕ, ◌+◌, ◌≡◌, ◌↔◌, ap, inl, inr, Bool-cases, refl, Bool, true, false, not, ◌&&◌, List, Option,
  none, some, ltb, arith,
}
use toshokan.Base.Int.{ℤ, pos, negsuc, ltb_ℤ}
use toshokan.Layout.{page_size}
use toshokan.Hakase.Elf.Headers.{u64_at, get_entry}
use toshokan.Hakase.Elf.Deploy.{deploy}
use toshokan.Hakase.Elf.Deploy.Listed.{HasTables}
use toshokan.Hakase.Elf.Deploy.Accepts.{IsAccepted, deploy_accepts}
use toshokan.Hakase.PageTables.{init_page_tables}
use toshokan.Hakase.PageTables.Identity.{IsPlaced}
use toshokan.Hakase.Startup.{check_version, check_bootparam}
use toshokan.Hakase.Setup.Leaves.{IsSetUp, leaves-IsSetUp}
use toshokan.Hakase.Setup.{
  Process, Setting, left_open, clear, with_entry, tables_in, export_init, mmap_friend_mem,
  loader16_init, load, setup,
}

-- Both checks succeed, both memories can be opened and mapped, and the trampoline fits its page.
abbrev pub is_supplied : Setting → Bool
is_supplied t =
    not (ltb_ℤ (check_version t.version) (pos 0))
    && not (ltb_ℤ (check_bootparam t.cmdline) (pos 0))
    && t.friend_mem_opens
    && t.friend_mem_maps
    && not (ltb page_size t.friend16_bin_size)
    && t.bootmem_opens
    && t.bootmem_maps

supplied :
    (t : Setting)
    → is_supplied t ≡ true
    → (ltb_ℤ (check_version t.version) (pos 0) ≡ false)
      × (ltb_ℤ (check_bootparam t.cmdline) (pos 0) ≡ false)
      × (t.friend_mem_opens ≡ true)
      × (t.friend_mem_maps ≡ true)
      × (ltb page_size t.friend16_bin_size ≡ false)
      × (t.bootmem_opens ≡ true)
      × (t.bootmem_maps ≡ true)
supplied t h = (
  ground arith,
  ground arith,
  ground arith,
  ground arith,
  ground arith,
  ground arith,
  ground arith,
)

left_open-ok : (o : Option (List ℕ)) (r : ℤ) → ltb_ℤ r (pos 0) ≡ false → left_open o r ≡ 0
left_open-ok none r h = refl
left_open-ok (some f) r h = rw h refl

plus_none : (n a b : ℕ) → a ≡ 0 → b ≡ 0 → n + a + b ≡ n
plus_none n a b p q = omega arith

setup_succeeds :
    (t : Setting) (p : Process) (memory : ℕ → ℕ)
    → is_supplied t ≡ true
    → deploy t.friend_bin (clear p.memory) ≡ some (true, memory)
    → setup t p
      ≡ some (
        pos 0,
        record {
          files = p.files;
          memory = memory;
          trampoline =
              with_entry t.friend16_bin t.friend16_bin_size p.trampoline (get_entry t.friend_bin);
          tables = init_page_tables t.places (tables_in memory p.tables);
          shared = export_init t.export_symbols (u64_at memory);
        },
      )
unfolding setup load mmap_friend_mem loader16_init
setup_succeeds t p memory h d =
    let (v, b, o, m, size, bo, bm) = supplied t h in
    let files =
      plus_none p.files (left_open t.version (check_version t.version))
        (left_open t.cmdline (check_bootparam t.cmdline))
        (left_open-ok t.version (check_version t.version) v)
        (left_open-ok t.cmdline (check_bootparam t.cmdline) b) in
    simp (v, b, o, m, files) (simp (d, load) (simp (size, bo, bm, loader16_init) refl))

abbrev Fails : Option (ℤ × Process) → Type 0
Fails o = (q : Process) × (o ≡ some (negsuc 0, q))

load-Fails :
    (t : Setting) (p : Process) (b : Bool) (memory : ℕ → ℕ)
    → deploy t.friend_bin p.memory ≡ some (b, memory)
    → (b && not (ltb page_size t.friend16_bin_size) && t.bootmem_opens && t.bootmem_maps) ≡ false
    → Fails (load t p)
unfolding load loader16_init
load-Fails t p false memory d h = rw (load, d) (_, refl)
load-Fails t p true memory d h = elim (Bool-cases (ltb page_size t.friend16_bin_size)) [
  | inl large ↦ rw (load, d) (rw (loader16_init, large) (_, refl))
  | inr size ↦ elim (Bool-cases t.bootmem_opens) [
    | inr bo ↦ rw (load, d) (rw (loader16_init, size, bo) (_, refl))
    | inl bo ↦ elim (Bool-cases t.bootmem_maps) [
      | inr bm ↦ rw (load, d) (rw (loader16_init, size, bo, bm) (_, refl))
      | inl bm ↦ absurd (ground arith)
    ]
  ]
]

setup-Fails :
    (t : Setting) (p : Process) (b : Bool) (memory : ℕ → ℕ)
    → deploy t.friend_bin (clear p.memory) ≡ some (b, memory)
    → (b && is_supplied t) ≡ false
    → Fails (setup t p)
unfolding setup mmap_friend_mem
setup-Fails t p b memory d h = elim (Bool-cases (ltb_ℤ (check_version t.version) (pos 0))) [
  | inl v ↦ rw v (_, refl)
  | inr v ↦ elim (Bool-cases (ltb_ℤ (check_bootparam t.cmdline) (pos 0))) [
    | inl c ↦ rw (v, c) (_, refl)
    | inr c ↦ elim (Bool-cases t.friend_mem_opens) [
      | inr o ↦ rw (v, c, o) (_, refl)
      | inl o ↦ elim (Bool-cases t.friend_mem_maps) [
        | inr m ↦ rw (v, c, o, m) (_, refl)
        | inl m ↦
            let (q, e) =
              load-Fails t (record p { files = _; memory = clear p.memory }) b memory d
                (ground arith) in
            rw (v, c, o, m) (q, e)
      ]
    ]
  ]
]

is_ok : ℤ → Bool
is_ok (pos n) = true
is_ok (negsuc n) = false

-- The header tables of the friend binary lie behind its start and end below 2 ^ 64, and both are
-- smaller than 2 ^ 31 bytes; the page tables have four different pages. Then `setup` returns, and it
-- returns 0 exactly if both checks succeed, both memories can be opened and mapped, the trampoline
-- fits its page and Deploy accepts the binary. Where it returns 0, no file is left open; memory is
-- what the binary leaves of the memory with its first 4 MB cleared; the trampoline has its code, with
-- the entry of the binary as a word of 64 bits at byte 8; the page tables map the first 2 MB and the
-- memory of the friend cores, each address to itself; and each shared variable holds the value of the
-- last symbol that is exported to it, or what Deploy has left there.
pub setup-ready :
    (t : Setting) (p : Process)
    → HasTables t.friend_bin
    → IsPlaced t.places
    → (r : ℤ) × (q : Process) × (setup t p ≡ some (r, q))
      × ((r ≡ pos 0) ↔ ((is_supplied t ≡ true) × IsAccepted t.friend_bin))
      × (r ≡ pos 0 → IsSetUp t p q)
setup-ready t p v placed =
    let (b, memory, d, accepts, unused) = deploy_accepts t.friend_bin v (clear p.memory) in
    elim (Bool-cases (b && is_supplied t)) [
      | inl good ↦
          let supplied : is_supplied t ≡ true = ground arith in
          let accepted : b ≡ true = ground arith in
          let d' = rw accepted at d in
          (
            pos 0,
            _,
            setup_succeeds t p memory supplied d',
            (λ _. (supplied, accepts.0 accepted), λ _. refl),
            λ _. leaves-IsSetUp t p memory v placed d',
          )
      | inr bad ↦
          let (q, e) = setup-Fails t p b memory d bad in
          (
            negsuc 0,
            q,
            e,
            (
              λ h. absurd (ground (arith, ap is_ok h)),
              λ (s, a). absurd (ground (arith, bad, s, accepts.1 a)),
            ),
            λ h. absurd (ground (arith, ap is_ok h)),
          )
    ]
