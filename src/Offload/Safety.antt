-- ===== src/Offload/Safety.antt =====
-- What holds of `_OFFLOAD` and `TryReceive` after any sequence of steps.
use toshokan.Base.{
  ℕ, ◌+◌, ◌≡◌, ◌≢◌, ◌≤◌, ◌⊎◌, inl, inr, List, true, false, arith, sym, ◌∙◌, ℕ_discrete,
}
use toshokan.Offload.{spin, Cpu, Mem, System, run, start}
use toshokan.Offload.Stages.{Stage, free, outside, resting, During, Inv}
use toshokan.Offload.Steps.{Reached, run-Inv, start-Inv}

-- The counters of stack `i`, at a stage of a use by friend core `o`.
owner_counts :
    (st : Stage) {o : ℕ} {m : Mem} {h c : Cpu}
    → During st o o m h c
    → (m.ended o ≤ m.hosted o)
      × (m.hosted o ≤ m.ended o + 1)
      × (outside c.loc ≡ true → m.hosted o ≡ m.ended o)
owner_counts free d = ground arith
owner_counts st d = ground arith

inside_is_owner :
    {st : Stage} {s : System} {o : ℕ} (i : ℕ)
    → Inv st o s
    → i ≢ 0
    → outside (s.cpu i).loc ≡ false
    → i ≡ o
inside_is_owner {o = o} i v nz h = elim (ℕ_discrete i o) [
  | yes e ↦ e
  | no ne ↦ ground (arith, v.apart i nz ne)
]

owner_stack :
    (st : Stage) {o j : ℕ} {m : Mem} {h c : Cpu}
    → o ≢ 0
    → During st o j m h c
    → (c.frame ≡ o) × (h.frame ≡ o → c.loc ≡ spin) × (resting h.loc ≡ true → h.frame ≡ 0)
owner_stack free nz d = ground arith
owner_stack st nz d = ground arith

host_stack :
    (st : Stage) {o j : ℕ} {m : Mem} {h c : Cpu}
    → During st o j m h c
    → (h.frame ≡ 0) ⊎ (h.frame ≡ o)
host_stack free d = ground arith
host_stack st d = ground arith

abbrev after : List ℕ → System
after ps = run ps start

reached : (ps : List ℕ) → Reached (after ps)
reached ps = run-Inv ps start-Inv

-- `code` never runs on a friend core. It has run on the hakase process, on the stack of friend core
-- `i`, once for every use of the macro by that core that has ended, and at most once more for the
-- use that goes on; a core that is outside the macro has no such use.
pub code_runs_once :
    (ps : List ℕ) (i : ℕ)
    → i ≢ 0
    → let s = after ps in
      (s.mem.strayed i ≡ 0)
      × (s.mem.ended i ≤ s.mem.hosted i)
      × (s.mem.hosted i ≤ s.mem.ended i + 1)
      × (outside (s.cpu i).loc ≡ true → s.mem.hosted i ≡ s.mem.ended i)
code_runs_once ps i nz =
    let (st, o, v) = reached ps in
    elim (ℕ_discrete i o) [
      | yes e ↦ let t = owner_counts st (v.during o) in rw e ((v.during o).clean, t.0, t.1, t.2)
      | no ne ↦
          let d = v.during i in
          (d.clean, omega (arith, d.others ne), omega (arith, d.others ne), λ _. d.others ne)
    ]

-- Two friend cores are never both between the acquisition of the lock and its release.
pub mutual_exclusion :
    (ps : List ℕ) (i j : ℕ)
    → i ≢ 0
    → j ≢ 0
    → outside ((after ps).cpu i).loc ≡ false
    → outside ((after ps).cpu j).loc ≡ false
    → i ≡ j
mutual_exclusion ps i j ni nj hi hj =
    let (st, o, v) = reached ps in inside_is_owner i v ni hi ∙ sym (inside_is_owner j v nj hj)

-- A friend core is always on its own stack. While the hakase process is on the stack of a friend
-- core, that core spins; in between, where `TryReceive` returns, the hakase process is on its own.
pub stacks_apart :
    (ps : List ℕ) (i : ℕ)
    → i ≢ 0
    → let s = after ps in
      ((s.cpu i).frame ≡ i)
      × ((s.cpu 0).frame ≡ i → (s.cpu i).loc ≡ spin)
      × (resting (s.cpu 0).loc ≡ true → (s.cpu 0).frame ≡ 0)
stacks_apart ps i nz =
    let (st, o, v) = reached ps in
    elim (ℕ_discrete i o) [
      | yes e ↦ rw e (owner_stack st v.is_friend (v.during o))
      | no ne ↦
          let t = owner_stack st v.is_friend (v.during o) in
          (
            (v.apart i nz ne).0,
            λ e. elim (host_stack st (v.during o)) [
              | inl z ↦ absurd (nz (sym e ∙ z))
              | inr z ↦ absurd (ne (sym e ∙ z))
            ],
            t.2,
          )
    ]
