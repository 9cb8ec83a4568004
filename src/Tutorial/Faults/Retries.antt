-- ===== src/Tutorial/Faults/Retries.antt =====
-- Which handler runs, and where the instruction ends.
use toshokan.Base.{
  ℕ, zero, suc, ◌^◌, ◌≡◌, ◌≢◌, ◌<◌, Option, none, some, refl, true, false, ◌==◌, arith,
}
use toshokan.Tutorial.Idt.{Idt, setup_inthandler}
use toshokan.Tutorial.Idt.Gates.{setup_inthandler-read}
use toshokan.Tutorial.Faults.{Handling, resumes, ended, still_faulting, retry, deliver}

module _ {ℓ₁ ℓ₂} {A : Type ℓ₁} {B : Type ℓ₂} (run : A → Option B) (handler : A → Handling A) where
  -- A handler that changes nothing: the instruction faults again, for ever.
  pub retry-same :
      (f : ℕ) (a : A)
      → run a ≡ none
      → handler a ≡ resumes a
      → retry run handler f a ≡ still_faulting
  unfolding retry
  retry-same zero a p q = refl
  retry-same (suc f) a p q = rw (retry, p, q) (retry-same f a p q)

  -- A handler after which the instruction ends.
  pub retry-mended :
      (f : ℕ) (a a' : A) (b : B)
      → run a ≡ none
      → handler a ≡ resumes a'
      → run a' ≡ some b
      → retry run handler (suc (suc f)) a ≡ ended b
  unfolding retry
  retry-mended f a a' b p q r = rw (retry, p, q, r) refl

module _ {ℓ} {A : Type ℓ} (handler1 handler2 : A → Handling A) (t : Idt)
    (vector idt_def address1 address2 : ℕ) where
  -- The handler that was set up is the one that runs.
  pub deliver_lem :
      vector < 64
      → idt_def < 2 ^ 64
      → address1 < 2 ^ 64
      → address2 < 2 ^ 64
      → address1 ≢ address2
      → (a : A)
      → (deliver vector address1 address2 handler1 handler2
            (setup_inthandler vector idt_def address1 t)
            a
          ≡ handler1 a)
        × (deliver vector address1 address2 handler1 handler2
              (setup_inthandler vector idt_def address2 t)
              a
            ≡ handler2 a)
  unfolding deliver
  deliver_lem v d h₁ h₂ n a =
      let o₁ = (setup_inthandler-read vector idt_def address1 t v d h₁).0 in
      let o₂ = (setup_inthandler-read vector idt_def address2 t v d h₂).0 in
      let same₁ : (address1 == address1) ≡ true = ground arith in
      let same₂ : (address2 == address2) ≡ true = ground arith in
      let other : (address2 == address1) ≡ false = ground arith in
      (rw (deliver, o₁, same₁) refl, rw (deliver, o₂, other, same₂) refl)
