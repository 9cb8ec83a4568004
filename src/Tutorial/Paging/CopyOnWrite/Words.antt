-- ===== src/Tutorial/Paging/CopyOnWrite/Words.antt =====
-- Which words my_memcpy copies.
use toshokan.Base.{
  ℕ, zero, suc, ◌+◌, ◌*◌, ◌/◌, ◌%◌, ◌≡◌, ◌≤◌, ◌<◌, ◌⊎◌, refl, ◌∙◌, true, false, ◌&&◌, leb, ltb,
  ◌==◌, if◌then◌else◌, update, ℕ_discrete, dec_lt, arith,
}
use toshokan.Tutorial.Paging.CopyOnWrite.{copy_words, my_memcpy}

copy_words_lem :
    (f i dst src count k : ℕ) (m : ℕ → ℕ)
    → i % 8 ≡ 0
    → count ≤ i + 8 * f
    → dst + count ≤ src ⊎ src + count ≤ dst
    → k < count
    → copy_words f i dst src count m (dst + k)
      ≡ (if leb i k && k % 8 == 0 then m (src + k) else m (dst + k))
unfolding copy_words
copy_words_lem zero i dst src count k m a l h p = ground arith
copy_words_lem (suc f) i dst src count k m a l h p = elim (dec_lt i count) [
  | yes b ↦
      let t : ltb i count ≡ true = ground arith in
      rw t (
        copy_words_lem f (i + 8) dst src count k (update m (dst + i) (m (src + i))) (omega arith)
          (omega arith) h p
        ∙ split b (ℕ_discrete k i))
  | no b ↦ let t : ltb i count ≡ false = ground arith in rw t (ground arith)
]
  where
    split :
        i < count
        → Dec (k ≡ i)
        → (if leb (i + 8) k && k % 8 == 0
            then update m (dst + i) (m (src + i)) (src + k)
            else update m (dst + i) (m (src + i)) (dst + k))
          ≡ (if leb i k && k % 8 == 0 then m (src + k) else m (dst + k))
    split b (yes d) = rw d (ground arith)
    split b (no d) = ground arith

-- Between two places that are apart, my_memcpy copies one word in eight: the words 0, 8, 16 and so on
-- of the `n / 8`; the others of the destination stay as they were.
pub my_memcpy-words :
    (dst src n k : ℕ) (m : ℕ → ℕ)
    → dst + n / 8 ≤ src ⊎ src + n / 8 ≤ dst
    → k < n / 8
    → my_memcpy dst src n m (dst + k) ≡ (if k % 8 == 0 then m (src + k) else m (dst + k))
unfolding my_memcpy
my_memcpy-words dst src n k m h p =
    copy_words_lem (n / 8) 0 dst src (n / 8) k m refl (omega arith) h p ∙ ground arith
