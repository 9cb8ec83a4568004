-- ===== src/Hakase/Startup/Checks.antt =====
-- Which files the two checks accept.
use toshokan.Base.{
  ℕ, zero, suc, ◌+◌, sym, ◌≡◌, ◌≢◌, ◌≤◌, ◌↔◌, refl, ap, ◌∙◌, Bool, true, false, ◌||◌, ◌==◌, List,
  [], ◌∷◌, ◌++◌, length, length-append, take, some, ==_iff, if◌then◌else◌, inl, inr, Bool-cases,
  arith,
}
use Prim.{tt}
use mathlib.Core.List.{append_assoc, head-eq_of_cons-eq, tail-eq_of_cons-eq}
use toshokan.Base.Int.{ℤ, pos, negsuc}
use toshokan.Hakase.Startup.{c_string, read_buf, starts_with, strstr, check_file}

starts_with-prefix :
    (cs bs : List ℕ) → starts_with cs bs ≡ true → (post : List ℕ) × (bs ≡ cs ++ post)
unfolding starts_with
starts_with-prefix [] bs h = (bs, refl)
starts_with-prefix (c ∷ cs) [] h = absurd (ground arith)
starts_with-prefix (c ∷ cs) (b ∷ bs) h =
    let (post, e) = starts_with-prefix cs bs (ground arith) in
    let same : c ≡ b = (==_iff c b).0 (ground arith) in (post, rw (same, e) refl)

prefix-starts_with : (cs post : List ℕ) → starts_with cs (cs ++ post) ≡ true
unfolding starts_with
prefix-starts_with [] post = refl
prefix-starts_with (c ∷ cs) post = rw ((==_iff c c).1 refl, prefix-starts_with cs post) refl

or-first : (x y : Bool) → x ≡ true → (x || y) ≡ true
or-first true y e = refl
or-first false y e = absurd (ground arith)

or-second : (x y : Bool) → y ≡ true → (x || y) ≡ true
or-second true y e = refl
or-second false y e = e

or-not_first : (x y : Bool) → x ≡ false → (x || y) ≡ true → y ≡ true
or-not_first true y e h = absurd (ground arith)
or-not_first false y e h = h

strstr-found :
    (bs cs : List ℕ)
    → strstr bs cs ≡ true
    → (pre : List ℕ) × ((post : List ℕ) × (bs ≡ pre ++ (cs ++ post)))
unfolding strstr
strstr-found [] cs h = ([], starts_with-prefix cs [] h)
strstr-found (b ∷ bs) cs h = elim (Bool-cases (starts_with cs (b ∷ bs))) [
  | inl e ↦ ([], starts_with-prefix cs (b ∷ bs) e)
  | inr e ↦
      let (pre, (post, p)) = strstr-found bs cs (or-not_first _ _ e h) in
      (b ∷ pre, (post, ap (λ l. b ∷ l) p))
]

found-strstr : (pre cs post : List ℕ) → strstr (pre ++ (cs ++ post)) cs ≡ true
unfolding strstr starts_with
found-strstr [] [] [] = refl
found-strstr [] [] (b ∷ post) = refl
found-strstr [] (c ∷ cs) post = or-first _ _ (prefix-starts_with (c ∷ cs) post)
found-strstr (b ∷ pre) cs post = or-second _ _ (found-strstr pre cs post)

abbrev is_zero : ℤ → Bool
is_zero (pos n) = true
is_zero (negsuc n) = false

verdict : (b : Bool) → (if b then pos 0 else negsuc 0) ≡ pos 0 → b ≡ true
verdict true h = refl
verdict false h = ap is_zero h

-- No byte of it is 0.
abbrev pub NoZero : List ℕ → Type 0
NoZero [] = Unit {0}
NoZero (x ∷ xs) = (x ≢ 0) × NoZero xs

-- What stands at the start of the text that is read stands there in the file, within the limit.
text-file :
    (n : ℕ) (xs post file : List ℕ)
    → c_string (take n file) ≡ xs ++ post
    → NoZero xs × (length xs ≤ n) × ((rest : List ℕ) × (file ≡ xs ++ rest))
unfolding c_string
text-file n [] post file e = (tt, omega arith, (file, refl))
text-file zero (x ∷ xs) post file e = absurd (omega (arith, ap length e))
text-file (suc n) (x ∷ xs) post [] e = absurd (omega (arith, ap length e))
text-file (suc n) (x ∷ xs) post (b ∷ file) e = elim (Bool-cases (b == 0)) [
  | inl z ↦ absurd (omega (arith, ap length (rw z at e)))
  | inr z ↦
      let e' : b ∷ c_string (take n file) ≡ x ∷ (xs ++ post) = rw z at e in
      let same : b ≡ x = head-eq_of_cons-eq e' in
      let (zs, short, (rest, f)) = text-file n xs post file (tail-eq_of_cons-eq e') in
      ((λ w. ground (arith, w, same), zs), omega arith, (rest, rw (same, f) refl))
]

file-text :
    (n : ℕ) (xs rest : List ℕ)
    → NoZero xs
    → length xs ≤ n
    → (post : List ℕ) × (c_string (take n (xs ++ rest)) ≡ xs ++ post)
unfolding c_string
file-text n [] rest z h = (c_string (take n rest), refl)
file-text zero (x ∷ xs) rest z h = absurd (omega arith)
file-text (suc n) (x ∷ xs) rest (x≢0, z) h =
    let (post, e) = file-text n xs rest z (omega arith) in
    let other : (x == 0) ≡ false = ground arith in (post, rw other (ap (λ l. x ∷ l) e))

-- A check of a file that can be opened succeeds exactly if what it looks for stands in the file and
-- ends within the first 255 bytes, and no byte of it or before it is 0.
pub check_file_iff :
    (needle file : List ℕ)
    → (check_file needle (some file) ≡ pos 0) ↔ (
        (pre : List ℕ) × (rest : List ℕ) × (file ≡ pre ++ (needle ++ rest))
        × (length pre + length needle ≤ 255)
        × NoZero (pre ++ needle))
unfolding check_file read_buf
check_file_iff needle file = (found, λ (pre, rest, e, short, z). accepted pre rest e short z)
  where
    found :
        check_file needle (some file) ≡ pos 0
        → (pre : List ℕ) × (rest : List ℕ) × (file ≡ pre ++ (needle ++ rest))
          × (length pre + length needle ≤ 255)
          × NoZero (pre ++ needle)
    found h =
        let (pre, (post, e)) =
          strstr-found (read_buf file) needle (verdict (strstr (read_buf file) needle) h) in
        let (zs, short, (rest, f)) =
          text-file 255 (pre ++ needle) post file (e ∙ sym (append_assoc pre needle post)) in
        (
          pre,
          rest,
          f ∙ append_assoc pre needle rest,
          omega (arith, short, length-append pre needle),
          zs,
        )

    accepted :
        (pre rest : List ℕ)
        → file ≡ pre ++ (needle ++ rest)
        → length pre + length needle ≤ 255
        → NoZero (pre ++ needle)
        → check_file needle (some file) ≡ pos 0
    accepted pre rest e short z =
        let (post, f) =
          file-text 255 (pre ++ needle) rest z (omega (arith, short, length-append pre needle)) in
        let text : read_buf file ≡ pre ++ (needle ++ post) =
          ap read_buf (e ∙ sym (append_assoc pre needle rest)) ∙ f ∙ append_assoc pre needle post in
        ap (λ l. if strstr l needle then pos 0 else negsuc 0) text
        ∙ rw (found-strstr pre needle post) refl
