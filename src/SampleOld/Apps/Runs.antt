-- ===== src/SampleOld/Apps/Runs.antt =====
-- One part of a `main` after another.
use toshokan.Base.{
  ℕ, ◌+◌, ◌-◌, ◌%◌, zero, suc, ◌≡◌, ◌≤◌, ◌<◌, List, [], ◌∷◌, some, refl, ◌∙◌, ◌⊎◌, ◌&&◌, ◌==◌, leb,
  ltb, true, if◌then◌else◌, update, ℕ_discrete, arith,
}
use toshokan.SampleOld.Machine.{System, Bytes, put_char}
use toshokan.SampleOld.Common.{puts, send_chars, copy_bytes}
use toshokan.SampleOld.Common.Locks.{lock-enters}
use toshokan.SampleOld.Apps.{
  Context, Entry, Link, Body, Frame, Outcome, Part, running, go_on, on_system, call, call_c1,
  call_c2, check_c1, check_c2, touch, seen, show_i,
}

pub after : {o r : Outcome} {t : Frame} (g : Part) → o ≡ running t → g t ≡ r → go_on o g ≡ r
after g p q = rw p q

-- The system after a line.
abbrev pub told : List ℕ → System → System
told str s = record s { sent = put_char 10 ∷ send_chars str s.sent; print_flag = 0 }

abbrev pub digit : ℕ → List ℕ
digit i = 105 ∷ 61 ∷ ((48 + i) % 256) ∷ []

pub puts_lem : (str : List ℕ) (s : System) → puts str s ≡ some (told str s)
unfolding puts
puts_lem str s = let (a, b) = lock-enters s.print_flag 0 in rw (puts, a) refl

pub puts_part :
    (str : List ℕ) (frame : Frame)
    → on_system (puts str) frame ≡ running (record frame { system = told str frame.system })
puts_part str frame = rw (on_system, puts_lem str frame.system) refl

pub call_c1_lem :
    (l : Link) (run : Body) (frame : Frame) (e : Entry) {s t : System} {c : Context}
    → touch frame.c1.next frame.system ≡ some s
    → l.code (seen s) frame.c1.next ≡ some e
    → run e frame.c1 s ≡ some (c, t)
    → call_c1 l run frame ≡ running (record frame { system = t; c1 = c })
unfolding call
call_c1_lem l run frame e p q r = rw (call_c1, call, p, q, r) refl

pub call_c2_lem :
    (l : Link) (run : Body) (frame : Frame) (e : Entry) {s t : System} {c : Context}
    → touch frame.c2.next frame.system ≡ some s
    → l.code (seen s) frame.c2.next ≡ some e
    → run e frame.c2 s ≡ some (c, t)
    → call_c2 l run frame ≡ running (record frame { system = t; c2 = c })
unfolding call
call_c2_lem l run frame e p q r = rw (call_c2, call, p, q, r) refl

pub check_c1_lem :
    (i : ℕ) (frame : Frame)
    → frame.c1.i ≡ i
    → check_c1 i frame ≡ running (record frame { system = told (digit frame.c1.i) frame.system })
unfolding check_c1 show_i
check_c1_lem i frame e =
    let d : (frame.c1.i == i) ≡ true = ground arith in
    after _ (puts_part (digit frame.c1.i) frame) (rw d refl)

pub check_c2_lem :
    (i : ℕ) (frame : Frame)
    → frame.c2.i ≡ i
    → check_c2 i frame ≡ running (record frame { system = told (digit frame.c2.i) frame.system })
unfolding check_c2 show_i
check_c2_lem i frame e =
    let d : (frame.c2.i == i) ≡ true = ground arith in
    after _ (puts_part (digit frame.c2.i) frame) (rw d refl)

-- memcpy between two places that are apart.
pub copy_bytes_lem :
    (n i dest src : ℕ) (m : Bytes) (b : ℕ)
    → dest + i + n ≤ src ⊎ src + i + n ≤ dest
    → copy_bytes n i dest src m b
      ≡ (if leb (dest + i) b && ltb b (dest + i + n) then m (src + (b - dest)) else m b)
unfolding copy_bytes
copy_bytes_lem zero i dest src m b h = ground arith
copy_bytes_lem (suc n) i dest src m b h =
    copy_bytes_lem n (i + 1) dest src (update m (dest + i) (m (src + i))) b (omega (arith, h))
    ∙ split (ℕ_discrete b (dest + i))
  where
    split :
        Dec (b ≡ dest + i)
        → (if leb (dest + (i + 1)) b && ltb b (dest + (i + 1) + n)
            then update m (dest + i) (m (src + i)) (src + (b - dest))
            else update m (dest + i) (m (src + i)) b)
          ≡ (if leb (dest + i) b && ltb b (dest + i + suc n) then m (src + (b - dest)) else m b)
    split (yes e) = let f : src + (b - dest) ≡ src + i = omega arith in rw f (ground arith)
    split (no e) = ground arith

pub copied_in :
    (n dest src : ℕ) (m : Bytes) (k : ℕ)
    → dest + n ≤ src ⊎ src + n ≤ dest
    → k < n
    → copy_bytes n 0 dest src m (dest + k) ≡ m (src + k)
copied_in n dest src m k h l =
    let e : dest + k - dest ≡ k = omega arith in
    copy_bytes_lem n 0 dest src m (dest + k) (omega (arith, h)) ∙ rw e (ground arith)

pub copied_out :
    (n dest src : ℕ) (m : Bytes) (b : ℕ)
    → dest + n ≤ src ⊎ src + n ≤ dest
    → b < dest ⊎ dest + n ≤ b
    → copy_bytes n 0 dest src m b ≡ m b
copied_out n dest src m b h l = copy_bytes_lem n 0 dest src m b (omega (arith, h)) ∙ ground arith
