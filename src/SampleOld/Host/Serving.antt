-- ===== src/SampleOld/Host/Serving.antt =====
-- The host and the friend together.
use toshokan.Base.{
  ℕ, suc, ltb, false, List, [], ◌∷◌, ◌++◌, map, true, ◌≡◌, ◌≤◌, refl, ap, some, arith,
}
use mathlib.Core.Option
use toshokan.SampleOld.Machine.{System, Step, Message, put_char, put_value}
use toshokan.SampleOld.Common.{send_chars}
use toshokan.SampleOld.Host.{Signal, Loaded, arrive, serve, test_main}
use toshokan.SampleOld.Tables.{hello, bye, link_tables}
use toshokan.SampleOld.Intro.{greeting_main, waiting_main}
use toshokan.SampleOld.Tables.Programs.{
  identity_main, halted_main, unmapped_main, shifted_main, adjacent_main, scattered_main,
}

arrive-send_chars :
    (str : List ℕ) (sent : List Message) (later : List Signal)
    → arrive (send_chars str sent) later ≡ arrive sent (map (λ c. (2, c)) str ++ later)
unfolding send_chars
arrive-send_chars [] sent later = refl
arrive-send_chars (c ∷ str) sent later = arrive-send_chars str (put_char c ∷ sent) later

-- The characters of a string, the last of them first, before what was printed earlier.
abbrev pub print : List ℕ → List ℕ → List ℕ
print [] printed = printed
print (c ∷ str) printed = print str (c ∷ printed)

serve-chars :
    (str : List ℕ) (later : List Signal) (printed : List ℕ)
    → serve (map (λ c. (2, c)) str ++ later) printed ≡ serve later (print str printed)
unfolding serve
serve-chars [] later printed = refl
serve-chars (c ∷ str) later printed = serve-chars str later (c ∷ printed)

-- What a friend that says two strings and returns `v` has sent.
abbrev said : List ℕ → List ℕ → ℕ → List Message
said a b v = put_value v ∷ put_char 10 ∷ send_chars b (put_char 10 ∷ send_chars a [])

said-served :
    (a b : List ℕ) (v : ℕ)
    → serve (arrive (said a b v) []) [] ≡ some (v, 10 ∷ print b (10 ∷ print a []))
unfolding serve
said-served a b v =
    rw
      (
        arrive-send_chars b (put_char 10 ∷ send_chars a []) ((2, 10) ∷ (1, v) ∷ []),
        arrive-send_chars a [] ((2, 10) ∷ (map (λ c. (2, c)) b ++ ((2, 10) ∷ (1, v) ∷ []))),
        serve-chars a ((2, 10) ∷ (map (λ c. (2, c)) b ++ ((2, 10) ∷ (1, v) ∷ []))) [],
        serve-chars b ((2, 10) ∷ (1, v) ∷ []) (10 ∷ print a []),
      )
      refl

-- The host, where the file is loaded and run, and a friend that runs a sample whose core has sent
-- nothing before: the host prints "hello!" and "bye!", a line each, and returns 0.
pub samples-served :
    (l : Loaded) (s : System) (n : ℕ)
    → 2 ≤ l.argc
    → l.file_loaded ≡ true
    → l.file_inited ≡ true
    → l.file_deployed ≡ true
    → l.file_executed ≡ true
    → s.sent ≡ []
    → s.wakes ≡ suc n
    → let served = λ (main : Step).
      Option.map (λ (t : System). test_main l (arrive t.sent [])) (main s)
      ≡ some (some (0, 10 ∷ print bye (10 ∷ print hello []))) in
      served identity_main
      × served halted_main
      × served unmapped_main
      × served shifted_main
      × served adjacent_main
      × served scattered_main
      × served greeting_main
      × served waiting_main
unfolding greeting_main waiting_main identity_main halted_main unmapped_main shifted_main
    adjacent_main scattered_main link_tables test_main
samples-served l s n a b c d e f w =
    let g : ltb l.argc 2 ≡ false = ground arith in
    let r = ap some (said-served hello bye 0) in
    (
      rw (g, b, c, d, e, f) r,
      rw (w, g, b, c, d, e, f) r,
      rw (w, g, b, c, d, e, f) r,
      rw (w, g, b, c, d, e, f) r,
      rw (w, g, b, c, d, e, f) r,
      rw (w, g, b, c, d, e, f) r,
      rw (g, b, c, d, e, f) r,
      rw (w, g, b, c, d, e, f) r,
    )
