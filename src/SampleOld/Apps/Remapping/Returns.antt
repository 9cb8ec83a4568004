-- ===== src/SampleOld/Apps/Remapping/Returns.antt =====
-- The run of `main` of sample_old/paging/024.
use toshokan.Base.{ℕ, ◌≡◌, List, [], ◌∷◌, Option, none, some, refl, ap, arith}
use toshokan.Hakase.PageTables.Leads.{IsPage}
use toshokan.SampleOld.Machine.{System, Message, put_char, put_value, phys}
use toshokan.SampleOld.Common.{send_chars}
use toshokan.SampleOld.Tables.{hello, bye, pml4t, link_tables}
use toshokan.SampleOld.Apps.{
  Link, app1_entry1, app1_entry2, app2_entry3, app2_entry4, Frame, Outcome, stuck, returned,
  running, body,
}
use toshokan.SampleOld.Apps.Runs.{
  after, told, digit, puts_part, call_c1_lem, call_c2_lem, check_c1_lem, check_c2_lem,
}
use toshokan.SampleOld.Apps.Programs.{remapped_main}
use toshokan.SampleOld.Apps.Remapping.{
  IsBuilt, turned, mapped-IsReady, turn, turn1, turn2, copied, copied-IsReady,
}

-- What `main` returns, and the messages that it has sent.
abbrev pub result : Outcome → Option (ℕ × List Message)
result stuck = none
result (returned code s) = some (code, s.sent)
result (running frame) = none

pub result_of :
    (o : Outcome) {code : ℕ} {s : System} → o ≡ returned code s → result o ≡ some (code, s.sent)
result_of o p = ap result p

-- Each line is a string, the last of them first.
abbrev pub lines : List (List ℕ) → List Message → List Message
lines [] sent = sent
lines (str ∷ strs) sent = put_char 10 ∷ send_chars str (lines strs sent)

-- `main` shows 1, 9, 2 and 8 and returns 0, where the binaries are built as IsBuilt says: each call goes to the binary that
-- the entry of the table leads to, and finds the context that the same binary has left.
pub remapped_main-returns :
    (l : Link) (frame : Frame)
    → IsBuilt l frame.system.mem
    → result (remapped_main l frame)
      ≡ some (
        0,
        put_value 0
            ∷ lines (bye ∷ digit 8 ∷ digit 2 ∷ digit 9 ∷ digit 1 ∷ hello ∷ []) frame.system.sent,
      )
unfolding remapped_main link_tables
remapped_main-returns l frame built =
    let m₀ = frame.system.mem in
    let f₁ : IsPage 0x8050_0000 = (omega arith, omega arith) in
    let f₂ : IsPage 0x8060_0000 = (omega arith, omega arith) in
    let s₁ : System = record (told hello frame.system) {
      mem = copied l m₀ built;
      cr3 = some (phys pml4t);
      tlb = λ page. none;
    } in
    let s₂ = told (digit 1) (turned l m₀ built 0x8050_0000 0xC000_0000 s₁) in
    let s₃ = told (digit 9) (turned l m₀ built 0x8060_0000 0xC000_0000 s₂) in
    let s₄ = told (digit 2) (turned l m₀ built 0x8050_0000 l.entry2_address s₃) in
    let v₁ = copied-IsReady l m₀ built in
    let v₂ = mapped-IsReady l m₀ built 0x8050_0000 _ f₁ v₁ in
    let v₃ = mapped-IsReady l m₀ built 0x8060_0000 _ f₂ v₂ in
    let v₄ = mapped-IsReady l m₀ built 0x8050_0000 _ f₁ v₃ in
    let t₁ = turn l m₀ built 0x8050_0000 0xC000_0000 s₁ f₁ (omega arith) refl v₁ in
    let t₂ = turn l m₀ built 0x8060_0000 0xC000_0000 s₂ f₂ (omega arith) refl v₂ in
    let t₃ = turn l m₀ built 0x8050_0000 l.entry2_address s₃ f₁ built.entry2_inside refl v₃ in
    let t₄ = turn l m₀ built 0x8060_0000 l.entry4_address s₄ f₂ built.entry4_inside refl v₄ in
    let (c₁, _) = turn1 l m₀ built 0xC000_0000 s₁ (omega arith) v₁ in
    let (c₂, _) = turn2 l m₀ built 0xC000_0000 s₂ (omega arith) v₂ in
    let (_, c₃) = turn1 l m₀ built l.entry2_address s₃ built.entry2_inside v₃ in
    let (_, c₄) = turn2 l m₀ built l.entry4_address s₄ built.entry4_inside v₄ in
    let end =
      after _ (call_c2_lem l (body l) _ app2_entry4 t₄ c₄ refl)
        (after _ (check_c2_lem 8 _ refl) (after _ (puts_part bye _) refl)) in
    let late =
      after _ (call_c1_lem l (body l) _ app1_entry2 t₃ c₃ refl)
        (after _ (check_c1_lem 2 _ refl) end) in
    let mid =
      after _ (call_c2_lem l (body l) _ app2_entry3 t₂ c₂ refl)
        (after _ (check_c2_lem 9 _ refl) late) in
    let early =
      after _ (call_c1_lem l (body l) _ app1_entry1 t₁ c₁ refl)
        (after _ (check_c1_lem 1 _ refl) mid) in
    result_of (remapped_main l frame) (after _ (puts_part hello frame) early)
