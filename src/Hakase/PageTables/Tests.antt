-- ===== src/Hakase/PageTables/Tests.antt =====
-- The tables at concrete addresses.
use toshokan.Base.{inl, ◌≡◌, refl, arith, some, none, ◌==◌, if◌then◌else◌}
use toshokan.Hakase.PageTables.{Tables, PhysMem, init_page_tables}
use toshokan.Hakase.PageTables.Walk.{walk}
use toshokan.Hakase.PageTables.Identity.{IsPlaced, friend_identity, trampoline_identity, unmapped}

abbrev tables : Tables
tables = record { pml4t = 0x7_1000; pdpt = 0x1_0000_3000; pd1 = 0x1_0000_4000; pd2 = 0x1_0000_5000 }

-- The page behind the trampoline is never cleared.
abbrev memory : PhysMem
memory b k = if b == 0x7_1000 then 0xdead else 0

tables-IsPlaced : IsPlaced tables
tables-IsPlaced = omega arith

friend_identity_example :
    walk (init_page_tables tables memory) 0x7_1000 0x1_2345_6789 ≡ some 0x1_2345_6789
friend_identity_example =
    friend_identity tables memory tables-IsPlaced 0x1_2345_6789 (omega arith) (omega arith)

trampoline_identity_example :
    walk (init_page_tables tables memory) 0x7_1000 0x7_0008 ≡ some 0x7_0008
trampoline_identity_example =
    trampoline_identity tables memory tables-IsPlaced 0x7_0008 (omega arith)

unmapped_example : walk (init_page_tables tables memory) 0x7_1000 0x8000_0000 ≡ none
unmapped_example =
    unmapped tables memory tables-IsPlaced (λ k. refl) (λ k. refl) 0x8000_0000 (omega arith)
      (omega arith) (inl (omega arith))
