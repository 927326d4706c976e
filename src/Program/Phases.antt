-- ===== src/Program/Phases.antt =====
-- No test runs before the program has accepted its options and its input file.
use rtmb.Home.{home}
use rtmb.Home.{home, Home}
use rtmb.Table.{ResultTable}
use rtmb.Base.Int.{ℤ}
use rtmb.Program.{empty_table, reported, exited_with, Exit}
use rtmb.Double.{Double}
use rtmb.Base.{out_of_fuel, false, fault, true, ok, ◌≡◌, Bool, Run}

-- If the one run exits with a code and a table, the table is empty, and the other run exits so too.
abbrev Follows : {F : Type 0} → Run (Exit F) → Run (Exit F) → Type 0
Follows {F = F} r r' =
    (rc : ℤ) (table : ResultTable F)
    → r ≡ ok (exited_with rc table)
    → (table ≡ empty_table) × (r' ≡ ok (exited_with rc empty_table))

is_report : {F : Type 0} → Run (Exit F) → Bool
is_report (ok (exited_with rc table)) = false
is_report (ok (reported r)) = true
is_report (fault f) = true
is_report out_of_fuel = true

-- A run that makes its report, if it comes to its end.
abbrev Reports : {F : Type 0} → Run (Exit F) → Type 0
Reports r = is_report r ≡ true
