-- ===== src/Program/Examples.antt =====
-- A program in /opt/bin whose working directory cannot be read.
use rtmb.Table.{ResultTable}
use rtmb.Params.{BenchmarkTest}
use rtmb.CString.{codes, equal}
use rtmb.Result.{Bytes}
use rtmb.Program.{Surroundings}
use rtmb.Base.Int.{ℤ}
use rtmb.Double.Whole.{whole}
use rtmb.Base.{Bool, Option, true, some, none}

abbrev lost : Surroundings
lost = record {
  pages_locked = true;
  stat = λ name. some (equal name (codes "/opt/bin/rtmb"));
  realpath = λ name. none;
  getcwd = none;
  getenv = some (codes "/opt/bin");
  fopen = λ name. none;
}

abbrev no_object : Bytes → Option (BenchmarkTest ℤ → ResultTable ℤ → Bool × ResultTable ℤ)
no_object name = none

abbrev idle_object : Bytes → Option (BenchmarkTest ℤ → ResultTable ℤ → Bool × ResultTable ℤ)
idle_object name = some (λ t table. (true, table))
