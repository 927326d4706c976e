-- ===== src/Home/Examples.antt =====
-- A program that is in the second of two directories.
use rtmb.CString.{equal, codes}
use rtmb.Result.{Bytes}
use rtmb.Home.{
  home, dirname, resolve_symbolic_link, try_element, search_path, find_as, find_program,
  build_home_dir,
}
use rtmb.Home.Search.{home_of, joined, AreDirs, build_home_dir-first_regular}
use rtmb.Base.{ok, if◌then◌else◌, ◌≡◌, arith, Bool, Option, List, true, some, none, refl, [], ◌∷◌}

-- Only /opt/bin/rtmb is a regular file.
abbrev installed : Bytes → Option Bool
installed name = if equal name (codes "/opt/bin/rtmb") then some true else none

abbrev no_link : Bytes → Option Bytes
no_link name = none

abbrev path_of : List Bytes
path_of = codes "/opt/bin" ∷ []

home_lem :
    build_home_dir 64 installed no_link none (some (joined (codes "/bin") path_of)) (codes "rtmb")
    ≡ ok (home (codes "/opt"))
unfolding build_home_dir find_program find_as search_path try_element resolve_symbolic_link dirname
home_lem = refl

path_of-AreDirs : AreDirs 64 (codes "rtmb") (codes "/bin" ∷ path_of)
path_of-AreDirs = omega arith

build_home_dir-first_regular_example :
    build_home_dir 64 installed no_link none (some (joined (codes "/bin") path_of)) (codes "rtmb")
    ≡ home_of 64 installed no_link (some (codes "/opt/bin/rtmb"))
build_home_dir-first_regular_example =
    build_home_dir-first_regular 64 installed no_link none (codes "rtmb") (codes "/bin") path_of
      refl path_of-AreDirs
