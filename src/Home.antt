-- ===== src/Home.antt =====
-- `build_home_dir` and `resolve_symbolic_link` of rtmb_c/src/harness/RTMB.c: the directory of the
-- program, from the name that it was called by. What `stat`, `realpath`, `getcwd` and `getenv` answer
-- are arguments, and `max_path_len` is MAXPATHLEN.
pub mod Search
mod Examples
use rtmb.CString.{starts_with, codes, first_byte}
use rtmb.Result.{Bytes}
use rtmb.Base.{
  out_of_bounds, ◌+◌, leb, drop, buffer_overflow, bad_pointer, ◌||◌, ◌++◌, length, fault, ◌==◌,
  ◌&&◌, out_of_fuel, ok, ltb, reverse, if◌then◌else◌, Run, Option, Bool, ℕ, ◌>>=◌, false, true,
  some, none, suc, [], ◌∷◌, zero,
}

abbrev pub slash : ℕ
slash = b'/'

-- `strchr(s, c) != NULL`
abbrev pub has_byte : ℕ → Bytes → Bool
has_byte c [] = false
has_byte c (x ∷ s) = (x == c) || has_byte c s

-- The bytes before the first `c`, and those behind it.
abbrev pub cut_at : ℕ → Bytes → Bytes × Option Bytes
cut_at c [] = ([], none)
cut_at c (x ∷ s) = let rest = cut_at c s in if x == c then ([], some s) else (x ∷ rest.0, rest.1)

abbrev pub skip_slashes : Bytes → Bytes
skip_slashes [] = []
skip_slashes (x ∷ s) = let rest = skip_slashes s in if x == slash then rest else x ∷ s

abbrev pub skip_name : Bytes → Bytes
skip_name [] = []
skip_name (x ∷ s) = let rest = skip_name s in if x == slash then x ∷ s else rest

abbrev pub or_else : Bytes → Bytes → Bytes
or_else [] d = d
or_else (x ∷ s) d = reverse (x ∷ s)

-- `dirname`: the name without its last component, "." where there is no other.
unfoldable pub dirname : Bytes → Bytes
dirname s = elim (skip_name (skip_slashes (reverse s))) [
  | [] ↦ if first_byte s == slash then codes "/" else codes "."
  | x ∷ r ↦ or_else (skip_slashes (x ∷ r)) (codes "/")
]

-- What `build_home_dir` returns: a string, or a variable that was never set.
pub data Home : Type 0 where
  home : Bytes → Home
  unset : Home

module _ (max_path_len : ℕ) where
  -- A string that is written into a buffer of MAXPATHLEN bytes.
  abbrev pub fit : Bytes → Run Bytes
  fit s = if ltb (length s) max_path_len then ok s else fault buffer_overflow

  -- The loop over the dots at the start of a relative name.
  unfoldable pub resolve_dots : ℕ → Bytes → Bytes → Run (Bytes × Bytes)
  resolve_dots zero path p = out_of_fuel
  resolve_dots (suc fuel) path p = elim (first_byte p == b'.') [
    | false ↦ ok (path, p)
    | true ↦ elim (starts_with (codes "../") p) [
      | true ↦ resolve_dots fuel (dirname path) (drop 3 p)
      | false ↦ elim (leb 2 (length p)) [
        | true ↦ resolve_dots fuel path (drop 2 p)
        | false ↦ fault out_of_bounds
      ]
    ]
  ]

  module _ (stat : Bytes → Option Bool) where
    -- Whether the name is that of a regular file.
    abbrev pub is_regular : Bytes → Bool
    is_regular name = elim (stat name) [ none ↦ false | some regular ↦ regular ]

    -- One element of PATH, and the rest of it, for which `search` is the rest of the loop.
    unfoldable pub try_element :
        (Bytes → Run (Option Bytes)) → Bytes → Bytes × Option Bytes → Run (Option Bytes)
    try_element search file_name (element, later) = fit element >>= λ dir.
        fit (dir ++ codes "/") >>= λ dir. fit (dir ++ file_name) >>= λ dir. elim (is_regular dir) [
          | true ↦ ok (some dir)
          | false ↦ elim later [ none ↦ ok none | some path ↦ search path ]
        ]

    -- The loop over the elements of PATH.
    unfoldable pub search_path : ℕ → Bytes → Bytes → Run (Option Bytes)
    search_path zero file_name path = out_of_fuel
    search_path (suc fuel) file_name path =
        try_element (λ path. search_path fuel file_name path) file_name (cut_at b':' path)

    abbrev pub is_file : Bytes → Bool
    is_file name = elim (stat name) [ none ↦ false | some regular ↦ true ]

    -- For a name that is a path, and for any other, which is looked up.
    unfoldable pub find_as : Bool → (getcwd getenv : Option Bytes) → Bytes → Run (Option Bytes)
    find_as true getcwd getenv file_name = elim (first_byte file_name == slash) [
      | true ↦ fit file_name >>= λ found. ok (some found)
      | false ↦ elim getcwd [
        | none ↦ fault bad_pointer
        | some dir ↦ resolve_dots (length file_name + 1) dir file_name >>= λ r.
            fit (r.0 ++ codes "/" ++ r.1) >>= λ found. ok (some found)
      ]
    ]
    find_as false getcwd none file_name = ok none
    find_as false getcwd (some path) file_name = search_path (length path + 1) file_name path

    unfoldable pub find_program : (getcwd getenv : Option Bytes) → Bytes → Run (Option Bytes)
    find_program getcwd getenv file_name =
        find_as (has_byte slash file_name && is_file file_name) getcwd getenv file_name

    module _ (realpath : Bytes → Option Bytes) where
      unfoldable pub resolve_symbolic_link : Bytes → Run Bytes
      resolve_symbolic_link file = elim (realpath file) [
        | none ↦ ok file
        | some resolved ↦ fit resolved
      ]

      unfoldable pub build_home_dir : (getcwd getenv : Option Bytes) → Bytes → Run Home
      build_home_dir getcwd getenv file_name = do
        found ← find_program getcwd getenv file_name
        elim found [
          | none ↦ ok unset
          | some program ↦ (do
            program ← resolve_symbolic_link program
            bin ← resolve_symbolic_link (dirname program)
            dir ← resolve_symbolic_link (dirname bin)
            ok (home dir))
        ]
