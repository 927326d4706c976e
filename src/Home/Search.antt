-- ===== src/Home/Search.antt =====
-- The search for the program through the elements of PATH.
use rtmb.Home.{
  is_file, find_as, try_element, home, dirname, slash, resolve_symbolic_link, unset, has_byte,
  find_program, Home, build_home_dir, is_regular, fit, search_path, cut_at,
}
use rtmb.CString.{codes}
use rtmb.CString.Tokens.{Free}
use rtmb.Result.{Bytes}
use rtmb.Base.{
  ◌&&◌, ap, ◌>>=◌, length-append, Bool-cases, ◌≤◌, ◌∙◌, ◌+◌, Run, inr, inl, lt→ltb, ok, arith, ◌≡◌,
  ◌<◌, if◌then◌else◌, ◌++◌, length, Option, List, Bool, ℕ, false, true, some, none, suc, refl, [],
  ◌∷◌, zero,
}

-- The elements of a PATH, joined by colons.
abbrev pub joined : Bytes → List Bytes → Bytes
joined d [] = d
joined d (e ∷ ds) = d ++ b':' ∷ joined e ds

abbrev pub candidate : Bytes → Bytes → Bytes
candidate file_name d = d ++ codes "/" ++ file_name

-- Of the candidates in these directories, the first that is a regular file.
abbrev pub first_regular : (Bytes → Bool) → Bytes → List Bytes → Option Bytes
first_regular regular file_name [] = none
first_regular regular file_name (d ∷ ds) =
    if regular (candidate file_name d)
    then some (candidate file_name d)
    else first_regular regular file_name ds

-- No directory has a colon in its name, and every candidate fits a buffer.
abbrev pub AreDirs : ℕ → Bytes → List Bytes → Type 0
AreDirs max_path_len file_name [] = Unit {0}
AreDirs max_path_len file_name (d ∷ ds) =
    Free b':' d
    × (length (candidate file_name d) < max_path_len)
    × AreDirs max_path_len file_name ds

cut_at-Free : (c : ℕ) (s rest : Bytes) → Free c s → cut_at c (s ++ c ∷ rest) ≡ (s, some rest)
cut_at-Free c [] rest h = ground arith
cut_at-Free c (x ∷ s) rest (ne, h) = ground (arith, cut_at-Free c s rest h)

cut_at-all : (c : ℕ) (s : Bytes) → Free c s → cut_at c s ≡ (s, none)
cut_at-all c [] h = refl
cut_at-all c (x ∷ s) (ne, h) = ground (arith, cut_at-all c s h)

fit-ok : (max_path_len : ℕ) (s : Bytes) → length s < max_path_len → fit max_path_len s ≡ ok s
fit-ok max_path_len s h = rw (lt→ltb (length s) max_path_len h) refl

module _ (max_path_len : ℕ) (stat : Bytes → Option Bool) where
  -- What the loop does after it has cut off the element `d`.
  try_element-candidate :
      (search : Bytes → Run (Option Bytes)) (file_name d : Bytes) (later : Option Bytes)
      → length (candidate file_name d) < max_path_len
      → try_element max_path_len stat search file_name (d, later)
        ≡ elim (is_regular max_path_len stat (candidate file_name d)) [
          | true ↦ ok (some (candidate file_name d))
          | false ↦ elim later [ none ↦ ok none | some path ↦ search path ]
        ]
  unfolding try_element
  try_element-candidate search file_name d later h =
      let longer : length (d ++ codes "/") ≡ length d + 1 = length-append d (codes "/") in
      let whole : length (candidate file_name d) ≡ length (d ++ codes "/") + length file_name =
        length-append (d ++ codes "/") file_name in
      rw
        (
          lt→ltb (length d) max_path_len (omega arith),
          lt→ltb (length (d ++ codes "/")) max_path_len (omega arith),
          lt→ltb (length (candidate file_name d)) max_path_len h,
        )
        refl

  -- What the loop does after it has cut off the element `d`.
  search_path-cut :
      (fuel : ℕ) (file_name path d : Bytes) (later : Option Bytes)
      → cut_at b':' path ≡ (d, later)
      → length (candidate file_name d) < max_path_len
      → search_path max_path_len stat (suc fuel) file_name path
        ≡ elim (is_regular max_path_len stat (candidate file_name d)) [
          | true ↦ ok (some (candidate file_name d))
          | false ↦ elim later [
            | none ↦ ok none
            | some path ↦ search_path max_path_len stat fuel file_name path
          ]
        ]
  unfolding search_path
  search_path-cut fuel file_name path d later e h =
      ap (try_element max_path_len stat (search_path max_path_len stat fuel file_name) file_name) e
      ∙ try_element-candidate (search_path max_path_len stat fuel file_name) file_name d later h

  search-first :
      (fuel : ℕ) (file_name d : Bytes) (ds : List Bytes)
      → AreDirs max_path_len file_name (d ∷ ds)
      → length ds < fuel
      → search_path max_path_len stat fuel file_name (joined d ds)
        ≡ ok (first_regular (is_regular max_path_len stat) file_name (d ∷ ds))
  search-first zero file_name d ds dirs enough = absurd (omega arith)
  search-first (suc fuel) file_name d [] (free, short, more) enough =
      search_path-cut fuel file_name d d none (cut_at-all b':' d free) short
      ∙ (elim (Bool-cases (is_regular max_path_len stat (candidate file_name d))) [
        | inl e ↦ rw e refl
        | inr e ↦ rw e refl
      ])
  search-first (suc fuel) file_name d (e ∷ ds) (free, short, more) enough =
      search_path-cut fuel file_name (joined d (e ∷ ds)) d (some (joined e ds))
        (cut_at-Free b':' d (joined e ds) free) short
      ∙ (elim (Bool-cases (is_regular max_path_len stat (candidate file_name d))) [
        | inl h ↦ rw h refl
        | inr h ↦ rw h (search-first fuel file_name e ds more (omega arith))
      ])

  length-joined : (d : Bytes) (ds : List Bytes) → length ds ≤ length (joined d ds)
  length-joined d [] = omega arith
  length-joined d (e ∷ ds) =
      omega (arith, length-append {0} d (b':' ∷ joined e ds), length-joined e ds)

  find_program-plain :
      (getcwd : Option Bytes) (file_name path : Bytes)
      → has_byte slash file_name ≡ false
      → find_program max_path_len stat getcwd (some path) file_name
        ≡ search_path max_path_len stat (length path + 1) file_name path
  unfolding find_program find_as
  find_program-plain getcwd file_name path plain =
      ap
        (λ b.
          find_as max_path_len stat (b && is_file max_path_len stat file_name) getcwd (some path)
            file_name)
        plain

  module _ (realpath : Bytes → Option Bytes) where
    -- How the home directory follows from the name of the program.
    abbrev pub home_of : Option Bytes → Run Home
    home_of none = ok unset
    home_of (some program) = resolve_symbolic_link max_path_len stat realpath program >>= λ program.
        resolve_symbolic_link max_path_len stat realpath (dirname program) >>= λ bin.
        resolve_symbolic_link max_path_len stat realpath (dirname bin) >>= λ dir. ok (home dir)

    by_result :
        (o : Option Bytes)
        → elim o [
          | none ↦ ok unset
          | some program ↦ resolve_symbolic_link max_path_len stat realpath program >>= λ program.
              resolve_symbolic_link max_path_len stat realpath (dirname program) >>= λ bin.
              resolve_symbolic_link max_path_len stat realpath (dirname bin) >>= λ dir.
              ok (home dir)
        ]
          ≡ home_of o
    by_result none = refl
    by_result (some program) = refl

    -- The program was called by a name without a slash, and PATH has the directories `d ∷ ds`,
    -- without colons in their names and short enough for the buffer with the name behind them. Then
    -- the home directory is that of the first of them which holds a regular file of this name, two
    -- components up; if none does, the result is a pointer that was never set.
    pub build_home_dir-first_regular :
        (getcwd : Option Bytes) (file_name d : Bytes) (ds : List Bytes)
        → has_byte slash file_name ≡ false
        → AreDirs max_path_len file_name (d ∷ ds)
        → build_home_dir max_path_len stat realpath getcwd (some (joined d ds)) file_name
          ≡ home_of (first_regular (is_regular max_path_len stat) file_name (d ∷ ds))
    unfolding build_home_dir
    build_home_dir-first_regular getcwd file_name d ds plain dirs =
        rw
          (find_program-plain getcwd file_name (joined d ds) plain
            ∙ search-first (length (joined d ds) + 1) file_name d ds dirs
                (omega (arith, length-joined d ds)))
          (by_result (first_regular (is_regular max_path_len stat) file_name (d ∷ ds)))
