-- ===== src/CString/Tokens.antt =====
-- What the calls of `strtok` and `strcmp` find in the strings that the harness reads.
use rtmb.Base.{ℕ, ◌≡◌, refl, ◌≢◌, true, [], ◌∷◌, ◌++◌, some, arith}
use rtmb.Params.{Bytes}
use rtmb.CString.{equal, split_token, strtok}

-- The byte `d` does not occur.
abbrev pub Free : ℕ → Bytes → Type 0
Free d [] = Unit {0}
Free d (c ∷ s) = (c ≢ d) × Free d s

-- A name in a list that `d` separates: at least one byte, and no `d`.
abbrev pub IsToken : ℕ → Bytes → Type 0
IsToken d s = (s ≢ []) × Free d s

pub split_token-Free :
    (d : ℕ) (t rest : Bytes) → Free d t → split_token d (t ++ d ∷ rest) ≡ (t, rest)
split_token-Free d [] rest h = ground arith
split_token-Free d (c ∷ t) rest (ne, h) = ground (arith, split_token-Free d t rest h)

pub split_token-all : (d : ℕ) (t : Bytes) → Free d t → split_token d t ≡ (t, [])
split_token-all d [] h = refl
split_token-all d (c ∷ t) (ne, h) = ground (arith, split_token-all d t h)

pub strtok-append :
    (d : ℕ) (t rest : Bytes) → IsToken d t → strtok d (t ++ d ∷ rest) ≡ some (t, rest)
strtok-append d [] rest (ne, h) = absurd (ne refl)
strtok-append d (c ∷ t) rest (ne, (apart, h)) = ground (arith, split_token-Free d t rest h)

pub strtok-all : (d : ℕ) (t : Bytes) → IsToken d t → strtok d t ≡ some (t, [])
strtok-all d [] (ne, h) = absurd (ne refl)
strtok-all d (c ∷ t) (ne, (apart, h)) = ground (arith, split_token-all d t h)

pub equal_self : (s : Bytes) → equal s s ≡ true
equal_self [] = refl
equal_self (c ∷ s) = ground (arith, equal_self s)
