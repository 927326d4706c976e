-- ===== src/CString.antt =====
-- Strings of C as the bytes before the terminating NUL, and the functions of <string.h> and
-- <stdlib.h> that the harness calls.
pub mod Tokens
use Prim.Native.String.{String}
use Prim.Native.Char.{code}
use rtmb.Base.{
  ℕ, ◌+◌, ◌-◌, ◌*◌, ◌==◌, ◌&&◌, ◌||◌, Bool, true, false, [], ◌∷◌, Option, none, some, leb,
  if◌then◌else◌,
}
use rtmb.Base.Int.{ℤ, pos, ◌-ℤ◌}
use rtmb.Params.{Bytes}

-- The bytes of a literal.
abbrev pub codes : String → Bytes
codes String.[] = []
codes (String.◌∷◌ c s) = code c ∷ codes s

-- `strcmp(s, t) == 0`
abbrev pub equal : Bytes → Bytes → Bool
equal [] [] = true
equal [] (y ∷ t) = false
equal (x ∷ s) [] = false
equal (x ∷ s) (y ∷ t) = (x == y) && equal s t

-- `strncmp(s, p, strlen(p)) == 0`
abbrev pub starts_with : Bytes → Bytes → Bool
starts_with [] s = true
starts_with (x ∷ p) [] = false
starts_with (x ∷ p) (y ∷ s) = (x == y) && starts_with p s

-- `strstr(s, p) != NULL`
abbrev pub contains : Bytes → Bytes → Bool
contains p [] = starts_with p []
contains p (y ∷ s) = starts_with p (y ∷ s) || contains p s

-- `s[0]`, the NUL of an empty string included.
abbrev pub first_byte : Bytes → ℕ
first_byte [] = 0
first_byte (c ∷ s) = c

-- What `strtok` skips: the delimiters in front.
abbrev pub skip_delimiters : ℕ → Bytes → Bytes
skip_delimiters d [] = []
skip_delimiters d (c ∷ s) = if c == d then skip_delimiters d s else c ∷ s

-- The token up to the next delimiter, and what follows that delimiter.
abbrev pub split_token : ℕ → Bytes → Bytes × Bytes
split_token d [] = ([], [])
split_token d (c ∷ s) = let (t, rest) = split_token d s in if c == d then ([], s) else (c ∷ t, rest)

-- A token that starts with `c`.
abbrev pub token_from : ℕ → Bytes → Option (Bytes × Bytes)
token_from d [] = none
token_from d (c ∷ s) = some (split_token d (c ∷ s))

-- `strtok` with one delimiter: the token, and where the next call goes on.
abbrev pub strtok : ℕ → Bytes → Option (Bytes × Bytes)
strtok d s = token_from d (skip_delimiters d s)

abbrev is_space : ℕ → Bool
is_space c = c == b' ' || (leb 9 c && leb c 13)

abbrev pub is_digit : ℕ → Bool
is_digit c = leb b'0' c && leb c b'9'

digits_value : ℕ → Bytes → ℕ
digits_value acc [] = acc
digits_value acc (c ∷ s) =
    let more = digits_value (acc * 10 + (c - b'0')) s in if is_digit c then more else acc

signed_value : Bytes → ℤ
unfolding digits_value
signed_value [] = pos 0
signed_value (c ∷ s) =
    if c == b'-'
    then pos 0 -ℤ pos (digits_value 0 s)
    else if c == b'+'
    then pos (digits_value 0 s)
    else pos (digits_value 0 (c ∷ s))

-- `atoi`, for a number that fits.
unfoldable pub atoi : Bytes → ℤ
unfolding signed_value
atoi [] = pos 0
atoi (c ∷ s) = if is_space c then atoi s else signed_value (c ∷ s)
