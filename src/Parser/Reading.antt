-- ===== src/Parser/Reading.antt =====
-- `fgets` gives the lines of a file one by one, as long as each fits into its buffer.
use mathlib.Core.List.{append_assoc}
use rtmb.Parser.{max_line, read_lines}
use rtmb.Parser.Lines.{value_end}
use rtmb.Params.{Bytes}
use rtmb.Base.{
  ◌-◌, length-append, ◌&&◌, not, ◌==◌, ℕ, ◌<◌, ◌≡◌, ◌∙◌, ap, sym, refl, Bool, true, false, List, [],
  ◌∷◌, ◌++◌, length, leb, arith,
}

-- No newline and no NUL, behind which the string functions of C see nothing.
abbrev pub one_line : Bytes → Bool
one_line [] = true
one_line (c ∷ s) = not (c == b'\n') && not (c == 0) && one_line s

-- The bytes of a file with these lines.
abbrev pub bytes_of : List Bytes → Bytes
bytes_of [] = []
bytes_of (l ∷ ls) = l ++ bytes_of ls

-- A newline at its end and nowhere else, and no more bytes than `fgets` takes.
pub record IsLine (l : Bytes) : Type 0 where
  pub words : Bytes
  pub ended : l ≡ words ++ b'\n' ∷ []
  pub no_newline : one_line words ≡ true
  pub short : length words < max_line

abbrev pub AreLines : List Bytes → Type 0
AreLines [] = Unit {0}
AreLines (l ∷ ls) = IsLine l × AreLines ls

one_line-append : (a b : Bytes) → one_line a ≡ true → one_line b ≡ true → one_line (a ++ b) ≡ true
one_line-append [] b h k = k
one_line-append (c ∷ a) b h k = ground (arith, one_line-append a b)

pub value-IsLine :
    (word v : Bytes)
    → one_line word ≡ true
    → length word < 20
    → one_line v ≡ true
    → length v < 1000
    → IsLine (word ++ value_end v)
value-IsLine word v h small k short = record {
  words = word ++ b'=' ∷ v;
  ended = sym (append_assoc word (b'=' ∷ v) (b'\n' ∷ []));
  no_newline = one_line-append word (b'=' ∷ v) h k;
  short = omega (arith, length-append {0} word (b'=' ∷ v));
}

read_lines-line :
    (words rest : Bytes) (room : ℕ)
    → one_line words ≡ true
    → length words < room
    → read_lines room (words ++ b'\n' ∷ rest) ≡ (words ++ b'\n' ∷ []) ∷ read_lines max_line rest
unfolding read_lines
read_lines-line [] rest room h short = refl
read_lines-line (c ∷ words) rest room h short =
    let other : (c == b'\n') ≡ false = ground arith in
    let later : one_line words ≡ true = ground arith in
    let roomy : leb room 1 ≡ false = ground arith in
    rw (other, roomy, read_lines-line words rest (room - 1) later (omega arith)) refl

pub read_lines-bytes_of : (ls : List Bytes) → AreLines ls → read_lines max_line (bytes_of ls) ≡ ls
unfolding read_lines
read_lines-bytes_of [] is = refl
read_lines-bytes_of (l ∷ ls) (is, more) =
    ap (λ l. read_lines max_line (l ++ bytes_of ls)) is.ended
    ∙ ap (read_lines max_line) (append_assoc is.words (b'\n' ∷ []) (bytes_of ls))
    ∙ read_lines-line is.words (bytes_of ls) max_line is.no_newline is.short
    ∙ ap (λ m. (is.words ++ b'\n' ∷ []) ∷ m) (read_lines-bytes_of ls more)
    ∙ ap (λ l. l ∷ ls) (sym is.ended)
