-- ===== src/Command/Names.antt =====
-- `setup_testcase_names`: the names that colons separate.
use rtmb.Base.{
  ℕ, zero, suc, ◌<◌, ◌≡◌, refl, ap, ◌∙◌, List, [], ◌∷◌, ◌++◌, reverse, arith, length, length-append,
  ok,
}
use mathlib.Core.List.{reverse-cons, append_assoc}
use rtmb.Params.{Bytes, CmdLineArgs}
use rtmb.CString.Tokens.{IsToken, strtok-append, strtok-all}
use rtmb.Command.{insert_in_test_list, insert_tokens, setup_testcase_names}

-- The names with a colon between each two.
abbrev pub joined : List Bytes → Bytes
joined [] = []
joined (n ∷ []) = n
joined (n ∷ m ∷ ns) = n ++ b':' ∷ joined (m ∷ ns)

abbrev pub AreNames : List Bytes → Type 0
AreNames [] = Unit {0}
AreNames (n ∷ ns) = IsToken b':' n × AreNames ns

-- The names put in front one by one.
abbrev pub in_front : List Bytes → List Bytes → List Bytes
in_front [] tests = tests
in_front (n ∷ ns) tests = in_front ns (n ∷ tests)

abbrev pub with_names : CmdLineArgs → List Bytes → CmdLineArgs
with_names args ns = record args { test_list = in_front ns args.test_list }

token-length : (n : Bytes) → IsToken b':' n → 0 < length n
token-length [] (ne, h) = absurd (ne refl)
token-length (c ∷ n) h = omega arith

insert_tokens-joined :
    (fuel : ℕ) (args : CmdLineArgs) (ns : List Bytes)
    → AreNames ns
    → length (joined ns) < fuel
    → insert_tokens fuel args (joined ns) ≡ ok (with_names args ns)
unfolding insert_tokens insert_in_test_list
insert_tokens-joined zero args ns h enough = absurd (omega arith)
insert_tokens-joined (suc fuel) args [] h enough = refl
insert_tokens-joined (suc zero) args (n ∷ []) (name, h) enough =
    absurd (omega (arith, token-length n name))
insert_tokens-joined (suc (suc fuel)) args (n ∷ []) (name, h) enough =
    rw (insert_tokens, strtok-all b':' n name) refl
insert_tokens-joined (suc fuel) args (n ∷ m ∷ ns) (name, h) enough =
    rw (insert_tokens, strtok-append b':' n (joined (m ∷ ns)) name)
      (insert_tokens-joined fuel (insert_in_test_list args n) (m ∷ ns) h
        (omega (arith, length-append {0} n (b':' ∷ joined (m ∷ ns)), token-length n name)))

in_front-reverse : (ns tests : List Bytes) → in_front ns tests ≡ reverse ns ++ tests
in_front-reverse [] tests = refl
in_front-reverse (n ∷ ns) tests =
    rw (reverse-cons n ns, append_assoc (reverse ns) (n ∷ []) tests)
      (in_front-reverse ns (n ∷ tests))

joined-in_front :
    (args : CmdLineArgs) (n : Bytes) (ns : List Bytes)
    → AreNames (n ∷ ns)
    → setup_testcase_names args (joined (n ∷ ns)) ≡ ok (with_names args (n ∷ ns))
unfolding setup_testcase_names insert_in_test_list
joined-in_front args n [] (name, h) =
    rw (setup_testcase_names, strtok-all b':' n name)
      (insert_tokens-joined _ (insert_in_test_list args n) [] tt (omega arith))
joined-in_front args n (m ∷ ns) (name, h) =
    rw (setup_testcase_names, strtok-append b':' n (joined (m ∷ ns)) name)
      (insert_tokens-joined _ (insert_in_test_list args n) (m ∷ ns) h
        (omega (arith, length-append {0} n (b':' ∷ joined (m ∷ ns)))))

-- A list of names between colons puts every name in front of the tests, the last one first, and
-- changes nothing else.
pub setup_testcase_names-joined :
    (args : CmdLineArgs) (n : Bytes) (ns : List Bytes)
    → AreNames (n ∷ ns)
    → setup_testcase_names args (joined (n ∷ ns))
      ≡ ok (record args { test_list = reverse (n ∷ ns) ++ args.test_list })
setup_testcase_names-joined args n ns h =
    joined-in_front args n ns h
    ∙ ap (λ l. ok (record args { test_list = l })) (in_front-reverse (n ∷ ns) args.test_list)
