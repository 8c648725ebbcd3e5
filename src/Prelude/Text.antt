-- ===== src/Prelude/Text.antt =====
-- Python's `str`: f-strings as concatenations, decimal printing, prefixes, `in`, and slices.
use Prim.Native.Nat.{ℕ, zero, suc, ◌+◌, ◌/◌, ◌%◌}
use Prim.Native.Char.{code}
use Prim.Native.String.{String, ◌++◌}
use mathlib.Core.Bool.{Bool, true, false, ◌&&◌, ◌||◌, not}
use mathlib.Core.List.{List, [], ◌∷◌}
use ianua_broker.Prelude.Tests.{leb, ltb, num_eq, if◌then◌else◌}

-- f"{a}{b}{c}"
unfoldable pub concat : List String → String
concat [] = ""
concat (s ∷ rest) = s ++ concat rest

digit : ℕ → String
digit n =
    if num_eq n 0
    then "0"
    else if num_eq n 1
    then "1"
    else if num_eq n 2
    then "2"
    else if num_eq n 3
    then "3"
    else if num_eq n 4
    then "4"
    else if num_eq n 5
    then "5"
    else if num_eq n 6
    then "6"
    else if num_eq n 7
    then "7"
    else if num_eq n 8
    then "8"
    else "9"

-- The digits of `n`, last one first, as many as the fuel allows; `n + 1` rounds are enough.
decimal_rounds : ℕ → ℕ → String
unfolding digit
decimal_rounds zero n = ""
decimal_rounds (suc fuel) n =
    let front = decimal_rounds fuel (n / 10) in
    if ltb n 10 then digit n else front ++ digit (n % 10)

-- str(n)
unfoldable pub decimal : ℕ → String
unfolding decimal_rounds
decimal n = decimal_rounds (n + 1) n

-- s.startswith(t)
unfoldable pub starts_with : String → String → Bool
starts_with s String.[] = true
starts_with String.[] (String.◌∷◌ d t) = false
starts_with (String.◌∷◌ c s) (String.◌∷◌ d t) = num_eq (code c) (code d) && starts_with s t

-- t in s
unfoldable pub has_part : String → String → Bool
unfolding starts_with
has_part String.[] t = starts_with "" t
has_part (String.◌∷◌ c s) t = starts_with (String.◌∷◌ c s) t || has_part s t

drop_prefix : String → String → String
drop_prefix s String.[] = s
drop_prefix String.[] (String.◌∷◌ d t) = ""
drop_prefix (String.◌∷◌ c s) (String.◌∷◌ d t) = drop_prefix s t

-- s.removeprefix(t)
unfoldable pub remove_prefix : String → String → String
unfolding starts_with drop_prefix
remove_prefix s t = if starts_with s t then drop_prefix s t else s

-- Characters for which `str.isspace` holds, which `strip` and `split` drop.
unfoldable pub is_space : ℕ → Bool
is_space c =
    (leb 9 c && leb c 13)
    || (leb 28 c && leb c 32)
    || num_eq c 0x85
    || num_eq c 0xa0
    || num_eq c 0x1680
    || (leb 0x2000 c && leb c 0x200a)
    || num_eq c 0x2028
    || num_eq c 0x2029
    || num_eq c 0x202f
    || num_eq c 0x205f
    || num_eq c 0x3000

-- bool(s.strip())
unfoldable pub has_ink : String → Bool
unfolding is_space
has_ink String.[] = false
has_ink (String.◌∷◌ c s) = not (is_space (code c)) || has_ink s

-- The code points of a text.
abbrev pub codes : String → List ℕ
codes String.[] = []
codes (String.◌∷◌ c s) = code c ∷ codes s

-- s.split(t, 1)[0]
unfoldable pub text_before : String → String → String
unfolding starts_with
text_before t String.[] = ""
text_before t (String.◌∷◌ c s) =
    let rest = text_before t s in if starts_with (String.◌∷◌ c s) t then "" else String.◌∷◌ c rest

-- separator.join(parts)
unfoldable pub join : String → List String → String
join separator [] = ""
join separator (s ∷ []) = s
join separator (s ∷ t ∷ rest) = s ++ (separator ++ join separator (t ∷ rest))
