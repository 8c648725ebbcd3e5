-- ===== src/Lan/Sanitize.antt =====
-- src/mcpscan/lan/sanitize.py, and the catalog of hidden code points that it takes from
-- src/mcpscan/checks/tool_integrity.py. A text is its code points; decoding bytes is the caller's.
pub mod Inert
pub mod Ansi
use ianua_broker.Prelude.{
  num_Ord, text_Ord, pair_Ord, list_Ord, codes, is_space, ℕ, zero, suc, Bool, true, false, not,
  ◌&&◌, ◌||◌, Option, none, some, List, [], ◌∷◌, ◌++◌, map, ltb, leb, num_eq, if◌then◌else◌, num_Eq,
  text_Eq, pair_Eq, option_Eq, length, take, is_empty,
}

-- HIDDEN_CODEPOINTS
unfoldable pub is_hidden : ℕ → Bool
is_hidden c =
    (leb 0x200b c && leb c 0x200f)
    || num_eq c 0x2060
    || num_eq c 0xfeff
    || (leb 0x202a c && leb c 0x202e)
    || (leb 0x2066 c && leb c 0x2069)

abbrev is_parameter : ℕ → Bool
is_parameter c = (leb b'0' c && leb c b'9') || num_eq c b';' || num_eq c b'?'

abbrev is_intermediate : ℕ → Bool
is_intermediate c = leb b' ' c && leb c b'/'

abbrev is_final : ℕ → Bool
is_final c = leb b'@' c && leb c b'~'

-- What follows `[ -/]*[@-~]`, if the text begins with a match. The classes have no code point in
-- common, so the pattern never backtracks.
after_intermediates : List ℕ → Option (List ℕ)
after_intermediates [] = none
after_intermediates (c ∷ rest) =
    if is_intermediate c then after_intermediates rest else if is_final c then some rest else none

-- What follows `[0-9;?]*[ -/]*[@-~]`.
after_parameters : List ℕ → Option (List ℕ)
unfolding after_intermediates
after_parameters [] = none
after_parameters (c ∷ rest) =
    if is_parameter c then after_parameters rest else after_intermediates (c ∷ rest)

-- What follows a match of `_ANSI` at the start of the text.
unfoldable pub after_ansi : List ℕ → Option (List ℕ)
unfolding after_parameters
after_ansi (c ∷ d ∷ rest) = if num_eq c 0x1b && num_eq d b'[' then after_parameters rest else none
after_ansi _ = none

-- `_ANSI.sub("", text)`, by rounds; every round takes at least one code point.
unfoldable pub strip_rounds : ℕ → List ℕ → List ℕ
unfolding after_ansi
strip_rounds zero text = []
strip_rounds (suc fuel) [] = []
strip_rounds (suc fuel) (c ∷ rest) = elim (after_ansi (c ∷ rest)) [
  | none ↦ c ∷ strip_rounds fuel rest
  | some rest' ↦ strip_rounds fuel rest'
]

unfoldable pub strip_ansi : List ℕ → List ℕ
unfolding strip_rounds
strip_ansi text = strip_rounds (length text) text

unfoldable pub blank_control : ℕ → ℕ
blank_control c =
    if leb b' ' c && not (num_eq c 0x7f) && not (leb 0x80 c && leb c 0x9f) then c else b' '

unfoldable pub blank_hidden : ℕ → ℕ
unfolding is_hidden
blank_hidden c = if is_hidden c then b' ' else c

-- `" ".join(text.split())`: `pending` says that a separator is due before the next word.
unfoldable pub collapse : Bool → List ℕ → List ℕ
unfolding is_space
collapse pending [] = []
collapse pending (c ∷ rest) =
    let after_blank = collapse true rest in
    let after_ink = collapse false rest in
    if is_space c then after_blank else if pending then b' ' ∷ c ∷ after_ink else c ∷ after_ink

-- `collapse` puts a separator before the first word too if blanks stand before it; `split` does
-- not, so the leading blanks go first.
unfoldable pub skip_blanks : List ℕ → List ℕ
unfolding is_space
skip_blanks [] = []
skip_blanks (c ∷ rest) = if is_space c then skip_blanks rest else c ∷ rest

abbrev pub label : List ℕ
label = codes "[untrusted remote data]"

unfoldable pub inert_text : List ℕ → List ℕ
unfolding strip_ansi blank_control blank_hidden collapse skip_blanks
inert_text raw =
    collapse false (skip_blanks (map blank_hidden (map blank_control (strip_ansi raw))))

unfoldable pub sanitize_remote : ℕ → List ℕ → List ℕ
unfolding inert_text
sanitize_remote max_len raw =
    let text = inert_text raw in
    if is_empty text
    then label ++ codes " (empty)"
    else if ltb max_len (length text)
    then label ++ codes " " ++ take max_len text ++ 0x2026 ∷ []
    else label ++ codes " " ++ text
