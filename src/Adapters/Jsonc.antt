-- ===== src/Adapters/Jsonc.antt =====
-- src/mcpscan/adapters/jsonc.py: the two passes that take comments and trailing commas out of JSON
-- text, as code points. The index of the code is the rest of the text, and what it has read is the mode:
-- a character that the code takes together with the one before it is read in a mode of its own.
pub mod Literals
pub mod Chunks
use ianua_broker.Prelude.{
  num_Ord, text_Ord, pair_Ord, list_Ord, zero, suc, refl, inl, inr, true, false, none, some, [],
  ◌∷◌, text_Eq, num_Eq, pair_Eq, option_Eq, list_Eq, Bool, List, ℕ, if◌then◌else◌, num_eq, not,
  ◌&&◌, ◌||◌, is_empty,
}

pub data Mode : Type 0 where
  outside line_comment block_opened block_comment block_closing : Mode
  in_string escaped : (quote : ℕ) → Mode

abbrev pub is_quote : ℕ → Bool
is_quote c = num_eq c 34 || num_eq c 39

-- `i + 1 < n and text[i + 1] == c`
abbrev pub next_is : ℕ → List ℕ → Bool
next_is c [] = false
next_is c (d ∷ rest) = num_eq d c

-- Inside a string: a backslash takes the next character with it.
abbrev pub string_step : ℕ → ℕ → List ℕ → Mode
string_step quote c rest =
    if num_eq c 92 && not (is_empty rest)
    then escaped quote
    else if num_eq c quote
    then outside
    else in_string quote

-- One character of `_strip_comments`: the mode after it, and whether it is kept.
unfoldable pub comment_step : Mode → ℕ → List ℕ → Mode × Bool
comment_step (in_string quote) c rest = (string_step quote c rest, true)
comment_step (escaped quote) c rest = (in_string quote, true)
comment_step line_comment c rest = if num_eq c 10 then (outside, true) else (line_comment, false)
comment_step block_opened c rest = (block_comment, false)
comment_step block_comment c rest =
    if num_eq c 42 && next_is 47 rest then (block_closing, false) else (block_comment, false)
comment_step block_closing c rest = (outside, false)
comment_step outside c rest =
    if is_quote c
    then (in_string c, true)
    else if num_eq c 47 && next_is 47 rest
    then (line_comment, false)
    else if num_eq c 47 && next_is 42 rest
    then (block_opened, false)
    else (outside, true)

abbrev pub keep_if : Bool → ℕ → List ℕ → List ℕ
keep_if true c rest = c ∷ rest
keep_if false c rest = rest

unfoldable pub comments_from : Mode → List ℕ → List ℕ
unfolding comment_step
comments_from mode [] = []
comments_from mode (c ∷ rest) =
    let step = comment_step mode c rest in keep_if step.1 c (comments_from step.0 rest)

unfoldable pub strip_comments : List ℕ → List ℕ
unfolding comments_from
strip_comments s = comments_from outside s

abbrev pub is_blank : ℕ → Bool
is_blank c = num_eq c 32 || num_eq c 9 || num_eq c 13 || num_eq c 10

-- The next character that is not blank closes an object or an array.
unfoldable pub closes_next : List ℕ → Bool
closes_next [] = false
closes_next (c ∷ rest) =
    let later = closes_next rest in if is_blank c then later else num_eq c 125 || num_eq c 93

-- One character of `_drop_trailing_commas`.
unfoldable pub comma_step : Mode → ℕ → List ℕ → Mode × Bool
unfolding closes_next
comma_step (in_string quote) c rest = (string_step quote c rest, true)
comma_step (escaped quote) c rest = (in_string quote, true)
comma_step _ c rest =
    if is_quote c then (in_string c, true) else (outside, not (num_eq c 44 && closes_next rest))

unfoldable pub commas_from : Mode → List ℕ → List ℕ
unfolding comma_step
commas_from mode [] = []
commas_from mode (c ∷ rest) =
    let step = comma_step mode c rest in keep_if step.1 c (commas_from step.0 rest)

unfoldable pub drop_trailing_commas : List ℕ → List ℕ
unfolding commas_from
drop_trailing_commas s = commas_from outside s

unfoldable pub strip_jsonc : List ℕ → List ℕ
unfolding strip_comments drop_trailing_commas
strip_jsonc s = drop_trailing_commas (strip_comments s)
