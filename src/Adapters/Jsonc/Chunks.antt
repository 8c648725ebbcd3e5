-- ===== src/Adapters/Jsonc/Chunks.antt =====
-- What `strip_jsonc` does to a text that is made of characters, string literals and comments.
use ianua_broker.Adapters.Jsonc.{
  outside, line_comment, block_comment, commas_from, comments_from, comma_step, comment_step,
  strip_jsonc, is_quote, is_blank, next_is, closes_next, strip_comments, drop_trailing_commas,
}
use ianua_broker.Adapters.Jsonc.Literals.{
  Piece, pieces, IsPlain, comments_from-pieces, commas_from-pieces, comments_from-quote,
  commas_from-quote,
}
use ianua_broker.Prelude.{
  num_Ord, text_Ord, pair_Ord, list_Ord, refl, true, false, [], ◌∷◌, ◌++◌, text_Eq, num_Eq, pair_Eq,
  option_Eq, list_Eq, List, Bool, ℕ, num_eq, ◌≡◌, All, ap, arith, ◌∙◌, ◌&&◌, ◌||◌, if◌then◌else◌,
  Bool-cases, inl, inr,
}

-- A part of a JSONC text: a character outside literals and comments, a string literal, a comment up
-- to the end of its line, or a comment between `/*` and `*/`.
pub data Chunk : Type 0 where
  character : (c : ℕ) → Chunk
  quoted : (quote : ℕ) → List Piece → Chunk
  line_note block_note : (body : List ℕ) → Chunk

-- The text has no `*/`.
abbrev pub IsOpen : List ℕ → Type 0
IsOpen [] = Unit
IsOpen (c ∷ rest) = ((num_eq c 42 && next_is 47 rest) ≡ false) × IsOpen rest

abbrev pub IsChunk : Chunk → Type 0
IsChunk (character c) = (is_quote c ≡ false) × (num_eq c 47 ≡ false)
IsChunk (quoted quote ps) = (is_quote quote ≡ true) × All (IsPlain quote) ps
IsChunk (line_note body) = All (λ c. num_eq c 10 ≡ false) body
IsChunk (block_note body) = IsOpen body

-- The text of the parts.
abbrev pub written : List Chunk → List ℕ
written [] = []
written (character c ∷ rest) = c ∷ written rest
written (quoted quote ps ∷ rest) = quote ∷ pieces ps (quote ∷ written rest)
written (line_note body ∷ rest) = 47 ∷ 47 ∷ body ++ 10 ∷ written rest
written (block_note body ∷ rest) = 47 ∷ 42 ∷ body ++ 42 ∷ 47 ∷ written rest

-- The text without its comments; the end of a line stays.
abbrev uncommented : List Chunk → List ℕ
uncommented [] = []
uncommented (character c ∷ rest) = c ∷ uncommented rest
uncommented (quoted quote ps ∷ rest) = quote ∷ pieces ps (quote ∷ uncommented rest)
uncommented (line_note body ∷ rest) = 10 ∷ uncommented rest
uncommented (block_note body ∷ rest) = uncommented rest

-- Behind blanks and comments an object or an array is closed.
abbrev pub is_closed_next : List Chunk → Bool
is_closed_next [] = false
is_closed_next (character c ∷ rest) =
    if is_blank c then is_closed_next rest else num_eq c 125 || num_eq c 93
is_closed_next (quoted quote ps ∷ rest) = false
is_closed_next (line_note body ∷ rest) = is_closed_next rest
is_closed_next (block_note body ∷ rest) = is_closed_next rest

-- The JSON text that is meant: literals as they are, no comments, no comma before a closing bracket.
abbrev pub meant : List Chunk → List ℕ
meant [] = []
meant (character c ∷ rest) =
    if num_eq c 44 && is_closed_next rest then meant rest else c ∷ meant rest
meant (quoted quote ps ∷ rest) = quote ∷ pieces ps (quote ∷ meant rest)
meant (line_note body ∷ rest) = 10 ∷ meant rest
meant (block_note body ∷ rest) = meant rest

comments_from-line :
    (body rest : List ℕ)
    → All (λ c. num_eq c 10 ≡ false) body
    → comments_from line_comment (body ++ 10 ∷ rest) ≡ 10 ∷ comments_from outside rest
unfolding comments_from comment_step
comments_from-line [] rest h = refl
comments_from-line (c ∷ body) rest h = rw (h.0) (comments_from-line body rest h.1)

-- Before the end of a comment that has no `*/` none begins earlier.
not_closing :
    (c : ℕ) (body rest : List ℕ)
    → (num_eq c 42 && next_is 47 body) ≡ false
    → (num_eq c 42 && next_is 47 (body ++ 42 ∷ 47 ∷ rest)) ≡ false
not_closing c [] rest h = ground arith
not_closing c (d ∷ body) rest h = h

comments_from-block :
    (body rest : List ℕ)
    → IsOpen body
    → comments_from block_comment (body ++ 42 ∷ 47 ∷ rest) ≡ comments_from outside rest
unfolding comments_from comment_step
comments_from-block [] rest h = refl
comments_from-block (c ∷ body) rest h =
    rw (not_closing c body rest h.0) (comments_from-block body rest h.1)

comments_from-character :
    (c : ℕ) (rest : List ℕ)
    → is_quote c ≡ false
    → num_eq c 47 ≡ false
    → comments_from outside (c ∷ rest) ≡ c ∷ comments_from outside rest
unfolding comments_from comment_step
comments_from-character c rest h k = rw (h, k) refl

-- A quote is no backslash.
not_backslash : (quote : ℕ) → is_quote quote ≡ true → num_eq quote 92 ≡ false
not_backslash quote q = ground arith

comments_from-written :
    (chunks : List Chunk)
    → All IsChunk chunks
    → comments_from outside (written chunks) ≡ uncommented chunks
unfolding comments_from comment_step
comments_from-written [] h = refl
comments_from-written (character c ∷ rest) h =
    comments_from-character c (written rest) h.0.0 h.0.1
    ∙ ap (λ s. c ∷ s) (comments_from-written rest h.1)
comments_from-written (quoted quote ps ∷ rest) h =
    comments_from-quote quote (pieces ps (quote ∷ written rest)) h.0.0
    ∙ ap (λ s. quote ∷ s)
        (comments_from-pieces quote ps (written rest) (not_backslash quote h.0.0) h.0.1)
    ∙ ap (λ s. quote ∷ pieces ps (quote ∷ s)) (comments_from-written rest h.1)
comments_from-written (line_note body ∷ rest) h =
    comments_from-line body (written rest) h.0 ∙ ap (λ s. 10 ∷ s) (comments_from-written rest h.1)
comments_from-written (block_note body ∷ rest) h =
    comments_from-block body (written rest) h.0 ∙ comments_from-written rest h.1

closes_next-quote :
    (quote : ℕ) (s : List ℕ) → is_quote quote ≡ true → closes_next (quote ∷ s) ≡ false
unfolding closes_next
closes_next-quote quote s q = ground arith

closes_next-uncommented :
    (chunks : List Chunk)
    → All IsChunk chunks
    → closes_next (uncommented chunks) ≡ is_closed_next chunks
unfolding closes_next
closes_next-uncommented [] h = refl
closes_next-uncommented (character c ∷ rest) h = rw (closes_next-uncommented rest h.1) refl
closes_next-uncommented (quoted quote ps ∷ rest) h =
    closes_next-quote quote (pieces ps (quote ∷ uncommented rest)) h.0.0
closes_next-uncommented (line_note body ∷ rest) h = closes_next-uncommented rest h.1
closes_next-uncommented (block_note body ∷ rest) h = closes_next-uncommented rest h.1

commas_from-character :
    (c : ℕ) (rest : List ℕ)
    → is_quote c ≡ false
    → commas_from outside (c ∷ rest) ≡ (
        if num_eq c 44 && closes_next rest
        then commas_from outside rest
        else c ∷ commas_from outside rest)
unfolding commas_from comma_step
commas_from-character c rest h = elim (Bool-cases (num_eq c 44 && closes_next rest)) [
  | inl e ↦ rw (h, e) refl
  | inr e ↦ rw (h, e) refl
]

commas_from-uncommented :
    (chunks : List Chunk)
    → All IsChunk chunks
    → commas_from outside (uncommented chunks) ≡ meant chunks
unfolding commas_from
commas_from-uncommented [] h = refl
commas_from-uncommented (character c ∷ rest) h =
    commas_from-character c (uncommented rest) h.0.0
    ∙ rw (closes_next-uncommented rest h.1, commas_from-uncommented rest h.1) refl
commas_from-uncommented (quoted quote ps ∷ rest) h =
    commas_from-quote quote (pieces ps (quote ∷ uncommented rest)) h.0.0
    ∙ ap (λ s. quote ∷ s)
        (commas_from-pieces quote ps (uncommented rest) (not_backslash quote h.0.0) h.0.1)
    ∙ ap (λ s. quote ∷ pieces ps (quote ∷ s)) (commas_from-uncommented rest h.1)
commas_from-uncommented (line_note body ∷ rest) h =
    commas_from-character 10 (uncommented rest) refl
    ∙ ap (λ s. 10 ∷ s) (commas_from-uncommented rest h.1)
commas_from-uncommented (block_note body ∷ rest) h = commas_from-uncommented rest h.1

-- Any text that is made of characters other than quotes and slashes, of string literals in single or
-- double quotes and of comments that end, is turned by `strip_jsonc` into the text without its
-- comments (the end of a line stays) and without the commas behind which, blanks and comments apart,
-- a closing brace or bracket stands. So every literal, wherever it stands and whatever looks like a
-- comment or a trailing comma in it, and every other character are kept, in their order.
pub strip_jsonc_exact :
    (chunks : List Chunk) → All IsChunk chunks → strip_jsonc (written chunks) ≡ meant chunks
unfolding strip_jsonc strip_comments drop_trailing_commas
strip_jsonc_exact chunks h =
    ap (commas_from outside) (comments_from-written chunks h) ∙ commas_from-uncommented chunks h
