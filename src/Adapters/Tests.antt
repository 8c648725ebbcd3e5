-- ===== src/Adapters/Tests.antt =====
-- A JSONC text with comments, a trailing comma and a string that looks like one.
use ianua_broker.Adapters.Jsonc.Literals.{plain, escape, Piece, pieces}
use ianua_broker.Adapters.Jsonc.Chunks.{
  Chunk, character, quoted, line_note, block_note, written, meant, strip_jsonc_exact,
}
use ianua_broker.Prelude.{
  num_Ord, text_Ord, pair_Ord, list_Ord, refl, [], ◌∷◌, text_Eq, num_Eq, pair_Eq, option_Eq,
  list_Eq, List, ℕ, ◌≡◌, codes,
}
use ianua_broker.Adapters.Jsonc.{strip_jsonc}

abbrev example : List ℕ
example = codes "[/*x*/ \"//,]\", // y\n1 ,\n]"

stripped : strip_jsonc example ≡ codes "[ \"//,]\", \n1 \n]"
unfolding strip_jsonc
stripped = refl

-- `//,]`, and an escaped quote
abbrev tricky : List Piece
tricky = plain 47 ∷ plain 47 ∷ plain 44 ∷ plain 93 ∷ escape 34 ∷ []

-- An opening bracket, a comment, the literal, a comma, a comment in its line, blanks, the end.
abbrev listing : List Chunk
listing =
    character 91
    ∷ block_note (42 ∷ 34 ∷ [])
    ∷ quoted 34 tricky
    ∷ character 44
    ∷ line_note (47 ∷ 39 ∷ [])
    ∷ character 32
    ∷ character 93
    ∷ []

strip_jsonc_exact_example : strip_jsonc (written listing) ≡ meant listing
strip_jsonc_exact_example = strip_jsonc_exact listing (
  (refl, refl),
  (
    (refl, (refl, tt)),
    (
      (refl, ((refl, refl), ((refl, refl), ((refl, refl), ((refl, refl), (tt, tt)))))),
      ((refl, refl), ((refl, (refl, tt)), ((refl, refl), ((refl, refl), tt)))),
    ),
  ),
)

stripped_listing : meant listing ≡ 91 ∷ 34 ∷ pieces tricky (34 ∷ 10 ∷ 32 ∷ 93 ∷ [])
stripped_listing = refl
