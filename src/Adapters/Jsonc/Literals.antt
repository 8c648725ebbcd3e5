-- ===== src/Adapters/Jsonc/Literals.antt =====
-- How the two passes read a string literal.
use ianua_broker.Adapters.Jsonc.{
  in_string, outside, commas_from, comments_from, in_string, outside, comma_step, comment_step,
  string_step, is_quote,
}
use ianua_broker.Prelude.{
  num_Ord, text_Ord, pair_Ord, list_Ord, refl, true, false, [], ◌∷◌, text_Eq, num_Eq, pair_Eq,
  option_Eq, list_Eq, List, ℕ, num_eq, ◌≡◌, All, ap, arith,
}

num_eq_self : (n : ℕ) → num_eq n n ≡ true
num_eq_self n = ground arith

-- A piece of a string literal: a character, or a backslash with the character that it takes along.
pub data Piece : Type 0 where
  plain : (c : ℕ) → Piece
  escape : (c : ℕ) → Piece

abbrev pub pieces : List Piece → List ℕ → List ℕ
pieces [] rest = rest
pieces (plain c ∷ ps) rest = c ∷ pieces ps rest
pieces (escape c ∷ ps) rest = 92 ∷ c ∷ pieces ps rest

-- A plain character is neither the quote nor a backslash.
abbrev pub IsPlain : ℕ → Piece → Type 0
IsPlain quote (plain c) = (num_eq c quote ≡ false) × (num_eq c 92 ≡ false)
IsPlain quote (escape c) = Unit

string_step-quote :
    (quote : ℕ) (rest : List ℕ) → num_eq quote 92 ≡ false → string_step quote quote rest ≡ outside
string_step-quote quote rest q = rw (q, num_eq_self quote) refl

pub comments_from-pieces :
    (quote : ℕ) (ps : List Piece) (rest : List ℕ)
    → num_eq quote 92 ≡ false
    → All (IsPlain quote) ps
    → comments_from (in_string quote) (pieces ps (quote ∷ rest))
      ≡ pieces ps (quote ∷ comments_from outside rest)
unfolding comments_from
comments_from-pieces quote [] rest q h =
    ap (λ mode. quote ∷ comments_from mode rest) (string_step-quote quote rest q)
comments_from-pieces quote (plain c ∷ ps) rest q h =
    rw (h.0.0, h.0.1) (ap (λ s. c ∷ s) (comments_from-pieces quote ps rest q h.1))
comments_from-pieces quote (escape c ∷ ps) rest q h =
    ap (λ s. 92 ∷ c ∷ s) (comments_from-pieces quote ps rest q h.1)

pub commas_from-pieces :
    (quote : ℕ) (ps : List Piece) (rest : List ℕ)
    → num_eq quote 92 ≡ false
    → All (IsPlain quote) ps
    → commas_from (in_string quote) (pieces ps (quote ∷ rest))
      ≡ pieces ps (quote ∷ commas_from outside rest)
unfolding commas_from
commas_from-pieces quote [] rest q h =
    ap (λ mode. quote ∷ commas_from mode rest) (string_step-quote quote rest q)
commas_from-pieces quote (plain c ∷ ps) rest q h =
    rw (h.0.0, h.0.1) (ap (λ s. c ∷ s) (commas_from-pieces quote ps rest q h.1))
commas_from-pieces quote (escape c ∷ ps) rest q h =
    ap (λ s. 92 ∷ c ∷ s) (commas_from-pieces quote ps rest q h.1)

pub comments_from-quote :
    (quote : ℕ) (rest : List ℕ)
    → is_quote quote ≡ true
    → comments_from outside (quote ∷ rest) ≡ quote ∷ comments_from (in_string quote) rest
unfolding comments_from comment_step
comments_from-quote quote rest q = rw q refl

pub commas_from-quote :
    (quote : ℕ) (rest : List ℕ)
    → is_quote quote ≡ true
    → commas_from outside (quote ∷ rest) ≡ quote ∷ commas_from (in_string quote) rest
unfolding commas_from comma_step
commas_from-quote quote rest q = rw q refl
