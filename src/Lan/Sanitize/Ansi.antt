-- ===== src/Lan/Sanitize/Ansi.antt =====
-- What the ANSI filter takes out of a text.
use ianua_broker.Prelude.{
  num_Ord, text_Ord, pair_Ord, list_Ord, ℕ, zero, suc, ◌≤◌, ◌≡◌, refl, ap, ◌∙◌, true, false, ◌&&◌,
  ◌||◌, none, some, List, [], ◌∷◌, ◌++◌, arith, leb, num_eq, num_Eq, text_Eq, pair_Eq, option_Eq,
  length, All, length-append,
}
use ianua_broker.Lan.Sanitize.{
  after_intermediates, after_parameters, after_ansi, strip_rounds, strip_ansi,
}

-- A part of a text: a character that is no ESC, or a control sequence, from `ESC [` over its
-- parameters and intermediate characters to its final one.
pub data Part : Type 0 where
  glyph : (c : ℕ) → Part
  control : (parameters intermediates : List ℕ) → (final : ℕ) → Part

-- The digits, `;` and `?`
abbrev pub IsParameter : ℕ → Type 0
IsParameter c = ((leb 48 c && leb c 57) || num_eq c 59 || num_eq c 63) ≡ true

-- From the blank to `/`
abbrev pub IsIntermediate : ℕ → Type 0
IsIntermediate c = (leb 32 c && leb c 47) ≡ true

-- From `@` to `~`
abbrev pub IsFinal : ℕ → Type 0
IsFinal c = (leb 64 c && leb c 126) ≡ true

abbrev pub IsPart : Part → Type 0
IsPart (glyph c) = num_eq c 27 ≡ false
IsPart (control parameters intermediates final) =
    All IsParameter parameters × All IsIntermediate intermediates × IsFinal final

abbrev pub sent : List Part → List ℕ
sent [] = []
sent (glyph c ∷ rest) = c ∷ sent rest
sent (control parameters intermediates final ∷ rest) =
    27 ∷ 91 ∷ parameters ++ (intermediates ++ final ∷ sent rest)

abbrev pub glyphs : List Part → List ℕ
glyphs [] = []
glyphs (glyph c ∷ rest) = c ∷ glyphs rest
glyphs (control parameters intermediates final ∷ rest) = glyphs rest

after_intermediates-final :
    (intermediates : List ℕ) (final : ℕ) (rest : List ℕ)
    → All IsIntermediate intermediates
    → IsFinal final
    → after_intermediates (intermediates ++ final ∷ rest) ≡ some rest
unfolding after_intermediates
after_intermediates-final [] final rest h k = ground arith
after_intermediates-final (c ∷ intermediates) final rest h k =
    rw (h.0) (after_intermediates-final intermediates final rest h.1 k)

after_parameters-final :
    (parameters intermediates : List ℕ) (final : ℕ) (rest : List ℕ)
    → All IsParameter parameters
    → All IsIntermediate intermediates
    → IsFinal final
    → after_parameters (parameters ++ (intermediates ++ final ∷ rest)) ≡ some rest
unfolding after_parameters after_intermediates
after_parameters-final [] [] final rest p h k = ground arith
after_parameters-final [] (c ∷ intermediates) final rest p h k =
    let more = after_intermediates-final intermediates final rest h.1 k in ground (arith, h.0, more)
after_parameters-final (c ∷ parameters) intermediates final rest p h k =
    rw (p.0) (after_parameters-final parameters intermediates final rest p.1 h k)

after_ansi-glyph : (c : ℕ) (rest : List ℕ) → num_eq c 27 ≡ false → after_ansi (c ∷ rest) ≡ none
unfolding after_ansi
after_ansi-glyph c [] h = refl
after_ansi-glyph c (d ∷ rest) h = rw h refl

strip_rounds-glyph :
    (fuel c : ℕ) (rest : List ℕ)
    → num_eq c 27 ≡ false
    → strip_rounds (suc fuel) (c ∷ rest) ≡ c ∷ strip_rounds fuel rest
unfolding strip_rounds
strip_rounds-glyph fuel c rest h = rw (after_ansi-glyph c rest h, strip_rounds) refl

strip_rounds-control :
    (fuel : ℕ) (parameters intermediates : List ℕ) (final : ℕ) (rest : List ℕ)
    → IsPart (control parameters intermediates final)
    → strip_rounds (suc fuel) (27 ∷ 91 ∷ parameters ++ (intermediates ++ final ∷ rest))
      ≡ strip_rounds fuel rest
unfolding strip_rounds after_ansi
strip_rounds-control fuel parameters intermediates final rest h =
    rw (after_parameters-final parameters intermediates final rest h.0 h.1 h.2, strip_rounds) refl

strip_rounds-nil : (fuel : ℕ) → strip_rounds fuel [] ≡ []
unfolding strip_rounds
strip_rounds-nil zero = refl
strip_rounds-nil (suc fuel) = refl

shorter :
    (fuel : ℕ) (parameters intermediates : List ℕ) (final : ℕ) (rest : List ℕ)
    → length (27 ∷ 91 ∷ parameters ++ (intermediates ++ final ∷ rest)) ≤ suc fuel
    → length rest ≤ fuel
shorter fuel parameters intermediates final rest h = omega (
  arith,
  length-append parameters (intermediates ++ final ∷ rest),
  length-append intermediates (final ∷ rest),
)

strip_rounds-sent :
    (fuel : ℕ) (parts : List Part)
    → length (sent parts) ≤ fuel
    → All IsPart parts
    → strip_rounds fuel (sent parts) ≡ glyphs parts
strip_rounds-sent fuel [] n h = strip_rounds-nil fuel
strip_rounds-sent zero (glyph c ∷ rest) n h = absurd (omega arith)
strip_rounds-sent (suc fuel) (glyph c ∷ rest) n h =
    strip_rounds-glyph fuel c (sent rest) h.0
    ∙ ap (λ s. c ∷ s) (strip_rounds-sent fuel rest (omega arith) h.1)
strip_rounds-sent zero (control parameters intermediates final ∷ rest) n h = absurd (omega arith)
strip_rounds-sent (suc fuel) (control parameters intermediates final ∷ rest) n h =
    strip_rounds-control fuel parameters intermediates final (sent rest) h.0
    ∙ strip_rounds-sent fuel rest (shorter fuel parameters intermediates final (sent rest) n) h.1

pub strip_ansi_exact :
    (parts : List Part) → All IsPart parts → strip_ansi (sent parts) ≡ glyphs parts
unfolding strip_ansi
strip_ansi_exact parts h = strip_rounds-sent (length (sent parts)) parts (omega arith) h
