-- ===== src/Lan/Sanitize/Inert.antt =====
-- What a sanitized text can hold, and that the rounds of the ANSI filter are enough.
use ianua_broker.Prelude.{
  num_Ord, text_Ord, pair_Ord, list_Ord, codes, is_space, ℕ, zero, suc, ◌+◌, ◌≤◌, max, ◌≡◌, refl,
  ap, inl, inr, Bool, true, false, not, ◌&&◌, some, List, [], ◌∷◌, ◌++◌, map, arith, ltb, leb,
  num_eq, if◌then◌else◌, Bool-cases, Option-cases, num_Eq, text_Eq, pair_Eq, option_Eq, length,
  take, is_empty, All, length-append, length-take_le, All-append, All-take,
}
use ianua_broker.Lan.Sanitize.{
  is_hidden, after_intermediates, after_parameters, after_ansi, strip_rounds, strip_ansi,
  blank_control, blank_hidden, collapse, skip_blanks, label, inert_text, sanitize_remote,
}

-- Neither a control character of either range nor DEL nor an invisible or bidirectional code point.
abbrev pub IsInert : ℕ → Type 0
IsInert c =
    (leb 32 c && not (num_eq c 127) && not (leb 128 c && leb c 159) && not (is_hidden c)) ≡ true

blanked-IsInert : (c : ℕ) → IsInert (blank_hidden (blank_control c))
unfolding blank_hidden blank_control is_hidden
blanked-IsInert c = ground arith

All-map_blank : (xs : List ℕ) → All IsInert (map blank_hidden (map blank_control xs))
All-map_blank [] = tt
All-map_blank (c ∷ xs) = (blanked-IsInert c, All-map_blank xs)

All-skip_blanks : (xs : List ℕ) → All IsInert xs → All IsInert (skip_blanks xs)
unfolding skip_blanks
All-skip_blanks [] h = tt
All-skip_blanks (c ∷ xs) h = elim (Bool-cases (is_space c)) [
  | inl e ↦ rw e (All-skip_blanks xs h.1)
  | inr e ↦ rw e h
]

blank-IsInert : IsInert 32
unfolding is_hidden
blank-IsInert = refl

spaced-IsInert :
    (pending : Bool) (c : ℕ) (xs : List ℕ)
    → IsInert c
    → All IsInert xs
    → All IsInert (if pending then 32 ∷ c ∷ xs else c ∷ xs)
spaced-IsInert true c xs hc h = (blank-IsInert, (hc, h))
spaced-IsInert false c xs hc h = (hc, h)

ellipsis-IsInert : IsInert 0x2026
unfolding is_hidden
ellipsis-IsInert = refl

All-collapse : (pending : Bool) (xs : List ℕ) → All IsInert xs → All IsInert (collapse pending xs)
unfolding collapse
All-collapse pending [] h = tt
All-collapse pending (c ∷ xs) h = elim (Bool-cases (is_space c)) [
  | inl e ↦ rw e (All-collapse true xs h.1)
  | inr e ↦ rw e (spaced-IsInert pending c (collapse false xs) h.0 (All-collapse false xs h.1))
]

inert_text-IsInert : (raw : List ℕ) → All IsInert (inert_text raw)
unfolding inert_text
inert_text-IsInert raw =
    All-collapse false (skip_blanks (map blank_hidden (map blank_control (strip_ansi raw)))) (
      All-skip_blanks (map blank_hidden (map blank_control (strip_ansi raw)))
        (All-map_blank (strip_ansi raw)))

short_body : (xs : List ℕ) → All IsInert xs → All IsInert (32 ∷ xs)
short_body xs h = (blank-IsInert, h)

-- Whatever a remote host sends, what is shown is the label and then a text without control
-- characters of either range, DEL or hidden code points, of at most `max_len` code points besides the
-- separator and the ellipsis (or the eight of " (empty)").
pub sanitize_remote-IsInert :
    (max_len : ℕ) (raw : List ℕ)
    → (body : List ℕ) × (sanitize_remote max_len raw ≡ label ++ body)
      × All IsInert body
      × (length body ≤ max (max_len + 2) 8)
unfolding sanitize_remote
sanitize_remote-IsInert max_len raw = go (inert_text raw) (inert_text-IsInert raw)
  where
    go :
        (text : List ℕ)
        → All IsInert text
        → (body : List ℕ) × ((if is_empty text
              then label ++ codes " (empty)"
              else if ltb max_len (length text)
              then label ++ codes " " ++ take max_len text ++ 0x2026 ∷ []
              else label ++ codes " " ++ text)
            ≡ label ++ body)
          × All IsInert body
          × (length body ≤ max (max_len + 2) 8)
    go [] h = (
      codes " (empty)",
      refl,
      unfold is_hidden in (refl, (refl, (refl, (refl, (refl, (refl, (refl, (refl, tt)))))))),
      omega arith,
    )
    go (c ∷ xs) h = elim (Bool-cases (ltb max_len (length (c ∷ xs)))) [
      | inl e ↦ (
        codes " " ++ take max_len (c ∷ xs) ++ 0x2026 ∷ [],
        rw e,
        short_body (take max_len (c ∷ xs) ++ 0x2026 ∷ []) (
            All-append IsInert (take max_len (c ∷ xs)) (0x2026 ∷ [])
              (All-take IsInert max_len (c ∷ xs) h) (ellipsis-IsInert, tt)),
        omega (
          arith,
          length-append (take max_len (c ∷ xs)) (0x2026 ∷ []),
          length-take_le max_len (c ∷ xs),
        ),
      )
      | inr e ↦ (codes " " ++ c ∷ xs, rw e, short_body (c ∷ xs) h, ground arith)
    ]

after_intermediates-length :
    (xs : List ℕ) {rest : List ℕ} → after_intermediates xs ≡ some rest → length rest ≤ length xs
unfolding after_intermediates
after_intermediates-length [] h = cc
after_intermediates-length (c ∷ xs) {rest} h =
    ground (arith, after_intermediates-length xs {rest = rest})

after_parameters-length :
    (xs : List ℕ) {rest : List ℕ} → after_parameters xs ≡ some rest → length rest ≤ length xs
unfolding after_parameters
after_parameters-length [] h = cc
after_parameters-length (c ∷ xs) {rest} h = ground (
  arith,
  after_parameters-length xs {rest = rest},
  after_intermediates-length (c ∷ xs) {rest = rest},
)

after_ansi-length :
    (xs : List ℕ) {rest : List ℕ} → after_ansi xs ≡ some rest → length rest + 2 ≤ length xs
unfolding after_ansi
after_ansi-length [] h = cc
after_ansi-length (c ∷ []) h = cc
after_ansi-length (c ∷ d ∷ xs) {rest} h = ground (arith, after_parameters-length xs {rest = rest})

-- Rounds beyond the length of the text change nothing, so `strip_ansi` filters all of it.
strip_rounds_enough :
    (f g : ℕ) (text : List ℕ)
    → length text ≤ f
    → length text ≤ g
    → strip_rounds f text ≡ strip_rounds g text
unfolding strip_rounds
strip_rounds_enough zero zero text hf hg = refl
strip_rounds_enough zero (suc g) [] hf hg = refl
strip_rounds_enough zero (suc g) (c ∷ rest) hf hg = absurd (omega arith)
strip_rounds_enough (suc f) zero [] hf hg = refl
strip_rounds_enough (suc f) zero (c ∷ rest) hf hg = absurd (omega arith)
strip_rounds_enough (suc f) (suc g) [] hf hg = refl
strip_rounds_enough (suc f) (suc g) (c ∷ rest) hf hg = elim (Option-cases (after_ansi (c ∷ rest))) [
  | inl e ↦
      rw (e, strip_rounds)
        (ap (λ xs. c ∷ xs) (strip_rounds_enough f g rest (omega arith) (omega arith)))
  | inr (rest', e) ↦
      rw (e, strip_rounds)
        (strip_rounds_enough f g rest' (omega (arith, after_ansi-length (c ∷ rest) e))
          (omega (arith, after_ansi-length (c ∷ rest) e)))
]
