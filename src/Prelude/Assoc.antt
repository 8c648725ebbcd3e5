-- ===== src/Prelude/Assoc.antt =====
-- Python's `dict`, in insertion order: a write to a known key keeps the key's place.
use mathlib.Core.Path.{◌≡◌, refl, sym, ap, ◌∙◌}
use mathlib.Core.Bool.{Bool, true, false, ◌||◌}
use mathlib.Core.Option
use mathlib.Core.Logic.{inl, inr}
use mathlib.Core.Option.{Option, none, some}
use ianua_broker.Prelude.Lists.{contains, NoRepeats, All, All-map_pred}
use mathlib.Core.List.{List, [], ◌∷◌, ◌++◌, map, foldl}
use native.Mathlib.Omega.{arith}
use ianua_broker.Prelude.Tests.{Bool-cases, if◌then◌else◌, if_rule}
use ianua_broker.Prelude.Classes.{Eq, beq_self}

abbrev pub Dict {ℓ κ} : Type ℓ → Type κ → Type (ℓ ⊔ κ)
Dict K V = List (K × V)

module _ {ℓ κ} {K : Type ℓ} {V : Type κ} ⦃e : Eq K⦄ where
  -- d.get(k)
  unfoldable pub get : K → Dict K V → Option V
  get k [] = none
  get k ((j, v) ∷ d) = if e.beq j k then some v else get k d

  -- d[k] = v
  unfoldable pub put : K → V → Dict K V → Dict K V
  put k v [] = (k, v) ∷ []
  put k v ((j, w) ∷ d) = if e.beq j k then (j, v) ∷ d else (j, w) ∷ put k v d

  -- k in d
  unfoldable pub has : K → Dict K V → Bool
  unfolding get
  has k d = elim (get k d) [ none ↦ false | some v ↦ true ]

  -- d.pop(k, None)
  unfoldable pub remove : K → Dict K V → Dict K V
  remove k [] = []
  remove k ((j, v) ∷ d) = let rest = remove k d in if e.beq j k then rest else (j, v) ∷ rest

  -- dict(pairs): the last value of a key counts
  unfoldable pub of_pairs : List (K × V) → Dict K V
  unfolding put
  of_pairs pairs = foldl (λ d p. put p.0 p.1 d) [] pairs

  pub get-put :
      (k j : K) (v : V) (d : Dict K V) → get j (put k v d) ≡ (if e.beq k j then some v else get j d)
  unfolding get put
  get-put k j v [] = refl
  get-put k j v ((i, w) ∷ d) =
      ground (arith, e.beq_iff k j, e.beq_iff i k, e.beq_iff i j, get-put k j v d)

  pub get-remove :
      (k j : K) (d : Dict K V) → get j (remove k d) ≡ (if e.beq k j then none else get j d)
  unfolding get remove
  get-remove k j [] = ground arith
  get-remove k j ((i, w) ∷ d) =
      ground (arith, e.beq_iff k j, e.beq_iff i k, e.beq_iff i j, get-remove k j d)

  abbrev pub keys : Dict K V → List K
  keys d = map (λ p. p.0) d

  abbrev pub values : Dict K V → List V
  values d = map (λ p. p.1) d

pub get-map {ℓ κ μ} :
    {K : Type ℓ} {V : Type κ} {W : Type μ} ⦃e : Eq K⦄ (f : V → W) (k : K) (d : Dict K V)
    → get k (map (λ p. (p.0, f p.1)) d) ≡ Option.map f (get k d)
unfolding get
get-map f k [] = refl
get-map ⦃e⦄ f k ((j, v) ∷ d) = elim (Bool-cases (e.beq j k)) [
  | inl q ↦ rw q
  | inr q ↦ rw q (get-map f k d)
]

module _ {ℓ κ} {K : Type ℓ} {V : Type κ} ⦃e : Eq K⦄ where
  contains-keys-put :
      (j k : K) (v : V) (d : Dict K V)
      → contains j (keys (put k v d)) ≡ (e.beq k j || contains j (keys d))
  unfolding put
  contains-keys-put j k v [] = refl
  contains-keys-put j k v ((i, w) ∷ d) = elim (Bool-cases (e.beq i k)) [
    | inl q ↦ rw q (ground (arith, e.beq_iff i k, e.beq_iff i j, e.beq_iff k j))
    | inr q ↦ rw q (ground (arith, contains-keys-put j k v d))
  ]

  pub NoRepeats-put :
      (k : K) (v : V) (d : Dict K V) → NoRepeats (keys d) → NoRepeats (keys (put k v d))
  unfolding put
  NoRepeats-put k v [] h = (refl, tt)
  NoRepeats-put k v ((i, w) ∷ d) h = elim (Bool-cases (e.beq i k)) [
    | inl q ↦ rw q h
    | inr q ↦ rw q (
      ground (arith, contains-keys-put i k v d, e.beq_iff i k, e.beq_iff k i),
      NoRepeats-put k v d h.1,
    )
  ]

  NoRepeats-puts :
      (pairs : List (K × V)) (d : Dict K V)
      → NoRepeats (keys d)
      → NoRepeats (keys (foldl (λ d p. put p.0 p.1 d) d pairs))
  NoRepeats-puts [] d h = h
  NoRepeats-puts (p ∷ pairs) d h = NoRepeats-puts pairs (put p.0 p.1 d) (NoRepeats-put p.0 p.1 d h)

  pub NoRepeats-of_pairs : (pairs : List (K × V)) → NoRepeats (keys (of_pairs pairs))
  unfolding of_pairs
  NoRepeats-of_pairs pairs = NoRepeats-puts pairs [] tt

  contains-get : (j : K) (v : V) (d : Dict K V) → get j d ≡ some v → contains j (keys d) ≡ true
  unfolding get
  contains-get j v [] h = cc
  contains-get j v ((i, w) ∷ d) h = ground (arith, contains-get j v d)

  -- Each pair of a dictionary is what `get` finds under its key.
  pub All-get : (d : Dict K V) → NoRepeats (keys d) → All (λ p. get p.0 d ≡ some p.1) d
  unfolding get
  All-get [] h = tt
  All-get ((k, v) ∷ d) h = (
    rw (beq_self k),
    All-map_pred d (λ p q. ground (arith, contains-get p.0 p.1 d q, e.beq_iff k p.0))
        (All-get d h.1),
  )

  pub has-put : (j k : K) (v : V) (d : Dict K V) → has j (put k v d) ≡ (e.beq k j || has j d)
  unfolding has
  has-put j k v d = ground (arith, get-put k j v d)

  has-puts :
      (j : K) (pairs : List (K × V)) (d : Dict K V)
      → has j (foldl (λ d p. put p.0 p.1 d) d pairs) ≡ (has j d || contains j (keys pairs))
  has-puts j [] d = ground arith
  has-puts j (p ∷ pairs) d = ground (arith, has-puts j pairs (put p.0 p.1 d), has-put j p.0 p.1 d)

  pub has-of_pairs :
      (j : K) (pairs : List (K × V)) → has j (of_pairs pairs) ≡ contains j (keys pairs)
  unfolding of_pairs has get
  has-of_pairs j pairs = has-puts j pairs []

  -- What holds of all values holds of the one that `get` finds, and after a `put` of one more.
  pub All-get_value {μ} :
      (P : V → Type μ) (k : K) (d : Dict K V)
      → All (λ p. P p.1) d
      → (v : V) → get k d ≡ some v
      → P v
  unfolding get
  All-get_value P k [] h v q = absurd (cc)
  All-get_value P k ((j, w) ∷ d) h v q = elim (Bool-cases (e.beq j k)) [
    | inl same ↦
        let q' : some w ≡ some v = rw same at q in let this : w ≡ v = cc (q') in rw this at (h.0)
    | inr other ↦ All-get_value P k d h.1 v (rw other at q)
  ]

  pub All-put {μ} :
      (P : V → Type μ) (k : K) (v : V) (d : Dict K V)
      → P v
      → All (λ p. P p.1) d
      → All (λ p. P p.1) (put k v d)
  unfolding put
  All-put P k v [] new h = (new, tt)
  All-put P k v ((j, w) ∷ d) new h =
      if_rule (All (λ p. P p.1)) (e.beq j k) ((j, v) ∷ d) ((j, w) ∷ put k v d) (λ _. (new, h.1))
        (λ _. (h.0, All-put P k v d new h.1))

  put-new :
      (k : K) (v : V) (d : Dict K V) → contains k (keys d) ≡ false → put k v d ≡ d ++ (k, v) ∷ []
  unfolding put
  put-new k v [] h = refl
  put-new k v ((j, w) ∷ d) h =
      let apart : e.beq j k ≡ false = ground (arith, h) in
      rw apart (ap (λ rest. (j, w) ∷ rest) (put-new k v d (ground (arith, h))))

  append_one :
      (xs : List (K × V)) (x : K × V) (ys : List (K × V)) → (xs ++ x ∷ []) ++ ys ≡ xs ++ x ∷ ys
  append_one [] x ys = refl
  append_one (y ∷ xs) x ys = ap (λ rest. y ∷ rest) (append_one xs x ys)

  append_none : (xs : List (K × V)) → xs ++ [] ≡ xs
  append_none [] = refl
  append_none (x ∷ xs) = ap (λ rest. x ∷ rest) (append_none xs)

  -- The keys of the pairs are new to the dictionary.
  abbrev AllNew : List (K × V) → Dict K V → Type 0
  AllNew pairs d = All (λ (p : K × V). contains p.0 (keys d) ≡ false) pairs

  AllNew-put :
      (k : K) (v : V) (pairs : List (K × V)) (d : Dict K V)
      → contains k (keys pairs) ≡ false
      → AllNew pairs d
      → AllNew pairs (put k v d)
  AllNew-put k v [] d h new = tt
  AllNew-put k v (p ∷ pairs) d h new = (
    contains-keys-put p.0 k v d ∙ ground (arith, h, new.0, e.beq_iff k p.0, e.beq_iff p.0 k),
    AllNew-put k v pairs d (ground (arith, h)) new.1,
  )

  puts-new :
      (pairs d : List (K × V))
      → NoRepeats (keys pairs)
      → AllNew pairs d
      → foldl (λ acc p. put p.0 p.1 acc) d pairs ≡ d ++ pairs
  puts-new [] d h new = sym (append_none d)
  puts-new (p ∷ pairs) d h new =
      puts-new pairs (put p.0 p.1 d) h.1 (AllNew-put p.0 p.1 pairs d h.0 new.1)
      ∙ ap (λ d'. d' ++ pairs) (put-new p.0 p.1 d new.0)
      ∙ append_one d p pairs

  none_new : (pairs : List (K × V)) → AllNew pairs []
  none_new [] = tt
  none_new (p ∷ pairs) = (refl, none_new pairs)

  -- The dictionary of pairs whose keys differ has those pairs.
  pub of_pairs-done : (pairs : List (K × V)) → NoRepeats (keys pairs) → of_pairs pairs ≡ pairs
  unfolding of_pairs put
  of_pairs-done pairs h = puts-new pairs [] h (none_new pairs)
