-- ===== src/Prelude/Order.antt =====
-- Orders of sort keys, and Python's `sorted`: a stable sort by a key.
use Prim.Native.Nat.{ℕ}
use Prim.Native.Char.{Char, code}
use Prim.Native.String.compare
use Prim.Native.String.{String, compare}
use mathlib.Core.Path.{◌≡◌, refl}
use mathlib.Core.Bool.{Bool, true, false, ◌&&◌}
use mathlib.Core.List.{List, [], ◌∷◌}
use native.Mathlib.Omega.{arith}
use text.Mathlib.Text.{is_le}
use ianua_broker.Prelude.Tests.{ltb, leb, num_eq, if◌then◌else◌}
use ianua_broker.Prelude.Lists.{All}

pub record Ord {ℓ} (A : Type ℓ) : Type ℓ where
  pub le : A → A → Bool
  pub le_total : (a b : A) → le a b ≡ false → le b a ≡ true
  pub le_trans : (a b c : A) → le a b ≡ true → le b c ≡ true → le a c ≡ true

pub leb_total : (a b : ℕ) → leb a b ≡ false → leb b a ≡ true
leb_total a b h = ground arith

pub leb_trans : (a b c : ℕ) → leb a b ≡ true → leb b c ≡ true → leb a c ≡ true
leb_trans a b c h k = ground arith

instance abbrev pub num_Ord : Ord ℕ
num_Ord = record { le = leb; le_total = leb_total; le_trans = leb_trans }

-- Python compares texts by code point.
abbrev pub text_le : String → String → Bool
text_le s t = is_le (compare s t)

pub text_le-nil : (t : String) → text_le String.[] t ≡ true
text_le-nil String.[] = refl
text_le-nil (String.◌∷◌ d t) = rw (compare.nil-cons d t)

text_le-cons-nil : (c : Char) (s : String) → text_le (String.◌∷◌ c s) String.[] ≡ false
text_le-cons-nil c s = rw (compare.cons-nil c s)

text_le-cons :
    (c d : Char) (s t : String)
    → text_le (String.◌∷◌ c s) (String.◌∷◌ d t)
      ≡ (if ltb (code c) (code d) then true else num_eq (code c) (code d) && text_le s t)
text_le-cons c d s t = rw (compare.cons-cons c d s t) (ground arith)

pub text_total : (s t : String) → text_le s t ≡ false → text_le t s ≡ true
text_total s String.[] h = text_le-nil s
text_total String.[] (String.◌∷◌ d t) h = cc (text_le-nil (String.◌∷◌ d t))
text_total (String.◌∷◌ c s) (String.◌∷◌ d t) h =
    ground (arith, text_le-cons c d s t, text_le-cons d c t s, text_total s t)

pub text_trans : (s t u : String) → text_le s t ≡ true → text_le t u ≡ true → text_le s u ≡ true
text_trans String.[] t u h k = text_le-nil u
text_trans (String.◌∷◌ c s) String.[] u h k = cc (text_le-cons-nil c s)
text_trans (String.◌∷◌ c s) (String.◌∷◌ d t) String.[] h k = cc (text_le-cons-nil d t)
text_trans (String.◌∷◌ c s) (String.◌∷◌ d t) (String.◌∷◌ e u) h k =
    ground
      (arith, text_le-cons c d s t, text_le-cons d e t u, text_le-cons c e s u, text_trans s t u)

instance abbrev pub text_Ord : Ord String
text_Ord = record { le = text_le; le_total = text_total; le_trans = text_trans }

-- Tuples compare their first parts, then their second.
module _ {ℓ κ} {A : Type ℓ} {B : Type κ} ⦃o : Ord A⦄ ⦃p : Ord B⦄ where
  abbrev pub pair_le : A × B → A × B → Bool
  pair_le (a, b) (a', b') = o.le a a' && (if o.le a' a then p.le b b' else true)

  pub pair_total : (x y : A × B) → pair_le x y ≡ false → pair_le y x ≡ true
  pair_total (a, b) (a', b') h = ground (arith, o.le_total a a', o.le_total a' a, p.le_total b b')

  pub pair_trans : (x y z : A × B) → pair_le x y ≡ true → pair_le y z ≡ true → pair_le x z ≡ true
  pair_trans (a, b) (a', b') (a'', b'') h k =
      ground
        (arith, o.le_trans a a' a'', o.le_trans a'' a a', o.le_trans a' a'' a, p.le_trans b b' b'')

  instance abbrev pub pair_Ord : Ord (A × B)
  pair_Ord = record { le = pair_le; le_total = pair_total; le_trans = pair_trans }

-- Sequences compare part by part; a proper prefix is smaller.
module _ {ℓ} {A : Type ℓ} ⦃o : Ord A⦄ where
  abbrev pub list_le : List A → List A → Bool
  list_le [] ys = true
  list_le (x ∷ xs) [] = false
  list_le (x ∷ xs) (y ∷ ys) = o.le x y && (if o.le y x then list_le xs ys else true)

  pub list_total : (xs ys : List A) → list_le xs ys ≡ false → list_le ys xs ≡ true
  list_total [] ys h = cc
  list_total (x ∷ xs) [] h = refl
  list_total (x ∷ xs) (y ∷ ys) h = ground (arith, o.le_total x y, o.le_total y x, list_total xs ys)

  pub list_trans :
      (xs ys zs : List A) → list_le xs ys ≡ true → list_le ys zs ≡ true → list_le xs zs ≡ true
  list_trans [] ys zs h k = refl
  list_trans (x ∷ xs) [] zs h k = cc
  list_trans (x ∷ xs) (y ∷ ys) [] h k = cc
  list_trans (x ∷ xs) (y ∷ ys) (z ∷ zs) h k =
      ground (arith, o.le_trans x y z, o.le_trans z x y, o.le_trans y z x, list_trans xs ys zs)

  instance abbrev pub list_Ord : Ord (List A)
  list_Ord = record { le = list_le; le_total = list_total; le_trans = list_trans }

module _ {ℓ κ} {A : Type ℓ} {K : Type κ} ⦃o : Ord K⦄ (key : A → K) where
  -- Stable: `x` came before all of the list, so it goes before the first that is not smaller.
  unfoldable pub insert_sorted : A → List A → List A
  insert_sorted x [] = x ∷ []
  insert_sorted x (y ∷ ys) = if o.le (key x) (key y) then x ∷ y ∷ ys else y ∷ insert_sorted x ys

  -- sorted(xs, key=key)
  unfoldable pub sorted : List A → List A
  unfolding insert_sorted
  sorted [] = []
  sorted (x ∷ xs) = insert_sorted x (sorted xs)

  abbrev pub IsSorted : List A → Type ℓ
  IsSorted [] = Unit
  IsSorted (x ∷ xs) = All (λ y. o.le (key x) (key y) ≡ true) xs × IsSorted xs
