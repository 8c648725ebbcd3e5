-- ===== src/Prelude/Sorting.antt =====
-- Laws of `sorted`: it orders by the key, keeps every element, and keeps what holds of all.
use mathlib.Core.Path.{◌≡◌, refl, ap, ◌∙◌}
use Prim.Native.Nat.{ℕ, zero, suc}
use mathlib.Core.Logic.{inl, inr}
use mathlib.Core.Bool.{Bool, true, false, ◌||◌}
use mathlib.Core.List.{List, [], ◌∷◌, map, Perm}
use mathlib.Core.List.Perm
use native.Mathlib.Omega.{arith}
use ianua_broker.Prelude.Tests.{Bool-cases}
use ianua_broker.Prelude.Classes.{Eq}
use ianua_broker.Prelude.Lists.{any, contains, NoRepeats, length, All, All-map_pred, take, All-take}
use ianua_broker.Prelude.Order.{Ord, insert_sorted, sorted, IsSorted}

module _ {ℓ κ} {A : Type ℓ} {K : Type κ} ⦃o : Ord K⦄ (key : A → K) where
  insert_sorted-perm : (x : A) (ys : List A) → Perm (insert_sorted key x ys) (x ∷ ys)
  unfolding insert_sorted
  insert_sorted-perm x [] = Perm.refl (x ∷ [])
  insert_sorted-perm x (y ∷ ys) = elim (Bool-cases (o.le (key x) (key y))) [
    | inl e ↦ rw e (Perm.refl (x ∷ y ∷ ys))
    | inr e ↦ rw e (Perm.trans (Perm.cons y (insert_sorted-perm x ys)) (Perm.swap x y ys))
  ]

  -- Nothing is lost and nothing is made up.
  pub sorted-perm : (xs : List A) → Perm (sorted key xs) xs
  unfolding sorted
  sorted-perm [] = Perm.refl []
  sorted-perm (x ∷ xs) =
      Perm.trans (insert_sorted-perm x (sorted key xs)) (Perm.cons x (sorted-perm xs))

  All-insert_sorted {μ} :
      (P : A → Type μ) (x : A) (ys : List A) → P x → All P ys → All P (insert_sorted key x ys)
  unfolding insert_sorted
  All-insert_sorted P x [] hx h = (hx, tt)
  All-insert_sorted P x (y ∷ ys) hx h = elim (Bool-cases (o.le (key x) (key y))) [
    | inl e ↦ rw e (hx, h)
    | inr e ↦ rw e (h.0, All-insert_sorted P x ys hx h.1)
  ]

  pub All-sorted {μ} : (P : A → Type μ) (xs : List A) → All P xs → All P (sorted key xs)
  unfolding sorted
  All-sorted P [] h = tt
  All-sorted P (x ∷ xs) h = All-insert_sorted P x (sorted key xs) h.0 (All-sorted P xs h.1)

  insert_sorted-IsSorted :
      (x : A) (ys : List A) → IsSorted key ys → IsSorted key (insert_sorted key x ys)
  unfolding insert_sorted
  insert_sorted-IsSorted x [] h = (tt, tt)
  insert_sorted-IsSorted x (y ∷ ys) h = elim (Bool-cases (o.le (key x) (key y))) [
    | inl e ↦ rw e ((e, All-map_pred ys (λ z q. o.le_trans (key x) (key y) (key z) e q) h.0), h)
    | inr e ↦ rw e (
      All-insert_sorted (λ z. o.le (key y) (key z) ≡ true) x ys (o.le_total (key x) (key y) e) h.0,
      insert_sorted-IsSorted x ys h.1,
    )
  ]

  pub sorted-IsSorted : (xs : List A) → IsSorted key (sorted key xs)
  unfolding sorted
  sorted-IsSorted [] = tt
  sorted-IsSorted (x ∷ xs) = insert_sorted-IsSorted x (sorted key xs) (sorted-IsSorted xs)

  length-insert_sorted : (x : A) (ys : List A) → length (insert_sorted key x ys) ≡ suc (length ys)
  unfolding insert_sorted
  length-insert_sorted x [] = refl
  length-insert_sorted x (y ∷ ys) = ground (arith, length-insert_sorted x ys)

  insert_sorted-least :
      (x : A) (ys : List A)
      → All (λ y. o.le (key x) (key y) ≡ true) ys
      → insert_sorted key x ys ≡ x ∷ ys
  unfolding insert_sorted
  insert_sorted-least x [] h = refl
  insert_sorted-least x (y ∷ ys) h = rw (h.0) refl

  -- Sorting a sorted list changes nothing.
  pub sorted-done : (xs : List A) → IsSorted key xs → sorted key xs ≡ xs
  unfolding sorted
  sorted-done [] h = refl
  sorted-done (x ∷ xs) h = rw (sorted-done xs h.1) (insert_sorted-least x xs h.0)

  contains-map-insert_sorted :
      {M : Type ℓ} ⦃e : Eq M⦄ (f : A → M) (a : M) (x : A) (ys : List A)
      → contains a (map f (insert_sorted key x ys)) ≡ (e.beq (f x) a || contains a (map f ys))
  unfolding insert_sorted
  contains-map-insert_sorted ⦃e⦄ f a x [] = refl
  contains-map-insert_sorted ⦃e⦄ f a x (y ∷ ys) = elim (Bool-cases (o.le (key x) (key y))) [
    | inl q ↦ rw q refl
    | inr q ↦ rw q (ground (arith, contains-map-insert_sorted f a x ys))
  ]

  NoRepeats-map-insert_sorted :
      {M : Type ℓ} ⦃e : Eq M⦄ (f : A → M) (x : A) (ys : List A)
      → contains (f x) (map f ys) ≡ false
      → NoRepeats (map f ys)
      → NoRepeats (map f (insert_sorted key x ys))
  unfolding insert_sorted
  NoRepeats-map-insert_sorted ⦃e⦄ f x [] new h = (refl, tt)
  NoRepeats-map-insert_sorted ⦃e⦄ f x (y ∷ ys) new h = elim (Bool-cases (o.le (key x) (key y))) [
    | inl q ↦ rw q (new, h)
    | inr q ↦ rw q (
      contains-map-insert_sorted f (f y) x ys
          ∙ ground (arith, new, h.0, e.beq_iff (f x) (f y), e.beq_iff (f y) (f x)),
      NoRepeats-map-insert_sorted f x ys (ground (arith, new)) h.1,
    )
  ]

  contains-map-sorted :
      {M : Type ℓ} ⦃e : Eq M⦄ (f : A → M) (a : M) (xs : List A)
      → contains a (map f (sorted key xs)) ≡ contains a (map f xs)
  unfolding sorted
  contains-map-sorted f a [] = refl
  contains-map-sorted ⦃e⦄ f a (x ∷ xs) =
      contains-map-insert_sorted f a x (sorted key xs)
      ∙ ap (λ b. e.beq (f x) a || b) (contains-map-sorted f a xs)

  pub NoRepeats-map-sorted :
      {M : Type ℓ} ⦃e : Eq M⦄ (f : A → M) (xs : List A)
      → NoRepeats (map f xs)
      → NoRepeats (map f (sorted key xs))
  unfolding sorted
  NoRepeats-map-sorted f [] h = tt
  NoRepeats-map-sorted f (x ∷ xs) h =
      NoRepeats-map-insert_sorted f x (sorted key xs) (contains-map-sorted f (f x) xs ∙ h.0)
        (NoRepeats-map-sorted f xs h.1)

  pub IsSorted-take : (n : ℕ) (xs : List A) → IsSorted key xs → IsSorted key (take n xs)
  IsSorted-take zero xs h = tt
  IsSorted-take (suc n) [] h = tt
  IsSorted-take (suc n) (x ∷ xs) h =
      (All-take (λ y. o.le (key x) (key y) ≡ true) n xs h.0, IsSorted-take n xs h.1)

  pub length-sorted : (xs : List A) → length (sorted key xs) ≡ length xs
  unfolding sorted
  length-sorted [] = refl
  length-sorted (x ∷ xs) = ground (arith, length-insert_sorted x (sorted key xs), length-sorted xs)

  any-insert_sorted :
      (p : A → Bool) (x : A) (ys : List A) → any p (insert_sorted key x ys) ≡ (p x || any p ys)
  unfolding insert_sorted
  any-insert_sorted p x [] = refl
  any-insert_sorted p x (y ∷ ys) = ground (arith, any-insert_sorted p x ys)

  pub any-sorted : (p : A → Bool) (xs : List A) → any p (sorted key xs) ≡ any p xs
  unfolding sorted
  any-sorted p [] = refl
  any-sorted p (x ∷ xs) =
      any-insert_sorted p x (sorted key xs) ∙ ap (λ b. p x || b) (any-sorted p xs)
