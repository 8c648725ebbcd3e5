-- ===== src/Prelude/Sets.antt =====
-- A Python set as a list in which each member stands once, read by `in` and by its length.
use mathlib.Core.Path.{◌≡◌, ap, ◌∙◌, sym}
use mathlib.Core.Logic.{inl, inr}
use mathlib.Core.Bool.{true, ◌||◌}
use mathlib.Core.List.{List, [], ◌∷◌, ◌++◌}
use native.Mathlib.Omega.{arith}
use ianua_broker.Prelude.Tests.{if◌then◌else◌, Bool-cases, if_rule}
use ianua_broker.Prelude.Classes.{Eq}
use ianua_broker.Prelude.Lists.{contains, All, All-append}

module _ {ℓ} {A : Type ℓ} ⦃e : Eq A⦄ where
  -- s.add(x)
  unfoldable pub add_member : A → List A → List A
  add_member x members = if contains x members then members else members ++ x ∷ []

  -- s.update(xs)
  unfoldable pub add_members : List A → List A → List A
  unfolding add_member
  add_members [] members = members
  add_members (x ∷ xs) members = add_members xs (add_member x members)

  contains-append_one :
      (y x : A) (xs : List A) → contains y (xs ++ x ∷ []) ≡ (contains y xs || e.beq x y)
  contains-append_one y x [] = ground arith
  contains-append_one y x (z ∷ xs) = ground (arith, contains-append_one y x xs)

  or_absorb :
      (y x : A) (members : List A)
      → contains x members ≡ true
      → x ≡ y
      → (contains y members || true) ≡ contains y members
  or_absorb y x members h q = ground (arith, ap (λ z. contains z members) q)

  pub contains-add_member :
      (y x : A) (members : List A)
      → contains y (add_member x members) ≡ (contains y members || e.beq x y)
  unfolding add_member
  contains-add_member y x members = elim (Bool-cases (contains x members)) [
    | inl h ↦ elim (Bool-cases (e.beq x y)) [
      | inl q ↦ rw (h, q) (sym (or_absorb y x members h ((e.beq_iff x y).0 q)))
      | inr q ↦ rw (h, q) (ground arith)
    ]
    | inr h ↦ rw h (contains-append_one y x members)
  ]

  pub contains-add_members :
      (y : A) (xs members : List A)
      → contains y (add_members xs members) ≡ (contains y members || contains y xs)
  unfolding add_members
  contains-add_members y [] members = ground arith
  contains-add_members y (x ∷ xs) members =
      contains-add_members y xs (add_member x members)
      ∙ ground (arith, contains-add_member y x members)

  pub All-add_member {κ} :
      (P : A → Type κ) (x : A) (members : List A)
      → P x
      → All P members
      → All P (add_member x members)
  unfolding add_member
  All-add_member P x members hx h =
      if_rule (All P) (contains x members) members (members ++ x ∷ []) (λ _. h)
        (λ _. All-append P members (x ∷ []) h (hx, tt))
