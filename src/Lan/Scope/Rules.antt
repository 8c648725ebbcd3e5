-- ===== src/Lan/Scope/Rules.antt =====
-- Rules for what holds of a resolved value, one for each way in which scope.py builds a result.
use ianua_broker.Prelude.{
  num_Ord, text_Ord, pair_Ord, list_Ord, ◌≡◌, refl, Bool, true, false, if◌then◌else◌, num_Eq,
  text_Eq, pair_Eq, option_Eq,
}
use ianua_broker.Lan.Scope.{ScopeError, Scoped, resolved, refused, value_error, ◌>>=◌, require}

abbrev pub OnResolved {ℓ κ} : {A : Type ℓ} → (A → Type κ) → Scoped A → Type κ
OnResolved P (resolved a) = P a
OnResolved P (refused e) = Unit
OnResolved P (value_error s) = Unit

pub OnResolved-any {ℓ} : {A : Type ℓ} (m : Scoped A) → OnResolved (λ a. m ≡ resolved a) m
OnResolved-any (resolved a) = refl
OnResolved-any (refused e) = tt
OnResolved-any (value_error s) = tt

pub OnResolved-bind {ℓ κ μ ν} :
    {A : Type ℓ} {B : Type κ} (P : A → Type μ) (Q : B → Type ν) (m : Scoped A) (f : A → Scoped B)
    → OnResolved P m
    → ((a : A) → P a → OnResolved Q (f a))
    → OnResolved Q (m >>= f)
OnResolved-bind P Q (resolved a) f h k = k a h
OnResolved-bind P Q (refused e) f h k = tt
OnResolved-bind P Q (value_error s) f h k = tt

pub OnResolved-require {ℓ κ} :
    {B : Type ℓ} (Q : B → Type κ) (b : Bool) (e : ScopeError) (m : Scoped B)
    → (b ≡ true → OnResolved Q m)
    → OnResolved Q (require b e >>= λ _. m)
OnResolved-require Q true e m k = k refl
OnResolved-require Q false e m k = tt

pub OnResolved-refuse_if {ℓ κ} :
    {B : Type ℓ} (Q : B → Type κ) (b : Bool) (e : ScopeError) (m : Scoped B)
    → (b ≡ false → OnResolved Q m)
    → OnResolved Q (if b then refused e else m)
OnResolved-refuse_if Q true e m k = tt
OnResolved-refuse_if Q false e m k = k refl

pub OnResolved-map {ℓ κ μ} :
    {A : Type ℓ} (P : A → Type κ) (Q : A → Type μ) (m : Scoped A)
    → OnResolved P m
    → ((a : A) → P a → Q a)
    → OnResolved Q m
OnResolved-map P Q (resolved a) h k = k a h
OnResolved-map P Q (refused e) h k = tt
OnResolved-map P Q (value_error s) h k = tt
