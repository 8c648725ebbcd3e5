-- ===== src/Lan/Manifest/Valid.antt =====
-- What a manifest that was loaded satisfies.
use ianua_broker.Prelude.{
  num_Ord, text_Ord, pair_Ord, list_Ord, has_ink, ℕ, ◌≤◌, String, ◌≡◌, refl, subst, ◌⊎◌, inl, inr,
  Bool, true, false, ◌&&◌, ◌||◌, Option, none, some, List, ◌∷◌, arith, leb, if◌then◌else◌,
  Option-cases, ◌==◌, num_Eq, text_Eq, pair_Eq, option_Eq, is_empty, All,
}
use ianua_broker.Lan.Platform.{
  Toml, text, integer, array, table, Items, nil, cons, Fields, field_of, Bytes, Platform,
}
use ianua_broker.Lan.Manifest.{
  ManifestError, Loaded, loaded, invalid, raised, ◌>>=◌, Manifest, require_str, parse_expiry,
  target_texts, parse_targets, port_numbers, parse_ports, scheme_of, parse_scheme, validate,
  load_manifest, targets_not_text, empty_field, bad_port, bad_scheme,
}

-- `P` of the value, if there is one
abbrev pub OnLoaded {ℓ κ} : {A : Type ℓ} → (A → Type κ) → Loaded A → Type κ
OnLoaded P (loaded a) = P a
OnLoaded P (invalid e) = Unit
OnLoaded P raised = Unit

OnLoaded-bind {ℓ κ μ ν} :
    {A : Type ℓ} {B : Type κ} (P : A → Type μ) (Q : B → Type ν) (m : Loaded A) (f : A → Loaded B)
    → OnLoaded P m
    → ((a : A) → P a → OnLoaded Q (f a))
    → OnLoaded Q (m >>= f)
OnLoaded-bind P Q (loaded a) f h k = k a h
OnLoaded-bind P Q (invalid e) f h k = tt
OnLoaded-bind P Q raised f h k = tt

anything {ℓ} : {A : Type ℓ} (m : Loaded A) → OnLoaded (λ _. Unit {0}) m
anything (loaded a) = tt
anything (invalid e) = tt
anything raised = tt

OnLoaded-if {ℓ κ} :
    {A : Type ℓ} (P : A → Type κ) (b : Bool) (m : Loaded A) (e : ManifestError)
    → (b ≡ true → OnLoaded P m)
    → OnLoaded P (if b then m else invalid e)
OnLoaded-if P true m e h = h refl
OnLoaded-if P false m e h = tt

abbrev pub IsPort : ℕ → Type 0
IsPort p = (1 ≤ p) × (p ≤ 65535)

abbrev pub IsInked : String → Type 0
IsInked s = has_ink s ≡ true

pub record IsValid (py : Platform) (raw : Bytes) (m : Manifest) : Type 0 where
  pub id_given : IsInked m.authorization_id
  pub operator_given : IsInked m.operator
  pub targets_given : is_empty m.targets ≡ false
  pub targets_inked : All IsInked m.targets
  pub ports_given : is_empty m.ports ≡ false
  pub ports_in_range : All IsPort m.ports
  pub scheme_known : (m.signature_scheme ≡ "ssh") ⊎ (m.signature_scheme ≡ "ed25519")
  pub bound_to_bytes : m.sha256 ≡ py.sha256 raw

require_str-IsInked : (fields : Fields) (key : String) → OnLoaded IsInked (require_str fields key)
unfolding require_str
require_str-IsInked fields key = go (field_of key fields)
  where
    go :
        (v : Option Toml)
        → OnLoaded IsInked (elim v [
          | some (text value) ↦ if has_ink value then loaded value else invalid (empty_field key)
          | _ ↦ invalid (empty_field key)
        ])
    go (some (text value)) =
        OnLoaded-if IsInked (has_ink value) (loaded value) (empty_field key) (λ e. e)
    go none = tt
    go _ = tt

target_texts-IsInked : (v : Items) → OnLoaded (All IsInked) (target_texts v)
unfolding target_texts
target_texts-IsInked nil = tt
target_texts-IsInked (cons (text t) rest) =
    OnLoaded-if (All IsInked) (has_ink t) (target_texts rest >>= λ ts. loaded (t ∷ ts))
      targets_not_text
      λ e.
        OnLoaded-bind (All IsInked) (All IsInked) (target_texts rest) (λ ts. loaded (t ∷ ts))
          (target_texts-IsInked rest) (λ ts h. (e, h))
target_texts-IsInked (cons _ rest) = tt

port_numbers-IsPort : (v : Items) → OnLoaded (All IsPort) (port_numbers v)
unfolding port_numbers
port_numbers-IsPort nil = tt
port_numbers-IsPort (cons (integer p) rest) =
    OnLoaded-if (All IsPort) (leb 1 p && leb p 65535) (port_numbers rest >>= λ ps. loaded (p ∷ ps))
      bad_port
      λ e.
        OnLoaded-bind (All IsPort) (All IsPort) (port_numbers rest) (λ ps. loaded (p ∷ ps))
          (port_numbers-IsPort rest) (λ ps h. (ground arith, h))
port_numbers-IsPort (cons _ rest) = tt

OnLoaded-both {ℓ κ μ} :
    {A : Type ℓ} (P : A → Type κ) (Q : A → Type μ) (m : Loaded A)
    → OnLoaded P m
    → OnLoaded Q m
    → OnLoaded (λ a. P a × Q a) m
OnLoaded-both P Q (loaded a) h k = (h, k)
OnLoaded-both P Q (invalid e) h k = tt
OnLoaded-both P Q raised h k = tt

abbrev IsGiven {ℓ} : {A : Type ℓ} → List A → Type 0
IsGiven xs = is_empty xs ≡ false

target_texts-IsGiven : (v : Toml) (rest : Items) → OnLoaded IsGiven (target_texts (cons v rest))
unfolding target_texts
target_texts-IsGiven (text t) rest =
    OnLoaded-if IsGiven (has_ink t) (target_texts rest >>= λ ts. loaded (t ∷ ts)) targets_not_text
      λ e.
        OnLoaded-bind (λ _. Unit {0}) IsGiven (target_texts rest) (λ ts. loaded (t ∷ ts))
          (anything (target_texts rest)) (λ ts h. refl)
target_texts-IsGiven _ rest = tt

port_numbers-IsGiven : (v : Toml) (rest : Items) → OnLoaded IsGiven (port_numbers (cons v rest))
unfolding port_numbers
port_numbers-IsGiven (integer p) rest =
    OnLoaded-if IsGiven (leb 1 p && leb p 65535) (port_numbers rest >>= λ ps. loaded (p ∷ ps))
      bad_port
      λ e.
        OnLoaded-bind (λ _. Unit {0}) IsGiven (port_numbers rest) (λ ps. loaded (p ∷ ps))
          (anything (port_numbers rest)) (λ ps h. refl)
port_numbers-IsGiven _ rest = tt

parse_targets-valid :
    (v : Option Toml) → OnLoaded (λ ts. IsGiven ts × All IsInked ts) (parse_targets v)
unfolding parse_targets
parse_targets-valid (some (array (cons v rest))) =
    OnLoaded-both IsGiven (All IsInked) (target_texts (cons v rest)) (target_texts-IsGiven v rest)
      (target_texts-IsInked (cons v rest))
parse_targets-valid (some (array nil)) = tt
parse_targets-valid none = tt
parse_targets-valid _ = tt

parse_ports-valid : (v : Option Toml) → OnLoaded (λ ps. IsGiven ps × All IsPort ps) (parse_ports v)
unfolding parse_ports
parse_ports-valid (some (array (cons v rest))) =
    OnLoaded-both IsGiven (All IsPort) (port_numbers (cons v rest)) (port_numbers-IsGiven v rest)
      (port_numbers-IsPort (cons v rest))
parse_ports-valid (some (array nil)) = tt
parse_ports-valid none = tt
parse_ports-valid _ = tt

abbrev IsScheme : String → Type 0
IsScheme s = (s ≡ "ssh") ⊎ (s ≡ "ed25519")

scheme_of-IsScheme : (v : Option Toml) → OnLoaded IsScheme (scheme_of v)
unfolding scheme_of
scheme_of-IsScheme none = inl refl
scheme_of-IsScheme (some (text s)) =
    OnLoaded-if IsScheme (s == "ssh" || s == "ed25519") (loaded s) bad_scheme
      λ e. ground (arith, text_Eq.beq_iff s "ssh", text_Eq.beq_iff s "ed25519")
scheme_of-IsScheme _ = tt

parse_scheme-IsScheme : (v : Option Toml) → OnLoaded IsScheme (parse_scheme v)
unfolding parse_scheme
parse_scheme-IsScheme none = inl refl
parse_scheme-IsScheme (some (table signature)) = scheme_of-IsScheme (field_of "scheme" signature)
parse_scheme-IsScheme _ = tt

validate-IsValid :
    (py : Platform) (raw : Bytes) (fields : Fields)
    → OnLoaded (IsValid py raw) (validate py raw fields)
unfolding validate
validate-IsValid py raw fields =
    OnLoaded-bind IsInked Q (require_str fields "authorization_id") _
      (require_str-IsInked fields "authorization_id")
      λ i hi.
        OnLoaded-bind IsInked Q (require_str fields "operator") _
          (require_str-IsInked fields "operator")
          λ o ho.
            OnLoaded-bind (λ _. Unit {0}) Q (parse_expiry py (field_of "expires_at" fields)) _
              (anything (parse_expiry py (field_of "expires_at" fields)))
              λ x _.
                OnLoaded-bind _ Q (parse_targets (field_of "targets" fields)) _
                  (parse_targets-valid (field_of "targets" fields))
                  λ ts ht.
                    OnLoaded-bind _ Q (parse_ports (field_of "ports" fields)) _
                      (parse_ports-valid (field_of "ports" fields))
                      λ ps hp.
                        OnLoaded-bind IsScheme Q (parse_scheme (field_of "signature" fields)) _
                          (parse_scheme-IsScheme (field_of "signature" fields))
                          λ s hs. record {
                            id_given = hi;
                            operator_given = ho;
                            targets_given = ht.0;
                            targets_inked = ht.1;
                            ports_given = hp.0;
                            ports_in_range = hp.1;
                            scheme_known = hs;
                            bound_to_bytes = refl;
                          }
  where
    Q : Manifest → Type 0
    Q = IsValid py raw

-- Every manifest that is loaded names an authorization and an operator that are not blank, has at
-- least one target and none that is blank, has at least one port and all in 1..65535, has one of
-- the two signature schemes, and records the digest of the very bytes that were parsed.
pub load_manifest-IsValid :
    (py : Platform) (raw : Bytes) (m : Manifest)
    → load_manifest py raw ≡ loaded m
    → IsValid py raw m
unfolding load_manifest
load_manifest-IsValid py raw m h = elim (Option-cases (py.toml_loads raw)) [
  | inl e ↦ absurd (cc)
  | inr (fields, e) ↦
      let h' : validate py raw fields ≡ loaded m = rw (e, load_manifest) at h in
      subst (OnLoaded (IsValid py raw)) h' (validate-IsValid py raw fields)
]
