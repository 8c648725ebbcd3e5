-- ===== src/Lan/Manifest/Raises.antt =====
-- When loading a manifest raises.
use ianua_broker.Prelude.{
  num_Ord, text_Ord, pair_Ord, list_Ord, has_ink, ℕ, ◌+◌, ◌<◌, String, ◌≡◌, refl, subst, ◌⊎◌, inl,
  inr, Bool, true, false, ◌&&◌, ◌||◌, Option, none, some, ◌∷◌, arith, leb, if◌then◌else◌,
  Option-cases, Bool-cases, ◌==◌, num_Eq, text_Eq, pair_Eq, option_Eq, ◌↔◌,
}
use ianua_broker.Lan.Platform.{
  Zone, Stamp, naive, ahead, behind, Toml, text, integer, datetime, array, table, Items, nil, cons,
  Fields, field_of, Bytes, Platform,
}
use ianua_broker.Lan.Manifest.{
  ManifestError, Loaded, loaded, invalid, raised, ◌>>=◌, require_str, parse_expiry, to_utc,
  target_texts, parse_targets, port_numbers, parse_ports, scheme_of, parse_scheme, validate,
  load_manifest, targets_not_text, empty_field, bad_port, bad_scheme, last_moment, bad_expiry,
}

-- `P` if it raises
abbrev OnRaised {ℓ κ} : {A : Type ℓ} → Type κ → Loaded A → Type κ
OnRaised P (loaded a) = Unit
OnRaised P (invalid e) = Unit
OnRaised P raised = P

OnRaised-bind {ℓ κ μ} :
    {A : Type ℓ} {B : Type κ} (P : Type μ) (m : Loaded A) (f : A → Loaded B)
    → OnRaised P m
    → ((a : A) → m ≡ loaded a → OnRaised P (f a))
    → OnRaised P (m >>= f)
OnRaised-bind P (loaded a) f h k = k a refl
OnRaised-bind P (invalid e) f h k = tt
OnRaised-bind P raised f h k = h

OnRaised-map {ℓ κ μ} :
    {A : Type ℓ} (P : Type κ) (Q : Type μ) (m : Loaded A) → (P → Q) → OnRaised P m → OnRaised Q m
OnRaised-map P Q (loaded a) f h = tt
OnRaised-map P Q (invalid e) f h = tt
OnRaised-map P Q raised f h = f h

OnRaised-if {ℓ κ} :
    {A : Type ℓ} (P : Type κ) (b : Bool) (m : Loaded A) (e : ManifestError)
    → OnRaised P m
    → OnRaised P (if b then m else invalid e)
OnRaised-if P true m e h = h
OnRaised-if P false m e h = tt

-- A text field that is there and not blank.
abbrev pub Gives : Fields → String → String → Type 0
Gives fields key value = (field_of key fields ≡ some (text value)) × (has_ink value ≡ true)

-- The expiry that is given, as a datetime or as a text in ISO format.
abbrev pub Expires : Platform → Option Toml → Stamp → Type 0
Expires py v stamp =
    (v ≡ some (datetime stamp))
    ⊎ ((s : String) × (v ≡ some (text s)) × (py.fromisoformat s ≡ some stamp))

-- In UTC it is before the first moment or after the last one.
abbrev pub IsBeyond : Stamp → Type 0
IsBeyond stamp = elim stamp.zone [
  | naive ↦ true ≡ false
  | ahead offset ↦ stamp.wall < offset
  | behind offset ↦ last_moment < stamp.wall + offset
]

-- The document parses, and the two names are given, and the expiry is out of the range in UTC.
abbrev pub IsOutOfRange : Platform → Bytes → Type 0
IsOutOfRange py raw =
    (fields : Fields) × (py.toml_loads raw ≡ some fields)
    × ((auth : String) × Gives fields "authorization_id" auth)
    × ((operator : String) × Gives fields "operator" operator)
    × ((stamp : Stamp) × Expires py (field_of "expires_at" fields) stamp × IsBeyond stamp)

require_str-raised :
    (P : Type 0) (fields : Fields) (key : String) → OnRaised P (require_str fields key)
unfolding require_str
require_str-raised P fields key = go (field_of key fields)
  where
    go :
        (v : Option Toml)
        → OnRaised P (elim v [
          | some (text value) ↦ if has_ink value then loaded value else invalid (empty_field key)
          | _ ↦ invalid (empty_field key)
        ])
    go (some (text value)) = OnRaised-if P (has_ink value) (loaded value) (empty_field key) tt
    go none = tt
    go _ = tt

require_str-given :
    (fields : Fields) (key value : String)
    → require_str fields key ≡ loaded value
    → Gives fields key value
unfolding require_str
require_str-given fields key value h = go (field_of key fields) h
  where
    go :
        (v : Option Toml)
        → (elim v [
          | some (text s) ↦ if has_ink s then loaded s else invalid (empty_field key)
          | _ ↦ invalid (empty_field key)
        ])
          ≡ loaded value
        → (v ≡ some (text value)) × (has_ink value ≡ true)
    go (some (text s)) e = elim (Bool-cases (has_ink s)) [
      | inl q ↦ let same : loaded s ≡ loaded value = rw q at e in (cc, cc)
      | inr q ↦ let same : invalid (empty_field key) ≡ loaded value = rw q at e in absurd (cc)
    ]
    go none e = absurd (cc)
    go (some (integer n)) e = absurd (cc)
    go (some (datetime d)) e = absurd (cc)
    go (some (array items)) e = absurd (cc)
    go (some (table t)) e = absurd (cc)
    go _ e = absurd (cc)

require_str-loads :
    (fields : Fields) (key value : String)
    → Gives fields key value
    → require_str fields key ≡ loaded value
unfolding require_str
require_str-loads fields key value h = rw (h.0, require_str) (rw (h.1) refl)

to_utc-raised :
    (wall : ℕ) (zone : Zone)
    → OnRaised (IsBeyond (record { wall = wall; zone = zone })) (to_utc wall zone)
unfolding to_utc
to_utc-raised wall naive = tt
to_utc-raised wall (ahead offset) = elim (Bool-cases (leb offset wall)) [
  | inl e ↦ rw e tt
  | inr e ↦ rw e (ground arith)
]
to_utc-raised wall (behind offset) = elim (Bool-cases (leb (wall + offset) last_moment)) [
  | inl e ↦ rw e tt
  | inr e ↦ rw e (ground arith)
]

to_utc-raises :
    (wall : ℕ) (zone : Zone)
    → IsBeyond (record { wall = wall; zone = zone })
    → to_utc wall zone ≡ raised
unfolding to_utc
to_utc-raises wall naive h = absurd (cc)
to_utc-raises wall (ahead offset) h = ground arith
to_utc-raises wall (behind offset) h = ground arith

parse_expiry-raised :
    (py : Platform) (v : Option Toml)
    → OnRaised ((stamp : Stamp) × Expires py v stamp × IsBeyond stamp) (parse_expiry py v)
unfolding parse_expiry
parse_expiry-raised py (some (datetime dt)) =
    OnRaised-map (IsBeyond dt) _ (to_utc dt.wall dt.zone) (λ h. (dt, inl refl, h))
      (to_utc-raised dt.wall dt.zone)
parse_expiry-raised py (some (text s)) = go (py.fromisoformat s) refl
  where
    go :
        (o : Option Stamp)
        → py.fromisoformat s ≡ o
        → OnRaised
            ((stamp : Stamp) × Expires py (some (text s)) stamp × IsBeyond stamp)
            (elim o [ none ↦ invalid (bad_expiry s) | some dt ↦ to_utc dt.wall dt.zone ])
    go none e = tt
    go (some dt) e =
        OnRaised-map (IsBeyond dt) _ (to_utc dt.wall dt.zone) (λ h. (dt, inr (s, refl, e), h))
          (to_utc-raised dt.wall dt.zone)
parse_expiry-raised py none = tt
parse_expiry-raised py _ = tt

parse_expiry-raises :
    (py : Platform) (v : Option Toml) (stamp : Stamp)
    → Expires py v stamp
    → IsBeyond stamp
    → parse_expiry py v ≡ raised
unfolding parse_expiry
parse_expiry-raises py v stamp (inl e) h =
    rw (e, parse_expiry) (to_utc-raises stamp.wall stamp.zone h)
parse_expiry-raises py v stamp (inr (s, e, q)) h =
    rw (e, parse_expiry) (rw q (to_utc-raises stamp.wall stamp.zone h))

target_texts-raised : (P : Type 0) (v : Items) → OnRaised P (target_texts v)
unfolding target_texts
target_texts-raised P nil = tt
target_texts-raised P (cons (text t) rest) =
    OnRaised-if P (has_ink t) (target_texts rest >>= λ ts. loaded (t ∷ ts)) targets_not_text (
      OnRaised-bind P (target_texts rest) (λ ts. loaded (t ∷ ts)) (target_texts-raised P rest)
        (λ ts _. tt))
target_texts-raised P (cons _ rest) = tt

port_numbers-raised : (P : Type 0) (v : Items) → OnRaised P (port_numbers v)
unfolding port_numbers
port_numbers-raised P nil = tt
port_numbers-raised P (cons (integer p) rest) =
    OnRaised-if P (leb 1 p && leb p 65535) (port_numbers rest >>= λ ps. loaded (p ∷ ps)) bad_port (
      OnRaised-bind P (port_numbers rest) (λ ps. loaded (p ∷ ps)) (port_numbers-raised P rest)
        (λ ps _. tt))
port_numbers-raised P (cons _ rest) = tt

parse_targets-raised : (P : Type 0) (v : Option Toml) → OnRaised P (parse_targets v)
unfolding parse_targets
parse_targets-raised P (some (array (cons v rest))) = target_texts-raised P (cons v rest)
parse_targets-raised P (some (array nil)) = tt
parse_targets-raised P none = tt
parse_targets-raised P _ = tt

parse_ports-raised : (P : Type 0) (v : Option Toml) → OnRaised P (parse_ports v)
unfolding parse_ports
parse_ports-raised P (some (array (cons v rest))) = port_numbers-raised P (cons v rest)
parse_ports-raised P (some (array nil)) = tt
parse_ports-raised P none = tt
parse_ports-raised P _ = tt

scheme_of-raised : (P : Type 0) (v : Option Toml) → OnRaised P (scheme_of v)
unfolding scheme_of
scheme_of-raised P none = tt
scheme_of-raised P (some (text s)) =
    OnRaised-if P (s == "ssh" || s == "ed25519") (loaded s) bad_scheme tt
scheme_of-raised P _ = tt

parse_scheme-raised : (P : Type 0) (v : Option Toml) → OnRaised P (parse_scheme v)
unfolding parse_scheme
parse_scheme-raised P none = tt
parse_scheme-raised P (some (table signature)) = scheme_of-raised P (field_of "scheme" signature)
parse_scheme-raised P _ = tt

validate-raised :
    (py : Platform) (raw : Bytes) (fields : Fields)
    → py.toml_loads raw ≡ some fields
    → OnRaised (IsOutOfRange py raw) (validate py raw fields)
unfolding validate
validate-raised py raw fields h =
    OnRaised-bind R (require_str fields "authorization_id") _
      (require_str-raised R fields "authorization_id")
      λ i hi.
        OnRaised-bind R (require_str fields "operator") _ (require_str-raised R fields "operator")
          λ o ho.
            OnRaised-bind R (parse_expiry py (field_of "expires_at" fields)) _
              (OnRaised-map _ R (parse_expiry py (field_of "expires_at" fields))
                (λ beyond. (
                  fields,
                  h,
                  (i, require_str-given fields "authorization_id" i hi),
                  (o, require_str-given fields "operator" o ho),
                  beyond,
                ))
                (parse_expiry-raised py (field_of "expires_at" fields)))
              λ x _.
                OnRaised-bind R (parse_targets (field_of "targets" fields)) _
                  (parse_targets-raised R (field_of "targets" fields))
                  λ ts _.
                    OnRaised-bind R (parse_ports (field_of "ports" fields)) _
                      (parse_ports-raised R (field_of "ports" fields))
                      λ ps _.
                        OnRaised-bind R (parse_scheme (field_of "signature" fields)) _
                          (parse_scheme-raised R (field_of "signature" fields)) (λ s _. tt)
  where
    R : Type 0
    R = IsOutOfRange py raw

pub load_manifest_raises :
    (py : Platform) (raw : Bytes) → (load_manifest py raw ≡ raised) ↔ IsOutOfRange py raw
unfolding load_manifest validate
load_manifest_raises py raw = (
  λ h. elim (Option-cases (py.toml_loads raw)) [
    | inl e ↦ absurd (cc)
    | inr (fields, e) ↦
        let h' : validate py raw fields ≡ raised = rw (e, load_manifest) at h in
        subst (OnRaised (IsOutOfRange py raw)) h' (validate-raised py raw fields e)
  ],
  λ (fields, ht, (auth, ha), (operator, ho), (stamp, hs, beyond)).
      rw (ht, load_manifest)
        (rw
          (
            require_str-loads fields "authorization_id" auth ha,
            require_str-loads fields "operator" operator ho,
          )
          (rw (parse_expiry-raises py (field_of "expires_at" fields) stamp hs beyond) refl)),
)
