-- ===== src/Lan/Manifest.antt =====
-- src/mcpscan/lan/manifest.py: parsing and validating an authorization manifest. Each message of a
-- ManifestError is a constructor; the values that it shows beside the field are left out.
pub mod Valid
pub mod Raises
use ianua_broker.Prelude.{
  num_Ord, text_Ord, pair_Ord, list_Ord, has_ink, ℕ, ◌+◌, ◌-◌, String, Bool, ◌&&◌, ◌||◌, Option,
  none, some, List, [], ◌∷◌, leb, if◌then◌else◌, ◌==◌, num_Eq, text_Eq, pair_Eq, option_Eq,
}
use ianua_broker.Lan.Platform.{
  Zone, naive, ahead, behind, Toml, text, integer, datetime, array, table, Items, nil, cons, Fields,
  field_of, Bytes, Platform,
}

pub data ManifestError : Type 0 where
  invalid_toml : ManifestError
  empty_field : String → ManifestError
  bad_expiry : String → ManifestError
  expiry_required expiry_naive : ManifestError
  targets_not_array targets_not_text : ManifestError
  ports_not_array bad_port : ManifestError
  signature_not_table bad_scheme : ManifestError

-- A value, a returned error, or the OverflowError that `astimezone` raises near year 1.
pub data Loaded {ℓ} (A : Type ℓ) : Type ℓ where
  loaded : A → Loaded A
  invalid : ManifestError → Loaded A
  raised : Loaded A

infixl 10 ◌>>=◌
abbrev pub ◌>>=◌ {ℓ κ} : {A : Type ℓ} {B : Type κ} → Loaded A → (A → Loaded B) → Loaded B
loaded a >>= f = f a
invalid e >>= f = invalid e
raised >>= f = raised

pub record Manifest : Type 0 where
  pub authorization_id : String
  pub operator : String
  pub expires_at : ℕ
  pub targets : List String
  pub ports : List ℕ
  pub signature_scheme : String
  pub sha256 : String

unfoldable pub is_expired : Manifest → ℕ → Bool
is_expired manifest now = leb manifest.expires_at now

unfoldable pub require_str : Fields → String → Loaded String
unfolding field_of
require_str fields key = elim (field_of key fields) [
  | some (text value) ↦ if has_ink value then loaded value else invalid (empty_field key)
  | _ ↦ invalid (empty_field key)
]

-- `datetime.max` in microseconds
abbrev pub last_moment : ℕ
last_moment = 315_537_897_600_000_000 - 1

-- `dt.astimezone(UTC)` of an aware datetime
unfoldable pub to_utc : ℕ → Zone → Loaded ℕ
to_utc wall naive = invalid expiry_naive
to_utc wall (ahead offset) = if leb offset wall then loaded (wall - offset) else raised
to_utc wall (behind offset) =
    if leb (wall + offset) last_moment then loaded (wall + offset) else raised

unfoldable pub parse_expiry : Platform → Option Toml → Loaded ℕ
unfolding to_utc
parse_expiry py value = elim value [
  | some (datetime dt) ↦ to_utc dt.wall dt.zone
  | some (text s) ↦ elim (py.fromisoformat s) [
    | none ↦ invalid (bad_expiry s)
    | some dt ↦ to_utc dt.wall dt.zone
  ]
  | _ ↦ invalid expiry_required
]

-- `all(isinstance(t, str) and t.strip() for t in value)`, and the tuple of the texts
unfoldable pub target_texts : Items → Loaded (List String)
target_texts nil = loaded []
target_texts (cons (text t) rest) =
    let more = target_texts rest in
    if has_ink t then (more >>= λ ts. loaded (t ∷ ts)) else invalid targets_not_text
target_texts (cons _ rest) = invalid targets_not_text

unfoldable pub parse_targets : Option Toml → Loaded (List String)
unfolding target_texts
parse_targets (some (array (cons v rest))) = target_texts (cons v rest)
parse_targets _ = invalid targets_not_array

unfoldable pub port_numbers : Items → Loaded (List ℕ)
port_numbers nil = loaded []
port_numbers (cons (integer p) rest) =
    let more = port_numbers rest in
    if leb 1 p && leb p 65535 then (more >>= λ ps. loaded (p ∷ ps)) else invalid bad_port
port_numbers (cons _ rest) = invalid bad_port

unfoldable pub parse_ports : Option Toml → Loaded (List ℕ)
unfolding port_numbers
parse_ports (some (array (cons v rest))) = port_numbers (cons v rest)
parse_ports _ = invalid ports_not_array

-- `signature.get("scheme", "ssh")`, which must be in `_VALID_SCHEMES`
unfoldable pub scheme_of : Option Toml → Loaded String
scheme_of none = loaded "ssh"
scheme_of (some (text s)) = if s == "ssh" || s == "ed25519" then loaded s else invalid bad_scheme
scheme_of _ = invalid bad_scheme

unfoldable pub parse_scheme : Option Toml → Loaded String
unfolding scheme_of field_of
parse_scheme none = loaded "ssh"
parse_scheme (some (table signature)) = scheme_of (field_of "scheme" signature)
parse_scheme _ = invalid signature_not_table

unfoldable pub validate : Platform → Bytes → Fields → Loaded Manifest
unfolding require_str parse_expiry parse_targets parse_ports parse_scheme field_of
validate py raw fields = do
  auth_id ← require_str fields "authorization_id"
  operator ← require_str fields "operator"
  expires_at ← parse_expiry py (field_of "expires_at" fields)
  targets ← parse_targets (field_of "targets" fields)
  ports ← parse_ports (field_of "ports" fields)
  scheme ← parse_scheme (field_of "signature" fields)
  loaded (record {
    authorization_id = auth_id;
    operator = operator;
    expires_at = expires_at;
    targets = targets;
    ports = ports;
    signature_scheme = scheme;
    sha256 = py.sha256 raw;
  })

unfoldable pub load_manifest : Platform → Bytes → Loaded Manifest
unfolding validate
load_manifest py raw = elim (py.toml_loads raw) [
  | none ↦ invalid invalid_toml
  | some fields ↦ validate py raw fields
]
