-- ===== src/Trust/Shared.antt =====
-- src/mcpscan/trust/analyze.py: one credential in the environments of several servers. A set is a
-- list in which a member is put once, and is read by its members and its length only.
pub mod Peers
pub mod Exact
use ianua_broker.Prelude.{
  num_Ord, text_Ord, pair_Ord, list_Ord, num_Eq, text_Eq, pair_Eq, option_Eq, list_Eq, Dict, List,
  String, concat, get, put, Eq, decimal, if◌then◌else◌, select, ℕ, ◌∷◌, contains, is_empty, ltb,
  not, values, [], length, ◌++◌, ◌==◌, map, none, some, Option, add_member, add_members,
}
use ianua_broker.Domain.{SecretFingerprint, Finding}
use ianua_broker.Trust.Model.{TrustProfile, RiskRelationship, secret_access}
use ianua_broker.Trust.Factors.{ServerChecks}
use ianua_broker.Trust.Profiles.{ParsedConfig, subject_of}
use ianua_broker.Checks.ToolScope.{ServerDecl}

abbrev pub FingerprintKey : Type 0
FingerprintKey = String × ℕ

abbrev pub fingerprint_key : SecretFingerprint → FingerprintKey
fingerprint_key fp = (fp.sha256_8, fp.length)

abbrev pub or_empty : Option (List String) → List String
or_empty none = []
or_empty (some members) = members

-- d.get(key) or set()
unfoldable pub members_at {ℓ} : {K : Type ℓ} ⦃e : Eq K⦄ → K → Dict K (List String) → List String
unfolding get
members_at key d = or_empty (get key d)

-- holders.setdefault(key, set()).add(subject)
unfoldable pub add_holder :
    String
    → SecretFingerprint
    → Dict FingerprintKey (List String)
    → Dict FingerprintKey (List String)
unfolding put members_at add_member
add_holder subject fp holders =
    put (fingerprint_key fp) (add_member subject (members_at (fingerprint_key fp) holders)) holders

unfoldable pub add_holders :
    String
    → List SecretFingerprint
    → Dict FingerprintKey (List String)
    → Dict FingerprintKey (List String)
unfolding add_holder
add_holders subject [] holders = holders
add_holders subject (fp ∷ fps) holders = add_holders subject fps (add_holder subject fp holders)

unfoldable pub holders_from :
    Dict String (List SecretFingerprint)
    → Dict FingerprintKey (List String)
    → Dict FingerprintKey (List String)
unfolding add_holders
holders_from [] holders = holders
holders_from ((subject, fps) ∷ rest) holders = holders_from rest (add_holders subject fps holders)

abbrev pub others_than : String → List String → List String
others_than subject subjects = select (λ s. not (s == subject)) subjects

-- `for subject in subjects: peers.setdefault(subject, set()).update(subjects - {subject})`
unfoldable pub add_peers :
    List String → List String → Dict String (List String) → Dict String (List String)
unfolding put members_at add_members
add_peers subjects [] peers = peers
add_peers subjects (subject ∷ rest) peers =
    add_peers subjects rest
      (put subject (add_members (others_than subject subjects) (members_at subject peers)) peers)

unfoldable pub peers_from :
    List (List String) → Dict String (List String) → Dict String (List String)
unfolding add_peers
peers_from [] peers = peers
peers_from (subjects ∷ rest) peers =
    peers_from rest (if ltb (length subjects) 2 then peers else add_peers subjects subjects peers)

unfoldable pub shared_credential : ℕ → RiskRelationship
unfolding concat decimal
shared_credential n = record {
  id = "SHARED-CREDENTIAL";
  title = "Shared credential blast radius";
  rationale = concat (
      "Shared credential blast radius: this tool shares a credential with "
      ∷ decimal n
      ∷ " other tool(s); compromising one exposes all."
      ∷ []);
  factors = secret_access ∷ [];
}

unfoldable pub share_profile : Dict String (List String) → TrustProfile → TrustProfile
unfolding members_at shared_credential
share_profile peers profile =
    let others = members_at profile.subject peers in
    if is_empty others then profile else record {
      subject = profile.subject;
      server_name = profile.server_name;
      host = profile.host;
      location = profile.location;
      score = profile.score;
      grade = profile.grade;
      factors = profile.factors;
      relationships = profile.relationships ++ shared_credential (length others) ∷ [];
    }

-- the sets `peers` of every subject
unfoldable pub peers_of : Dict String (List SecretFingerprint) → Dict String (List String)
unfolding holders_from peers_from
peers_of fingerprints = peers_from (values (holders_from fingerprints [])) []

unfoldable pub apply_shared_credentials :
    List TrustProfile → Dict String (List SecretFingerprint) → List TrustProfile
unfolding peers_of share_profile
apply_shared_credentials profiles fingerprints =
    let peers = peers_of fingerprints in
    if is_empty peers then profiles else map (share_profile peers) profiles

-- `f.secret for f in findings if f.secret is not None`
unfoldable pub secrets_of : List Finding → List SecretFingerprint
secrets_of [] = []
secrets_of (f ∷ rest) =
    let later = secrets_of rest in elim f.secret [ none ↦ later | some secret ↦ secret ∷ later ]

module _ (checks : ServerChecks) where
  unfoldable pub fingerprints_from :
      String
      → List ServerDecl
      → Dict String (List SecretFingerprint)
      → Dict String (List SecretFingerprint)
  unfolding put secrets_of subject_of
  fingerprints_from path [] out = out
  fingerprints_from path (server ∷ rest) out =
      let fingerprints = secrets_of (checks.check_server_env server path) in
      fingerprints_from path rest
        (if is_empty fingerprints then out else put (subject_of path server) fingerprints out)

  unfoldable pub config_credential_fingerprints :
      ParsedConfig → Dict String (List SecretFingerprint)
  unfolding fingerprints_from
  config_credential_fingerprints config = fingerprints_from config.path config.servers []
