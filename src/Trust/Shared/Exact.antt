-- ===== src/Trust/Shared/Exact.antt =====
-- A profile is told of a shared credential exactly when another subject holds the same one.
use ianua_broker.Prelude.{
  num_Ord, text_Ord, pair_Ord, list_Ord, refl, inl, inr, true, false, some, [], ◌∷◌, num_Eq,
  text_Eq, pair_Eq, option_Eq, list_Eq, String, Dict, List, Bool, contains, any, ◌==◌, ◌≡◌, ◌&&◌,
  ◌||◌, arith, ap, ◌∙◌, All, NoRepeats, get, keys, map, values, Bool-cases, NoRepeats-put, ◌↔◌, Eq,
  if◌then◌else◌, not, sym, All-get, is_empty, contains-add_member, inl, inr, concat, decimal,
  length, ◌++◌, ◌⊎◌,
}
use ianua_broker.Trust.Shared.{
  FingerprintKey, add_holder, add_holders, holders_from, members_at, fingerprint_key, add_member,
  apply_shared_credentials, share_profile, peers_of, or_empty, shared_credential,
}
use ianua_broker.Domain.{SecretFingerprint}
use ianua_broker.Trust.Model.{TrustProfile, RiskRelationship, secret_access}
use ianua_broker.Trust.Shared.Peers.{members_at-put, shares_group, contains-peers_from}

abbrev key_Eq : Eq FingerprintKey
key_Eq = pair_Eq

abbrev pub holds : FingerprintKey → String → Dict String (List SecretFingerprint) → Bool
holds key s fingerprints =
    any
      (λ (p : String × List SecretFingerprint).
        p.0 == s && any (λ (fp : SecretFingerprint). fingerprint_key fp == key) p.1)
      fingerprints

contains-add_holder :
    (key : FingerprintKey) (s subject : String) (fp : SecretFingerprint)
    (holders : Dict FingerprintKey (List String))
    → contains s (members_at key (add_holder subject fp holders))
      ≡ (contains s (members_at key holders) || (subject == s && fingerprint_key fp == key))
unfolding add_holder
contains-add_holder key s subject fp holders =
    ap (contains s) (
      members_at-put (fingerprint_key fp) key
        (add_member subject (members_at (fingerprint_key fp) holders)) holders)
    ∙ elim (Bool-cases (fingerprint_key fp == key)) [
      | inl q ↦ rw q (
          contains-add_member s subject (members_at (fingerprint_key fp) holders)
          ∙ rw ((key_Eq.beq_iff (fingerprint_key fp) key).0 q) (ground arith))
      | inr q ↦ rw q (ground arith)
    ]

contains-add_holders :
    (key : FingerprintKey) (s subject : String) (fps : List SecretFingerprint)
    (holders : Dict FingerprintKey (List String))
    → contains s (members_at key (add_holders subject fps holders)) ≡ (
        contains s (members_at key holders)
        || (subject == s && any (λ (fp : SecretFingerprint). fingerprint_key fp == key) fps))
unfolding add_holders
contains-add_holders key s subject [] holders = ground arith
contains-add_holders key s subject (fp ∷ fps) holders =
    contains-add_holders key s subject fps (add_holder subject fp holders)
    ∙ rw (contains-add_holder key s subject fp holders) (ground arith)

-- The members of the group of a key are the subjects that hold it.
contains-holders_from :
    (key : FingerprintKey) (s : String) (fingerprints : Dict String (List SecretFingerprint))
    (holders : Dict FingerprintKey (List String))
    → contains s (members_at key (holders_from fingerprints holders))
      ≡ (contains s (members_at key holders) || holds key s fingerprints)
unfolding holders_from
contains-holders_from key s [] holders = ground arith
contains-holders_from key s ((subject, fps) ∷ rest) holders =
    contains-holders_from key s rest (add_holders subject fps holders)
    ∙ rw (contains-add_holders key s subject fps holders) (ground arith)

NoRepeats-add_holders :
    (subject : String) (fps : List SecretFingerprint) (holders : Dict FingerprintKey (List String))
    → NoRepeats (keys holders)
    → NoRepeats (keys (add_holders subject fps holders))
unfolding add_holders add_holder
NoRepeats-add_holders subject [] holders h = h
NoRepeats-add_holders subject (fp ∷ fps) holders h =
    NoRepeats-add_holders subject fps (add_holder subject fp holders) (
      NoRepeats-put (fingerprint_key fp)
        (add_member subject (members_at (fingerprint_key fp) holders)) holders h)

NoRepeats-holders_from :
    (fingerprints : Dict String (List SecretFingerprint))
    (holders : Dict FingerprintKey (List String))
    → NoRepeats (keys holders)
    → NoRepeats (keys (holders_from fingerprints holders))
unfolding holders_from
NoRepeats-holders_from [] holders h = h
NoRepeats-holders_from ((subject, fps) ∷ rest) holders h =
    NoRepeats-holders_from rest (add_holders subject fps holders)
      (NoRepeats-add_holders subject fps holders h)

any-witness {ℓ κ μ} :
    {A : Type ℓ} {B : Type κ} (P : A → Type μ) (p : B → Bool) (f : A → B) (xs : List A)
    → All P xs
    → any p (map f xs) ≡ true
    → (x : A) × P x × (p (f x) ≡ true)
any-witness P p f [] h q = cc
any-witness P p f (x ∷ xs) h q = elim (Bool-cases (p (f x))) [
  | inl e ↦ (x, h.0, e)
  | inr e ↦ any-witness P p f xs h.1 (rw e at q)
]

any-values :
    (p : List String → Bool) (key : FingerprintKey) (d : Dict FingerprintKey (List String))
    → p [] ≡ false
    → p (members_at key d) ≡ true
    → any p (values d) ≡ true
unfolding members_at get
any-values p key [] h q = cc
any-values p key ((k, members) ∷ d) h q = elim (Bool-cases (k == key)) [
  | inl e ↦ ground (arith, rw e at q)
  | inr e ↦ ground (arith, any-values p key d h (rw e at q))
]

contains-peers_of :
    (s t : String) (fingerprints : Dict String (List SecretFingerprint))
    → contains t (members_at s (peers_of fingerprints))
      ≡ shares_group s t (values (holders_from fingerprints []))
unfolding peers_of
contains-peers_of s t fingerprints =
    contains-peers_from s t (values (holders_from fingerprints [])) []

contains-holders :
    (key : FingerprintKey) (s : String) (fingerprints : Dict String (List SecretFingerprint))
    → contains s (members_at key (holders_from fingerprints [])) ≡ holds key s fingerprints
unfolding members_at
contains-holders key s fingerprints = contains-holders_from key s fingerprints []

-- Both are in the group, and they differ.
abbrev both_in : String → String → List String → Bool
both_in s t group = contains s group && (contains t group && not (t == s))

both_in-true :
    (s t : String) (group : List String)
    → both_in s t group ≡ true
    → (contains s group ≡ true) × (contains t group ≡ true) × ((t == s) ≡ false)
both_in-true s t group h = ground arith

both_in-of :
    (s t : String) (group : List String)
    → contains s group ≡ true
    → contains t group ≡ true
    → (t == s) ≡ false
    → both_in s t group ≡ true
both_in-of s t group h k n = ground arith

shared_key :
    (s t : String) (fingerprints : Dict String (List SecretFingerprint))
    → shares_group s t (values (holders_from fingerprints [])) ≡ true
    → (key : FingerprintKey) × (holds key s fingerprints ≡ true)
      × (holds key t fingerprints ≡ true)
      × ((t == s) ≡ false)
shared_key s t fingerprints h = go (
    any-witness (λ (p : FingerprintKey × List String). get p.0 d ≡ some p.1) (both_in s t)
      (λ (p : FingerprintKey × List String). p.1) d
      (All-get d (NoRepeats-holders_from fingerprints [] tt)) h)
  where
    d : Dict FingerprintKey (List String)
    d = holders_from fingerprints []

    go :
        ((p : FingerprintKey × List String) × (get p.0 d ≡ some p.1) × (both_in s t p.1 ≡ true))
        → (key : FingerprintKey) × (holds key s fingerprints ≡ true)
          × (holds key t fingerprints ≡ true)
          × ((t == s) ≡ false)
    go ((key, group), e, both) =
        let same : members_at key d ≡ group = unfold members_at in ap or_empty e in
        let test = both_in-true s t group both in
        (
          key,
          sym (contains-holders key s fingerprints) ∙ ap (contains s) same ∙ test.0,
          sym (contains-holders key t fingerprints) ∙ ap (contains t) same ∙ test.1,
          test.2,
        )

peers_share :
    (s t : String) (fingerprints : Dict String (List SecretFingerprint)) (key : FingerprintKey)
    → holds key s fingerprints ≡ true
    → holds key t fingerprints ≡ true
    → (t == s) ≡ false
    → shares_group s t (values (holders_from fingerprints [])) ≡ true
peers_share s t fingerprints key hs ht n =
    any-values (both_in s t) key (holders_from fingerprints []) refl (
      both_in-of s t (members_at key (holders_from fingerprints []))
        (contains-holders key s fingerprints ∙ hs) (contains-holders key t fingerprints ∙ ht) n)

map_share-empty : (profiles : List TrustProfile) → map (share_profile []) profiles ≡ profiles
unfolding share_profile members_at get
map_share-empty [] = refl
map_share-empty (p ∷ profiles) = ap (λ ps. p ∷ ps) (map_share-empty profiles)

apply_shared_credentials-map :
    (profiles : List TrustProfile) (fingerprints : Dict String (List SecretFingerprint))
    → apply_shared_credentials profiles fingerprints
      ≡ map (share_profile (peers_of fingerprints)) profiles
unfolding apply_shared_credentials
apply_shared_credentials-map profiles fingerprints = go (peers_of fingerprints)
  where
    go :
        (peers : Dict String (List String))
        → (if is_empty peers then profiles else map (share_profile peers) profiles)
          ≡ map (share_profile peers) profiles
    go [] = sym (map_share-empty profiles)
    go (p ∷ peers) = refl

-- Another subject holds a credential that this one holds.
abbrev pub HoldsShared : Dict String (List SecretFingerprint) → String → Type 0
HoldsShared fingerprints s =
    (t : String) × (key : FingerprintKey) × (holds key s fingerprints ≡ true)
    × (holds key t fingerprints ≡ true)
    × ((t == s) ≡ false)

abbrev pub IsWarned : Dict String (List String) → TrustProfile → TrustProfile → Type 0
IsWarned peers p q =
    (r : RiskRelationship) × (q.relationships ≡ p.relationships ++ r ∷ [])
    × (r.id ≡ "SHARED-CREDENTIAL")
    × (r.factors ≡ secret_access ∷ [])
    × (r.rationale
        ≡ concat (
            "Shared credential blast radius: this tool shares a credential with "
            ∷ decimal (length (members_at p.subject peers))
            ∷ " other tool(s); compromising one exposes all."
            ∷ []))

-- The profile `q` is `p` with the warning of a shared credential where that is due: the warning
-- counts the other subjects, is put after the relationships of `p`, and changes nothing else.
pub record IsTold (fingerprints : Dict String (List SecretFingerprint)) (p q : TrustProfile)
    : Type 0 where
  pub same_subject : q.subject ≡ p.subject
  pub same_score : q.score ≡ p.score
  pub same_grade : q.grade ≡ p.grade
  pub same_factors : q.factors ≡ p.factors
  pub same_server : q.server_name ≡ p.server_name
  pub same_host : q.host ≡ p.host
  pub same_location : q.location ≡ p.location
  pub warned :
      (HoldsShared fingerprints p.subject × IsWarned (peers_of fingerprints) p q)
      ⊎ ((¬ HoldsShared fingerprints p.subject) × (q ≡ p))

abbrev IsPeer : String → String → Dict String (List SecretFingerprint) → Type 0
IsPeer s t fingerprints = (contains t (members_at s (peers_of fingerprints)) ≡ true) ↔ (
    (key : FingerprintKey) × (holds key s fingerprints ≡ true)
    × (holds key t fingerprints ≡ true)
    × ((t == s) ≡ false))

contains-peers_exact :
    (fingerprints : Dict String (List SecretFingerprint)) (s t : String) → IsPeer s t fingerprints
contains-peers_exact fingerprints s t = (
  λ h. shared_key s t fingerprints (sym (contains-peers_of s t fingerprints) ∙ h),
  λ (key, hs, ht, n). contains-peers_of s t fingerprints ∙ peers_share s t fingerprints key hs ht n,
)

contains-head : (t : String) (ts : List String) → contains t (t ∷ ts) ≡ true
contains-head t ts = ground (arith, text_Eq.beq_iff t t)

-- The list of peers is empty exactly where nothing is shared.
HoldsShared-cases :
    (fingerprints : Dict String (List SecretFingerprint)) (s : String)
    → ((members_at s (peers_of fingerprints) ≡ []) × (¬ HoldsShared fingerprints s))
      ⊎ ((is_empty (members_at s (peers_of fingerprints)) ≡ false) × HoldsShared fingerprints s)
HoldsShared-cases fingerprints s =
    go (members_at s (peers_of fingerprints)) (contains-peers_exact fingerprints s)
  where
    shared_by :
        (t : String)
        → ((key : FingerprintKey) × (holds key s fingerprints ≡ true)
            × (holds key t fingerprints ≡ true)
            × ((t == s) ≡ false))
        → HoldsShared fingerprints s
    shared_by t (key, hs, ht, n) = (t, key, hs, ht, n)

    go :
        (others : List String)
        → ((t : String)
            → (contains t others ≡ true) ↔ (
                (key : FingerprintKey) × (holds key s fingerprints ≡ true)
                × (holds key t fingerprints ≡ true)
                × ((t == s) ≡ false)))
        → ((others ≡ []) × (¬ HoldsShared fingerprints s))
          ⊎ ((is_empty others ≡ false) × HoldsShared fingerprints s)
    go [] h = inl (refl, λ (t, key, hs, ht, n). absurd (cc ((h t).1 (key, hs, ht, n))))
    go (t ∷ ts) h = inr (refl, shared_by t ((h t).0 (contains-head t ts)))

share_profile-IsTold :
    (fingerprints : Dict String (List SecretFingerprint)) (p : TrustProfile)
    → IsTold fingerprints p (share_profile (peers_of fingerprints) p)
unfolding share_profile shared_credential
share_profile-IsTold fingerprints p = elim (HoldsShared-cases fingerprints p.subject) [
  | inl (e, none_shared) ↦
      rw (e, share_profile)
        (record {
          same_subject = refl;
          same_score = refl;
          same_grade = refl;
          same_factors = refl;
          same_server = refl;
          same_host = refl;
          same_location = refl;
          warned = inr (none_shared, refl);
        })
  | inr (e, shared) ↦
      rw (e, share_profile)
        (record {
          same_subject = refl;
          same_score = refl;
          same_grade = refl;
          same_factors = refl;
          same_server = refl;
          same_host = refl;
          same_location = refl;
          warned = inl (
            shared,
            (
              shared_credential (length (members_at p.subject (peers_of fingerprints))),
              refl,
              refl,
              refl,
              refl,
            ),
          );
        })
]

pub apply_shared_credentials_exact :
    (profiles : List TrustProfile) (fingerprints : Dict String (List SecretFingerprint))
    → (apply_shared_credentials profiles fingerprints
        ≡ map (share_profile (peers_of fingerprints)) profiles)
      × ((s t : String)
          → (contains t (members_at s (peers_of fingerprints)) ≡ true) ↔ (
              (key : FingerprintKey) × (holds key s fingerprints ≡ true)
              × (holds key t fingerprints ≡ true)
              × ((t == s) ≡ false)))
      × ((p : TrustProfile) → IsTold fingerprints p (share_profile (peers_of fingerprints) p))
apply_shared_credentials_exact profiles fingerprints = (
  apply_shared_credentials-map profiles fingerprints,
  contains-peers_exact fingerprints,
  share_profile-IsTold fingerprints,
)
