-- ===== src/Drift/Baseline/Verified.antt =====
-- What a baseline that was read stands for.
use mathlib.Core.Option
use ianua_broker.Json.{
  object, array, Json, Fields, field_of, parsed, JsonTools, Decoded, Decoded, array,
}
use ianua_broker.Drift.Model.{PostureFact, Snapshot}
use ianua_broker.Drift.Baseline.{
  ok, failed, check_digest, Read, is_text, load_verified_baseline, read_baseline, read_facts_field,
  load_decoded, read_facts, default_baseline_verifier,
}
use ianua_broker.Prelude.{
  num_Ord, text_Ord, pair_Ord, list_Ord, inl, inr, true, none, some, text_Eq, num_Eq, pair_Eq,
  option_Eq, list_Eq, Option, List, ◌≡◌, Bool-cases, Option-cases, inl, inr, sym, String, ◌==◌,
  ◌||◌,
}
use ianua_broker.Drift.Snapshot.{snapshot_digest, drift_schema_version}
use ianua_broker.Lan.Verify.{Verifier, Tools}
use ianua_broker.Lan.Platform.{Bytes}

module _ (tools : JsonTools) where
  -- The loaded document has the stored digest.
  abbrev pub stored_digest : Decoded → Option Json
  stored_digest (parsed (object document)) = field_of "digest" document
  stored_digest _ = none

  check_digest-same :
      (stored : Option Json) (facts : Read (List PostureFact)) (snapshot : Snapshot)
      → check_digest tools true stored facts ≡ ok snapshot
      → is_text tools (snapshot_digest tools snapshot) stored ≡ true
  unfolding check_digest
  check_digest-same stored (failed e) snapshot h = absurd (cc (h))
  check_digest-same stored (ok facts) snapshot h =
      let read : Snapshot = record { schema_version = drift_schema_version; facts = facts } in
      elim (Bool-cases (is_text tools (snapshot_digest tools read) stored)) [
        | inl same_text ↦
            let same : ok read ≡ ok snapshot = rw same_text at h in
            let this : read ≡ snapshot = cc (same) in rw (sym this) same_text
        | inr apart ↦ absurd (cc (rw apart at h))
      ]

  read_facts_field-same :
      (document : Fields) (facts : Option Json) (snapshot : Snapshot)
      → read_facts_field tools true document facts ≡ ok snapshot
      → is_text tools (snapshot_digest tools snapshot) (field_of "digest" document) ≡ true
  unfolding read_facts_field
  read_facts_field-same document (some (array items)) snapshot h =
      check_digest-same (field_of "digest" document) (read_facts tools items) snapshot h
  read_facts_field-same document _ snapshot h = absurd (cc (h))

  read_baseline-same :
      (loaded : Decoded) (snapshot : Snapshot)
      → read_baseline tools true loaded ≡ ok snapshot
      → is_text tools (snapshot_digest tools snapshot) (stored_digest loaded) ≡ true
  unfolding read_baseline
  read_baseline-same (parsed (object document)) snapshot h =
      elim (Bool-cases (is_text tools drift_schema_version (field_of "schema_version" document))) [
        | inl same_text ↦
            read_facts_field-same document (field_of "facts" document) snapshot (rw same_text at h)
        | inr apart ↦ absurd (cc (rw apart at h))
      ]
  read_baseline-same _ snapshot h = absurd (cc (h))

-- What stands behind a snapshot that `load_verified_baseline` returned.
pub record IsVouched (tools : JsonTools) (verify : Verifier) (decode : Bytes → Option String)
    (baseline : Bytes) (signature_path allowed_signers operator scheme : String)
    (snapshot : Snapshot) : Type 0 where
  pub known_scheme : (scheme == "ssh" || scheme == "ed25519") ≡ true
  pub signed : (verify baseline signature_path allowed_signers operator).verified ≡ true
  pub content : String
  pub decoded : decode baseline ≡ some content
  pub intact :
      is_text tools (snapshot_digest tools snapshot) (stored_digest tools (tools.loads content))
      ≡ true

-- A snapshot is returned only if the scheme is known, the verifier accepted a signature over exactly
-- the bytes of the baseline, those bytes are the text that was parsed, and the digest stored there is
-- that of the facts of the snapshot.
pub load_verified_baseline-IsVouched :
    (tools : JsonTools) (verify_tools : Tools) (decode : Bytes → Option String) (baseline : Bytes)
    (signature_path allowed_signers operator scheme : String) (verifier : Option Verifier)
    (snapshot : Snapshot)
    → load_verified_baseline tools verify_tools decode baseline signature_path allowed_signers
        operator scheme verifier
      ≡ ok snapshot
    → IsVouched tools
        (Option.get_or verifier (default_baseline_verifier verify_tools scheme))
        decode
        baseline
        signature_path
        allowed_signers
        operator
        scheme
        snapshot
unfolding load_verified_baseline load_decoded
load_verified_baseline-IsVouched tools verify_tools decode baseline signature_path allowed_signers
      operator scheme verifier snapshot h =
    let verify = Option.get_or verifier (default_baseline_verifier verify_tools scheme) in
    elim (Bool-cases (scheme == "ssh" || scheme == "ed25519")) [
      | inl known ↦
          let h1 = rw known at h in
          elim (Bool-cases (verify baseline signature_path allowed_signers operator).verified) [
            | inl signed ↦
                let h2 = rw signed at h1 in
                elim (Option-cases (decode baseline)) [
                  | inl e ↦ absurd (cc (rw e at h2))
                  | inr (content, e) ↦ record {
                    known_scheme = known;
                    signed = signed;
                    content = content;
                    decoded = e;
                    intact = read_baseline-same tools (tools.loads content) snapshot (rw e at h2);
                  }
                ]
            | inr refused ↦ absurd (cc (rw refused at h1))
          ]
      | inr unknown ↦ absurd (cc (rw unknown at h))
    ]
