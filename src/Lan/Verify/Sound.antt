-- ===== src/Lan/Verify/Sound.antt =====
-- What must have happened before a manifest counts as verified.
use ianua_broker.Prelude.{
  num_Ord, text_Ord, pair_Ord, list_Ord, refl, inl, inr, true, none, some, num_Eq, text_Eq, pair_Eq,
  option_Eq, list_Eq, String, List, ◌≡◌, Bool-cases, Option, ℕ, arith, ◌⊎◌, num_eq, ◌==◌, ap,
  num_eq_iff,
}
use ianua_broker.Lan.Verify.{
  Tools, check_decoded, check_files, check_result, check_with_key, ssh_result, verify_ed25519,
  verify_manifest, verify_ssh, Checked, PublicKey, Reading, Run, contents, default_verifier,
  ssh_namespace, ed25519_pubkey_for, ended, good, ssh_command, key,
}
use ianua_broker.Lan.Platform.{Bytes}

module _ (tools : Tools) (manifest : Bytes) (signature signers operator : String) where
  -- ssh-keygen was given this manifest, this operator and these two files, and ended with 0.
  abbrev pub SshSigned : Type 0
  SshSigned =
      (stdout : List ℕ) × (stderr : List ℕ) × (tools.run
          (ssh_command signers operator ssh_namespace signature) manifest
        ≡ ended 0 stdout stderr)

  -- The key that the signers file lists for the operator verifies the signature of the manifest.
  pub record Ed25519Signed : Type 0 where
    pub signature_b64 : String
    pub signers_text : String
    pub signature_bytes : Bytes
    pub pubkey : Bytes
    pub signature_read : tools.read signature ≡ contents signature_b64
    pub signers_read : tools.read signers ≡ contents signers_text
    pub decoded : tools.b64decode signature_b64 ≡ some signature_bytes
    pub listed : ed25519_pubkey_for tools operator (tools.line_parts signers_text) ≡ key pubkey
    pub checked : tools.ed25519_verify pubkey signature_bytes manifest ≡ good

  ssh_result-verified :
      (r : Run)
      → (ssh_result r).verified ≡ true
      → (stdout : List ℕ) × (stderr : List ℕ) × (r ≡ ended 0 stdout stderr)
  unfolding ssh_result
  ssh_result-verified (ended n stdout stderr) h = elim (Bool-cases (num_eq n 0)) [
    | inl e ↦ (stdout, stderr, ap (λ m. ended m stdout stderr) ((num_eq_iff n 0).0 e))
    | inr e ↦ absurd (ground (arith, e))
  ]
  ssh_result-verified _ h = absurd (cc)

  verify_ssh-SshSigned :
      (verify_ssh tools ssh_namespace manifest signature signers operator).verified ≡ true
      → SshSigned
  unfolding verify_ssh
  verify_ssh-SshSigned h =
      ssh_result-verified
        (tools.run (ssh_command signers operator ssh_namespace signature) manifest) h

  check_result-verified : (c : Checked) → (check_result c).verified ≡ true → c ≡ good
  unfolding check_result
  check_result-verified good h = refl
  check_result-verified _ h = absurd (cc)

  check_with_key-verified :
      (k : PublicKey) (bytes : Bytes)
      → (check_with_key tools manifest k bytes).verified ≡ true
      → (pubkey : Bytes) × (k ≡ key pubkey) × (tools.ed25519_verify pubkey bytes manifest ≡ good)
  unfolding check_with_key
  check_with_key-verified (key pubkey) bytes h =
      (pubkey, refl, check_result-verified (tools.ed25519_verify pubkey bytes manifest) h)
  check_with_key-verified _ bytes h = absurd (cc)

  check_decoded-verified :
      (decoded : Option Bytes) (k : PublicKey)
      → (check_decoded tools manifest decoded k).verified ≡ true
      → (bytes : Bytes) × (pubkey : Bytes) × (decoded ≡ some bytes)
        × (k ≡ key pubkey)
        × (tools.ed25519_verify pubkey bytes manifest ≡ good)
  unfolding check_decoded
  check_decoded-verified none k h = absurd (cc)
  check_decoded-verified (some bytes) k h =
      let (pubkey, e, checked) = check_with_key-verified k bytes h in
      (bytes, pubkey, refl, e, checked)

  check_files-Ed25519Signed :
      (a b : Reading String)
      → tools.read signature ≡ a
      → tools.read signers ≡ b
      → (check_files tools manifest operator a b).verified ≡ true
      → Ed25519Signed
  unfolding check_files
  check_files-Ed25519Signed (contents b64) (contents listing) ha hb h =
      let (bytes, pubkey, decoded, listed, checked) =
        check_decoded-verified (tools.b64decode b64)
          (ed25519_pubkey_for tools operator (tools.line_parts listing)) h in
      record {
        signature_b64 = b64;
        signers_text = listing;
        signature_bytes = bytes;
        pubkey = pubkey;
        signature_read = ha;
        signers_read = hb;
        decoded = decoded;
        listed = listed;
        checked = checked;
      }
  check_files-Ed25519Signed _ _ ha hb h = absurd (cc)

  verify_ed25519-Ed25519Signed :
      (verify_ed25519 tools manifest signature signers operator).verified ≡ true → Ed25519Signed
  unfolding verify_ed25519
  verify_ed25519-Ed25519Signed h = elim (Bool-cases tools.crypto_installed) [
    | inl e ↦
        check_files-Ed25519Signed (tools.read signature) (tools.read signers) refl refl (rw e at h)
    | inr e ↦ absurd (ground (arith, e))
  ]

  -- With the verifiers of the code, a manifest counts as verified only if its scheme is "ssh" and
  -- ssh-keygen ended with 0 for this manifest, operator and files, or its scheme is "ed25519" and
  -- the key that the signers file lists for the operator verifies the decoded signature over the
  -- bytes of the manifest.
  pub verify_manifest-signed :
      (scheme : String)
      → (verify_manifest tools none scheme manifest
          (some signature)
          (some signers)
          operator).verified
        ≡ true
      → ((scheme ≡ "ssh") × SshSigned) ⊎ ((scheme ≡ "ed25519") × Ed25519Signed)
  unfolding verify_manifest default_verifier
  verify_manifest-signed scheme h = elim (Bool-cases (scheme == "ssh")) [
    | inl e ↦
        let d : default_verifier tools scheme ≡ some (verify_ssh tools ssh_namespace) =
          rw (e, default_verifier) refl in
        inl
          ((text_Eq.beq_iff scheme "ssh").0 e, verify_ssh-SshSigned (rw (d, verify_manifest) at h))
    | inr e ↦ elim (Bool-cases (scheme == "ed25519")) [
      | inl q ↦
          let d : default_verifier tools scheme ≡ some (verify_ed25519 tools) =
            rw (e, q, default_verifier) refl in
          inr (
            (text_Eq.beq_iff scheme "ed25519").0 q,
            verify_ed25519-Ed25519Signed (rw (d, verify_manifest) at h),
          )
      | inr q ↦
          let d : default_verifier tools scheme ≡ none = rw (e, q, default_verifier) refl in
          absurd (cc (rw (d, verify_manifest) at h))
    ]
  ]
