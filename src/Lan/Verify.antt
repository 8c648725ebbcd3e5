-- ===== src/Lan/Verify.antt =====
-- src/mcpscan/lan/verify.py: the dispatch on the signature scheme, which fails closed, and the two
-- verifiers. ssh-keygen, base64, the cryptography package and the file reads are parameters. A file
-- of signers that is not UTF-8, which raises an error that the code lets through, is left out.
pub mod Sound
use ianua_broker.Prelude.{
  num_Ord, text_Ord, pair_Ord, list_Ord, codes, starts_with, ℕ, String, Bool, true, false, not,
  ◌&&◌, Option, none, some, List, [], ◌∷◌, num_eq, if◌then◌else◌, ◌==◌, num_Eq, text_Eq, pair_Eq,
  option_Eq, is_empty,
}
use mathlib.Core.Option
use ianua_broker.Lan.Platform.{Bytes}
use ianua_broker.Lan.Sanitize.{sanitize_remote}

-- A detail is the fixed part of its message, and a remote part as code points.
pub record VerifyResult : Type 0 where
  pub verified : Bool
  pub detail : String
  pub remote : List ℕ

abbrev pub accept : String → VerifyResult
accept detail = record { verified = true; detail = detail; remote = [] }

abbrev pub reject : String → VerifyResult
reject detail = record { verified = false; detail = detail; remote = [] }

abbrev pub Verifier : Type 0
Verifier = Bytes → String → String → String → VerifyResult

-- subprocess.run: the program is missing, it could not run, or it ended.
pub data Run : Type 0 where
  not_found could_not_run : Run
  ended : (returncode : ℕ) (stdout stderr : List ℕ) → Run

-- signature_path.read_bytes() and allowed_signers.read_text()
pub data Reading {ℓ} (A : Type ℓ) : Type ℓ where
  contents : A → Reading A
  os_error : Reading A

pub data Checked : Type 0 where
  good invalid_signature wrong_length : Checked

pub record Tools : Type 0 where
  -- the argument vector, and what is written to standard input
  pub run : List String → Bytes → Run
  pub crypto_installed : Bool
  pub read : String → Reading String
  -- base64.b64decode(text, validate=True)
  pub b64decode : String → Option Bytes
  -- the lines of a text, each stripped and split at white space; an empty one has no parts
  pub line_parts : String → List (List String)
  -- Ed25519PublicKey.from_public_bytes(key).verify(signature, message)
  pub ed25519_verify : Bytes → Bytes → Bytes → Checked

abbrev pub ssh_namespace : String
ssh_namespace = "mcpscan-lan"

abbrev pub ssh_command : String → String → String → String → List String
ssh_command allowed_signers operator namespace signature_path =
    "ssh-keygen" ∷ "-Y" ∷ "verify" ∷ "-f" ∷ allowed_signers ∷ "-I" ∷ operator ∷ "-n" ∷ namespace
    ∷ "-s" ∷ signature_path ∷ []

-- proc.stderr or proc.stdout or b"verification failed"
abbrev pub first_output : List ℕ → List ℕ → List ℕ
first_output stdout stderr =
    if not (is_empty stderr)
    then stderr
    else if not (is_empty stdout)
    then stdout
    else codes "verification failed"

unfoldable pub ssh_result : Run → VerifyResult
unfolding sanitize_remote
ssh_result not_found = reject "ssh-keygen not found; install OpenSSH to use the 'ssh' scheme"
ssh_result could_not_run = reject "signature verification could not run"
ssh_result (ended returncode stdout stderr) =
    if num_eq returncode 0 then accept "signature verified (ssh)" else record {
      verified = false;
      detail = "signature rejected";
      remote = sanitize_remote 160 (first_output stdout stderr);
    }

unfoldable pub verify_ssh : Tools → String → Verifier
unfolding ssh_result
verify_ssh tools namespace manifest signature_path allowed_signers operator =
    ssh_result (tools.run (ssh_command allowed_signers operator namespace signature_path) manifest)

pub data PublicKey : Type 0 where
  key : Bytes → PublicKey
  malformed missing : PublicKey

-- The loop over the lines: the first that names the operator decides. A comment's first part
-- starts with "#".
unfoldable pub ed25519_pubkey_for : Tools → String → List (List String) → PublicKey
ed25519_pubkey_for tools operator [] = missing
ed25519_pubkey_for tools operator ((name ∷ encoded ∷ more) ∷ rest) =
    let later = ed25519_pubkey_for tools operator rest in
    if not (starts_with name "#") && name == operator
    then (elim (tools.b64decode encoded) [ none ↦ malformed | some raw ↦ key raw ])
    else later
ed25519_pubkey_for tools operator (_ ∷ rest) = ed25519_pubkey_for tools operator rest

unfoldable pub check_result : Checked → VerifyResult
check_result good = accept "signature verified (ed25519)"
check_result invalid_signature = reject "signature rejected: ed25519 verification failed"
check_result wrong_length = reject "ed25519 verification error"

module _ (tools : Tools) (manifest : Bytes) where
  unfoldable pub check_with_key : PublicKey → Bytes → VerifyResult
  unfolding check_result
  check_with_key malformed signature = reject "malformed ed25519 public key"
  check_with_key missing signature = reject "no ed25519 public key in allowed-signers"
  check_with_key (key pubkey) signature =
      check_result (tools.ed25519_verify pubkey signature manifest)

  -- `none` is a signature that is no base64; the key is looked up after it is decoded.
  unfoldable pub check_decoded : Option Bytes → PublicKey → VerifyResult
  unfolding check_with_key
  check_decoded none pubkey = reject "ed25519 signature is not valid base64"
  check_decoded (some signature) pubkey = check_with_key pubkey signature

  unfoldable pub check_files : String → Reading String → Reading String → VerifyResult
  unfolding check_decoded ed25519_pubkey_for
  check_files operator (contents signature_b64) (contents signers_text) =
      check_decoded (tools.b64decode signature_b64)
        (ed25519_pubkey_for tools operator (tools.line_parts signers_text))
  check_files operator _ _ = reject "cannot read signature/allowed-signers"

unfoldable pub verify_ed25519 : Tools → Verifier
unfolding check_files
verify_ed25519 tools manifest signature_path allowed_signers operator =
    if tools.crypto_installed
    then check_files tools manifest operator (tools.read signature_path)
        (tools.read allowed_signers)
    else reject "install the '[crypto]' extra (pip install ianua-broker[crypto]) for ed25519"

-- `_DEFAULT_VERIFIERS.get(scheme)`
unfoldable pub default_verifier : Tools → String → Option Verifier
unfolding verify_ssh verify_ed25519
default_verifier tools scheme =
    if scheme == "ssh"
    then some (verify_ssh tools ssh_namespace)
    else if scheme == "ed25519"
    then some (verify_ed25519 tools)
    else none

unfoldable pub verify_manifest :
    Tools → Option Verifier → String → Bytes → Option String → Option String → String → VerifyResult
unfolding default_verifier
verify_manifest tools verifier scheme manifest signature_path allowed_signers operator =
    elim (default_verifier tools scheme) [
      | none ↦ reject "unsupported signature scheme"
      | some default ↦ elim signature_path [
        | none ↦ reject "the scheme requires --signature and --allowed-signers"
        | some signature ↦ elim allowed_signers [
          | none ↦ reject "the scheme requires --signature and --allowed-signers"
          | some signers ↦ Option.get_or verifier default manifest signature signers operator
        ]
      ]
    ]
