-- ===== src/Drift/Baseline.antt =====
-- src/mcpscan/drift/baseline.py: writing a snapshot as a baseline and reading it back. An error is a
-- constructor without the texts of its message. ssh-keygen and the files are those of `Lan.Verify`.
pub mod RoundTrip
pub mod Frozen
pub mod Verified
use mathlib.Core.Option
use ianua_broker.Json.{
  object, field, array, text, nil, cons, end, Json, Items, Fields, field_of, null, parsed,
  malformed, too_deep, JsonTools, str_of, text_fields, Decoded,
}
use ianua_broker.Drift.Model.{
  server, finding, tool, asset, PostureFact, FactKind, Snapshot, kind_value, Detail,
}
use ianua_broker.Lan.Verify.{Tools, Verifier, verify_ssh, verify_ed25519}
use ianua_broker.Prelude.{
  num_Ord, text_Ord, pair_Ord, list_Ord, zero, suc, refl, inl, inr, true, false, none, some, [],
  ◌∷◌, text_Eq, num_Eq, pair_Eq, option_Eq, list_Eq, List, Option, String, concat, Bool, codes,
  if◌then◌else◌, sorted, of_pairs, ◌++◌, ◌==◌, ◌&&◌, ◌||◌, not,
}
use ianua_broker.Drift.Snapshot.{snapshot_digest, drift_schema_version}
use ianua_broker.Lan.Platform.{Bytes}

pub data BaselineError : Type 0 where
  malformed_json nesting_too_deep not_an_object unsupported_schema facts_not_a_list : BaselineError
  fact_not_an_object invalid_fact detail_not_an_object digest_mismatch : BaselineError
  unsupported_scheme signature_refused not_utf8 : BaselineError

-- A snapshot, or the BaselineError that is raised.
pub data Read {ℓ} (A : Type ℓ) : Type ℓ where
  ok : A → Read A
  failed : BaselineError → Read A

abbrev pub fact_json : PostureFact → Json
fact_json fact = object (
    field "kind" (text (kind_value fact.kind)) (
      field "key" (text fact.key) (
        field "summary" (text fact.summary)
          (field "detail" (object (text_fields (of_pairs fact.detail))) end))))

abbrev pub facts_json : List PostureFact → Items
facts_json [] = nil
facts_json (fact ∷ rest) = cons (fact_json fact) (facts_json rest)

abbrev pub created_json : Option String → Json
created_json none = null
created_json (some created_at) = text created_at

unfoldable pub snapshot_to_dict : JsonTools → Snapshot → Option String → Json
unfolding snapshot_digest kind_value of_pairs
snapshot_to_dict tools snapshot created_at = object (
    field "tool" (text "ianua-broker") (
      field "schema_version" (text snapshot.schema_version) (
        field "created_at" (created_json created_at) (
          field "digest" (text (snapshot_digest tools snapshot))
            (field "facts" (array (facts_json snapshot.facts)) end)))))

unfoldable pub render_baseline : JsonTools → Snapshot → Option String → String
unfolding snapshot_to_dict concat
render_baseline tools snapshot created_at =
    concat (tools.dumps (snapshot_to_dict tools snapshot created_at) ∷ "\n" ∷ [])

unfoldable pub text_or_none : Option Json → Option String
text_or_none (some (text s)) = some s
text_or_none _ = none

unfoldable pub created_at_of : Decoded → Option String
unfolding field_of text_or_none
created_at_of (parsed (object document)) = text_or_none (field_of "created_at" document)
created_at_of _ = none

unfoldable pub baseline_created_at : JsonTools → String → Option String
unfolding created_at_of
baseline_created_at tools s = created_at_of (tools.loads s)

-- `FactKind(value)`; `none` is its ValueError
unfoldable pub kind_of : Json → Option FactKind
kind_of (text s) =
    if s == "server"
    then some server
    else if s == "finding"
    then some finding
    else if s == "asset"
    then some asset
    else if s == "tool"
    then some tool
    else none
kind_of _ = none

module _ (tools : JsonTools) where
  -- `(str(k), str(v)) for k, v in detail.items()`
  unfoldable pub shown_fields : Fields → List (String × String)
  unfolding str_of
  shown_fields end = []
  shown_fields (field k v rest) = (k, str_of tools v) ∷ shown_fields rest

  -- `item.get("detail", {})`
  unfoldable pub read_detail : Option Json → Read Detail
  unfolding shown_fields sorted
  read_detail none = ok []
  read_detail (some (object detail)) =
      ok (sorted (λ (item : String × String). item) (shown_fields detail))
  read_detail (some _) = failed detail_not_an_object

  unfoldable pub with_detail : FactKind → Json → Json → Read Detail → Read PostureFact
  unfolding str_of
  with_detail kind key summary (failed e) = failed e
  with_detail kind key summary (ok detail) = ok (record {
    kind = kind;
    key = str_of tools key;
    summary = str_of tools summary;
    detail = detail;
  })

  unfoldable pub read_fact : Fields → Read PostureFact
  unfolding field_of kind_of read_detail with_detail
  read_fact item = elim (field_of "kind" item) [
    | none ↦ failed invalid_fact
    | some value ↦ elim (kind_of value) [
      | none ↦ failed invalid_fact
      | some kind ↦ elim (field_of "key" item) [
        | none ↦ failed invalid_fact
        | some key ↦ elim (field_of "summary" item) [
          | none ↦ failed invalid_fact
          | some summary ↦ with_detail kind key summary (read_detail (field_of "detail" item))
        ]
      ]
    ]
  ]

  unfoldable pub fact_from_dict : Json → Read PostureFact
  unfolding read_fact
  fact_from_dict (object item) = read_fact item
  fact_from_dict _ = failed fact_not_an_object

  abbrev pub read_next : Read PostureFact → Read (List PostureFact) → Read (List PostureFact)
  read_next (failed e) rest = failed e
  read_next (ok fact) (failed e) = failed e
  read_next (ok fact) (ok facts) = ok (fact ∷ facts)

  -- The loop over the facts.
  unfoldable pub read_facts : Items → Read (List PostureFact)
  unfolding fact_from_dict
  read_facts nil = ok []
  read_facts (cons item rest) = read_next (fact_from_dict item) (read_facts rest)

  abbrev pub is_text : String → Option Json → Bool
  is_text s (some (text t)) = t == s
  is_text s _ = false

  -- The digest test, which `verify_digest` turns off.
  unfoldable pub check_digest : Bool → Option Json → Read (List PostureFact) → Read Snapshot
  unfolding snapshot_digest
  check_digest verify_digest stored (failed e) = failed e
  check_digest verify_digest stored (ok facts) =
      let snapshot : Snapshot = record { schema_version = drift_schema_version; facts = facts } in
      if verify_digest && not (is_text (snapshot_digest tools snapshot) stored)
      then failed digest_mismatch
      else ok snapshot

  unfoldable pub read_facts_field : Bool → Fields → Option Json → Read Snapshot
  unfolding field_of read_facts check_digest
  read_facts_field verify_digest document (some (array items)) =
      check_digest verify_digest (field_of "digest" document) (read_facts items)
  read_facts_field verify_digest document _ = failed facts_not_a_list

  unfoldable pub read_baseline : Bool → Decoded → Read Snapshot
  unfolding field_of read_facts_field
  read_baseline verify_digest malformed = failed malformed_json
  read_baseline verify_digest too_deep = failed nesting_too_deep
  read_baseline verify_digest (parsed (object document)) =
      if is_text drift_schema_version (field_of "schema_version" document)
      then read_facts_field verify_digest document (field_of "facts" document)
      else failed unsupported_schema
  read_baseline verify_digest (parsed _) = failed not_an_object

  unfoldable pub load_baseline : Bool → String → Read Snapshot
  unfolding read_baseline
  load_baseline verify_digest s = read_baseline verify_digest (tools.loads s)

abbrev pub baseline_ssh_namespace : String
baseline_ssh_namespace = "mcpscan-baseline"

-- `b"mcpscan-baseline\x00"`
abbrev pub baseline_ed25519_context : Bytes
baseline_ed25519_context = codes "mcpscan-baseline" ++ 0 ∷ []

-- `_default_baseline_verifier`
unfoldable pub default_baseline_verifier : Tools → String → Verifier
unfolding verify_ed25519 verify_ssh
default_baseline_verifier verify_tools scheme =
    if scheme == "ed25519"
    then (λ mb. verify_ed25519 verify_tools (baseline_ed25519_context ++ mb))
    else verify_ssh verify_tools baseline_ssh_namespace

module _ (tools : JsonTools) (verify_tools : Tools) (decode : Bytes → Option String) where
  -- `decode` is `bytes.decode("utf-8")`, with `none` for the UnicodeDecodeError.
  unfoldable pub load_decoded : Option String → Read Snapshot
  unfolding load_baseline
  load_decoded none = failed not_utf8
  load_decoded (some s) = load_baseline tools true s

  unfoldable pub load_verified_baseline :
      Bytes → String → String → String → String → Option Verifier → Read Snapshot
  unfolding default_baseline_verifier load_decoded
  load_verified_baseline baseline signature_path allowed_signers operator scheme verifier =
      let verify = Option.get_or verifier (default_baseline_verifier verify_tools scheme) in
      if scheme == "ssh" || scheme == "ed25519"
      then (if (verify baseline signature_path allowed_signers operator).verified
          then load_decoded (decode baseline)
          else failed signature_refused)
      else failed unsupported_scheme
