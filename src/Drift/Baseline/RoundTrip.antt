-- ===== src/Drift/Baseline/RoundTrip.antt =====
-- Reading back what was written.
use ianua_broker.Json.{
  object, field, array, text, end, Json, Fields, field_of, parsed, JsonTools, insert_field,
  sort_keys, sort_fields, str_of, text_fields, sort_items,
}
use ianua_broker.Drift.Model.{
  server, finding, tool, asset, Detail, Snapshot, PostureFact, kind_value, FactKind,
}
use ianua_broker.Drift.Baseline.{
  ok, failed, fact_from_dict, kind_of, shown_fields, fact_json, read_detail, with_detail,
  baseline_created_at, load_baseline, read_baseline, read_facts, snapshot_to_dict, created_json,
  read_facts_field, render_baseline, check_digest, created_at_of, facts_json, read_next,
  text_or_none, read_fact, Read, invalid_fact,
}
use ianua_broker.Prelude.{
  num_Ord, text_Ord, pair_Ord, list_Ord, refl, inl, inr, none, some, [], ◌∷◌, text_Eq, num_Eq,
  pair_Eq, option_Eq, list_Eq, of_pairs, All, IsSorted, insert_sorted, sorted, List, String,
  All-map_pred, NoRepeats, ◌≡◌, Bool-cases, ap, arith, keys, of_pairs-done, text_le, ◌∙◌,
  sorted-done, Option, Bool, concat, beq_self,
}
use ianua_broker.Drift.Snapshot.{snapshot_digest, drift_schema_version}

-- Sorted, with each key once, as `_freeze` leaves it.
pub record IsFrozen (detail : Detail) : Type 0 where
  pub in_order : IsSorted {K = String × String} (λ (item : String × String). item) detail
  pub keys_once : NoRepeats (keys detail)

abbrev pub AllFrozen : Snapshot → Type 0
AllFrozen snapshot = All (λ (f : PostureFact). IsFrozen f.detail) snapshot.facts

-- Sorted by the pair is sorted by the key.
IsSorted-by_key :
    (detail : Detail)
    → IsSorted {K = String × String} (λ (item : String × String). item) detail
    → IsSorted {K = String} (λ (item : String × String). item.0) detail
IsSorted-by_key [] h = tt
IsSorted-by_key (item ∷ rest) h =
    (All-map_pred rest (λ next q. ground (arith, q)) h.0, IsSorted-by_key rest h.1)

insert_text_field :
    (k v : String) (items : List (String × String))
    → insert_field k (text v) (text_fields items)
      ≡ text_fields (insert_sorted {K = String} (λ (item : String × String). item.0) (k, v) items)
unfolding insert_field insert_sorted
insert_text_field k v [] = refl
insert_text_field k v ((j, w) ∷ items) = elim (Bool-cases (text_le k j)) [
  | inl q ↦ rw q refl
  | inr q ↦ rw q (ap (λ fs. field j (text w) fs) (insert_text_field k v items))
]

sort_text_fields :
    (items : List (String × String))
    → sort_fields (text_fields items)
      ≡ text_fields (sorted {K = String} (λ (item : String × String). item.0) items)
unfolding sort_keys sorted
sort_text_fields [] = refl
sort_text_fields ((k, v) ∷ items) =
    ap (insert_field k (text v)) (sort_text_fields items)
    ∙ insert_text_field k v (sorted {K = String} (λ (item : String × String). item.0) items)

-- A frozen detail is written in its own order.
frozen_detail :
    (detail : Detail)
    → IsFrozen detail
    → sort_fields (text_fields (of_pairs detail)) ≡ text_fields detail
unfolding of_pairs sort_keys
frozen_detail detail h =
    ap (λ d. sort_fields (text_fields d)) (of_pairs-done detail h.keys_once)
    ∙ sort_text_fields detail
    ∙ ap text_fields (
        sorted-done (λ (item : String × String). item.0) detail (IsSorted-by_key detail h.in_order))

module _ (tools : JsonTools) where
  shown_text_fields : (detail : Detail) → shown_fields tools (text_fields detail) ≡ detail
  unfolding shown_fields str_of
  shown_text_fields [] = refl
  shown_text_fields ((k, v) ∷ detail) = ap (λ d. (k, v) ∷ d) (shown_text_fields detail)

  kind_of-kind_value : (kind : FactKind) → kind_of (text (kind_value kind)) ≡ some kind
  unfolding kind_of kind_value
  kind_of-kind_value server = refl
  kind_of-kind_value finding = refl
  kind_of-kind_value asset = refl
  kind_of-kind_value tool = refl

  -- A written fact, its keys in order.
  abbrev written : PostureFact → Fields
  written fact = field "detail" (object (text_fields fact.detail)) (
      field "key" (text fact.key)
        (field "kind" (text (kind_value fact.kind)) (field "summary" (text fact.summary) end)))

  sort_fact :
      (fact : PostureFact)
      → IsFrozen fact.detail
      → sort_keys (fact_json fact) ≡ object (written fact)
  unfolding sort_keys insert_field kind_value
  sort_fact fact h =
      ap
        (λ fs. object (
          field "detail" (object fs) (
            field "key" (text fact.key) (
              field "kind" (text (kind_value fact.kind))
                (field "summary" (text fact.summary) end)))))
        (frozen_detail fact.detail h)

  read_detail_written :
      (detail : Detail)
      → IsFrozen detail
      → read_detail tools (some (object (text_fields detail))) ≡ ok detail
  unfolding read_detail
  read_detail_written detail h =
      ap (λ d. ok (sorted {K = String × String} (λ (item : String × String). item) d))
        (shown_text_fields detail)
      ∙ ap ok
          (sorted-done {K = String × String} (λ (item : String × String). item) detail h.in_order)

  read_written :
      (fact : PostureFact)
      → IsFrozen fact.detail
      → fact_from_dict tools (object (written fact)) ≡ ok fact
  unfolding fact_from_dict read_fact field_of with_detail str_of
  read_written fact h = go (kind_of (text (kind_value fact.kind))) (kind_of-kind_value fact.kind)
    where
      go :
          (m : Option FactKind)
          → m ≡ some fact.kind
          → elim m as (λ _. Read PostureFact) [
            | none ↦ failed invalid_fact
            | some kind ↦
                with_detail tools kind
                  (text fact.key)
                  (text fact.summary)
                  (read_detail tools (some (object (text_fields fact.detail))))
          ]
            ≡ ok fact
      go m e = rw e (
          ap (with_detail tools fact.kind (text fact.key) (text fact.summary))
            (read_detail_written fact.detail h))

  read_facts_written :
      (facts : List PostureFact)
      → All (λ (f : PostureFact). IsFrozen f.detail) facts
      → read_facts tools (sort_items (facts_json facts)) ≡ ok facts
  unfolding read_facts sort_keys
  read_facts_written [] h = refl
  read_facts_written (fact ∷ facts) h =
      ap
        (λ j.
          read_next tools (fact_from_dict tools j)
            (read_facts tools (sort_items (facts_json facts))))
        (sort_fact fact h.0)
      ∙ ap (λ r. read_next tools r (read_facts tools (sort_items (facts_json facts))))
          (read_written fact h.0)
      ∙ ap (read_next tools (ok fact)) (read_facts_written facts h.1)

  created_json_sorted :
      (created_at : Option String) → sort_keys (created_json created_at) ≡ created_json created_at
  unfolding sort_keys
  created_json_sorted none = refl
  created_json_sorted (some s) = refl

  -- The written document, its keys in order.
  abbrev document : Snapshot → Option String → Json
  document snapshot created_at = object (
      field "created_at" (sort_keys (created_json created_at)) (
        field "digest" (text (snapshot_digest tools snapshot)) (
          field "facts" (array (sort_items (facts_json snapshot.facts))) (
            field "schema_version" (text snapshot.schema_version)
              (field "tool" (text "ianua-broker") end)))))

  sort_document :
      (snapshot : Snapshot) (created_at : Option String)
      → sort_keys (snapshot_to_dict tools snapshot created_at) ≡ document snapshot created_at
  unfolding sort_keys snapshot_to_dict insert_field
  sort_document snapshot created_at = refl

  read_document :
      (verify_digest : Bool) (snapshot : Snapshot) (created_at : Option String)
      → snapshot.schema_version ≡ drift_schema_version
      → AllFrozen snapshot
      → read_baseline tools verify_digest (parsed (document snapshot created_at)) ≡ ok snapshot
  unfolding read_baseline field_of read_facts_field check_digest
  read_document verify_digest snapshot created_at version frozen =
      rw (version, read_facts_written snapshot.facts frozen)
        (ground (
          arith,
          beq_self
              (snapshot_digest tools (record snapshot { schema_version = drift_schema_version })),
        ))

  -- A baseline that was written from a snapshot of this schema, whose details are sorted and hold
  -- each key once, is read back as that snapshot, with the digest test or without it. The hypothesis
  -- says that `json.loads` reads what `json.dumps` wrote of the document, its keys sorted.
  pub load_baseline-render_baseline :
      (verify_digest : Bool) (snapshot : Snapshot) (created_at : Option String)
      → tools.loads (concat (tools.dumps (snapshot_to_dict tools snapshot created_at) ∷ "\n" ∷ []))
        ≡ parsed (sort_keys (snapshot_to_dict tools snapshot created_at))
      → snapshot.schema_version ≡ drift_schema_version
      → AllFrozen snapshot
      → load_baseline tools verify_digest (render_baseline tools snapshot created_at) ≡ ok snapshot
  unfolding load_baseline render_baseline
  load_baseline-render_baseline verify_digest snapshot created_at loads version frozen =
      ap (read_baseline tools verify_digest) (loads ∙ ap parsed (sort_document snapshot created_at))
      ∙ read_document verify_digest snapshot created_at version frozen

  -- The creation date of a written baseline is read back.
  pub baseline_created_at-render_baseline :
      (snapshot : Snapshot) (created_at : Option String)
      → tools.loads (concat (tools.dumps (snapshot_to_dict tools snapshot created_at) ∷ "\n" ∷ []))
        ≡ parsed (sort_keys (snapshot_to_dict tools snapshot created_at))
      → baseline_created_at tools (render_baseline tools snapshot created_at) ≡ created_at
  unfolding baseline_created_at render_baseline created_at_of field_of sort_keys
  baseline_created_at-render_baseline snapshot created_at loads =
      ap created_at_of (loads ∙ ap parsed (sort_document snapshot created_at)) ∙ shown created_at
    where
      shown : (c : Option String) → text_or_none (some (sort_keys (created_json c))) ≡ c
      shown none = refl
      shown (some s) = refl
