-- ===== src/Drift/Classify.antt =====
-- src/mcpscan/drift/diff.py: the direction and the cause of a change.
pub mod Verdicts
use ianua_broker.Prelude.{
  get, has, Dict, keys, num_Ord, text_Ord, pair_Ord, list_Ord, concat, starts_with, text_before,
  String, Bool, false, not, ◌&&◌, ◌||◌, none, some, List, [], ◌∷◌, if◌then◌else◌, ◌==◌, num_Eq,
  text_Eq, pair_Eq, option_beq, option_Eq, list_Eq, any,
}
use ianua_broker.Drift.Model.{
  server, finding, asset, tool, Direction, regression, improvement, informational, DriftCause,
  config_drift, provenance_drift, exposure_drift, inspection_regression, inventory_drift,
  tool_identity_drift, tool_added, tool_removed, tool_desc_changed, tool_schema_changed,
  tool_annot_relaxed, tool_annot_tightened, tool_pin_changed, other_cause, PostureFact, detail_map,
}
use ianua_broker.Drift.Facts.{is_tool, get_default, exposure_of, inspection_incomplete, imported}

unfoldable pub tool_identity_changed : PostureFact → PostureFact → Bool
unfolding detail_map
tool_identity_changed before after = elim (get "tool_identity" (detail_map before)) [
  | none ↦ false
  | some before_id ↦ elim (get "tool_identity" (detail_map after)) [
    | none ↦ false
    | some after_id ↦ not (before_id == after_id)
  ]
]

-- `detail.get("id") or fact.summary.split(" — ", 1)[0]`
unfoldable pub finding_id_of : PostureFact → String
unfolding detail_map text_before
finding_id_of fact =
    let id = get_default "id" "" (detail_map fact) in
    if id == "" then text_before " — " fact.summary else id

unfoldable pub finding_cause : PostureFact → DriftCause
unfolding finding_id_of detail_map starts_with
finding_cause fact =
    let id = finding_id_of fact in
    if starts_with id "PIN-"
    then provenance_drift
    else if option_beq (get "dimension" (detail_map fact)) (some "exposure")
        || starts_with id "EXP-"
        || starts_with id "EXPOSE-"
    then exposure_drift
    else if starts_with id "CRED-" || starts_with id "SCOPE-"
    then config_drift
    else other_cause

-- The table `_HINT_PERMISSIVE`.
abbrev pub hints : List (String × String)
hints =
    ("readOnlyHint", "false")
    ∷ ("destructiveHint", "true")
    ∷ ("idempotentHint", "false")
    ∷ ("openWorldHint", "true")
    ∷ []

unfoldable pub hint : Dict String String → String × String → String
unfolding get concat
hint detail (name, permissive) = get_default (concat ("annotation." ∷ name ∷ [])) permissive detail

-- `not _same(...)` of one key of the details
unfoldable pub moved_detail : String → PostureFact → PostureFact → Bool
unfolding detail_map
moved_detail key before after =
    not (option_beq (get key (detail_map before)) (get key (detail_map after)))

-- the comprehension `moved`
unfoldable pub moved_hint : PostureFact → PostureFact → String × String → Bool
unfolding detail_map hint
moved_hint before after h = not (hint (detail_map before) h == hint (detail_map after) h)

unfoldable pub relaxed_hint : PostureFact → PostureFact → String × String → Bool
unfolding moved_hint hint detail_map
relaxed_hint before after h = moved_hint before after h && hint (detail_map after) h == h.1

unfoldable pub any_relaxed : PostureFact → PostureFact → Bool
unfolding relaxed_hint
any_relaxed before after = any (relaxed_hint before after) hints

unfoldable pub any_moved : PostureFact → PostureFact → Bool
unfolding moved_hint
any_moved before after = any (moved_hint before after) hints

unfoldable pub classify_tool_changed : PostureFact → PostureFact → Direction × DriftCause
unfolding imported moved_detail any_relaxed any_moved
classify_tool_changed before after =
    if imported before || imported after
    then (regression, tool_pin_changed)
    else if moved_detail "description" before after
    then (regression, tool_desc_changed)
    else if moved_detail "schema" before after
    then (regression, tool_schema_changed)
    else if any_relaxed before after
    then (regression, tool_annot_relaxed)
    else if any_moved before after
    then (regression, tool_annot_tightened)
    else (regression, tool_identity_drift)

unfoldable pub server_pinned_tools : Dict String PostureFact → String → Bool
unfolding get has detail_map concat starts_with
server_pinned_tools old server_id = elim (get (concat ("server:" ∷ server_id ∷ [])) old) [
  | none ↦ false
  | some server_fact ↦
      any (λ key. starts_with key (concat ("tool:" ∷ server_id ∷ ":" ∷ []))) (keys old)
      || not (has "tool_identity" (detail_map server_fact))
]

unfoldable pub classify_added : PostureFact → Direction × DriftCause
unfolding finding_cause exposure_of
classify_added fact = elim fact.kind [
  | finding ↦ (regression, finding_cause fact)
  | asset ↦ (informational, inventory_drift)
  | _ ↦
      if exposure_of fact == "exposed"
      then (regression, exposure_drift)
      else (informational, other_cause)
]

unfoldable pub classify_removed : PostureFact → Direction × DriftCause
unfolding finding_cause exposure_of
classify_removed fact = elim fact.kind [
  | finding ↦ (improvement, finding_cause fact)
  | asset ↦ (informational, inventory_drift)
  | _ ↦
      if exposure_of fact == "exposed"
      then (informational, exposure_drift)
      else (informational, other_cause)
]

unfoldable pub classify_server_changed : PostureFact → PostureFact → Direction × DriftCause
unfolding exposure_of inspection_incomplete tool_identity_changed
classify_server_changed before after =
    let was = exposure_of before == "exposed" in
    let now = exposure_of after == "exposed" in
    let was_dark = inspection_incomplete before in
    let now_dark = inspection_incomplete after in
    if not was_dark && now_dark
    then (regression, inspection_regression)
    else if not was && now
    then (regression, exposure_drift)
    else if tool_identity_changed before after
    then (regression, tool_identity_drift)
    else if was && not now
    then (improvement, exposure_drift)
    else if was_dark && not now_dark
    then (improvement, inspection_regression)
    else (informational, other_cause)

unfoldable pub classify_changed : PostureFact → PostureFact → Direction × DriftCause
unfolding classify_tool_changed finding_cause classify_server_changed
classify_changed before after = elim after.kind [
  | tool ↦ classify_tool_changed before after
  | finding ↦ (informational, finding_cause after)
  | asset ↦ (informational, inventory_drift)
  | server ↦ classify_server_changed before after
]

unfoldable pub classify_new : Dict String PostureFact → PostureFact → Direction × DriftCause
unfolding server_pinned_tools classify_added detail_map
classify_new old fact =
    if is_tool fact.kind
    then (if server_pinned_tools old (get_default "server" "" (detail_map fact))
        then (regression, tool_added)
        else (informational, tool_added))
    else classify_added fact

unfoldable pub classify_gone : PostureFact → Direction × DriftCause
unfolding classify_removed
classify_gone fact =
    if is_tool fact.kind then (informational, tool_removed) else classify_removed fact
