-- ===== src/Drift/Diff.antt =====
-- src/mcpscan/drift/diff.py: the three loops of `diff_snapshots`. The set operations on the
-- dictionaries' keys iterate in the order of the dictionary that they filter; Python's order is
-- arbitrary, and the sort at the end follows.
pub mod Laws
use ianua_broker.Prelude.{
  get, put, has, remove, of_pairs, Dict, keys, values, get-put, get-remove, get-map, Ord, leb_total,
  leb_trans, num_Ord, text_le, text_total, text_trans, text_Ord, pair_le, pair_Ord, list_le,
  list_Ord, IsSorted, insert_sorted, sorted, codes, sorted-perm, All-sorted, sorted-IsSorted,
  length-sorted, concat, decimal, starts_with, has_part, remove_prefix, text_before, is_space,
  has_ink, ℕ, zero, suc, ◌+◌, ◌-◌, ◌*◌, ◌/◌, ◌%◌, ◌^◌, ◌≤◌, ◌<◌, min, max, String, Char, code, ◌≡◌,
  refl, sym, ap, ◌∙◌, subst, ◌≢◌, ◌↔◌, ◌⊎◌, inl, inr, Bool, true, false, not, ◌&&◌, ◌||◌, Option,
  none, some, List, [], ◌∷◌, ◌++◌, map, foldl, flat_map, Perm, arith, ltb, leb, num_eq,
  if◌then◌else◌, ltb→lt, leb→le, leb_false→lt, ltb_false→le, num_eq_iff, Bool-cases, Option-cases,
  and_true, or_true, if_rule, ◌==◌, num_Eq, text_Eq, beq_self, pair_beq, pair_beq_iff, pair_Eq,
  option_beq, option_beq_iff, option_Eq, list_beq, list_beq_iff, list_Eq, Eq, length, take, select,
  any, all, is_empty, All, length-append, length-take_le, length-select_le, All-append,
  All-map_pred, All-of, All-take, All-select, All-select_sub, sum, sum-append, range, length-range,
  length-map, contains, contains-append, contains-All, All-contains, NoRepeats,
}
use ianua_broker.Drift.Model.{
  FactKind, server, finding, asset, tool, kind_value, Direction, regression, improvement,
  informational, ChangeType, added, removed, changed, DriftCause, config_drift, provenance_drift,
  exposure_drift, inspection_regression, inventory_drift, tool_identity_drift, tool_added,
  tool_removed, tool_desc_changed, tool_schema_changed, tool_annot_relaxed, tool_annot_tightened,
  tool_pin_changed, other_cause, Detail, PostureFact, detail_map, Snapshot, by_key, DriftEntry,
  DriftReport,
}
use ianua_broker.Drift.Facts.{
  is_tool, is_server, get_default, exposure_of, inspection_incomplete, imported, comparable_detail,
  aligned_details,
}
use ianua_broker.Drift.Classify.{classify_new, classify_gone, classify_changed}

-- The bodies of the three loops: the entries of one key.
unfoldable pub added_entry : Dict String PostureFact → String × PostureFact → DriftEntry
unfolding classify_new comparable_detail
added_entry old (key, fact) =
    let verdict = classify_new old fact in
    record {
      change = added;
      kind = fact.kind;
      key = key;
      summary = fact.summary;
      direction = verdict.0;
      cause = verdict.1;
      detail_before = [];
      detail_after = comparable_detail fact;
      acceptance = none;
    }

unfoldable pub removed_entry : String × PostureFact → DriftEntry
unfolding classify_gone comparable_detail
removed_entry (key, fact) =
    let verdict = classify_gone fact in
    record {
      change = removed;
      kind = fact.kind;
      key = key;
      summary = fact.summary;
      direction = verdict.0;
      cause = verdict.1;
      detail_before = comparable_detail fact;
      detail_after = [];
      acceptance = none;
    }

unfoldable pub changed_entry : String → PostureFact → PostureFact → DriftEntry
unfolding classify_changed aligned_details
changed_entry key before after =
    let verdict = classify_changed before after in
    let details = aligned_details before after in
    record {
      change = changed;
      kind = after.kind;
      key = key;
      summary = after.summary;
      direction = verdict.0;
      cause = verdict.1;
      detail_before = details.0;
      detail_after = details.1;
      acceptance = none;
    }

abbrev pub same_details : PostureFact → PostureFact → Bool
same_details before after =
    let details = aligned_details before after in list_beq details.0 details.1

unfoldable pub changed_entries : Dict String PostureFact → String × PostureFact → List DriftEntry
unfolding get changed_entry
changed_entries new (key, before) = elim (get key new) [
  | none ↦ []
  | some after ↦ if same_details before after then [] else changed_entry key before after ∷ []
]

-- The loop over `old.keys() & new.keys()`.
unfoldable pub changed_loop : Dict String PostureFact → Dict String PostureFact → List DriftEntry
unfolding changed_entries
changed_loop new [] = []
changed_loop new (p ∷ rest) = changed_entries new p ++ changed_loop new rest

-- `_DIRECTION_ORDER`
unfoldable pub direction_order : Direction → ℕ
direction_order regression = 0
direction_order improvement = 1
direction_order informational = 2

abbrev pub entry_key : DriftEntry → ℕ × (String × String)
entry_key e = (direction_order e.direction, (kind_value e.kind, e.key))

unfoldable pub diff_entries : Dict String PostureFact → Dict String PostureFact → List DriftEntry
unfolding has added_entry removed_entry changed_loop
diff_entries old new =
    map (added_entry old) (select (λ (p : String × PostureFact). not (has p.0 old)) new)
    ++ (map removed_entry (select (λ (p : String × PostureFact). not (has p.0 new)) old)
        ++ changed_loop new old)

unfoldable pub diff_snapshots : Snapshot → Snapshot → DriftReport
unfolding by_key diff_entries sorted
diff_snapshots baseline current = record {
  entries = sorted entry_key (diff_entries (by_key baseline) (by_key current));
}
