-- ===== src/Drift/Classify/Verdicts.antt =====
-- When a change is an improvement.
use ianua_broker.Prelude.{
  refl, true, false, num_Ord, text_Ord, pair_Ord, list_Ord, ◌≡◌, Bool, not, ◌&&◌, ◌||◌, arith, ◌==◌,
  num_Eq, text_Eq, pair_Eq, option_Eq, list_Eq, if◌then◌else◌,
}
use ianua_broker.Drift.Model.{
  regression, is_improvement, is_regression, PostureFact, tool_pin_changed, tool_desc_changed,
  tool_schema_changed, tool_annot_relaxed, tool_annot_tightened, tool_identity_drift, Direction,
  DriftCause,
}
use ianua_broker.Drift.Facts.{is_tool, is_server, exposure_of, inspection_incomplete, imported}
use ianua_broker.Drift.Classify.{
  tool_identity_changed, classify_tool_changed, classify_server_changed, classify_changed,
  moved_detail, any_relaxed, any_moved,
}

abbrev chain : Bool → Bool → Bool → Bool → Bool → Direction × DriftCause
chain imports desc schema relaxed moved =
    if imports
    then (regression, tool_pin_changed)
    else if desc
    then (regression, tool_desc_changed)
    else if schema
    then (regression, tool_schema_changed)
    else if relaxed
    then (regression, tool_annot_relaxed)
    else if moved
    then (regression, tool_annot_tightened)
    else (regression, tool_identity_drift)

chain-regression :
    (imports desc schema relaxed moved : Bool)
    → (chain imports desc schema relaxed moved).0 ≡ regression
chain-regression true desc schema relaxed moved = refl
chain-regression false true schema relaxed moved = refl
chain-regression false false true relaxed moved = refl
chain-regression false false false true moved = refl
chain-regression false false false false true = refl
chain-regression false false false false false = refl

-- Every change to a pinned tool is a regression.
pub classify_tool_changed-regression :
    (before after : PostureFact) → (classify_tool_changed before after).0 ≡ regression
unfolding classify_tool_changed
classify_tool_changed-regression before after =
    chain-regression (imported before || imported after) (moved_detail "description" before after)
      (moved_detail "schema" before after) (any_relaxed before after) (any_moved before after)

abbrev pub lost_sight : PostureFact → PostureFact → Bool
lost_sight before after = not (inspection_incomplete before) && inspection_incomplete after

abbrev pub got_exposed : PostureFact → PostureFact → Bool
got_exposed before after = not (exposure_of before == "exposed") && exposure_of after == "exposed"

-- A change renders green exactly when it is of a server whose visibility was not lost, that was not
-- newly exposed and whose launch identity did not change, and that either stopped being exposed or
-- regained visibility; and a change of a tool, a loss of visibility, a new exposure of a server and a
-- changed launch identity of a server are regressions, and nothing else is.
pub classify_changed_exact :
    (before after : PostureFact)
    → (is_improvement (classify_changed before after).0 ≡ (
        is_server after.kind
        && not (
            lost_sight before after
            || got_exposed before after
            || tool_identity_changed before after)
        && (got_exposed after before || lost_sight after before)))
      × (is_regression (classify_changed before after).0 ≡ (
          is_tool after.kind
          || (is_server after.kind
              && (lost_sight before after
                  || got_exposed before after
                  || tool_identity_changed before after))))
unfolding classify_changed classify_server_changed
classify_changed_exact before after = (
  ground (arith, classify_tool_changed-regression before after),
  ground (arith, classify_tool_changed-regression before after),
)
