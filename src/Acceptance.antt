-- ===== src/Acceptance.antt =====
-- src/mcpscan/acceptance.py: what a ledger of accepted risks does to a report and to a drift report.
-- A date is the number of its day; `date.fromisoformat` of an expiry, which was validated when the
-- ledger was parsed, is a parameter.
mod Tests
pub mod Gate
pub mod Ledger
use ianua_broker.Domain.{dimension_Eq, tool_scope, Finding, Report, Server}
use ianua_broker.Prelude.{
  num_Ord, text_Ord, pair_Ord, list_Ord, zero, suc, refl, inl, inr, true, false, none, some, [],
  ◌∷◌, text_Eq, num_Eq, pair_Eq, option_Eq, list_Eq, Bool, List, String, concat, Option, ℕ, ◌==◌,
  get, if◌then◌else◌, ltb, not, ◌||◌, is_empty, map, of_pairs, select, flat_map, remove_prefix,
  ◌&&◌, option_beq,
}
use ianua_broker.Drift.Model.{DriftEntry, DriftReport, informational, is_regression}
use ianua_broker.Drift.Facts.{is_tool, get_default}

pub record LedgerEntry : Type 0 where
  pub finding : String
  pub server : String
  pub owner : String
  pub accepted : String
  pub expires : String
  pub reason : String

pub record ToolDriftAcceptance : Type 0 where
  pub server : String
  pub tool : String
  pub digest : String
  pub owner : String
  pub accepted : String
  pub expires : String
  pub reason : String

-- s.endswith(t)
unfoldable pub ends_with : String → String → Bool
ends_with String.[] t = String.[] == t
ends_with (String.◌∷◌ c s) t = String.◌∷◌ c s == t || ends_with s t

unfoldable pub server_matches : String → String → Bool
unfolding ends_with concat
server_matches server_id entry_server =
    server_id == entry_server || ends_with server_id (concat ("#" ∷ entry_server ∷ []))

module _ {ℓ} {A : Type ℓ} where
  unfoldable pub first_where : (A → Bool) → List A → Option A
  first_where p [] = none
  first_where p (x ∷ xs) = let later = first_where p xs in if p x then some x else later

  abbrev pub head_of : List A → Option A
  head_of [] = none
  head_of (x ∷ xs) = some x

  -- `next((e for e in matches if not expired), matches[0] if matches else None)`
  unfoldable pub choose : (A → Bool) → List A → Option A
  unfolding first_where
  choose expired matches = elim (first_where (λ e. not (expired e)) matches) [
    | some e ↦ some e
    | none ↦ head_of matches
  ]

module _ (day_of : String → ℕ) (today : ℕ) where
  unfoldable pub acceptance_expired : String → Bool
  acceptance_expired expires = ltb (day_of expires) today

  unfoldable pub attached : LedgerEntry → Finding → Finding
  unfolding acceptance_expired
  attached entry finding = record {
    id = finding.id;
    dimension = finding.dimension;
    severity = finding.severity;
    title = finding.title;
    location = finding.location;
    remediation = finding.remediation;
    rationale = finding.rationale;
    secret = finding.secret;
    acceptance = some (record {
      owner = entry.owner;
      accepted = entry.accepted;
      expires = entry.expires;
      reason = entry.reason;
      expired = acceptance_expired entry.expires;
    });
  }

  -- The ids that were refused are what a warning is made of.
  unfoldable pub accept_with : Option LedgerEntry → Finding → Finding × List String
  unfolding attached
  accept_with none finding = (finding, [])
  accept_with (some entry) finding = elim finding.acceptance [
    | some old ↦ (finding, [])
    | none ↦
        if finding.dimension == tool_scope
        then (attached entry finding, [])
        else (finding, finding.id ∷ [])
  ]

  unfoldable pub accept_finding : List LedgerEntry → Finding → Finding × List String
  unfolding accept_with choose acceptance_expired
  accept_finding candidates finding =
      accept_with
        (choose (λ (e : LedgerEntry). acceptance_expired e.expires)
          (select (λ (e : LedgerEntry). e.finding == finding.id) candidates))
        finding

  abbrev pub candidates_for : List LedgerEntry → Server → List LedgerEntry
  candidates_for entries server =
      select (λ (e : LedgerEntry). server_matches server.id e.server) entries

  -- A server without candidates or without a changed finding is the same server.
  unfoldable pub accept_server : List LedgerEntry → Server → Server
  unfolding accept_finding
  accept_server entries server = record server {
    findings =
        map (λ (f : Finding). (accept_finding (candidates_for entries server) f).0) server.findings;
  }

  -- The server's id and the finding's id of each warning, in order.
  unfoldable pub server_warnings : List LedgerEntry → Server → List (String × String)
  unfolding accept_finding
  server_warnings entries server =
      map (λ id. (server.id, id))
        (flat_map (λ (f : Finding). (accept_finding (candidates_for entries server) f).1)
          server.findings)

  unfoldable pub apply_acceptances : Report → List LedgerEntry → Report × List (String × String)
  unfolding accept_server server_warnings
  apply_acceptances report entries = if is_empty entries then (report, []) else (
    record report { servers = map (accept_server entries) report.servers },
    flat_map (server_warnings entries) report.servers,
  )

  -- `e.server == server and e.tool == tool and e.digest == after.get("digest")`
  unfoldable pub covers : DriftEntry → ToolDriftAcceptance → Bool
  unfolding get of_pairs remove_prefix concat
  covers entry e =
      let after = of_pairs entry.detail_after in
      let server = get_default "server" "" after in
      (e.server == server
        && e.tool == remove_prefix entry.key (concat ("tool:" ∷ server ∷ ":" ∷ [])))
      && option_beq (some e.digest) (get "digest" after)

  unfoldable pub waive_with : Option ToolDriftAcceptance → DriftEntry → DriftEntry
  unfolding acceptance_expired
  waive_with none entry = entry
  waive_with (some chosen) entry = record entry {
    direction = if acceptance_expired chosen.expires then entry.direction else informational;
    acceptance = some (record {
      owner = chosen.owner;
      accepted = chosen.accepted;
      expires = chosen.expires;
      reason = chosen.reason;
      expired = acceptance_expired chosen.expires;
    });
  }

  unfoldable pub waive_entry : List ToolDriftAcceptance → DriftEntry → DriftEntry
  unfolding waive_with choose covers acceptance_expired
  waive_entry entries entry =
      if is_tool entry.kind && is_regression entry.direction
      then waive_with
          (choose (λ (e : ToolDriftAcceptance). acceptance_expired e.expires)
            (select (covers entry) entries))
          entry
      else entry

  unfoldable pub apply_tool_drift_acceptances : DriftReport → List ToolDriftAcceptance → DriftReport
  unfolding waive_entry
  apply_tool_drift_acceptances report entries =
      if is_empty entries
      then report
      else record { entries = map (waive_entry entries) report.entries }
