-- ===== src/Acceptance/Ledger/Valid.antt =====
-- What the parsing of ledgers promises: every row is an entry or a warning, and every entry is usable.

use ianua_broker.Json.{
  text, Json, Fields, field_of, JsonTools, object, array, text, nil, cons, Json, Items, Fields,
  field_of, parsed, Decoded, length_items,
}
use ianua_broker.Prelude.{
  num_Ord, text_Ord, pair_Ord, list_Ord, inl, inr, true, false, none, some, [], ◌∷◌, text_Eq,
  num_Eq, pair_Eq, option_Eq, list_Eq, String, List, Option, ℕ, ◌≡◌, All, has_ink, length,
  Bool-cases, Option-cases, codes, all, arith, ◌+◌, suc, ◌∙◌, ap, All-append,
}
use ianua_broker.Acceptance.Ledger.{
  first_unfilled, text_at, is_digest, is_filled, LedgerLoad, entry_problem, expiry_problem,
  fields_problem, is_tool_entry, keys_needed, first_no_text, ledger_entry, tool_acceptance, is_hex,
  optional_keys, required_keys, tool_required_keys, add_row, load_ledgers, parse_acceptances,
  parse_ledger, parse_rows, load_root, parse_decoded, warned, LedgerFile, no_file, unreadable,
  readable, nothing_loaded, only_warning,
}
use ianua_broker.Acceptance.{LedgerEntry, ToolDriftAcceptance}

-- An expiry that is a date.
abbrev pub IsDated : (String → Option ℕ) → String → Type 0
IsDated fromisoformat expires = (day : ℕ) × (fromisoformat expires ≡ some day)

pub record IsUsable (fromisoformat : String → Option ℕ) (entry : LedgerEntry) : Type 0 where
  pub finding_given : has_ink entry.finding ≡ true
  pub server_given : has_ink entry.server ≡ true
  pub owner_given : has_ink entry.owner ≡ true
  pub dated : IsDated fromisoformat entry.expires

pub record IsUsableTool (fromisoformat : String → Option ℕ) (entry : ToolDriftAcceptance)
    : Type 0 where
  pub server_given : has_ink entry.server ≡ true
  pub tool_given : has_ink entry.tool ≡ true
  pub owner_given : has_ink entry.owner ≡ true
  pub digest_length : length (codes entry.digest) ≡ 64
  pub digest_hex : all is_hex (codes entry.digest) ≡ true
  pub dated : IsDated fromisoformat entry.expires

pub record AllUsable (fromisoformat : String → Option ℕ) (load : LedgerLoad) : Type 0 where
  pub entries_usable : All (IsUsable fromisoformat) load.entries
  pub tools_usable : All (IsUsableTool fromisoformat) load.tool_entries

-- What a load has of entries and warnings together.
abbrev pub counted : LedgerLoad → ℕ
counted load = length load.entries + length load.tool_entries + length load.warnings

first_unfilled-none :
    (raw : Fields) (names : List String)
    → first_unfilled raw names ≡ none
    → All (λ key. is_filled (field_of key raw) ≡ true) names
unfolding first_unfilled
first_unfilled-none raw [] h = tt
first_unfilled-none raw (key ∷ rest) h = elim (Bool-cases (is_filled (field_of key raw))) [
  | inl e ↦ (e, first_unfilled-none raw rest (rw e at h))
  | inr e ↦ absurd (cc (rw e at h))
]

text_at-filled :
    (key : String) (raw : Fields)
    → is_filled (field_of key raw) ≡ true
    → has_ink (text_at key raw) ≡ true
unfolding text_at is_filled
text_at-filled key raw h = go (field_of key raw) h
  where
    go :
        (m : Option Json)
        → is_filled m ≡ true
        → has_ink (elim m as (λ _. String) [ some (text s) ↦ s | _ ↦ "" ]) ≡ true
    go (some (text s)) k = k
    go _ k = absurd (cc (k))

text_at-digest :
    (key : String) (raw : Fields)
    → is_digest (field_of key raw) ≡ true
    → (length (codes (text_at key raw)) ≡ 64) × (all is_hex (codes (text_at key raw)) ≡ true)
unfolding text_at is_digest
text_at-digest key raw h = go (field_of key raw) h
  where
    go :
        (m : Option Json)
        → is_digest m ≡ true
        → (length (codes (elim m as (λ _. String) [ some (text s) ↦ s | _ ↦ "" ])) ≡ 64)
          × (all is_hex (codes (elim m as (λ _. String) [ some (text s) ↦ s | _ ↦ "" ])) ≡ true)
    go (some (text s)) k = ground arith
    go _ k = absurd (cc (k))

module _ (tools : JsonTools) (fromisoformat : String → Option ℕ) where
  expiry_problem-none :
      (expires : String)
      → expiry_problem tools fromisoformat expires ≡ none
      → IsDated fromisoformat expires
  unfolding expiry_problem
  expiry_problem-none expires h = elim (Option-cases (fromisoformat expires)) [
    | inl e ↦ absurd (cc (rw (e, expiry_problem) at h))
    | inr (day, e) ↦ (day, e)
  ]

  fields_problem-none :
      (raw : Fields)
      → fields_problem tools fromisoformat raw ≡ none
      → All (λ key. is_filled (field_of key raw) ≡ true) (keys_needed raw)
        × IsDated fromisoformat (text_at "expires" raw)
  unfolding fields_problem
  fields_problem-none raw h = elim (Option-cases (first_unfilled raw (keys_needed raw))) [
    | inr (key, e) ↦ absurd (cc (rw (e, fields_problem) at h))
    | inl e ↦ elim (Option-cases (first_no_text raw optional_keys)) [
      | inr (key, f) ↦ absurd (cc (rw (e, f, fields_problem) at h))
      | inl f ↦ (
        first_unfilled-none raw (keys_needed raw) e,
        expiry_problem-none (text_at "expires" raw) (rw (e, f, fields_problem) at h),
      )
    ]
  ]

  ledger_entry-IsUsable :
      (raw : Fields)
      → is_tool_entry raw ≡ false
      → entry_problem tools fromisoformat raw ≡ none
      → IsUsable fromisoformat (ledger_entry tools fromisoformat raw)
  unfolding entry_problem
  ledger_entry-IsUsable raw kind h =
      let (filled, dated) = fields_problem-none raw (rw kind at h) in
      let given : All (λ key. is_filled (field_of key raw) ≡ true) required_keys =
        rw kind at filled in
      record {
        finding_given = text_at-filled "finding" raw given.0;
        server_given = text_at-filled "server" raw given.1.0;
        owner_given = text_at-filled "owner" raw given.1.1.0;
        dated = dated;
      }

  tool_acceptance-IsUsableTool :
      (raw : Fields)
      → is_tool_entry raw ≡ true
      → entry_problem tools fromisoformat raw ≡ none
      → IsUsableTool fromisoformat (tool_acceptance tools fromisoformat raw)
  unfolding entry_problem
  tool_acceptance-IsUsableTool raw kind h = elim (Bool-cases (is_digest (field_of "digest" raw))) [
    | inr e ↦ absurd (cc (rw e at (rw kind at h)))
    | inl e ↦
        let (filled, dated) = fields_problem-none raw (rw e at (rw kind at h)) in
        let given : All (λ key. is_filled (field_of key raw) ≡ true) tool_required_keys =
          rw kind at filled in
        let (size, hex) = text_at-digest "digest" raw e in
        record {
          server_given = text_at-filled "server" raw given.0;
          tool_given = text_at-filled "tool" raw given.1.0;
          owner_given = text_at-filled "owner" raw given.1.1.1.0;
          digest_length = size;
          digest_hex = hex;
          dated = dated;
        }
  ]

  add_row-AllUsable :
      (source : String) (index : ℕ) (raw : Json) (load : LedgerLoad)
      → AllUsable fromisoformat load
      → AllUsable fromisoformat (add_row tools fromisoformat source index raw load)
  unfolding add_row warned
  add_row-AllUsable source index (object raw) load h =
      elim (Option-cases (entry_problem tools fromisoformat raw)) [
        | inr (problem, e) ↦
            rw (e, add_row)
              (record { entries_usable = h.entries_usable; tools_usable = h.tools_usable })
        | inl e ↦
            rw (e, add_row)
              (elim (Bool-cases (is_tool_entry raw)) [
                | inl kind ↦ rw kind (record {
                  entries_usable = h.entries_usable;
                  tools_usable = (tool_acceptance-IsUsableTool raw kind e, h.tools_usable);
                })
                | inr kind ↦ rw kind (record {
                  entries_usable = (ledger_entry-IsUsable raw kind e, h.entries_usable);
                  tools_usable = h.tools_usable;
                })
              ])
      ]
  add_row-AllUsable source index _ load h = record {
    entries_usable = h.entries_usable;
    tools_usable = h.tools_usable;
  }

  parse_rows-AllUsable :
      (source : String) (index : ℕ) (rows : Items)
      → AllUsable fromisoformat (parse_rows tools fromisoformat source index rows)
  unfolding parse_rows
  parse_rows-AllUsable source index nil = record { entries_usable = tt; tools_usable = tt }
  parse_rows-AllUsable source index (cons raw rest) =
      add_row-AllUsable source index raw (parse_rows tools fromisoformat source (index + 1) rest)
        (parse_rows-AllUsable source (index + 1) rest)

  parse_acceptances-AllUsable :
      (source : String) (rows : Option Json)
      → AllUsable fromisoformat (parse_acceptances tools fromisoformat source rows)
  unfolding parse_acceptances
  parse_acceptances-AllUsable source (some (array rows)) = parse_rows-AllUsable source 0 rows
  parse_acceptances-AllUsable source _ = record { entries_usable = tt; tools_usable = tt }

  parse_ledger-AllUsable :
      (content source : String)
      → AllUsable fromisoformat (parse_ledger tools fromisoformat content source)
  unfolding parse_ledger
  parse_ledger-AllUsable content source = go (tools.loads content)
    where
      go :
          (loaded : Decoded)
          → AllUsable fromisoformat (parse_decoded tools fromisoformat source loaded)
      go (parsed (object document)) =
          parse_acceptances-AllUsable source (field_of "acceptances" document)
      go _ = record { entries_usable = tt; tools_usable = tt }

  add_row-counts :
      (source : String) (index : ℕ) (raw : Json) (load : LedgerLoad)
      → counted (add_row tools fromisoformat source index raw load) ≡ suc (counted load)
  unfolding add_row warned
  add_row-counts source index (object raw) load =
      elim (Option-cases (entry_problem tools fromisoformat raw)) [
        | inr (problem, e) ↦ rw (e, add_row) (omega arith)
        | inl e ↦
            rw (e, add_row)
              (elim (Bool-cases (is_tool_entry raw)) [
                | inl kind ↦ rw kind (omega arith)
                | inr kind ↦ rw kind (omega arith)
              ])
      ]
  add_row-counts source index _ load = omega arith

  -- Every row of a ledger is an entry, an entry on a tool, or a warning: none is lost or counted twice.
  pub parse_rows-accounts :
      (source : String) (index : ℕ) (rows : Items)
      → counted (parse_rows tools fromisoformat source index rows) ≡ length_items rows
  unfolding parse_rows
  parse_rows-accounts source index nil = omega arith
  parse_rows-accounts source index (cons raw rest) =
      add_row-counts source index raw (parse_rows tools fromisoformat source (index + 1) rest)
      ∙ ap suc (parse_rows-accounts source (index + 1) rest)

-- Whatever the files hold, every entry that is loaded can be used: it names a finding or a tool, a
-- server and an owner, its expiry is a date, and the digest of a tool has 64 hexadecimal digits.
pub load_ledgers-AllUsable :
    (tools : JsonTools) (fromisoformat : String → Option ℕ) (ledger_path : String → String)
    (read_ledger : String → LedgerFile) (roots : List String)
    → AllUsable fromisoformat (load_ledgers tools fromisoformat ledger_path read_ledger roots)
unfolding load_ledgers load_root
load_ledgers-AllUsable tools fromisoformat ledger_path read_ledger [] = record {
  entries_usable = tt;
  tools_usable = tt;
}
load_ledgers-AllUsable tools fromisoformat ledger_path read_ledger (root ∷ rest) =
    let later = load_ledgers-AllUsable tools fromisoformat ledger_path read_ledger rest in
    let first = one (read_ledger root) in
    record {
      entries_usable =
          All-append (IsUsable fromisoformat) _ _ first.entries_usable later.entries_usable;
      tools_usable =
          All-append (IsUsableTool fromisoformat) _ _ first.tools_usable later.tools_usable;
    }
  where
    one :
        (file : LedgerFile)
        → AllUsable fromisoformat (elim file as (λ _. LedgerLoad) [
          | no_file ↦ nothing_loaded tools fromisoformat
          | unreadable error ↦
              only_warning tools fromisoformat
                ("ignoring unreadable acceptance ledger " ∷ ledger_path root ∷ ": " ∷ error ∷ [])
          | readable content ↦ parse_ledger tools fromisoformat content (ledger_path root)
        ])
    one (readable content) = parse_ledger-AllUsable tools fromisoformat content (ledger_path root)
    one _ = record { entries_usable = tt; tools_usable = tt }
