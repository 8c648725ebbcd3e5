-- ===== src/Acceptance/Ledger.antt =====
-- src/mcpscan/acceptance.py: the parsing and reading of ledgers. `date.fromisoformat` is a parameter
-- (`none` is its ValueError), as are the files and the paths of the ledgers.
pub mod Valid
use mathlib.Core.Option
use ianua_broker.Json.{
  object, field, array, text, nil, cons, end, Json, Items, Fields, field_of, null, parsed,
  malformed, too_deep, Decoded, JsonTools,
}
use ianua_broker.Prelude.{
  num_Ord, text_Ord, pair_Ord, list_Ord, zero, suc, refl, inl, inr, true, false, none, some, [],
  ◌∷◌, text_Eq, num_Eq, pair_Eq, option_Eq, list_Eq, Bool, List, Option, String, has_ink, ℕ, concat,
  if◌then◌else◌, leb, num_eq, ◌&&◌, ◌++◌, ◌+◌, decimal, length, not, ◌||◌, codes, all,
}
use ianua_broker.Acceptance.{LedgerEntry, ToolDriftAcceptance}

pub record LedgerLoad : Type 0 where
  pub entries : List LedgerEntry
  pub warnings : List String
  pub tool_entries : List ToolDriftAcceptance

abbrev pub required_keys : List String
required_keys = "finding" ∷ "server" ∷ "owner" ∷ "expires" ∷ []

abbrev pub tool_required_keys : List String
tool_required_keys = "server" ∷ "tool" ∷ "digest" ∷ "owner" ∷ "expires" ∷ []

abbrev pub optional_keys : List String
optional_keys = "accepted" ∷ "reason" ∷ []

abbrev pub is_given : Option Json → Bool
is_given none = false
is_given (some value) = true

-- `_is_tool_entry`, on an object
unfoldable pub is_tool_entry : Fields → Bool
unfolding field_of
is_tool_entry raw = is_given (field_of "tool" raw) && not (is_given (field_of "finding" raw))

-- `c in "0123456789abcdef"`
abbrev pub is_hex : ℕ → Bool
is_hex c = (leb 48 c && leb c 57) || (leb 97 c && leb c 102)

-- `isinstance(digest, str) and len(digest) == 64 and all(...)`
unfoldable pub is_digest : Option Json → Bool
is_digest (some (text s)) = num_eq (length (codes s)) 64 && all is_hex (codes s)
is_digest _ = false

-- `isinstance(value, str) and value.strip()`
unfoldable pub is_filled : Option Json → Bool
unfolding has_ink
is_filled (some (text s)) = has_ink s
is_filled _ = false

-- `key not in raw or isinstance(raw[key], str)`
unfoldable pub is_text_or_missing : Option Json → Bool
is_text_or_missing none = true
is_text_or_missing (some (text s)) = true
is_text_or_missing (some _) = false

-- The loop over the required keys.
unfoldable pub first_unfilled : Fields → List String → Option String
unfolding field_of is_filled
first_unfilled raw [] = none
first_unfilled raw (key ∷ rest) =
    let later = first_unfilled raw rest in if is_filled (field_of key raw) then later else some key

-- The loop over the optional keys.
unfoldable pub first_no_text : Fields → List String → Option String
unfolding field_of is_text_or_missing
first_no_text raw [] = none
first_no_text raw (key ∷ rest) =
    let later = first_no_text raw rest in
    if is_text_or_missing (field_of key raw) then later else some key

-- `raw.get(key, "")` of a text
unfoldable pub text_at : String → Fields → String
unfolding field_of
text_at key raw = elim (field_of key raw) [ some (text s) ↦ s | _ ↦ "" ]

abbrev pub keys_needed : Fields → List String
keys_needed raw = if is_tool_entry raw then tool_required_keys else required_keys

module _ (tools : JsonTools) (fromisoformat : String → Option ℕ) where
  -- The last test: the date of the expiry.
  unfoldable pub expiry_problem : String → Option String
  unfolding concat
  expiry_problem expires = elim (fromisoformat expires) [
    | none ↦
        some
          (concat ("invalid 'expires' date " ∷ tools.repr expires ∷ " (expected YYYY-MM-DD)" ∷ []))
    | some day ↦ none
  ]

  -- The tests after that of the digest.
  unfoldable pub fields_problem : Fields → Option String
  unfolding is_tool_entry first_unfilled first_no_text text_at expiry_problem concat
  fields_problem raw = elim (first_unfilled raw (keys_needed raw)) [
    | some key ↦ some (
        concat
          ("missing or empty '" ∷ key ∷ "' (a named human owner and an expiry are required)" ∷ []))
    | none ↦ elim (first_no_text raw optional_keys) [
      | some key ↦ some (concat ("'" ∷ key ∷ "' must be a string" ∷ []))
      | none ↦ expiry_problem (text_at "expires" raw)
    ]
  ]

  unfoldable pub entry_problem : Fields → Option String
  unfolding is_tool_entry is_digest field_of fields_problem
  entry_problem raw =
      if is_tool_entry raw && not (is_digest (field_of "digest" raw))
      then some "'digest' must be the tool's 64-hex sha256 digest"
      else fields_problem raw

  abbrev pub tool_acceptance : Fields → ToolDriftAcceptance
  tool_acceptance raw = record {
    server = text_at "server" raw;
    tool = text_at "tool" raw;
    digest = text_at "digest" raw;
    owner = text_at "owner" raw;
    accepted = text_at "accepted" raw;
    expires = text_at "expires" raw;
    reason = text_at "reason" raw;
  }

  abbrev pub ledger_entry : Fields → LedgerEntry
  ledger_entry raw = record {
    finding = text_at "finding" raw;
    server = text_at "server" raw;
    owner = text_at "owner" raw;
    accepted = text_at "accepted" raw;
    expires = text_at "expires" raw;
    reason = text_at "reason" raw;
  }

  -- What one row adds.
  unfoldable pub warned : String → ℕ → String → LedgerLoad → LedgerLoad
  unfolding concat decimal
  warned source index problem load = record load {
    warnings =
        concat
          ("ignoring acceptance #" ∷ decimal (index + 1) ∷ " in " ∷ source ∷ ": " ∷ problem ∷ [])
        ∷ load.warnings;
  }

  unfoldable pub add_row : String → ℕ → Json → LedgerLoad → LedgerLoad
  unfolding entry_problem is_tool_entry text_at warned
  add_row source index (object raw) load = elim (entry_problem raw) [
    | some problem ↦ warned source index problem load
    | none ↦
        if is_tool_entry raw
        then record load { tool_entries = tool_acceptance raw ∷ load.tool_entries }
        else record load { entries = ledger_entry raw ∷ load.entries }
  ]
  add_row source index _ load = warned source index "entry is not an object" load

  abbrev pub nothing_loaded : LedgerLoad
  nothing_loaded = record { entries = []; warnings = []; tool_entries = [] }

  -- The loop over the rows.
  unfoldable pub parse_rows : String → ℕ → Items → LedgerLoad
  unfolding add_row
  parse_rows source index nil = nothing_loaded
  parse_rows source index (cons raw rest) =
      add_row source index raw (parse_rows source (index + 1) rest)

  abbrev pub only_warning : List String → LedgerLoad
  only_warning parts = record { entries = []; warnings = concat parts ∷ []; tool_entries = [] }

  abbrev pub unexpected : String → LedgerLoad
  unexpected source = only_warning (
      "ignoring malformed acceptance ledger " ∷ source ∷ ": expected {\"acceptances\": [...]}" ∷ [])

  unfoldable pub parse_acceptances : String → Option Json → LedgerLoad
  unfolding parse_rows concat
  parse_acceptances source (some (array rows)) = parse_rows source 0 rows
  parse_acceptances source _ = unexpected source

  unfoldable pub parse_decoded : String → Decoded → LedgerLoad
  unfolding parse_acceptances field_of concat
  parse_decoded source malformed =
      only_warning ("ignoring malformed acceptance ledger " ∷ source ∷ ": not valid JSON" ∷ [])
  parse_decoded source too_deep =
      only_warning ("ignoring malformed acceptance ledger " ∷ source ∷ ": nesting is too deep" ∷ [])
  parse_decoded source (parsed (object document)) =
      parse_acceptances source (field_of "acceptances" document)
  parse_decoded source (parsed _) = unexpected source

  unfoldable pub parse_ledger : String → String → LedgerLoad
  unfolding parse_decoded
  parse_ledger s source = parse_decoded source (tools.loads s)

-- What `path.exists()` and `safe_read_text` give.
pub data LedgerFile : Type 0 where
  no_file : LedgerFile
  unreadable : (error : String) → LedgerFile
  readable : (content : String) → LedgerFile

module _ (tools : JsonTools) (fromisoformat : String → Option ℕ) (ledger_path : String → String)
    (read_ledger : String → LedgerFile) where
  unfoldable pub load_root : String → LedgerLoad
  unfolding parse_ledger concat
  load_root root = elim (read_ledger root) [
    | no_file ↦ nothing_loaded tools fromisoformat
    | unreadable error ↦
        only_warning tools fromisoformat
          ("ignoring unreadable acceptance ledger " ∷ ledger_path root ∷ ": " ∷ error ∷ [])
    | readable content ↦ parse_ledger tools fromisoformat content (ledger_path root)
  ]

  -- The loop over the roots.
  unfoldable pub load_ledgers : List String → LedgerLoad
  unfolding load_root
  load_ledgers [] = nothing_loaded tools fromisoformat
  load_ledgers (root ∷ rest) =
      let first = load_root root in
      let later = load_ledgers rest in
      record {
        entries = first.entries ++ later.entries;
        warnings = first.warnings ++ later.warnings;
        tool_entries = first.tool_entries ++ later.tool_entries;
      }
