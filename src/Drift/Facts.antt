-- ===== src/Drift/Facts.antt =====
-- src/mcpscan/drift/diff.py: what is read from a fact's detail, and which parts of two details are
-- compared.
use ianua_broker.Prelude.{
  get, put, has, remove, of_pairs, Dict, num_Ord, text_Ord, pair_Ord, list_Ord, sorted, String,
  Bool, true, false, not, ◌&&◌, ◌||◌, List, [], ◌∷◌, if◌then◌else◌, ◌==◌, num_Eq, text_Eq, pair_Eq,
  option_Eq, list_Eq, select, contains,
}
use mathlib.Core.Option
use ianua_broker.Drift.Model.{FactKind, server, tool, Detail, PostureFact, detail_map}

abbrev pub is_tool : FactKind → Bool
is_tool tool = true
is_tool _ = false

abbrev pub is_server : FactKind → Bool
is_server server = true
is_server _ = false

-- d.get(key, default)
abbrev pub get_default : String → String → Dict String String → String
get_default key default d = Option.get_or (get key d) default

unfoldable pub exposure_of : PostureFact → String
unfolding detail_map
exposure_of fact = get_default "exposure" "" (detail_map fact)

unfoldable pub inspection_incomplete : PostureFact → Bool
unfolding detail_map
inspection_incomplete fact = get_default "inspection_incomplete" "false" (detail_map fact) == "true"

abbrev pub compat_optional_keys : List String
compat_optional_keys = "tool_identity" ∷ "mcpseal" ∷ []

abbrev pub imported_tool_keys : List String
imported_tool_keys = "server" ∷ "mcpseal" ∷ []

unfoldable pub imported : PostureFact → Bool
unfolding detail_map has
imported fact = is_tool fact.kind && has "provenance" (detail_map fact)

-- tuple(sorted(d.items()))
unfoldable pub frozen : Dict String String → Detail
unfolding sorted
frozen d = sorted (λ (p : String × String). p) d

-- d.setdefault(key, value)
abbrev pub set_default : String → String → Dict String String → Dict String String
set_default key value d = if has key d then d else put key value d

unfoldable pub comparable_detail : PostureFact → Detail
unfolding detail_map frozen has put
comparable_detail fact =
    if is_server fact.kind
    then frozen (set_default "inspection_incomplete" "false" (detail_map fact))
    else fact.detail

-- The loop over `_COMPAT_OPTIONAL_KEYS`: a key that either side lacks is popped from both.
unfoldable pub align_keys :
    List String → Dict String String × Dict String String → Dict String String × Dict String String
unfolding has remove
align_keys [] (b, a) = (b, a)
align_keys (key ∷ rest) (b, a) =
    align_keys rest
      (if not (has key b) || not (has key a) then (remove key b, remove key a) else (b, a))

abbrev pub only_imported_keys : Dict String String → Dict String String
only_imported_keys d = select (λ (p : String × String). contains p.0 imported_tool_keys) d

unfoldable pub aligned_details : PostureFact → PostureFact → Detail × Detail
unfolding comparable_detail imported align_keys frozen of_pairs
aligned_details before after =
    let b = of_pairs (comparable_detail before) in
    let a = of_pairs (comparable_detail after) in
    if imported before || imported after
    then (frozen (only_imported_keys b), frozen (only_imported_keys a))
    else (let both = align_keys compat_optional_keys (b, a) in (frozen both.0, frozen both.1))
