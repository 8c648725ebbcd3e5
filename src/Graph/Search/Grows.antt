-- ===== src/Graph/Search/Grows.antt =====
-- What the search adds to its state, and how the recorded chains grow.
use ianua_broker.Graph.Search.Spec.{has_chain}
use ianua_broker.Graph.Model.{edge_kind_Eq, EdgeKind, AttackPath}
use ianua_broker.Prelude.{List, String, ◌≡◌, ◌++◌, arith, ◌||◌, list_beq_iff, refl, true, false}
use ianua_broker.Prelude.{
  num_Ord, text_Ord, pair_Ord, list_Ord, refl, true, false, [], ◌∷◌, text_Eq, num_Eq, pair_Eq,
  option_Eq, list_Eq,
}
use ianua_broker.Graph.Search.{Found}

-- The flags stay set and the chains stay recorded.
pub record Grows (st st' : Found) : Type 0 where
  pub open_before : st'.ceiling_hit ≡ false → st.ceiling_hit ≡ false
  pub shallow_before : st'.depth_capped ≡ false → st.depth_capped ≡ false
  pub kept :
      (ids : List String) (kinds : List EdgeKind)
      → has_chain ids kinds st.found ≡ true
      → has_chain ids kinds st'.found ≡ true

pub Grows-refl : (st : Found) → Grows st st
Grows-refl st = record { open_before = λ h. h; shallow_before = λ h. h; kept = λ ids kinds h. h }

pub Grows-trans : {a b c : Found} → Grows a b → Grows b c → Grows a c
Grows-trans g k = record {
  open_before = λ h. g.open_before (k.open_before h);
  shallow_before = λ h. g.shallow_before (k.shallow_before h);
  kept = λ ids kinds h. k.kept ids kinds (g.kept ids kinds h);
}

pub has_chain-append :
    (ids : List String) (kinds : List EdgeKind) (xs ys : List AttackPath)
    → has_chain ids kinds (xs ++ ys) ≡ (has_chain ids kinds xs || has_chain ids kinds ys)
has_chain-append ids kinds [] ys = refl
has_chain-append ids kinds (x ∷ xs) ys = ground (arith, has_chain-append ids kinds xs ys)

pub set_ceiling : (st : Found) → Grows st (record st { ceiling_hit = true })
set_ceiling st = record {
  open_before = λ h. absurd (cc);
  shallow_before = λ h. h;
  kept = λ ids kinds h. h;
}

pub append_path :
    (st : Found) (path : AttackPath) → Grows st (record st { found = st.found ++ path ∷ [] })
append_path st path = record {
  open_before = λ h. h;
  shallow_before = λ h. h;
  kept = λ ids kinds h. ground (arith, has_chain-append ids kinds st.found (path ∷ []));
}

pub has_chain-last :
    (ids : List String) (kinds : List EdgeKind) (xs : List AttackPath) (path : AttackPath)
    → path.nodes ≡ ids
    → path.edges ≡ kinds
    → has_chain ids kinds (xs ++ path ∷ []) ≡ true
has_chain-last ids kinds xs path e f = ground (
  arith,
  has_chain-append ids kinds xs (path ∷ []),
  list_beq_iff path.nodes ids,
  list_beq_iff path.edges kinds,
)

pub set_capped : (st : Found) → Grows st (record st { depth_capped = true })
set_capped st = record {
  open_before = λ h. h;
  shallow_before = λ h. absurd (cc);
  kept = λ ids kinds h. h;
}
