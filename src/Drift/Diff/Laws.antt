-- ===== src/Drift/Diff/Laws.antt =====
-- Which entries the diff of two snapshots has.
use ianua_broker.Prelude.{
  get, has, remove, of_pairs, All-get, NoRepeats-of_pairs, Dict, keys, num_Ord, text_Ord, pair_Ord,
  list_Ord, sorted, String, ◌≡◌, refl, ap, ◌∙◌, Bool, true, false, not, ◌&&◌, ◌||◌, none, some,
  List, [], ◌∷◌, ◌++◌, map, arith, if_rule, num_Eq, text_Eq, pair_Eq, option_Eq, list_beq_iff,
  list_Eq, select, any, All, All-map_pred, NoRepeats, any-sorted,
}
use ianua_broker.Drift.Model.{PostureFact, Snapshot, by_key, DriftEntry}
use ianua_broker.Drift.Facts.{
  aligned_details, align_keys, imported, frozen, compat_optional_keys, comparable_detail,
}
use ianua_broker.Drift.Model.{Detail}
use ianua_broker.Drift.Diff.{
  changed_entries, changed_loop, same_details, diff_entries, diff_snapshots, added_entry, entry_key,
  removed_entry, changed_entry,
}

abbrev Facts : Type 0
Facts = Dict String PostureFact

-- A dictionary against itself.

has_of_get :
    (key : String) (d : Facts) {fact : PostureFact} → get key d ≡ some fact → has key d ≡ true
unfolding has
has_of_get key d h = rw (h, has)

has-none : (key : String) (d : Facts) → get key d ≡ none → has key d ≡ false
unfolding has
has-none key d h = rw (h, has)

has-All : (d : Facts) → NoRepeats (keys d) → All (λ p. has p.0 d ≡ true) d
has-All d h =
    All-map_pred {P = λ p. get p.0 d ≡ some p.1} d (λ p q. has_of_get p.0 d q) (All-get d h)

select_none {ℓ} :
    {A : Type ℓ} (p : A → Bool) (xs : List A)
    → All (λ x. p x ≡ true) xs
    → select (λ x. not (p x)) xs ≡ []
select_none p [] h = refl
select_none p (x ∷ xs) h = rw h.0 (select_none p xs h.1)

align_keys_same :
    (names : List String) (d : Dict String String)
    → (align_keys names (d, d)).0 ≡ (align_keys names (d, d)).1
unfolding align_keys
align_keys_same [] d = refl
align_keys_same (key ∷ rest) d =
    if_rule (λ both. (align_keys rest both).0 ≡ (align_keys rest both).1)
      (not (has key d) || not (has key d)) (remove key d, remove key d) (d, d)
      (λ _. align_keys_same rest (remove key d)) (λ _. align_keys_same rest d)

aligned_details_same : (f : PostureFact) → (aligned_details f f).0 ≡ (aligned_details f f).1
unfolding aligned_details
aligned_details_same f =
    if_rule (λ (both : Detail × Detail). both.0 ≡ both.1) (imported f || imported f) _ _ (λ _. refl)
      (λ _. ap frozen (align_keys_same compat_optional_keys (of_pairs (comparable_detail f))))

same_details_self : (f : PostureFact) → same_details f f ≡ true
same_details_self f =
    (list_beq_iff (aligned_details f f).0 (aligned_details f f).1).1 (aligned_details_same f)

changed_loop_self :
    (d rest : Facts) → All (λ p. get p.0 d ≡ some p.1) rest → changed_loop d rest ≡ []
unfolding changed_loop changed_entries
changed_loop_self d [] h = refl
changed_loop_self d ((key, fact) ∷ rest) h =
    rw (h.0, changed_entries) (rw (same_details_self fact) (changed_loop_self d rest h.1))

-- A snapshot against itself has no drift, whatever facts it holds and however often a key comes.
pub diff_snapshots_self : (s : Snapshot) → (diff_snapshots s s).entries ≡ []
unfolding diff_snapshots diff_entries sorted by_key
diff_snapshots_self s =
    let d = by_key s in
    let distinct = NoRepeats-of_pairs (map (λ (f : PostureFact). (f.key, f)) s.facts) in
    rw (select_none (λ (p : String × PostureFact). has p.0 d) d (has-All d distinct))
      (rw (changed_loop_self d d (All-get d distinct)))

-- What holds of one element that `get` finds holds of some element.
any_of_get :
    (Q : String × PostureFact → Bool) (key : String) (fact : PostureFact) (d : Facts)
    → get key d ≡ some fact
    → Q (key, fact) ≡ true
    → any Q d ≡ true
unfolding get
any_of_get Q key fact [] h q = cc
any_of_get Q key fact ((j, f) ∷ d) h q =
    ground (arith, any_of_get Q key fact d, text_Eq.beq_iff j key)

any-append {ℓ} :
    {A : Type ℓ} (Q : A → Bool) (xs ys : List A) → any Q (xs ++ ys) ≡ (any Q xs || any Q ys)
any-append Q [] ys = refl
any-append Q (x ∷ xs) ys = ground (arith, any-append Q xs ys)

any-map-select {ℓ κ} :
    {A : Type ℓ} {B : Type κ} (Q : B → Bool) (f : A → B) (p : A → Bool) (xs : List A)
    → any Q (map f (select p xs)) ≡ any (λ x. p x && Q (f x)) xs
any-map-select Q f p [] = refl
any-map-select Q f p (x ∷ xs) = ground (arith, any-map-select Q f p xs)

any-changed_loop :
    (Q : DriftEntry → Bool) (new rest : Facts)
    → any Q (changed_loop new rest) ≡ any (λ p. any Q (changed_entries new p)) rest
unfolding changed_loop
any-changed_loop Q new [] = refl
any-changed_loop Q new (p ∷ rest) =
    any-append Q (changed_entries new p) (changed_loop new rest)
    ∙ ap (λ b. any Q (changed_entries new p) || b) (any-changed_loop Q new rest)

module _ (baseline current : Snapshot) (Q : DriftEntry → Bool) (key : String) where
  abbrev reported : Bool
  reported = any Q (diff_snapshots baseline current).entries

  any-diff : reported ≡ (
      any
        (λ (p : String × PostureFact).
          not (has p.0 (by_key baseline)) && Q (added_entry (by_key baseline) p))
        (by_key current)
      || (any
            (λ (p : String × PostureFact). not (has p.0 (by_key current)) && Q (removed_entry p))
            (by_key baseline)
          || any (λ p. any Q (changed_entries (by_key current) p)) (by_key baseline)))
  unfolding diff_snapshots diff_entries
  any-diff =
      any-sorted entry_key Q (diff_entries (by_key baseline) (by_key current))
      ∙ rw (any-append, any-append, any-map-select, any-map-select, any-changed_loop) refl

  -- The diff leaves nothing out: a fact that only the current snapshot has, one that only the
  -- baseline has, and one whose compared details differ each have their entry in the report, with
  -- the direction and cause that the classification gives. (`Q` is any test that the entry passes.)
  pub diff_snapshots_complete :
      ((fact : PostureFact)
        → get key (by_key current) ≡ some fact
        → get key (by_key baseline) ≡ none
        → Q (added_entry (by_key baseline) (key, fact)) ≡ true
        → reported ≡ true)
      × ((fact : PostureFact)
          → get key (by_key baseline) ≡ some fact
          → get key (by_key current) ≡ none
          → Q (removed_entry (key, fact)) ≡ true
          → reported ≡ true)
      × ((before after : PostureFact)
          → get key (by_key baseline) ≡ some before
          → get key (by_key current) ≡ some after
          → same_details before after ≡ false
          → Q (changed_entry key before after) ≡ true
          → reported ≡ true)
  diff_snapshots_complete = (
    λ fact here gone q.
        let found =
          any_of_get (λ p. not (has p.0 (by_key baseline)) && Q (added_entry (by_key baseline) p))
            key fact (by_key current) here (rw (has-none key (by_key baseline) gone) q) in
        any-diff ∙ rw found,
    λ fact here gone q.
        let found =
          any_of_get (λ p. not (has p.0 (by_key current)) && Q (removed_entry p)) key fact
            (by_key baseline) here (rw (has-none key (by_key current) gone) q) in
        any-diff ∙ rw found (ground arith),
    λ before after was now differ q.
        let found =
          any_of_get (λ p. any Q (changed_entries (by_key current) p)) key before (by_key baseline)
            was (unfold changed_entries in rw (now, changed_entries) (rw (differ, q))) in
        any-diff ∙ rw found (ground arith),
  )
