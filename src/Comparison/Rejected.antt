-- ===== src/Comparison/Rejected.antt =====
-- A rejected pair is in no heuristic match and in no list of candidates.
use managment2_main.Catalogue.Mappings.{get_rejected_pairs_for_refs}
use managment2_main.Base.{
  ◌∙◌, ℕ, ℤ, String, ◌≡◌, false, not, ◌&&◌, Option, none, some, List, [], ◌∷◌, map, Each,
  Each-append, Bool-cases, Option-cases, inl, inr, leb, ◌==◌, ==_iff,
}
use managment2_main.Models.Catalogue.{Product}
use managment2_main.Engine.{Engine}
use managment2_main.Session.{World}
use managment2_main.Matching.{Matcher, Item}
use managment2_main.Matching.Pairing.{
  Row, MatchStatus, matched, ambiguous, no_match, heuristic_match,
}
use managment2_main.Comparison.{
  Target, Known, Classified, nothing_classified, Side, Entry, Group, Choice, has_pair,
  both_rejected, is_rejected_pair, build_candidates, classify_matched, classify_ambiguous,
  classify_row, classify, product_of, classified_of, known_of, choice_of, side_of, if_id, or_zero,
  product_to_item,
}

pub product_of-id :
    (i : ℕ) (products : List Product) (p : Product) → product_of i products ≡ some p → p.id ≡ i
unfolding product_of
product_of-id i [] p h = absurd (cc)
product_of-id i (q ∷ products) p h = elim (Option-cases (product_of i products)) [
  | inr (r, later) ↦ product_of-id i products p (later ∙ (rw later at h))
  | inl nothing ↦ elim (Bool-cases (q.id == i)) [
    | inl same ↦
        let first : some q ≡ some p = rw (nothing, same) at h in
        let here : q ≡ p = cc in rw (← here) ((==_iff q.id i).0 same)
    | inr other ↦ absurd (cc (rw (nothing, other) at h))
  ]
]

-- Two sides that are products are no rejected pair; ids start at 1.
unfoldable pub Allowed : List (ℕ × ℕ) → Side → Side → Type 0
Allowed pairs reference target =
    (r t : Product)
    → reference ≡ Side.product r
    → target ≡ Side.product t
    → (r.id == 0) ≡ false
    → has_pair r.id t.id pairs ≡ false

-- Every heuristic match and every candidate is allowed.
pub record NoRejected (pairs : List (ℕ × ℕ)) (c : Classified) : Type 0 where
  pub entries : Each (λ (e : Entry). Allowed pairs e.reference e.target) c.entries
  pub candidates :
      Each
        (λ (g : Group). Each (λ (d : Choice). Allowed pairs g.reference d.target) g.candidates)
        c.groups

pub side_product :
    (o : Option Product) (i : Item) (p : Product) → side_of o i ≡ Side.product p → o ≡ some p
side_product none i p h = absurd (cc)
side_product (some q) i p h = cc

Allowed-entry :
    (pairs : List (ℕ × ℕ)) (ref_prod tgt_prod : Option Product) (i j : Item)
    → both_rejected ref_prod tgt_prod pairs ≡ false
    → Allowed pairs (side_of ref_prod i) (side_of tgt_prod j)
unfolding Allowed
Allowed-entry pairs ref_prod tgt_prod i j good r t hr ht nonzero =
    let er : ref_prod ≡ some r = side_product ref_prod i r hr in
    let et : tgt_prod ≡ some t = side_product tgt_prod j t ht in rw (er, et) at good

Allowed-choice :
    (k : Known) (ref_prod : Option Product) (i j : Item) (percent : ℕ)
    → is_rejected_pair ref_prod j.db_id k.rejected ≡ false
    → Allowed k.rejected (side_of ref_prod i) (choice_of k j percent).target
unfolding Allowed
Allowed-choice k ref_prod i j percent good r t hr ht nonzero =
    let er : ref_prod ≡ some r = side_product ref_prod i r hr in
    let et : if_id j.db_id (product_of j.db_id k.targets) ≡ some t =
      side_product (if_id j.db_id (product_of j.db_id k.targets)) j t ht in
    elim (Bool-cases (j.db_id == 0)) [
      | inl zero_id ↦ absurd (cc (rw zero_id at et))
      | inr given ↦
          let found : product_of j.db_id k.targets ≡ some t = rw given at et in
          let apart : (not (r.id == 0) && not (j.db_id == 0) && has_pair r.id j.db_id k.rejected)
              ≡ false =
            rw er at good in
          rw (product_of-id j.db_id k.targets t found) (rw (nonzero, given) at apart)
    ]

-- The list of candidates of one group.
build_candidates-Allowed :
    (k : Known) (ref_prod : Option Product) (i : Item) (raw : List (Item × ℕ))
    → Each
        (λ (d : Choice). Allowed k.rejected (side_of ref_prod i) d.target)
        (build_candidates k ref_prod raw)
unfolding build_candidates
build_candidates-Allowed k ref_prod i [] = Each.nil
build_candidates-Allowed k ref_prod i ((j, percent) ∷ raw) =
    elim (Bool-cases (is_rejected_pair ref_prod j.db_id k.rejected)) [
      | inl bad ↦ rw bad (build_candidates-Allowed k ref_prod i raw)
      | inr good ↦ rw good (
          Each.cons (Allowed-choice k ref_prod i j percent good)
            (build_candidates-Allowed k ref_prod i raw))
    ]

classify_matched-NoRejected :
    (k : Known) (i j : Item) (percent : ℕ) (c : Classified)
    → NoRejected k.rejected c
    → NoRejected k.rejected (classify_matched k i j percent c)
unfolding classify_matched
classify_matched-NoRejected k i j percent c n =
    elim (Bool-cases
      (both_rejected (product_of i.db_id k.references) (product_of j.db_id k.targets) k.rejected)) [
        | inl bad ↦ rw bad (record { entries = n.entries; candidates = n.candidates })
        | inr good ↦ elim (Bool-cases (leb 85 percent)) [
          | inl high ↦
              rw (good, high)
                (record {
                  entries = Each-append c.entries _ n.entries (
                      Each.cons
                        (Allowed-entry k.rejected (product_of i.db_id k.references)
                          (product_of j.db_id k.targets) i j good)
                        Each.nil);
                  candidates = n.candidates;
                })
          | inr low ↦
              rw (good, low)
                (record {
                  entries = n.entries;
                  candidates = Each-append c.groups _ n.candidates (
                      Each.cons
                        (build_candidates-Allowed k (product_of i.db_id k.references) i
                          ((j, percent) ∷ []))
                        Each.nil);
                })
        ]
      ]

classify_row-NoRejected :
    (k : Known) (main : Option Item) (status : MatchStatus) (other : Option Item) (row : Row)
    (c : Classified)
    → NoRejected k.rejected c
    → NoRejected k.rejected
        (classify_row k (record row { main = main; status = status; other = other }) c)
unfolding classify_row classify_ambiguous
classify_row-NoRejected k none status other row c n = n
classify_row-NoRejected k (some i) matched none row c n = n
classify_row-NoRejected k (some i) matched (some j) row c n =
    classify_matched-NoRejected k i j (or_zero row.score_percent) c n
classify_row-NoRejected k (some i) ambiguous other row c n = record {
  entries = n.entries;
  candidates = Each-append c.groups _ n.candidates (
      Each.cons
        (build_candidates-Allowed k (product_of i.db_id k.references) i
          (map (λ d. (d.item, d.score_percent)) row.candidates))
        Each.nil);
}
classify_row-NoRejected k (some i) no_match none row c n = record {
  entries = n.entries;
  candidates = n.candidates;
}
classify_row-NoRejected k (some i) no_match (some j) row c n = n

classify-NoRejected :
    (k : Known) (rows : List Row) (c : Classified)
    → NoRejected k.rejected c
    → NoRejected k.rejected (classify k rows c)
unfolding classify
classify-NoRejected k [] c n = n
classify-NoRejected k (row ∷ rows) c n =
    classify-NoRejected k rows (classify_row k row c)
      (classify_row-NoRejected k row.main row.status row.other row c n)

module _ ⦃e : Engine⦄ ⦃m : Matcher⦄ (price_text : Option ℤ → Option String → String) where
  -- Whatever the matching finds, no pair of a reference product and a target product that a
  -- stored mapping of the compared products rejects is a heuristic match or a candidate, where
  -- the id of the reference product is not 0.
  pub classified_of-NoRejected :
      (refs : List Product) (targets : List Target) (w : World)
      → NoRejected
          (get_rejected_pairs_for_refs (map (λ r. r.id) refs) w)
          (classified_of price_text refs targets w)
  unfolding classified_of
  classified_of-NoRejected refs targets w =
      classify-NoRejected (known_of refs targets w)
        (heuristic_match (map (product_to_item price_text) (known_of refs targets w).references)
          (map (product_to_item price_text) (known_of refs targets w).targets))
        nothing_classified (record { entries = Each.nil; candidates = Each.nil })
