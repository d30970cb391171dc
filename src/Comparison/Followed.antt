-- ===== src/Comparison/Followed.antt =====
-- Phase 3 of the comparison keeps the ids of the targets of its entries and of its candidates.
use managment2_main.Comparison.{
  Known, Classified, Entry, Group, Choice, both_rejected, is_rejected_pair, build_candidates,
  classify_matched, classify_ambiguous, classify_row, classify, product_of, side_of, if_id, ids_of,
  or_zero, candidate_ids,
}
use managment2_main.Base.{
  ℕ, ◌≡◌, refl, true, Option, none, some, List, [], ◌∷◌, ◌++◌, map, Each, Each-append, Bool-cases,
  inl, inr, leb, ◌==◌, ==_refl,
}
use managment2_main.Models.Catalogue.{Product}
use managment2_main.Gap.{is_listed}
use managment2_main.Matching.{Item}
use managment2_main.Matching.Pairing.{Row, Candidate, MatchStatus, matched, ambiguous, no_match}
use managment2_main.Comparison.Rejected.{product_of-id, side_product}
use managment2_main.Comparison.Tracked.{Tracked, or_true, Tracked-more, Each-map}

-- Phase 3 tracks the targets of its entries and of its candidates.
abbrev pub GroupTracked : List ℕ → Group → Type 0
GroupTracked ids g = Each (λ (d : Choice). Tracked ids d.target) g.candidates

pub record Followed (c : Classified) : Type 0 where
  pub entries : Each (λ (e : Entry). Tracked c.heuristic_confirmed e.target) c.entries
  pub groups : Each (GroupTracked c.in_candidates) c.groups

groups-more :
    (more ids : List ℕ) (groups : List Group)
    → Each (GroupTracked ids) groups
    → Each (GroupTracked (more ++ ids)) groups
groups-more more ids groups h =
    Each-map groups (λ g k. Each-map g.candidates (λ d. Tracked-more more ids d.target) k) h

Tracked-found :
    (o : Option Product) (j : Item) (ids : List ℕ) → Tracked (ids_of o ++ ids) (side_of o j)
unfolding Tracked
Tracked-found o j ids t e =
    let here : o ≡ some t = side_product o j t e in rw (here, ==_refl t.id) refl

-- What the list of candidates of one group needs of the ids.
abbrev Covers : Known → List ℕ → Item × ℕ → Type 0
Covers k ids (j, percent) =
    (t : Product)
    → if_id j.db_id (product_of j.db_id k.targets) ≡ some t
    → is_listed t.id ids ≡ true

build_candidates-Tracked :
    (k : Known) (ref_prod : Option Product) (ids : List ℕ) (raw : List (Item × ℕ))
    → Each (Covers k ids) raw
    → Each (λ (d : Choice). Tracked ids d.target) (build_candidates k ref_prod raw)
unfolding build_candidates Tracked
build_candidates-Tracked k ref_prod ids [] Each.nil = Each.nil
build_candidates-Tracked k ref_prod ids ((j, percent) ∷ raw) (Each.cons h rest) =
    elim (Bool-cases (is_rejected_pair ref_prod j.db_id k.rejected)) [
      | inl bad ↦ rw bad (build_candidates-Tracked k ref_prod ids raw rest)
      | inr good ↦ rw good (
          Each.cons (λ t e. h t (side_product (if_id j.db_id (product_of j.db_id k.targets)) j t e))
            (build_candidates-Tracked k ref_prod ids raw rest))
    ]

Covers-one :
    (k : Known) (j : Item) (percent : ℕ) (ids : List ℕ)
    → Covers k (ids_of (product_of j.db_id k.targets) ++ ids) (j, percent)
Covers-one k j percent ids t e = elim (Bool-cases (j.db_id == 0)) [
  | inl none_there ↦ absurd (cc (rw none_there at e))
  | inr given ↦
      let here : product_of j.db_id k.targets ≡ some t = rw given at e in
      rw (here, ==_refl t.id) refl
]

pub listed_later : (i j : ℕ) (ids : List ℕ) → is_listed i ids ≡ true → is_listed i (j ∷ ids) ≡ true
listed_later i j ids h = rw h (or_true (i == j))

Covers-all :
    (k : Known) (candidates : List Candidate) (ids : List ℕ)
    → Each
        (Covers k (candidate_ids candidates ++ ids))
        (map (λ d. (d.item, d.score_percent)) candidates)
unfolding candidate_ids
Covers-all k [] ids = Each.nil
Covers-all k (d ∷ candidates) ids = elim (Bool-cases (d.item.db_id == 0)) [
  | inl none_there ↦
      rw none_there
        (Each.cons (λ t e. absurd (cc (rw none_there at e))) (Covers-all k candidates ids))
  | inr given ↦ rw given (
      Each.cons
        (λ t e.
          let here : product_of d.item.db_id k.targets ≡ some t = rw given at e in
          rw (product_of-id d.item.db_id k.targets t here, ==_refl d.item.db_id) refl)
        (Each-map (map (λ d. (d.item, d.score_percent)) candidates)
          (λ p h t e. listed_later t.id d.item.db_id (candidate_ids candidates ++ ids) (h t e))
          (Covers-all k candidates ids)))
]

classify_matched-Followed :
    (k : Known) (i j : Item) (percent : ℕ) (c : Classified)
    → Followed c
    → Followed (classify_matched k i j percent c)
unfolding classify_matched
classify_matched-Followed k i j percent c n =
    elim (Bool-cases
      (both_rejected (product_of i.db_id k.references) (product_of j.db_id k.targets) k.rejected)) [
        | inl bad ↦ rw bad (record { entries = n.entries; groups = n.groups })
        | inr good ↦ elim (Bool-cases (leb 85 percent)) [
          | inl high ↦
              rw (good, high)
                (record {
                  entries =
                      Each-append c.entries _
                        (Each-map c.entries
                          (λ e.
                            Tracked-more (ids_of (product_of j.db_id k.targets))
                              c.heuristic_confirmed e.target)
                          n.entries)
                        (Each.cons
                          (Tracked-found (product_of j.db_id k.targets) j c.heuristic_confirmed)
                          Each.nil);
                  groups = n.groups;
                })
          | inr low ↦
              rw (good, low)
                (record {
                  entries = n.entries;
                  groups =
                      Each-append c.groups _
                        (groups-more (ids_of (product_of j.db_id k.targets)) c.in_candidates
                          c.groups n.groups)
                        (Each.cons
                          (build_candidates-Tracked k (product_of i.db_id k.references)
                            (ids_of (product_of j.db_id k.targets) ++ c.in_candidates)
                            ((j, percent) ∷ [])
                            (Each.cons (Covers-one k j percent c.in_candidates) Each.nil))
                          Each.nil);
                })
        ]
      ]

classify_row-Followed :
    (k : Known) (main : Option Item) (status : MatchStatus) (other : Option Item) (row : Row)
    (c : Classified)
    → Followed c
    → Followed (classify_row k (record row { main = main; status = status; other = other }) c)
unfolding classify_row classify_ambiguous
classify_row-Followed k none status other row c n = n
classify_row-Followed k (some i) matched none row c n = n
classify_row-Followed k (some i) matched (some j) row c n =
    classify_matched-Followed k i j (or_zero row.score_percent) c n
classify_row-Followed k (some i) ambiguous other row c n = record {
  entries = n.entries;
  groups =
      Each-append c.groups _
        (groups-more (candidate_ids row.candidates) c.in_candidates c.groups n.groups)
        (Each.cons
          (build_candidates-Tracked k (product_of i.db_id k.references)
            (candidate_ids row.candidates ++ c.in_candidates)
            (map (λ d. (d.item, d.score_percent)) row.candidates)
            (Covers-all k row.candidates c.in_candidates))
          Each.nil);
}
classify_row-Followed k (some i) no_match none row c n = record {
  entries = n.entries;
  groups = n.groups;
}
classify_row-Followed k (some i) no_match (some j) row c n = n

pub classify-Followed :
    (k : Known) (rows : List Row) (c : Classified) → Followed c → Followed (classify k rows c)
unfolding classify
classify-Followed k [] c n = n
classify-Followed k (row ∷ rows) c n =
    classify-Followed k rows (classify_row k row c)
      (classify_row-Followed k row.main row.status row.other row c n)
