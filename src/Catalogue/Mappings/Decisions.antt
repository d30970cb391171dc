-- ===== src/Catalogue/Mappings/Decisions.antt =====
-- The table of product mappings as a partial function from pairs to decisions.
use managment2_main.Base.{
  Bool, if◌then◌else◌, find_sound, find, map, Bool-cases, ℕ, ◌≡◌, refl, String, true, false, ◌&&◌,
  Option, none, some, List, tally, ◌==◌, ==_iff, Option-cases, inl, inr, and-true, eq_iff,
}
use managment2_main.Query.Keyed.{
  find-insert, find-change, Keyed, Keyed-update, Keyed-append, one_row-eq,
}
use managment2_main.Models.{Datetime}
use managment2_main.Models.Catalogue.{ProductMapping}
use managment2_main.Engine.{Engine, EngineLaws}
use managment2_main.Session.{World, change_catalogue, utcnow}
use managment2_main.Catalogue.{change_product_mapping, add_product_mapping}
use managment2_main.Catalogue.Categories.{same_text, same_number}
use managment2_main.Catalogue.Mappings.{
  is_product_pair, get_product_mapping, Decision, same_decision, with_decision, new_mapping,
  write_mapping, create_product_mapping,
}

-- Ids and pairs are unique.
abbrev pub Stored : List ProductMapping → Type 0
Stored = Keyed (λ m. m.id) is_product_pair

-- The abstract view: what is decided of a pair.
abbrev pub decision_of : Option ProductMapping → Option Decision
decision_of none = none
decision_of (some m) =
    some (record { match_status = m.match_status; confidence = m.confidence; comment = m.comment })

unfoldable pub decided : World → ℕ → ℕ → Option Decision
decided w reference target =
    decision_of (find (is_product_pair (reference, target)) w.catalogue.product_mappings)

same_text_sound : (s t : Option String) → same_text s t ≡ true → s ≡ t
same_text_sound none none h = refl
same_text_sound none (some t) h = absurd (cc)
same_text_sound (some s) none h = absurd (cc)
same_text_sound (some s) (some t) h = rw ((eq_iff s t).0 h) refl

same_number_sound : (a b : Option ℕ) → same_number a b ≡ true → a ≡ b
same_number_sound none none h = refl
same_number_sound none (some t) h = absurd (cc)
same_number_sound (some s) none h = absurd (cc)
same_number_sound (some s) (some t) h = rw ((==_iff s t).0 h) refl

-- A row that has the decision already is the row that the decision makes.
same_decision_sound :
    (d : Decision) (m : ProductMapping) → same_decision d m ≡ true → decision_of (some m) ≡ some d
same_decision_sound d m h =
    let (rest, hm) =
      and-true (same_text m.match_status d.match_status && same_number m.confidence d.confidence)
        (same_text m.comment d.comment) h in
    let (hs, hc) =
      and-true (same_text m.match_status d.match_status) (same_number m.confidence d.confidence)
        rest in
    rw
      (
        same_text_sound m.match_status d.match_status hs,
        same_number_sound m.confidence d.confidence hc,
        same_text_sound m.comment d.comment hm,
      )
      refl

same_pair : (r t r' t' : ℕ) → ((r == r') && (t == t')) ≡ true → ◌≡◌ {A = ℕ × ℕ} (r', t') (r, t)
same_pair r t r' t' h =
    let (er, et) = and-true (r == r') (t == t') h in
    rw ((==_iff r r').0 er, (==_iff t t').0 et) refl

row_pair :
    (r t r' t' : ℕ) (m : ProductMapping)
    → is_product_pair (r, t) m ≡ true
    → is_product_pair (r', t') m ≡ ((r == r') && (t == t'))
row_pair r t r' t' m h =
    let (er, et) = and-true (m.reference_product_id == r) (m.target_product_id == t) h in
    rw ((==_iff m.reference_product_id r).0 er, (==_iff m.target_product_id t).0 et) refl

decision_of-if :
    (b : Bool) (m : ProductMapping) (o : Option ProductMapping)
    → decision_of (if b then some m else o) ≡ (if b then decision_of (some m) else decision_of o)
decision_of-if true m o = refl
decision_of-if false m o = refl

module _ ⦃e : Engine⦄ where
  create_product_mapping-eq :
      (r t : ℕ) (d : Decision) (w : World)
      → Stored w.catalogue.product_mappings
      → create_product_mapping r t d w
        ≡ write_mapping r t d (find (is_product_pair (r, t)) w.catalogue.product_mappings) w
  unfolding create_product_mapping get_product_mapping
  create_product_mapping-eq r t d w s =
      rw
        (one_row-eq (λ w. w.catalogue.product_mappings) (is_product_pair (r, t)) w
          (s.unique_key (r, t)))
        refl

  fresh_key :
      (r t : ℕ) (d : Decision) (now : Datetime) (i : ℕ) (rows : List ProductMapping) (j : ℕ × ℕ)
      → is_product_pair j (new_mapping r t d now i) ≡ true
      → tally (is_product_pair j) rows ≡ tally (is_product_pair (r, t)) rows
  fresh_key r t d now i rows (r', t') h =
      let (er, et) = and-true (r == r') (t == t') h in
      rw ((==_iff r r').0 er, (==_iff t t').0 et) refl

  -- Writing a decision keeps ids and pairs unique.
  pub create_product_mapping-Stored :
      (laws : EngineLaws e) (r t : ℕ) (d : Decision) (w : World)
      → Stored w.catalogue.product_mappings
      → Stored (create_product_mapping r t d w).1.catalogue.product_mappings
  unfolding write_mapping change_product_mapping add_product_mapping utcnow change_catalogue
  create_product_mapping-Stored laws r t d w s =
      rw (create_product_mapping-eq r t d w s)
        (elim (Option-cases (find (is_product_pair (r, t)) w.catalogue.product_mappings)) [
          | inl missing ↦ rw missing (
              Keyed-append (λ m. m.id) is_product_pair (r, t) _ w.catalogue.product_mappings
                (laws.next_id_fresh (map (λ m. m.id) w.catalogue.product_mappings))
                (fresh_key r t d (Datetime.aware (e.clock w.clock_reads))
                  (e.next_id (map (λ m. m.id) w.catalogue.product_mappings))
                  w.catalogue.product_mappings)
                missing s)
          | inr (row, found) ↦ rw found (elim (Bool-cases (same_decision d row)) [
            | inl same ↦ rw same s
            | inr other ↦ rw other (
                Keyed-update (λ m. m.id) is_product_pair row.id
                  (with_decision d (Datetime.aware (e.clock w.clock_reads)))
                  w.catalogue.product_mappings (λ m. refl) (λ m k. refl) s)
          ])
        ])

  -- Where ids and pairs are unique, the table of product mappings implements a map from pairs of
  -- products to decisions: after a decision is written for a pair, that pair reads it, and every
  -- other pair reads what it read before.
  pub decided-create_product_mapping :
      (r t : ℕ) (d : Decision) (w : World)
      → Stored w.catalogue.product_mappings
      → (r' t' : ℕ)
      → decided (create_product_mapping r t d w).1 r' t'
        ≡ (if (r == r') && (t == t') then some d else decided w r' t')
  unfolding decided write_mapping change_product_mapping add_product_mapping utcnow change_catalogue
  decided-create_product_mapping r t d w s r' t' =
      rw (create_product_mapping-eq r t d w s)
        (elim (Option-cases (find (is_product_pair (r, t)) w.catalogue.product_mappings)) [
          | inl missing ↦ rw missing (
              rw
                (find-insert (λ m. m.id) is_product_pair (r, t) (r', t')
                  (new_mapping r t d (Datetime.aware (e.clock w.clock_reads))
                    (e.next_id (map (λ m. m.id) w.catalogue.product_mappings)))
                  w.catalogue.product_mappings missing (same_pair r t r' t'))
                (decision_of-if ((r == r') && (t == t')) _ _))
          | inr (row, found) ↦
              let is_same : is_product_pair (r', t') row ≡ ((r == r') && (t == t')) =
                row_pair r t r' t' row
                  (find_sound (is_product_pair (r, t)) w.catalogue.product_mappings found) in
              rw found (elim (Bool-cases (same_decision d row)) [
                | inl unchanged ↦ rw unchanged (elim (Bool-cases ((r == r') && (t == t'))) [
                  | inl same ↦
                      let there : find (is_product_pair (r', t')) w.catalogue.product_mappings
                          ≡ some row =
                        rw (same_pair r t r' t' same) found in
                      rw (there, same) (same_decision_sound d row unchanged)
                  | inr other ↦ rw other refl
                ])
                | inr changed ↦ rw changed (
                    rw
                      (find-change (λ m. m.id) is_product_pair (r, t) (r', t')
                        (with_decision d (Datetime.aware (e.clock w.clock_reads))) row
                        w.catalogue.product_mappings s found
                        (λ h. same_pair r t r' t' (rw (← is_same) h)) (λ m. refl))
                      (rw is_same (decision_of-if ((r == r') && (t == t')) _ _)))
              ])
        ])
