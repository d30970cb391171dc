-- ===== src/Gap/Store.antt =====
-- Writes to the table of gap statuses.
use managment2_main.Query.Keyed.{one_or_none-select, find-append}
use managment2_main.Gap.Lookup.{Stored, get_gap_status-eq, find-update, other_id}
use managment2_main.Base.{
  and-true, ℕ, ◌≤◌, ◌≡◌, refl, String, true, false, ◌&&◌, none, some, find, tally, arith, ◌==◌,
  ==_refl, Bool-cases, inl, inr, if◌then◌else◌, Option-cases, ==_iff, tally-update, tally-append,
  tally_fresh, tally-find, map, mem-of_find, find_sound,
}
use managment2_main.Models.{GapItemStatus, Datetime}
use managment2_main.Session.{World, ok, change_gap_statuses, add_gap_status, utcnow}
use managment2_main.Engine.{Engine, EngineLaws}
use managment2_main.Gap.{
  is_pair, status_or_new, get_gap_status, with_status, write_gap_status, upsert_gap_status,
  is_allowed,
}

module _ ⦃e : Engine⦄ where
  upsert_gap_status-eq :
      (c p : ℕ) (status : String) (w : World)
      → tally (is_pair c p) w.gap_statuses ≤ 1
      → is_allowed status ≡ true
      → upsert_gap_status c p status w
        ≡ write_gap_status c p status (find (is_pair c p) w.gap_statuses) w
  unfolding upsert_gap_status
  upsert_gap_status-eq c p status w one allowed =
      rw (allowed, one_or_none-select (is_pair c p) w.gap_statuses one) refl

  -- Writing a status keeps ids and pairs unique.
  pub upsert_gap_status-Stored :
      (laws : EngineLaws e) (c p : ℕ) (status : String) (w : World)
      → Stored w.gap_statuses
      → is_allowed status ≡ true
      → Stored (upsert_gap_status c p status w).1.gap_statuses
  unfolding write_gap_status change_gap_statuses add_gap_status utcnow tally
  upsert_gap_status-Stored laws c p status w s allowed =
      rw (upsert_gap_status-eq c p status w (s.unique_pair c p) allowed)
        (elim (Option-cases (find (is_pair c p) w.gap_statuses)) [
          | inr (row, found) ↦ rw found (record {
            unique_id = λ i.
                rw
                  (tally-update (λ g. g.id == i) (λ g. g.id == row.id)
                    (with_status status (Datetime.aware (e.clock w.clock_reads))) w.gap_statuses
                    (λ g _. refl))
                  (s.unique_id i);
            unique_pair = λ c' p'.
                rw
                  (tally-update (is_pair c' p') (λ g. g.id == row.id)
                    (with_status status (Datetime.aware (e.clock w.clock_reads))) w.gap_statuses
                    (λ g _. refl))
                  (s.unique_pair c' p');
          })
          | inl missing ↦ rw missing (record {
            unique_id = λ i. rw (tally-append (λ g. g.id == i) w.gap_statuses) (
                ground (
                  arith,
                  s.unique_id i,
                  tally_fresh (λ g. g.id) (e.next_id (map (λ g. g.id) w.gap_statuses))
                      w.gap_statuses (laws.next_id_fresh (map (λ g. g.id) w.gap_statuses)),
                  ==_iff (e.next_id (map (λ g. g.id) w.gap_statuses)) i,
                ));
            unique_pair = λ c' p'. rw (tally-append (is_pair c' p') w.gap_statuses) (
                ground (
                  arith,
                  s.unique_pair c' p',
                  tally-find (is_pair c p) w.gap_statuses missing,
                  ==_iff c c',
                  ==_iff p p',
                ));
          })
        ])

  -- Rows of different pairs: the second is not of the first's pair.
  not_pair :
      (c p c' p' : ℕ) (r : GapItemStatus)
      → is_pair c' p' r ≡ true
      → ((c == c') && (p == p')) ≡ false
      → is_pair c p r ≡ false
  not_pair c p c' p' r h other = ground arith

  find-upsert :
      (c p c' p' : ℕ) (status : String) (w : World)
      → Stored w.gap_statuses
      → is_allowed status ≡ true
      → status_or_new (find (is_pair c' p') (upsert_gap_status c p status w).1.gap_statuses) ≡ (
          if (c == c') && (p == p')
          then status
          else status_or_new (find (is_pair c' p') w.gap_statuses))
  unfolding write_gap_status change_gap_statuses add_gap_status utcnow
  find-upsert c p c' p' status w s allowed =
      rw (upsert_gap_status-eq c p status w (s.unique_pair c p) allowed)
        (elim (Option-cases (find (is_pair c p) w.gap_statuses)) [
          | inl missing ↦ rw missing (
              rw (find-append (is_pair c' p') w.gap_statuses)
                (elim (Bool-cases ((c == c') && (p == p'))) [
                  | inl same ↦
                      let (sc, sp) = and-true (c == c') (p == p') same in
                      let none_there : find (is_pair c' p') w.gap_statuses ≡ none =
                        rw (← (==_iff c c').0 sc, ← (==_iff p p').0 sp) missing in
                      rw (none_there, same) refl
                  | inr other ↦
                      rw other (ground (arith, Option-cases (find (is_pair c' p') w.gap_statuses)))
                ]))
          | inr (row, found) ↦ rw found (
              rw
                (find-update c' p' row.id status (Datetime.aware (e.clock w.clock_reads))
                  w.gap_statuses)
                (elim (Bool-cases ((c == c') && (p == p'))) [
                  | inl same ↦
                      let (sc, sp) = and-true (c == c') (p == p') same in
                      let there : find (is_pair c' p') w.gap_statuses ≡ some row =
                        rw (← (==_iff c c').0 sc, ← (==_iff p p').0 sp) found in
                      rw (there, same, ==_refl row.id) refl
                  | inr other ↦ elim (Option-cases (find (is_pair c' p') w.gap_statuses)) [
                    | inl nothing ↦ rw (nothing, other) refl
                    | inr (r, there) ↦
                        let apart : (r.id == row.id) ≡ false =
                          other_id c p w.gap_statuses row r s
                            (mem-of_find (is_pair c p) w.gap_statuses found)
                            (mem-of_find (is_pair c' p') w.gap_statuses there)
                            (find_sound (is_pair c p) w.gap_statuses found)
                            (not_pair c p c' p' r (find_sound (is_pair c' p') w.gap_statuses there)
                              other) in
                        rw (there, other, apart) refl
                  ]
                ]))
        ])

  -- After an allowed status is written for a pair, that pair reads it, and every other pair reads what
  -- it read before.
  pub get_gap_status-upsert_gap_status :
      (laws : EngineLaws e) (c p c' p' : ℕ) (status : String) (w : World)
      → Stored w.gap_statuses
      → is_allowed status ≡ true
      → (get_gap_status c' p' (upsert_gap_status c p status w).1).0
        ≡ (if (c == c') && (p == p') then ok status else (get_gap_status c' p' w).0)
  get_gap_status-upsert_gap_status laws c p c' p' status w s allowed =
      let after = upsert_gap_status-Stored laws c p status w s allowed in
      rw
        (
          get_gap_status-eq c' p' (upsert_gap_status c p status w).1 (after.unique_pair c' p'),
          get_gap_status-eq c' p' w (s.unique_pair c' p'),
          find-upsert c p c' p' status w s allowed,
        )
        (elim (Bool-cases ((c == c') && (p == p'))) [
          | inl same ↦ rw same refl
          | inr other ↦ rw other refl
        ])
