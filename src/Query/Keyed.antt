-- ===== src/Query/Keyed.antt =====
-- Tables with a unique key besides their ids: (store, name), (store, URL), a pair of ids. The laws of
-- "look up by key, then update that row or insert a new one", which every `upsert` of the
-- repositories is.
use managment2_main.Base.{
  find, Option-cases, mem-of_find, find_sound, Bool-cases, if◌then◌else◌, ℕ, ◌≤◌, ◌≡◌, refl, Bool,
  true, false, not, ◌&&◌, none, some, List, [], ◌∷◌, ◌++◌, Mem, select, tally, update, arith, ◌==◌,
  ==_refl, ==_iff, tally-split, tally-pos_of_mem, inl, inr, map, tally-append, tally-update,
  tally_fresh, tally-find,
}
use managment2_main.Session.{World, ok}
use managment2_main.Query.{one_or_none, one_row}

module _ {A : Type 0} where
  select_none : (p : A → Bool) (rows : List A) → tally p rows ≡ 0 → select p rows ≡ []
  unfolding tally select
  select_none p [] h = refl
  select_none p (x ∷ rows) h = ground (arith, select_none p rows)

  pub one_or_none-select :
      (p : A → Bool) (rows : List A)
      → tally p rows ≤ 1
      → one_or_none (select p rows) ≡ ok (find p rows)
  unfolding tally select find one_or_none
  one_or_none-select p [] h = refl
  one_or_none-select p (x ∷ rows) h = elim (Bool-cases (p x)) [
    | inl here ↦ rw here (rw (select_none p rows (omega (arith, rw here at h))) refl)
    | inr other ↦ rw other (one_or_none-select p rows (omega (arith, rw other at h)))
  ]

  pub find_zero : (p : A → Bool) (rows : List A) → tally p rows ≡ 0 → find p rows ≡ none
  unfolding tally find
  find_zero p [] h = refl
  find_zero p (x ∷ rows) h = ground (arith, find_zero p rows)

  -- The lookup of a key that no two rows have.
  pub one_row-eq :
      (table : World → List A) (p : A → Bool) (w : World)
      → tally p (table w) ≤ 1
      → one_row table p w ≡ (ok (find p (table w)), w)
  unfolding one_row
  one_row-eq table p w h = rw (one_or_none-select p (table w) h) refl

  pub find-append :
      (p : A → Bool) (rows : List A) (x : A)
      → find p (rows ++ x ∷ [])
        ≡ elim (find p rows) [ some r ↦ some r | none ↦ if p x then some x else none ]
  unfolding find
  find-append p [] x = refl
  find-append p (r ∷ rows) x = ground (arith, find-append p rows x)

  pub find-update :
      (p q : A → Bool) (f : A → A) (rows : List A)
      → ((x : A) → q x ≡ true → p (f x) ≡ p x)
      → find p (update q f rows)
        ≡ elim (find p rows) [ some r ↦ some (if q r then f r else r) | none ↦ none ]
  unfolding find update
  find-update p q f [] h = refl
  find-update p q f (r ∷ rows) h = ground (arith, h r, find-update p q f rows h)

module _ {A K : Type 0} (id : A → ℕ) (has_key : K → A → Bool) where
  -- Ids and keys are unique.
  pub record Keyed (rows : List A) : Type 0 where
    pub unique_id : (i : ℕ) → tally (λ x. id x == i) rows ≤ 1
    pub unique_key : (k : K) → tally (has_key k) rows ≤ 1

  -- Two rows with one id have one key.
  pub other_id :
      (k : K) (rows : List A) (row r : A)
      → Keyed rows
      → Mem row rows
      → Mem r rows
      → has_key k row ≡ true
      → has_key k r ≡ false
      → (id r == id row) ≡ false
  other_id k rows row r s m m' here there = elim (Bool-cases (id r == id row)) [
    | inr other ↦ other
    | inl same ↦ absurd (
        omega (
          arith,
          s.unique_id (id row),
          tally-split (λ x. id x == id row) (has_key k) rows,
          tally-pos_of_mem (λ x. (id x == id row) && has_key k x) rows m
              (rw (==_refl (id row), here) refl),
          tally-pos_of_mem (λ x. (id x == id row) && not (has_key k x)) rows m'
              (rw (same, there) refl),
        ))
  ]

  -- A change of one row's other columns, and a new row with a free key.
  pub Keyed-update :
      (i : ℕ) (f : A → A) (rows : List A)
      → ((x : A) → id (f x) ≡ id x)
      → ((x : A) (k : K) → has_key k (f x) ≡ has_key k x)
      → Keyed rows
      → Keyed (update (λ x. id x == i) f rows)
  Keyed-update i f rows same_id same_key s = record {
    unique_id = λ j.
        rw (tally-update (λ x. id x == j) (λ x. id x == i) f rows (λ x _. rw (same_id x) refl))
          (s.unique_id j);
    unique_key = λ k.
        rw (tally-update (has_key k) (λ x. id x == i) f rows (λ x _. same_key x k))
          (s.unique_key k);
  }

  pub Keyed-append :
      (k : K) (x : A) (rows : List A)
      → ¬ Mem (id x) (map id rows)
      → ((j : K) → has_key j x ≡ true → tally (has_key j) rows ≡ tally (has_key k) rows)
      → find (has_key k) rows ≡ none
      → Keyed rows
      → Keyed (rows ++ x ∷ [])
  unfolding tally
  Keyed-append k x rows fresh same_key missing s = record {
    unique_id = λ i.
        rw (tally-append (λ y. id y == i) rows)
          (ground (arith, s.unique_id i, tally_fresh id (id x) rows fresh, ==_iff (id x) i));
    unique_key = λ j.
        rw (tally-append (has_key j) rows)
          (ground (arith, s.unique_key j, same_key j, tally-find (has_key k) rows missing));
  }

  -- What every key reads after a row with a free key was inserted.
  pub find-insert :
      (k k' : K) (x : A) (rows : List A)
      → find (has_key k) rows ≡ none
      → (has_key k' x ≡ true → k' ≡ k)
      → find (has_key k') (rows ++ x ∷ [])
        ≡ (if has_key k' x then some x else find (has_key k') rows)
  find-insert k k' x rows missing same_key =
      rw (find-append (has_key k') rows x) (elim (Bool-cases (has_key k' x)) [
        | inl same ↦
            let nothing : find (has_key k') rows ≡ none = rw (same_key same) missing in
            rw (nothing, same) refl
        | inr other ↦ elim (Option-cases (find (has_key k') rows)) [
          | inl nothing ↦ rw (nothing, other) refl
          | inr (r, there) ↦ rw (there, other) refl
        ]
      ])

  -- What every key reads after the other columns of the row of one key were changed.
  pub find-change :
      (k k' : K) (f : A → A) (row : A) (rows : List A)
      → Keyed rows
      → find (has_key k) rows ≡ some row
      → (has_key k' row ≡ true → k' ≡ k)
      → ((x : A) → has_key k' (f x) ≡ has_key k' x)
      → find (has_key k') (update (λ x. id x == id row) f rows)
        ≡ (if has_key k' row then some (f row) else find (has_key k') rows)
  find-change k k' f row rows s found same_key keeps =
      rw (find-update (has_key k') (λ x. id x == id row) f rows (λ x _. keeps x))
        (elim (Bool-cases (has_key k' row)) [
          | inl same ↦
              let there : find (has_key k') rows ≡ some row = rw (same_key same) found in
              rw (there, same, ==_refl (id row)) refl
          | inr other ↦ elim (Option-cases (find (has_key k') rows)) [
            | inl nothing ↦ rw (nothing, other) refl
            | inr (r, there) ↦
                let apart : (id row == id r) ≡ false =
                  other_id k' rows r row s (mem-of_find (has_key k') rows there)
                    (mem-of_find (has_key k) rows found) (find_sound (has_key k') rows there)
                    other in
                let apart' : (id r == id row) ≡ false = ground arith in
                rw (there, other, apart') refl
          ]
        ])

  -- The row of a key is the row of its id.
  pub find-id :
      (k : K) (row : A) (rows : List A)
      → tally (λ x. id x == id row) rows ≤ 1
      → find (has_key k) rows ≡ some row
      → find (λ x. id x == id row) rows ≡ some row
  unfolding find tally
  find-id k row [] one found = absurd (cc)
  find-id k row (x ∷ rows) one found = elim (Bool-cases (has_key k x)) [
    | inl here ↦
        let first : some x ≡ some row = rw here at found in
        let same : x ≡ row = cc in rw (same, ==_refl (id row)) refl
    | inr other ↦
        let later : find (has_key k) rows ≡ some row = rw other at found in
        let there : 1 ≤ tally (λ y. id y == id row) rows =
          tally-pos_of_mem (λ y. id y == id row) rows (mem-of_find (has_key k) rows later)
            (==_refl (id row)) in
        elim (Bool-cases (id x == id row)) [
          | inl same ↦ absurd (omega (arith, rw same at one))
          | inr apart ↦ rw apart (find-id k row rows (omega (arith, rw apart at one)) later)
        ]
  ]
