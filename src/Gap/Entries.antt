-- ===== src/Gap/Entries.antt =====
-- The dictionary of statuses that a review reads at once, and lookups in it.
use managment2_main.Gap.{is_pair, is_listed, dict_get}
use managment2_main.Models.{GapItemStatus}
use managment2_main.Base.{
  String, Option, Option-cases, ==_refl, inl, inr, true, none, some, map, select, arith, refl, ℕ,
  ◌≤◌, ◌≡◌, Bool, false, ◌&&◌, List, [], ◌∷◌, find, tally, ◌==◌, Bool-cases, mem-of_find,
  find_sound, tally-pos_of_mem,
}

-- The pairs of product and status that the rows of a category give for the listed products.
abbrev pub entries : ℕ → List ℕ → List GapItemStatus → List (ℕ × String)
entries c ids rows =
    map (λ g. (g.target_product_id, g.status))
      (select (λ g. (g.reference_category_id == c) && is_listed g.target_product_id ids) rows)

find_of_tally-zero :
    (c p : ℕ) (rows : List GapItemStatus)
    → tally (is_pair c p) rows ≡ 0
    → find (is_pair c p) rows ≡ none
find_of_tally-zero c p rows z = elim (Option-cases (find (is_pair c p) rows)) [
  | inl nothing ↦ nothing
  | inr (g, found) ↦ absurd (
      omega (
        arith,
        tally-pos_of_mem (is_pair c p) rows (mem-of_find (is_pair c p) rows found)
            (find_sound (is_pair c p) rows found),
      ))
]

-- Whether a row gives an entry.
abbrev gives : ℕ → List ℕ → GapItemStatus → Bool
gives c ids g = (g.reference_category_id == c) && is_listed g.target_product_id ids

entries_with :
    (c : ℕ) (ids : List ℕ) (g : GapItemStatus) (rows : List GapItemStatus)
    → gives c ids g ≡ true
    → entries c ids (g ∷ rows) ≡ (g.target_product_id, g.status) ∷ entries c ids rows
unfolding select
entries_with c ids g rows h = rw h refl

entries_without :
    (c : ℕ) (ids : List ℕ) (g : GapItemStatus) (rows : List GapItemStatus)
    → gives c ids g ≡ false
    → entries c ids (g ∷ rows) ≡ entries c ids rows
unfolding select
entries_without c ids g rows h = rw h refl

-- An entry of another product does not change a lookup.
dict_get_other :
    (p q : ℕ) (status : String) (rest : List (ℕ × String))
    → (q == p) ≡ false
    → dict_get p ((q, status) ∷ rest) ≡ dict_get p rest
unfolding dict_get
dict_get_other p q status rest h = elim (Option-cases (dict_get p rest)) [
  | inl nothing ↦ rw (nothing, h) refl
  | inr (later, found) ↦ rw found refl
]

dict_get_last :
    (p : ℕ) (status : String) (rest : List (ℕ × String))
    → dict_get p rest ≡ none
    → dict_get p ((p, status) ∷ rest) ≡ some status
unfolding dict_get
dict_get_last p status rest h = rw (h, ==_refl p) refl

dict_get_nil : (p : ℕ) → dict_get p [] ≡ none
unfolding dict_get
dict_get_nil p = refl

-- The status in the row of a pair, if there is one.
abbrev pub status_in : Option GapItemStatus → Option String
status_in none = none
status_in (some g) = some g.status

pub dict_get-entries :
    (c p : ℕ) (ids : List ℕ) (rows : List GapItemStatus)
    → tally (is_pair c p) rows ≤ 1
    → is_listed p ids ≡ true
    → dict_get p (entries c ids rows) ≡ status_in (find (is_pair c p) rows)
unfolding find tally select
dict_get-entries c p ids [] h listed = dict_get_nil p
dict_get-entries c p ids (g ∷ rows) h listed = elim (Bool-cases (is_pair c p g)) [
  | inl here ↦
      let same : g.target_product_id ≡ p = ground arith in
      let category : (g.reference_category_id == c) ≡ true = ground arith in
      let given : gives c ids g ≡ true = rw (category, same, listed) refl in
      let none_left : tally (is_pair c p) rows ≡ 0 = omega (arith, rw here at h) in
      let missing : dict_get p (entries c ids rows) ≡ none =
        rw (find_of_tally-zero c p rows none_left) at
          (dict_get-entries c p ids rows (omega arith) listed) in
      rw
        (
          here,
          entries_with c ids g rows given,
          same,
          dict_get_last p g.status (entries c ids rows) missing,
        )
        refl
  | inr other ↦
      let rest = dict_get-entries c p ids rows (omega (arith, rw other at h)) listed in
      elim (Bool-cases (gives c ids g)) [
        | inr skipped ↦ rw (other, entries_without c ids g rows skipped) rest
        | inl given ↦
            let apart : (g.target_product_id == p) ≡ false = ground arith in
            rw
              (
                other,
                entries_with c ids g rows given,
                dict_get_other p g.target_product_id g.status (entries c ids rows) apart,
              )
              rest
      ]
]
