-- ===== src/Syncing/CategoryRun.antt =====
-- The sync of categories: where the adapter answers, it returns with every category stored or skipped.
use mathlib.Core.Logic.Or
use mathlib.Core.List.{mem-cons, not-mem-nil}
use native.Mathlib.Bridge.{le_prop}
use managment2_main.Base.{
  if◌then◌else◌, not, ◌&&◌, ℕ, ◌+◌, ◌≤◌, ◌≡◌, refl, ◌∙◌, String, Bool, true, false, Option, some,
  List, [], ◌∷◌, Mem, find, map, tally, tally-append, tally-update, arith, str_eq, eq_iff, and-true,
  ◌==◌, ==_refl, ==_iff, Bool-cases, inl, inr, Option-cases,
}
use managment2_main.Models.{Datetime}
use managment2_main.Models.Catalogue.{Store, Category}
use managment2_main.Engine.{Engine, EngineLaws}
use managment2_main.Session.{World, pure, ◌>>=◌, utcnow}
use managment2_main.Session.Yields.{Yields, Yields-bind, Yields-at, Yields-weaken}
use managment2_main.Query.Keyed.{Keyed, Keyed-append, Keyed-update, one_row-eq}
use managment2_main.Catalogue.{add_category, change_category}
use managment2_main.Catalogue.Linking.{or_empty}
use managment2_main.Catalogue.Categories.{
  has_store_and_name, get_category_by_name, with_category_columns, new_category, write_category,
  upsert_category,
}
use managment2_main.Syncing.Adapters.{RawCategory, Adapter}
use managment2_main.Syncing.Skipped.{record_validation_error}
use managment2_main.Syncing.Balance.{Diagnosed, Diagnosed-record_validation_error}
use managment2_main.Syncing.Categories.{
  Loaded, count_category, normalize, load_category, load_categories,
}

-- Ids and the pairs (store, name) are unique.
abbrev pub Named : World → Type 0
Named w = Keyed (λ (c : Category). c.id) has_store_and_name w.catalogue.categories

-- How many rows a pair has.
abbrev pub rows_of : ℕ → String → World → ℕ
rows_of store name w = tally (has_store_and_name (store, name)) w.catalogue.categories

pub record Wrote (w v : World) : Type 0 where
  pub named : Named v
  pub same_runs : v.runs ≡ w.runs
  pub keeps : (store : ℕ) (name : String) → rows_of store name w ≤ rows_of store name v

found_counts :
    (p : Category → Bool) (rows : List Category) (c : Category)
    → find p rows ≡ some c
    → 1 ≤ tally p rows
unfolding find tally
found_counts p [] c h = absurd (cc)
found_counts p (r ∷ rows) c h = elim (Bool-cases (p r)) [
  | inl here ↦ rw here (omega arith)
  | inr other ↦ rw other (omega (arith, found_counts p rows c (rw other at h)))
]

same_name_key :
    (store store' : ℕ) (name name' : String)
    → ((store == store') && str_eq name name') ≡ true
    → ◌≡◌ {A = ℕ × String} (store', name') (store, name)
same_name_key store store' name name' h =
    let (es, en) = and-true (store == store') (str_eq name name') h in
    rw ((==_iff store store').0 es, (eq_iff name name').0 en) refl

module _ ⦃e : Engine⦄ (laws : EngineLaws e) where
  write_category_lem :
      (store : ℕ) (name : String) (external_id url : Option String) (normalized : String)
      (w : World)
      → Named w
      → Yields
          (λ _ v. Wrote w v × (1 ≤ rows_of store name v))
          (write_category store name external_id url normalized
            (find (has_store_and_name (store, name)) w.catalogue.categories)
            w)
  unfolding write_category add_category change_category utcnow tally ◌>>=◌
  write_category_lem store name external_id url normalized w named =
      let now : Datetime = Datetime.aware (e.clock w.clock_reads) in
      let new : Category =
        new_category store name external_id url normalized now
          (e.next_id (map (λ c. c.id) w.catalogue.categories)) in
      elim (Option-cases (find (has_store_and_name (store, name)) w.catalogue.categories)) [
        | inl missing ↦ rw missing (
            Yields-at _ _ (
              record {
                named =
                    Keyed-append (λ c. c.id) has_store_and_name (store, name) new
                      w.catalogue.categories
                      (laws.next_id_fresh (map (λ c. c.id) w.catalogue.categories))
                      (λ j h. rw (same_name_key store j.0 name j.1 h) refl) missing named;
                same_runs = refl;
                keeps = λ s n.
                    rw (tally-append (has_store_and_name (s, n)) w.catalogue.categories)
                      (omega arith);
              },
              rw (tally-append (has_store_and_name (store, name)) w.catalogue.categories)
                  (rw (==_refl store, (eq_iff name name).1 refl) (omega arith)),
            ))
        | inr (row, found) ↦ rw found (
            Yields-at _ _ (
              record {
                named =
                    Keyed-update (λ c. c.id) has_store_and_name row.id
                      (with_category_columns external_id url normalized now) w.catalogue.categories
                      (λ c. refl) (λ c k. refl) named;
                same_runs = refl;
                keeps = λ s n.
                    rw
                      (tally-update (has_store_and_name (s, n)) (λ c. c.id == row.id)
                        (with_category_columns external_id url normalized now)
                        w.catalogue.categories (λ c _. refl))
                      (omega arith);
              },
              rw
                  (tally-update (has_store_and_name (store, name)) (λ c. c.id == row.id)
                    (with_category_columns external_id url normalized now) w.catalogue.categories
                    (λ c _. refl))
                  (found_counts (has_store_and_name (store, name)) w.catalogue.categories row
                    found),
            ))
      ]

  upsert_category_lem :
      (store : ℕ) (name : String) (external_id url : Option String) (w : World)
      → Named w
      → Yields
          (λ _ v. Wrote w v × (1 ≤ rows_of store name v))
          (upsert_category store name external_id url w)
  unfolding upsert_category get_category_by_name ◌>>=◌
  upsert_category_lem store name external_id url w named =
      rw
        (one_row-eq (λ w. w.catalogue.categories) (has_store_and_name (store, name)) w
          (named.unique_key (store, name)))
        (write_category_lem store name external_id url _ w named)

-- The item has a name.
abbrev pub has_name : ⦃e : Engine⦄ → RawCategory → Bool
has_name raw = not (str_eq (or_empty (normalize raw).name) "")

-- What the loop has done from `p` and `w` on with the categories `raws`.
pub record Kept ⦃e : Engine⦄ (store : Store) (raws : List RawCategory) (p : Loaded) (w : World)
    (p' : Loaded) (w' : World) : Type 0 where
  pub counted : p'.count ≡ tally has_name raws + p.count
  pub diagnosed : Diagnosed p'.errors
  pub wrote : Wrote w w'
  pub there :
      (raw : RawCategory)
      → Mem raw raws
      → str_eq (or_empty (normalize raw).name) "" ≡ false
      → 1 ≤ rows_of store.id (or_empty (normalize raw).name) w'

module _ ⦃e : Engine⦄ (laws : EngineLaws e) where
  load_category_lem :
      (store : Store) (adapter : Adapter) (p : Loaded) (dto : RawCategory) (w : World)
      → Diagnosed p.errors
      → Named w
      → Yields
          (λ p' v.
            (p'.count ≡ (if str_eq (or_empty dto.name) "" then 0 else 1) + p.count)
            × Diagnosed p'.errors
            × Wrote w v
            × (str_eq (or_empty dto.name) "" ≡ false → 1 ≤ rows_of store.id (or_empty dto.name) v))
          (load_category store adapter p dto w)
  unfolding load_category record_validation_error
  load_category_lem store adapter p dto w d named =
      elim (Bool-cases (str_eq (or_empty dto.name) "")) [
        | inl blank ↦ rw blank (
            Yields-at _ w (
              omega arith,
              Diagnosed-record_validation_error _ p.errors d,
              record { named = named; same_runs = refl; keeps = λ s n. omega arith },
              λ given. absurd (cc),
            ))
        | inr given ↦ rw given (
            Yields-bind (upsert_category store.id (or_empty dto.name) dto.external_id dto.url)
              (λ _. pure (count_category p)) w
              (upsert_category_lem laws store.id (or_empty dto.name) dto.external_id dto.url w
                named)
              (λ _ v q. Yields-at (count_category p) v (omega arith, d, q.0, λ _. q.1)))
      ]

  pub load_categories_lem :
      (store : Store) (adapter : Adapter) (raws : List RawCategory) (p : Loaded) (w : World)
      → Diagnosed p.errors
      → Named w
      → Yields (Kept store raws p w) (load_categories store adapter p raws w)
  unfolding load_categories tally
  load_categories_lem store adapter [] p w d named = Yields-at p w (record {
    counted = omega arith;
    diagnosed = d;
    wrote = record { named = named; same_runs = refl; keeps = λ s n. omega arith };
    there = λ raw m. absurd (not-mem-nil m);
  })
  load_categories_lem store adapter (raw ∷ raws) p w d named =
      Yields-bind (load_category store adapter p (normalize raw))
        (λ next. load_categories store adapter next raws) w
        (load_category_lem store adapter p (normalize raw) w d named)
        (λ next v q.
          Yields-weaken (load_categories_lem store adapter raws next v q.1 q.2.named) (λ p' w' k.
            record {
              counted = ground (arith, q.0, k.counted);
              diagnosed = k.diagnosed;
              wrote = record {
                named = k.wrote.named;
                same_runs = k.wrote.same_runs ∙ q.2.same_runs;
                keeps = λ s n. omega (arith, q.2.keeps s n, k.wrote.keeps s n);
              };
              there = λ r m given.
                  Or.elim le_prop (mem-cons.0 m)
                    (λ same.
                      let here : 1 ≤ rows_of store.id (or_empty (normalize r).name) v =
                        rw same (q.3 (rw (← same) given)) in
                      omega (arith, here, k.wrote.keeps store.id (or_empty (normalize r).name)))
                    (λ later. k.there r later given);
            }))
