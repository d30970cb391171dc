-- ===== src/Syncing/Complete.antt =====
-- What a sync achieves: where the adapter answers, it returns with every item accounted for; where
-- the adapter raises, the run fails and the exception is raised again.
use managment2_main.Base.{
  take, take-all, tally, tally-append, ◌++◌, ◌<◌, ◌≤◌, ltb, ap, sym, zero, suc, Bool, Bool-cases,
  inl, inr, ℕ, ◌+◌, ◌≡◌, refl, ◌∙◌, String, false, Option, List, [], ◌∷◌, length, arith, str_eq,
  if◌then◌else◌,
}
use managment2_main.Syncing.{
  nameless, addressless, Normalized, Progress, without_name, without_url, stored, scraped_of,
  normalize_product_dto, sync_normalized, sync_items,
}
use managment2_main.Syncing.Skipped.{
  Entry, Diagnostics, sampled, sample_limit, record_validation_error,
}
use managment2_main.Syncing.Balance.{
  Diagnosed, Balanced, Balanced-without_name, Balanced-without_url, Balanced-stored,
}
use managment2_main.Models.Catalogue.{Category}
use managment2_main.Engine.{Engine, EngineLaws}
use managment2_main.Session.{World, pure}
use managment2_main.Session.Yields.{Yields, Yields-bind, Yields-at, Yields-weaken}
use managment2_main.Catalogue.Linking.{or_empty}
use managment2_main.Catalogue.Products.{upsert_product}
use managment2_main.Catalogue.Products.Ledger.{Stored}
use managment2_main.Matching.{Matcher}
use managment2_main.Syncing.Prices.{Importer, or_given}
use managment2_main.Syncing.Adapters.{RawProduct, Adapter}
use managment2_main.Syncing.Addresses.{ImporterLaws, IsWebAddress, normalize_product_url_given}
use managment2_main.Syncing.Writes.{upsert_product-Yields, length-snoc}

-- The entry of an item that is skipped, and those of a list.
module _ ⦃e : Engine⦄ ⦃m : Matcher⦄ ⦃i : Importer⦄ (adapter : Adapter) (base : Option String) where
  abbrev pub entry_of : Normalized → List Entry
  entry_of n =
      if str_eq (or_empty n.name) ""
      then nameless adapter ∷ []
      else if str_eq (or_empty n.product_url) ""
      then addressless adapter n ∷ []
      else []

  abbrev pub entries_of : List RawProduct → List Entry
  entries_of [] = []
  entries_of (item ∷ items) = entry_of (normalize_product_dto item base) ++ entries_of items

abbrev pub lacks_url : Entry → Bool
lacks_url entry = str_eq entry.reason "missing_product_url"

-- What the loop has done from `p` and `w` on, after `n` items of which `entries` were skipped.
pub record Synced (n : ℕ) (entries : List Entry) (p : Progress) (w : World) (p' : Progress)
    (w' : World) : Type 0 where
  pub balanced : Balanced p'
  pub all_processed : p'.processed ≡ n + p.processed
  pub skipped : p'.errors.skipped ≡ length entries + p.errors.skipped
  pub sample : p'.errors.sample ≡ take sample_limit (p.errors.sample ++ entries)
  pub missing_url : p'.skipped_missing_url ≡ tally lacks_url entries + p.skipped_missing_url
  pub created : length w'.catalogue.products + p.created ≡ length w.catalogue.products + p'.created
  pub priced :
      length w'.catalogue.price_history + p.price_changes
      ≡ length w.catalogue.price_history + p'.price_changes
  pub stored : Stored w'.catalogue.products
  pub same_runs : w'.runs ≡ w.runs

length-append : {A : Type 0} (xs ys : List A) → length (xs ++ ys) ≡ length xs + length ys
length-append [] ys = omega arith
length-append (x ∷ xs) ys = omega (arith, length-append xs ys)

take-append :
    {A : Type 0} (n : ℕ) (xs ys zs : List A)
    → take n (take n (xs ++ ys) ++ zs) ≡ take n (xs ++ (ys ++ zs))
take-append zero xs ys zs = refl
take-append (suc n) [] [] zs = refl
take-append (suc n) [] (y ∷ ys) zs = ap (◌∷◌ y) (take-append n [] ys zs)
take-append (suc n) (x ∷ xs) ys zs = ap (◌∷◌ x) (take-append n xs ys zs)

take-exact : {A : Type 0} (n : ℕ) (xs ys : List A) → length xs ≡ n → take n (xs ++ ys) ≡ xs
take-exact zero [] ys h = refl
take-exact zero (x ∷ xs) ys h = absurd (omega arith)
take-exact (suc n) [] ys h = absurd (omega arith)
take-exact (suc n) (x ∷ xs) ys h = ap (◌∷◌ x) (take-exact n xs ys (omega arith))

append-nil : {A : Type 0} (xs : List A) → xs ++ [] ≡ xs
append-nil [] = refl
append-nil (x ∷ xs) = ap (◌∷◌ x) (append-nil xs)

sampled-eq :
    (entry : Entry) (sample : List Entry)
    → length sample ≤ sample_limit
    → sampled entry sample ≡ take sample_limit (sample ++ entry ∷ [])
sampled-eq entry sample room = elim (Bool-cases (ltb (length sample) sample_limit)) [
  | inl free ↦
      let below : length sample < sample_limit = ground arith in
      rw free (
        sym (
          take-all sample_limit (sample ++ entry ∷ [])
            (omega (arith, below, length-snoc sample entry))))
  | inr full ↦ rw full (sym (take-exact sample_limit sample (entry ∷ []) (ground arith)))
]

sample-room : (d : Diagnostics) → Diagnosed d → length d.sample ≤ sample_limit
sample-room d h = ground (arith, h.sample_length)

module _ ⦃e : Engine⦄ ⦃m : Matcher⦄ ⦃i : Importer⦄ (laws : EngineLaws e)
    (importer : ImporterLaws e i) where
  normalize_product_dto_given :
      (raw : RawProduct) (base : Option String)
      → IsWebAddress i base
      → str_eq (or_empty (normalize_product_dto raw base).product_url) "" ≡ false
      → str_eq (e.strip (or_empty (normalize_product_dto raw base).product_url)) "" ≡ false
  unfolding normalize_product_dto
  normalize_product_dto_given raw base =
      normalize_product_url_given importer (or_given raw.product_url raw.url) base

  sync_normalized_lem :
      (c : Category) (adapter : Adapter) (run : ℕ) (p : Progress) (raw : RawProduct) (w : World)
      → IsWebAddress i c.url
      → Balanced p
      → Stored w.catalogue.products
      → Yields
          (Synced 1 (entry_of adapter c.url (normalize_product_dto raw c.url)) p w)
          (sync_normalized c adapter run p (normalize_product_dto raw c.url) w)
  unfolding sync_normalized stored record_validation_error tally
  sync_normalized_lem c adapter run p raw w web b keyed =
      let n : Normalized = normalize_product_dto raw c.url in
      let room : length p.errors.sample ≤ sample_limit = sample-room p.errors b.diagnosed in
      elim (Bool-cases (str_eq (or_empty n.name) "")) [
        | inl nobody ↦ rw nobody (
            Yields-at (without_name adapter p) w (record {
              balanced = Balanced-without_name adapter p b;
              all_processed = omega arith;
              skipped = omega arith;
              sample = sampled-eq (nameless adapter) p.errors.sample room;
              missing_url = omega arith;
              created = refl;
              priced = refl;
              stored = keyed;
              same_runs = refl;
            }))
        | inr named ↦ elim (Bool-cases (str_eq (or_empty n.product_url) "")) [
          | inl missing ↦
              rw (named, missing)
                (Yields-at (without_url adapter n p) w (record {
                  balanced = Balanced-without_url adapter n p b;
                  all_processed = omega arith;
                  skipped = omega arith;
                  sample = sampled-eq (addressless adapter n) p.errors.sample room;
                  missing_url = omega arith;
                  created = refl;
                  priced = refl;
                  stored = keyed;
                  same_runs = refl;
                }))
          | inr given ↦
              rw (named, given)
                (Yields-bind
                  (upsert_product c.store_id (or_empty n.product_url) (scraped_of c.id run n))
                  (λ result. pure (stored p result)) w
                  (upsert_product-Yields laws c.store_id (or_empty n.product_url)
                    (scraped_of c.id run n) w keyed
                    (normalize_product_dto_given raw c.url web given))
                  (λ result v q. Yields-at (stored p result) v (record {
                    balanced = Balanced-stored p result.0 result.1 result.2 b;
                    all_processed = omega arith;
                    skipped = omega arith;
                    sample =
                        rw (append-nil p.errors.sample)
                          (rw (take-all sample_limit p.errors.sample room) refl);
                    missing_url = omega arith;
                    created = omega (arith, q.1.1);
                    priced = omega (arith, q.1.2);
                    stored = q.0;
                    same_runs = q.1.0;
                  })))
        ]
      ]

  pub sync_items_lem :
      (c : Category) (adapter : Adapter) (run : ℕ) (items : List RawProduct) (p : Progress)
      (w : World)
      → IsWebAddress i c.url
      → Balanced p
      → Stored w.catalogue.products
      → Yields
          (Synced (length items) (entries_of adapter c.url items) p w)
          (sync_items c adapter run p items w)
  unfolding sync_items tally
  sync_items_lem c adapter run [] p w web b keyed =
      let room : length p.errors.sample ≤ sample_limit = sample-room p.errors b.diagnosed in
      Yields-at p w (record {
        balanced = b;
        all_processed = omega arith;
        skipped = omega arith;
        sample =
            rw (append-nil p.errors.sample) (rw (take-all sample_limit p.errors.sample room) refl);
        missing_url = omega arith;
        created = refl;
        priced = refl;
        stored = keyed;
        same_runs = refl;
      })
  sync_items_lem c adapter run (item ∷ items) p w web b keyed =
      let here : List Entry = entry_of adapter c.url (normalize_product_dto item c.url) in
      let there : List Entry = entries_of adapter c.url items in
      Yields-bind (sync_normalized c adapter run p (normalize_product_dto item c.url))
        (λ next. sync_items c adapter run next items) w
        (sync_normalized_lem c adapter run p item w web b keyed)
        (λ next v q.
          Yields-weaken (sync_items_lem c adapter run items next v web q.balanced q.stored)
            (λ p' w' k. record {
              balanced = k.balanced;
              all_processed = omega (arith, q.all_processed, k.all_processed);
              skipped = omega (arith, q.skipped, k.skipped, length-append here there);
              sample =
                  k.sample ∙ (rw (q.sample) (take-append sample_limit p.errors.sample here there));
              missing_url =
                  omega (arith, q.missing_url, k.missing_url, tally-append lacks_url here there);
              created = omega (arith, q.created, k.created);
              priced = omega (arith, q.priced, k.priced);
              stored = k.stored;
              same_runs = k.same_runs ∙ q.same_runs;
            }))
