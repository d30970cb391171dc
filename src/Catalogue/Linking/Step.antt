-- ===== src/Catalogue/Linking/Step.antt =====
-- One pair of `auto_link`: it is linked afterwards, no link is lost, and the report and the table
-- grow alike.
use managment2_main.Catalogue.{add_category_mapping}
use managment2_main.Models.Catalogue.{Category, CategoryMapping}
use managment2_main.Catalogue.Categories.{
  is_category_pair, get_category_mapping, create_category_mapping, write_category_mapping,
  new_category_mapping,
}
use managment2_main.Catalogue.Linking.{Linked, link_new}
use managment2_main.Base.{
  ◌++◌, ℕ, suc, ◌+◌, ◌≤◌, ◌≡◌, refl, true, none, some, List, [], ◌∷◌, map, length, find, tally,
  arith, ◌==◌, ==_iff, ==_refl, Option-cases, inl, inr, and-true, tally-append, tally-pos_of_mem,
  mem-of_find, find_sound,
}
use managment2_main.Models.{Datetime}
use managment2_main.Engine.{Engine, EngineLaws}
use managment2_main.Session.{World, ok, utcnow}
use managment2_main.Session.Yields.{Yields, Yields-at}
use managment2_main.Query.Keyed.{Keyed, Keyed-append, one_row-eq}

abbrev pub Stored : List CategoryMapping → Type 0
Stored = Keyed (λ m. m.id) is_category_pair

-- The pair has a row.
unfoldable pub Has : World → ℕ → ℕ → Type 0
Has w r t = 1 ≤ tally (is_category_pair (r, t)) w.catalogue.category_mappings

-- From a state and a report to later ones: links stay, and rows and report grow alike.
pub record Grows (w : World) (r : Linked) (r' : Linked) (w' : World) : Type 0 where
  pub stored : Stored w'.catalogue.category_mappings
  pub keeps : (a b : ℕ) → Has w a b → Has w' a b
  pub counted :
      length w'.catalogue.category_mappings + length r.created
      ≡ length w.catalogue.category_mappings + length r'.created

pub Grows-same :
    (w : World) (r r' : Linked)
    → Stored w.catalogue.category_mappings
    → r'.created ≡ r.created
    → Grows w r r' w
Grows-same w r r' s same = record { stored = s; keeps = λ a b h. h; counted = rw same refl }

pub Grows-trans :
    {w w' w'' : World} {r r' r'' : Linked}
    → Grows w r r' w'
    → Grows w' r' r'' w''
    → Grows w r r'' w''
Grows-trans g h = record {
  stored = h.stored;
  keeps = λ a b has. h.keeps a b (g.keeps a b has);
  counted = omega (arith, g.counted, h.counted);
}

length-append_one : {A : Type 0} (xs : List A) (x : A) → length (xs ++ x ∷ []) ≡ length xs + 1
length-append_one [] x = refl
length-append_one (y ∷ xs) x = omega (arith, length-append_one xs x)

module _ ⦃e : Engine⦄ (laws : EngineLaws e) where
  abbrev exact_row : ℕ → ℕ → World → CategoryMapping
  exact_row a b w =
      new_category_mapping a b (some "exact") (some 1000000)
        (Datetime.aware (e.clock w.clock_reads))
        (e.next_id (map (λ m. m.id) w.catalogue.category_mappings))

  -- The state with a new link.
  abbrev added : ℕ → ℕ → World → World
  added a b w = record w {
    clock_reads = suc w.clock_reads;
    catalogue = record (w.catalogue) {
      category_mappings = w.catalogue.category_mappings ++ exact_row a b w ∷ [];
    };
  }

  create_missing :
      (a b : ℕ) (w : World)
      → Stored w.catalogue.category_mappings
      → find (is_category_pair (a, b)) w.catalogue.category_mappings ≡ none
      → create_category_mapping a b (some "exact") (some 1000000) w
        ≡ (ok (exact_row a b w), added a b w)
  unfolding create_category_mapping get_category_mapping write_category_mapping add_category_mapping
      utcnow
  create_missing a b w s missing =
      rw
        (
          one_row-eq (λ w. w.catalogue.category_mappings) (is_category_pair (a, b)) w
              (s.unique_key (a, b)),
          missing,
        )
        refl

  same_pair :
      (a b : ℕ) (w : World) (rows : List CategoryMapping) (j : ℕ × ℕ)
      → is_category_pair j (exact_row a b w) ≡ true
      → tally (is_category_pair j) rows ≡ tally (is_category_pair (a, b)) rows
  same_pair a b w rows (a', b') h =
      let (ea, eb) = and-true (a == a') (b == b') h in
      rw ((==_iff a a').0 ea, (==_iff b b').0 eb) refl

  Grows-added :
      (a b : ℕ) (r : Linked) (w : World)
      → Stored w.catalogue.category_mappings
      → find (is_category_pair (a, b)) w.catalogue.category_mappings ≡ none
      → Grows w r (record r { created = r.created ++ (a, b) ∷ [] }) (added a b w)
  unfolding Has tally
  Grows-added a b r w s missing = record {
    stored =
        Keyed-append (λ m. m.id) is_category_pair (a, b) (exact_row a b w)
          w.catalogue.category_mappings
          (laws.next_id_fresh (map (λ m. m.id) w.catalogue.category_mappings))
          (same_pair a b w w.catalogue.category_mappings) missing s;
    keeps = λ a' b' h.
        rw (tally-append (is_category_pair (a', b')) w.catalogue.category_mappings)
          (omega (arith, h));
    counted =
        rw
          (
            length-append_one w.catalogue.category_mappings (exact_row a b w),
            length-append_one r.created (a, b),
          )
          (omega arith);
  }

  Has-added : (a b : ℕ) (w : World) → Has (added a b w) a b
  unfolding Has tally
  Has-added a b w =
      rw
        (tally-append (is_category_pair (a, b)) w.catalogue.category_mappings, ==_refl a, ==_refl b)
        (omega arith)

  -- One pair: it is linked afterwards.
  pub link_new_lem :
      (c t : Category) (r : Linked) (w : World)
      → Stored w.catalogue.category_mappings
      → Yields
          (λ r' w'. Grows w r r' w' × Has w' c.id t.id)
          (link_new c t r (find (is_category_pair (c.id, t.id)) w.catalogue.category_mappings) w)
  unfolding link_new create_category_mapping get_category_mapping write_category_mapping
      add_category_mapping utcnow Has tally
  link_new_lem c t r w s =
      elim (Option-cases (find (is_category_pair (c.id, t.id)) w.catalogue.category_mappings)) [
        | inl missing ↦ rw missing (
            rw (create_missing c.id t.id w s missing) (
              Yields-at _ (added c.id t.id w)
                (Grows-added c.id t.id r w s missing, Has-added c.id t.id w)))
        | inr (row, found) ↦ rw found (
            Yields-at _ w (
              Grows-same w r _ s refl,
              tally-pos_of_mem (is_category_pair (c.id, t.id)) w.catalogue.category_mappings
                  (mem-of_find (is_category_pair (c.id, t.id)) w.catalogue.category_mappings found)
                  (find_sound (is_category_pair (c.id, t.id)) w.catalogue.category_mappings found),
            ))
      ]
