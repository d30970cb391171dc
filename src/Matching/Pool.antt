-- ===== src/Matching/Pool.antt =====
-- The scored targets of one reference item: none that the hard rejects keep apart reaches the
-- threshold.
use mathlib.Core.Logic.Or
use mathlib.Core.Logic.{∥∥₁_prop}
use mathlib.Core.Bool.{Bool-set}
use mathlib.Core.List.{mem-cons, not-mem-nil, mem-cons_of_mem}
use managment2_main.Base.{
  zero, mem-of_select, Option-cases, String, ℕ, suc, ◌≡◌, refl, Bool, true, false, not, Option,
  none, some, List, [], ◌∷◌, Mem, map, select, Bool-cases, inl, inr, arith,
}
use managment2_main.Matching.Pairing.{
  Scored, insert_scored, sort_scored, nth, pool_of, none_pool, score_pool, scored_of, or_pool,
  has_brand,
}
use managment2_main.Matching.{Matcher, Item, Prepared}
use managment2_main.Matching.Prepare.{prep, prep_item}
use managment2_main.Matching.Score.{below, is_rejected, pair_score, lower_than}

module _ ⦃m : Matcher⦄ where
  -- Two items that nothing keeps apart.
  abbrev pub compatible : Item → Item → Bool
  compatible x y = not (is_rejected (prep_item 0 x) (prep_item 0 y))

  -- A prepared target says what its item says.
  unfoldable pub AllFaithful : List Prepared → Type 0
  AllFaithful pool =
      (b : Prepared) (i : ℕ) (x : Item)
      → Mem b pool
      → is_rejected (prep_item i x) b ≡ is_rejected (prep_item 0 x) (prep_item 0 b.raw)

  -- A score that is not below the threshold is of a compatible pair.
  unfoldable pub Good : Item → List Scored → Type 0
  Good x scored =
      (s : Scored) → Mem s scored → below s.score 65 ≡ false → compatible x s.target.raw ≡ true

  faithful-prep_item :
      (i j : ℕ) (x y : Item)
      → is_rejected (prep_item i x) (prep_item j y) ≡ is_rejected (prep_item 0 x) (prep_item 0 y)
  unfolding is_rejected prep_item
  faithful-prep_item i j x y = refl

  pub prep-AllFaithful : (j : ℕ) (items : List Item) → AllFaithful (prep j items)
  unfolding AllFaithful prep prep_item
  prep-AllFaithful j [] b i x k = absurd (not-mem-nil k)
  prep-AllFaithful j (y ∷ items) b i x k =
      Or.elim (Bool-set _ _) (mem-cons.0 k) (λ same. rw same (faithful-prep_item i j x y))
        (prep-AllFaithful (suc j) items b i x)

  none_pool-AllFaithful :
      (others : List Prepared) → AllFaithful others → AllFaithful (none_pool others)
  unfolding AllFaithful none_pool
  none_pool-AllFaithful [] f b i x k = f b i x k
  none_pool-AllFaithful (c ∷ others) f b i x k =
      go c.brand k
        (λ h. none_pool-AllFaithful others (λ d j y h'. f d j y (mem-cons_of_mem c h')) b i x h)
    where
      go :
          (brand : Option String)
          → Mem b (elim brand as (λ _. List Prepared) [
            | none ↦ c ∷ c ∷ none_pool others
            | some t ↦ c ∷ none_pool others
          ])
          → (Mem b (none_pool others)
              → is_rejected (prep_item i x) b ≡ is_rejected (prep_item 0 x) (prep_item 0 b.raw))
          → is_rejected (prep_item i x) b ≡ is_rejected (prep_item 0 x) (prep_item 0 b.raw)
      go none h rest =
          Or.elim (Bool-set _ _) (mem-cons.0 h) (λ same. f b i x (mem-cons.1 (Or.inl same)))
            (λ h'.
              Or.elim (Bool-set _ _) (mem-cons.0 h') (λ same. f b i x (mem-cons.1 (Or.inl same)))
                rest)
      go (some t) h rest =
          Or.elim (Bool-set _ _) (mem-cons.0 h) (λ same. f b i x (mem-cons.1 (Or.inl same))) rest

  pub pool_of-AllFaithful :
      (brand : Option String) (others : List Prepared)
      → AllFaithful others
      → AllFaithful (pool_of brand others)
  unfolding AllFaithful pool_of
  pool_of-AllFaithful none others f b i x k = none_pool-AllFaithful others f b i x k
  pool_of-AllFaithful (some brand) others f b i x k =
      go (select (has_brand brand) others) (λ h. f b i x (mem-of_select (has_brand brand) others h))
        k
    where
      go :
          (branded : List Prepared)
          → (Mem b branded
              → is_rejected (prep_item i x) b ≡ is_rejected (prep_item 0 x) (prep_item 0 b.raw))
          → Mem b (or_pool branded (none_pool others))
          → is_rejected (prep_item i x) b ≡ is_rejected (prep_item 0 x) (prep_item 0 b.raw)
      go [] h k = none_pool-AllFaithful others f b i x k
      go (c ∷ branded) h k = h k

  mem-nth : {A : Type 0} (i : ℕ) (xs : List A) (a : A) → nth i xs ≡ some a → Mem a xs
  mem-nth i [] a h = absurd (cc)
  mem-nth zero (x ∷ xs) a h = mem-cons.1 (Or.inl (cc))
  mem-nth (suc i) (x ∷ xs) a h = mem-cons_of_mem x (mem-nth i xs a h)

  -- A score that is not below the threshold is of no rejected pair.
  high_accepted : (a b : Prepared) → below (pair_score a b) 65 ≡ false → is_rejected a b ≡ false
  unfolding pair_score
  high_accepted a b h = elim (Bool-cases (is_rejected a b)) [
    | inl bad ↦ absurd (ground (arith, rw bad at h))
    | inr good ↦ good
  ]

  score_pool-Good :
      (i : ℕ) (x : Item) (pool : List Prepared) (positions : List ℕ)
      → AllFaithful pool
      → Good x (score_pool (prep_item i x) pool positions)
  unfolding AllFaithful Good score_pool
  score_pool-Good i x pool [] f s k h = absurd (not-mem-nil k)
  score_pool-Good i x pool (p ∷ positions) f s k h = elim (Option-cases (nth p pool)) [
    | inl out ↦ score_pool-Good i x pool positions f s (rw (score_pool, out) at k) h
    | inr (b, there) ↦
        Or.elim (Bool-set _ _) (mem-cons.0 (rw (score_pool, there) at k))
          (λ same.
            let high : below (pair_score (prep_item i x) b) 65 ≡ false = rw same at h in
            rw (same, ← f b i x (mem-nth p pool b there), high_accepted (prep_item i x) b high)
              refl)
          (λ later. score_pool-Good i x pool positions f s later h)
  ]

  mem-insert_scored :
      (x : Scored) (scored : List Scored) (s : Scored)
      → Mem s (insert_scored x scored)
      → Mem s (x ∷ scored)
  unfolding insert_scored
  mem-insert_scored x [] s k = k
  mem-insert_scored x (y ∷ scored) s k = elim (Bool-cases (lower_than x.score y.score)) [
    | inr first ↦ rw first at k
    | inl later ↦
        Or.elim ∥∥₁_prop (mem-cons.0 (rw later at k))
          (λ same. mem-cons_of_mem x (mem-cons.1 (Or.inl same)))
          (λ rest.
            Or.elim ∥∥₁_prop (mem-cons.0 (mem-insert_scored x scored s rest))
              (λ same. mem-cons.1 (Or.inl same)) (λ m'. mem-cons_of_mem x (mem-cons_of_mem y m')))
  ]

  mem-sort_scored : (scored : List Scored) (s : Scored) → Mem s (sort_scored scored) → Mem s scored
  unfolding sort_scored
  mem-sort_scored [] s k = k
  mem-sort_scored (x ∷ scored) s k =
      Or.elim ∥∥₁_prop (mem-cons.0 (mem-insert_scored x (sort_scored scored) s k))
        (λ same. mem-cons.1 (Or.inl same))
        (λ rest. mem-cons_of_mem x (mem-sort_scored scored s rest))

  pub scored_of-Good :
      (i : ℕ) (x : Item) (pool : List Prepared)
      → AllFaithful pool
      → Good x (scored_of (prep_item i x) pool)
  unfolding Good scored_of
  scored_of-Good i x pool f s k h =
      score_pool-Good i x pool (m.extract (prep_item i x).norm (map (λ b. b.norm) pool) 25) f s
        (mem-sort_scored _ s k) h
