-- ===== src/Syncing/Balance.antt =====
-- The counters of a sync: every scraped item is counted once, as created, updated or skipped, and
-- the diagnostics agree with the skipped ones.
use managment2_main.Base.{
  ℕ, ◌+◌, ◌≤◌, ◌≡◌, refl, suc, String, Bool, List, [], ◌∷◌, ◌++◌, length, leb, arith, if◌then◌else◌,
}
use managment2_main.Models.Catalogue.{Product}
use managment2_main.Syncing.Adapters.{Adapter}
use managment2_main.Syncing.Skipped.{
  no_errors, Entry, Diagnostics, count_reason, sample_limit, record_validation_error,
}
use managment2_main.Syncing.{Progress, Normalized, no_progress, without_name, without_url, stored}

-- The sum of the counts.
unfoldable pub total : List (String × ℕ) → ℕ
total [] = 0
total ((r, n) ∷ counts) = n + total counts

-- Every skipped item is counted under one reason, and the sample holds as many as its limit admits.
pub record Diagnosed (d : Diagnostics) : Type 0 where
  pub reasons : total d.counts ≡ d.skipped
  pub sample_length :
      length d.sample ≡ (if leb d.skipped sample_limit then d.skipped else sample_limit)

pub record Balanced (p : Progress) : Type 0 where
  pub parts : p.processed ≡ p.created + p.updated + p.errors.skipped
  pub diagnosed : Diagnosed p.errors
  pub missing_url : p.skipped_missing_url ≤ p.errors.skipped
  pub price_changes : p.price_changes ≤ p.created + p.updated

total-count_reason :
    (reason : String) (counts : List (String × ℕ))
    → total (count_reason reason counts) ≡ suc (total counts)
unfolding total count_reason
total-count_reason reason [] = refl
total-count_reason reason ((r, n) ∷ counts) = ground (arith, total-count_reason reason counts)

length-snoc : (xs : List Entry) (x : Entry) → length (xs ++ x ∷ []) ≡ suc (length xs)
length-snoc [] x = refl
length-snoc (y ∷ xs) x = ground (arith, length-snoc xs x)

pub Diagnosed-record_validation_error :
    (entry : Entry) (d : Diagnostics) → Diagnosed d → Diagnosed (record_validation_error entry d)
unfolding record_validation_error
Diagnosed-record_validation_error entry d h = record {
  reasons = rw (total-count_reason entry.reason d.counts) (omega (arith, h.reasons));
  sample_length = ground (arith, h.sample_length, length-snoc d.sample entry);
}

pub Diagnosed-no_errors : Diagnosed no_errors
unfolding total
Diagnosed-no_errors = record { reasons = refl; sample_length = refl }

pub Balanced-no_progress : Balanced no_progress
unfolding total
Balanced-no_progress = record {
  parts = refl;
  diagnosed = Diagnosed-no_errors;
  missing_url = omega arith;
  price_changes = omega arith;
}

pub Balanced-without_name :
    (adapter : Adapter) (p : Progress) → Balanced p → Balanced (without_name adapter p)
unfolding record_validation_error
Balanced-without_name adapter p h = record {
  parts = omega (arith, h.parts);
  diagnosed = Diagnosed-record_validation_error _ p.errors h.diagnosed;
  missing_url = omega (arith, h.missing_url);
  price_changes = h.price_changes;
}

pub Balanced-without_url :
    (adapter : Adapter) (n : Normalized) (p : Progress)
    → Balanced p
    → Balanced (without_url adapter n p)
unfolding record_validation_error
Balanced-without_url adapter n p h = record {
  parts = omega (arith, h.parts);
  diagnosed = Diagnosed-record_validation_error _ p.errors h.diagnosed;
  missing_url = omega (arith, h.missing_url);
  price_changes = h.price_changes;
}

pub Balanced-stored :
    (p : Progress) (product : Product) (was_created changed : Bool)
    → Balanced p
    → Balanced (stored p (product, was_created, changed))
unfolding stored
Balanced-stored p product was_created changed h = record {
  parts = ground (arith, h.parts);
  diagnosed = h.diagnosed;
  missing_url = h.missing_url;
  price_changes = ground (arith, h.price_changes);
}
