-- ===== src/Syncing/Skipped.antt =====
-- pricewatch/services/validation_diagnostics.py: what is counted and kept of skipped items, and the metadata
-- of a run that holds it.
use managment2_main.Base.{
  ℕ, suc, pos, String, List, [], ◌∷◌, ◌++◌, str_eq, ltb, length, if◌then◌else◌,
}
use managment2_main.Models.{JsonValue, JsonArray, JsonObject}

-- An entry of `validation_errors_sample`.
pub record Entry : Type 0 where
  pub reason : String
  pub message : String
  pub fields : List (String × String)

-- What `record_validation_error` writes of the metadata.
pub record Diagnostics : Type 0 where
  pub skipped : ℕ
  pub counts : List (String × ℕ)
  pub sample : List Entry

abbrev pub no_errors : Diagnostics
no_errors = record { skipped = 0; counts = []; sample = [] }

-- `counts[reason] = counts.get(reason, 0) + 1`
unfoldable pub count_reason : String → List (String × ℕ) → List (String × ℕ)
count_reason reason [] = (reason, 1) ∷ []
count_reason reason ((r, n) ∷ counts) =
    let rest = count_reason reason counts in
    if str_eq r reason then (r, suc n) ∷ counts else (r, n) ∷ rest

abbrev pub sample_limit : ℕ
sample_limit = 10

abbrev pub sampled : Entry → List Entry → List Entry
sampled entry sample = if ltb (length sample) sample_limit then sample ++ entry ∷ [] else sample

unfoldable pub record_validation_error : Entry → Diagnostics → Diagnostics
record_validation_error entry d = record {
  skipped = suc d.skipped;
  counts = count_reason entry.reason d.counts;
  sample = sampled entry d.sample;
}

abbrev pub counts_json : List (String × ℕ) → JsonObject
counts_json [] = JsonObject.end
counts_json ((r, n) ∷ counts) = JsonObject.field r (JsonValue.number (pos n)) (counts_json counts)

abbrev fields_json : List (String × String) → JsonObject
fields_json [] = JsonObject.end
fields_json ((k, v) ∷ fields) = JsonObject.field k (JsonValue.text v) (fields_json fields)

abbrev entry_json : Entry → JsonObject
entry_json e =
    JsonObject.field "type" (JsonValue.text e.reason)
      (JsonObject.field "message" (JsonValue.text e.message) (fields_json e.fields))

abbrev pub sample_json : List Entry → JsonArray
sample_json [] = JsonArray.nil
sample_json (e ∷ sample) = JsonArray.cons (JsonValue.object (entry_json e)) (sample_json sample)

-- The metadata of a run; the entries of a dictionary have no order.
unfoldable pub metadata_json : ℕ → ℕ → Diagnostics → JsonObject → JsonObject
metadata_json category missing_url d rest =
    JsonObject.field "category_id" (JsonValue.number (pos category)) (
      JsonObject.field "skipped_invalid_products" (JsonValue.number (pos d.skipped)) (
        JsonObject.field "skipped_missing_url" (JsonValue.number (pos missing_url)) (
          JsonObject.field "validation_error_counts" (JsonValue.object (counts_json d.counts)) (
            JsonObject.field "validation_errors_sample" (JsonValue.array (sample_json d.sample))
              rest))))

-- The key that `ensure_metadata` adds.
abbrev pub limit_field : JsonObject
limit_field =
    JsonObject.field "_validation_errors_sample_limit" (JsonValue.number (pos sample_limit))
      JsonObject.end
