-- ===== src/Matching/Extract.antt =====
-- What the titles say: `_normalize_title`, the `_extract_*` functions and `_prep` of
-- pricewatch/core/normalize.py, with the patterns that are tried.
use Prim.Native.Char.{code}
use Prim.Native.String.{◌++◌ as str_append}
use managment2_main.Base.{
  ℕ, zero, suc, String, Bool, true, false, not, ◌&&◌, ◌||◌, Option, none, some, List, [], ◌∷◌, ◌++◌,
  map, str_eq, if◌then◌else◌, leb, ◌==◌,
}
use managment2_main.Matching.{Matcher, Match}
use managment2_main.Matching.Patterns.{
  brands, level_rules, product_type_keywords, sport_context_keywords, flex_pattern,
  flex_num_pattern, hand_pattern, accessory_context_pattern, core_equip_pattern, goalie_keywords,
  curve_tokens, skate_fit_tokens, noise_pattern, hand_norm,
}

abbrev pub is_match {ℓ} : {A : Type ℓ} → Option A → Bool
is_match none = false
is_match (some a) = true

-- `m.group(0)`, `m.group(1)` and `m.group(m.lastindex)`; a group that took no part is empty here.
abbrev pub or_empty : Option String → String
or_empty none = ""
or_empty (some s) = s

abbrev pub group_at : ℕ → Match → String
group_at i [] = ""
group_at zero (g ∷ groups) = or_empty g
group_at (suc i) (g ∷ groups) = group_at i groups

abbrev pub last_group : Match → String
last_group [] = ""
last_group (g ∷ []) = or_empty g
last_group (g ∷ h ∷ groups) = last_group (h ∷ groups)

abbrev pub orelse {ℓ} : {A : Type ℓ} → Option A → Option A → Option A
orelse none o = o
orelse (some a) o = some a

-- A set of texts as a list with no text twice.
abbrev pub has_text : String → List String → Bool
has_text t [] = false
has_text t (s ∷ texts) = str_eq t s || has_text t texts

abbrev pub add_text : String → List String → List String
add_text t texts = if has_text t texts then texts else texts ++ t ∷ []

-- `" " in s`
abbrev pub has_space : String → Bool
has_space String.[] = false
has_space (String.◌∷◌ c s) = (code c == 32) || has_space s

module _ ⦃m : Matcher⦄ where
  abbrev pub is_found : Bool → String → String → Bool
  is_found ignore_case pattern t = is_match (m.re_search ignore_case pattern t)

  -- `_normalize_title`
  unfoldable pub normalize_item_title : String → String
  normalize_item_title s =
      let spaced =
        m.replace "+" " " (m.replace "/" " " (m.replace "-" " " (m.replace "—" " " (m.lower s)))) in
      let plain = m.strip (m.re_sub false "\\s+" " " (m.re_sub false "[^\\w\\s\\.]" " " spaced)) in
      m.strip (m.re_sub false "\\s+" " " (m.re_sub true noise_pattern " " plain))

  -- The value of the first pattern that is found.
  unfoldable pub first_found : Bool → String → List (String × String) → Option String
  first_found ignore_case t [] = none
  first_found ignore_case t ((pattern, value) ∷ rules) =
      if is_found ignore_case pattern t then some value else first_found ignore_case t rules

  -- ``rf"\b{k}\b"``
  abbrev pub word : String → String
  word k = str_append "\\b" (str_append k "\\b")

  unfoldable pub extract_brand : String → Option String
  unfolding first_found
  extract_brand title = first_found false (m.lower title) (map (λ (k, v). (word k, v)) brands)

  unfoldable pub extract_level : String → Option String
  unfolding first_found
  extract_level title = first_found true title level_rules

  abbrev pub int_group : Option Match → Option ℕ
  int_group none = none
  int_group (some groups) = m.int_of (last_group groups)

  unfoldable pub extract_flex : String → Option ℕ
  extract_flex title =
      int_group
        (orelse (m.re_search true flex_num_pattern title) (m.re_search true flex_pattern title))

  -- `dictionary.get(key)`
  abbrev pub text_get : String → List (String × String) → Option String
  text_get key [] = none
  text_get key ((k, v) ∷ rest) = if str_eq key k then some v else text_get key rest

  unfoldable pub extract_hand : String → Option String
  extract_hand title = elim (m.re_search true hand_pattern title) [
    | none ↦ none
    | some groups ↦ text_get (m.rstrip_dots (m.lower (group_at 0 groups))) hand_norm
  ]

  unfoldable pub extract_goalie_flag : String → Bool
  extract_goalie_flag title = is_found true goalie_keywords title

  -- `_PLAYER_TO_GOALIE`
  abbrev pub player_to_goalie : List (String × String)
  player_to_goalie =
      ("STICK", "GOALIE_STICK")
      ∷ ("SKATES", "GOALIE_SKATES")
      ∷ ("GLOVES", "GOALIE_GLOVE")
      ∷ ("HELMET", "GOALIE_HELMET")
      ∷ ("PANTS", "GOALIE_PANTS")
      ∷ []

  abbrev pub or_type : Option String → String → String
  or_type none t = t
  or_type (some g) t = g

  -- The goalie's variant of a type, for a goalie's product.
  abbrev pub goalie_type : Bool → String → String
  goalie_type goalie t = if goalie then or_type (text_get t player_to_goalie) t else t

  -- A bag or an accessory counts only with its context and without core equipment.
  abbrev pub is_admitted : String → String → Bool
  is_admitted t type =
      not (str_eq type "BAG" || str_eq type "ACCESSORY")
      || (is_found true accessory_context_pattern t && not (is_found true core_equip_pattern t))

  unfoldable pub first_type : String → Bool → List (String × String) → Option String
  first_type t goalie [] = none
  first_type t goalie ((pattern, type) ∷ rules) =
      if is_found true pattern t && is_admitted t type
      then some (goalie_type goalie type)
      else first_type t goalie rules

  unfoldable pub extract_product_type : String → Option String
  unfolding first_type
  extract_product_type title =
      first_type (m.lower title) (extract_goalie_flag title) product_type_keywords

  unfoldable pub extract_sport_context : String → Option String
  unfolding first_found
  extract_sport_context title = first_found true (m.lower title) sport_context_keywords

  abbrev pub compact : String → String
  compact s = m.upper (m.re_sub false "\\s+" "" s)

  abbrev pub upper_group : Option Match → Option String
  upper_group none = none
  upper_group (some groups) = some (m.upper (group_at 1 groups))

  unfoldable pub extract_curve : String → Option String
  extract_curve title = elim (m.re_search true curve_tokens title) [
    | some groups ↦ some (compact (group_at 0 groups))
    | none ↦ upper_group (m.re_search true "\\b(P\\d{1,3}(?:TM)?)\\b" title)
  ]

  abbrev pub fit_of : String → String
  fit_of s = if str_eq s "WIDE" then "EE" else if str_eq s "REGULAR" then "D" else s

  unfoldable pub extract_skate_fit : String → Option String
  extract_skate_fit title = elim (m.re_search true skate_fit_tokens title) [
    | none ↦ none
    | some groups ↦ some (fit_of (compact (group_at 0 groups)))
  ]

  -- A size in tenths from 2.0 to 16.0.
  abbrev pub is_size : Option ℕ → Bool
  is_size none = false
  is_size (some v) = leb 20 v && leb v 160

  unfoldable pub add_sizes : List Match → List String → List String
  add_sizes [] sizes = sizes
  add_sizes (groups ∷ rest) sizes =
      let raw = m.replace "," "." (group_at 1 groups) in
      add_sizes rest (if is_size (m.tenths_of raw) then add_text raw sizes else sizes)

  unfoldable pub add_lengths : List Match → List String → List String
  add_lengths [] sizes = sizes
  add_lengths (groups ∷ rest) sizes =
      add_lengths rest (add_text (str_append (group_at 1 groups) "CM") sizes)

  -- The sizes as a set: they are only intersected.
  unfoldable pub extract_numeric_size_tokens : String → List String
  unfolding add_sizes add_lengths
  extract_numeric_size_tokens title =
      let t = m.upper title in
      add_lengths (m.re_finditer false "\\b(\\d{2,3})\\s*CM\\b" t)
        (add_sizes (m.re_finditer false "\\b(\\d{1,2}(?:[.,]\\d)?)(?:\\s*(?:D|EE|E|W|R))?\\b" t) [])

  unfoldable pub extract_accessory_flag : String → Bool
  extract_accessory_flag title =
      let t = m.lower title in
      is_found true accessory_context_pattern t && not (is_found true core_equip_pattern t)
