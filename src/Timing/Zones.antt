-- ===== src/Timing/Zones.antt =====
-- The time zone cache of schedule.py, `_TZ_CACHE`, against lookups without it.
use managment2_main.Base.{
  String, ◌≡◌, refl, ap, true, none, some, List, [], ◌∷◌, ◌++◌, if◌then◌else◌, arith, eq_iff,
  str_eq, Bool-cases, Option-cases, inl, inr,
}
use managment2_main.Models.{invalid_timezone}
use managment2_main.Engine.{ZoneInfo, Engine}
use managment2_main.Session.{World, Result, ok, raised}
use managment2_main.Timing.{cached, resolve_tz}

module _ ⦃e : Engine⦄ where
  -- Each cached zone is the one that its name stands for.
  pub record CacheSound (cache : List (String × ZoneInfo)) : Type 0 where
    pub at_name :
        (name : String) (zone : ZoneInfo)
        → cached name cache ≡ some zone
        → (zone ≡ record { key = name }) × (e.zone_known name ≡ true)

  -- `ZoneInfo(name)` with no cache.
  abbrev pub zone_info : String → Result ZoneInfo
  zone_info name =
      if e.zone_known name then ok (record { key = name }) else raised (invalid_timezone name)

  cached-append :
      (name n : String) (zone : ZoneInfo) (cache : List (String × ZoneInfo))
      → cached n (cache ++ (name, zone) ∷ []) ≡ elim (cached n cache) [
        | some z ↦ some z
        | none ↦ if str_eq name n then some zone else none
      ]
  unfolding cached
  cached-append name n zone [] = refl
  cached-append name n zone ((k, z) ∷ rest) = ground (arith, cached-append name n zone rest)

  remember-CacheSound :
      (name : String) (cache : List (String × ZoneInfo))
      → e.zone_known name ≡ true
      → CacheSound cache
      → CacheSound (cache ++ (name, record { key = name }) ∷ [])
  remember-CacheSound name cache known s = record {
    at_name = λ n z h.
        ground
          (arith, s.at_name n z, cached-append name n (record { key = name }) cache, eq_iff name n);
  }

  -- With a sound cache `_resolve_tz` is `ZoneInfo(name)`, error included, and the cache stays sound.
  pub resolve_tz-eq :
      (name : String) (w : World)
      → CacheSound w.tz_cache
      → ((resolve_tz name w).0 ≡ zone_info name) × CacheSound (resolve_tz name w).1.tz_cache
  unfolding resolve_tz
  resolve_tz-eq name w s = elim (Option-cases (cached name w.tz_cache)) [
    | inl miss ↦ elim (Bool-cases (e.zone_known name)) [
      | inl known ↦ rw (miss, known) (refl, remember-CacheSound name w.tz_cache known s)
      | inr unknown ↦ rw (miss, unknown) (refl, s)
    ]
    | inr (zone, hit) ↦
        let (same, known) = s.at_name name zone hit in
        rw (hit, known) (ap {B = Result ZoneInfo} ok same, s)
  ]
