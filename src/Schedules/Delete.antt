-- ===== src/Schedules/Delete.antt =====
-- `delete_schedule_for_job`: what is deleted, and what stays.
use mathlib.Core.List.{not-mem-nil}
use managment2_main.Base.{
  ap, ◌∙◌, ℕ, ◌≡◌, refl, false, not, ◌&&◌, none, List, [], ◌∷◌, select, tally, length-select, arith,
  ◌==◌, Bool-cases, Option-cases, inl, inr,
}
use managment2_main.Models.{ScrapeSchedule}
use managment2_main.Engine.{Engine, EngineLaws}
use managment2_main.Session.{World, ok, delete_schedules}
use managment2_main.Schedules.{
  schedule_of, list_schedules_for_job, delete_schedule_for_job, get_schedule_for_job,
}

select_deleted :
    (j : ℕ) (rows : List ScrapeSchedule)
    → select (λ s. schedule_of j s && s.enabled) (select (λ s. not (schedule_of j s)) rows) ≡ []
unfolding select
select_deleted j [] = refl
select_deleted j (s ∷ rows) = elim (Bool-cases (schedule_of j s)) [
  | inl mine ↦ rw mine (select_deleted j rows)
  | inr other ↦ rw (other, other) (select_deleted j rows)
]

select_kept :
    (j k : ℕ) (rows : List ScrapeSchedule)
    → (k == j) ≡ false
    → select (schedule_of k) (select (λ s. not (schedule_of j s)) rows)
      ≡ select (schedule_of k) rows
unfolding select
select_kept j k [] apart = refl
select_kept j k (s ∷ rows) apart = elim (Bool-cases (schedule_of j s)) [
  | inl mine ↦
      let elsewhere : schedule_of k s ≡ false = ground arith in
      rw (mine, elsewhere) (select_kept j k rows apart)
  | inr other ↦ rw other (ground (arith, select_kept j k rows apart))
]

module _ ⦃e : Engine⦄ where
  -- A deletion returns how many schedules of the job there were; after it none is found for the job, and
  -- the schedules of every other job are as they were.
  pub delete_schedule_for_job_lem :
      (laws : EngineLaws e) (j : ℕ) (w : World)
      → ((delete_schedule_for_job j w).0 ≡ ok (tally (schedule_of j) w.schedules))
        × (get_schedule_for_job j (delete_schedule_for_job j w).1 ≡ none)
        × ((k : ℕ)
            → (k == j) ≡ false
            → list_schedules_for_job k (delete_schedule_for_job j w).1 ≡ list_schedules_for_job k w)
  unfolding delete_schedule_for_job delete_schedules list_schedules_for_job get_schedule_for_job
  delete_schedule_for_job_lem laws j w = (
    rw (length-select (schedule_of j) w.schedules) refl,
    ap (λ rows. e.pick ScrapeSchedule rows) (select_deleted j w.schedules) ∙ nothing,
    λ k. select_kept j k w.schedules,
  )
    where
      nothing : e.pick ScrapeSchedule [] ≡ none
      nothing = elim (Option-cases (e.pick ScrapeSchedule [])) [
        | inl none_there ↦ none_there
        | inr (s, found) ↦ absurd (not-mem-nil (laws.pick_mem ScrapeSchedule [] s found))
      ]
