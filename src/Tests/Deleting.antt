-- ===== src/Tests/Deleting.antt =====
-- The theorem on deleted schedules at a concrete state.
use managment2_main.Base.{ℕ, ◌≡◌, false, none, tally, ◌==◌}
use managment2_main.Session.{ok}
use managment2_main.Sample.{sample_engine, sample_laws}
use managment2_main.Sample.World.{due_world}
use managment2_main.Schedules.{
  schedule_of, list_schedules_for_job, delete_schedule_for_job, get_schedule_for_job,
}
use managment2_main.Schedules.Delete.{delete_schedule_for_job_lem}

delete_schedule_for_job_lem_example :
    ((delete_schedule_for_job 1 due_world).0 ≡ ok (tally (schedule_of 1) due_world.schedules))
    × (get_schedule_for_job 1 (delete_schedule_for_job 1 due_world).1 ≡ none)
    × ((k : ℕ)
        → (k == 1) ≡ false
        → list_schedules_for_job k (delete_schedule_for_job 1 due_world).1
          ≡ list_schedules_for_job k due_world)
delete_schedule_for_job_lem_example = delete_schedule_for_job_lem sample_laws 1 due_world
