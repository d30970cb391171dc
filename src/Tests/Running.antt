-- ===== src/Tests/Running.antt =====
-- The theorems on the runs and the jobs of a queue at concrete states.
use mathlib.Core.List.{mem-cons_self, mem-cons_of_mem}
use managment2_main.Base.{
  ◌≢◌, length, update, ◌==◌, tally-pos_of_mem, ◌≤◌, ◌≡◌, refl, true, none, some, arith, tally, Mem,
  select, find,
}
use mathlib.Core.Logic.{◌∨₁◌}
use managment2_main.Query.{filter_by}
use managment2_main.Models.{ScrapeRun, failed, literal, running, queued}
use managment2_main.Session.{ok}
use managment2_main.Sample.{sample_laws, sample_engine, sort, insert}
use managment2_main.Sample.World.{due_world, waiting_world, failed_row, run_of, strict_row, at}
use managment2_main.RunRows.{claimed_by, is_candidate, claim_le, CounterArgs, child_of}
use managment2_main.Runs.{
  next_queued, claim_next_queued_run, list_retry_candidates, get_run, complete_run,
}
use managment2_main.Runs.Claim.{QueuedBefore, run_by, claim_next_queued_run_oldest}
use managment2_main.Runs.RetryOrder.{NotAfter}
use managment2_main.Runs.Retries.{
  Owed, OfJob, EndedBy, list_retry_candidates_sound, list_retry_candidates_complete,
}
use managment2_main.Runs.Complete.{complete_run_lem}
use managment2_main.Jobs.{is_due}

abbrev oldest : ScrapeRun
oldest = claimed_by "w1" (at 1000) (run_of 4 2 queued)

claims_oldest : (claim_next_queued_run "w1" waiting_world).0 ≡ ok (some oldest)
unfolding claim_next_queued_run next_queued claim_le select sample_engine sort insert
claims_oldest = refl

abbrev no_args : CounterArgs
no_args = record {
  categories_processed = none;
  products_processed = none;
  products_created = none;
  products_updated = none;
  price_changes_detected = none;
}

missing : get_run 9 due_world ≡ none
unfolding get_run find
missing = refl

present : get_run 2 waiting_world ≡ some (run_of 2 2 running)
unfolding get_run find
present = refl

due_room : tally (is_due (at 1000)) due_world.jobs ≤ 50
unfolding is_due tally
due_room = omega arith

strict_row-is_due : is_due (at 1000) strict_row ≡ true
unfolding is_due
strict_row-is_due = refl

claim_next_queued_run-oldest_example :
    (source : ScrapeRun) × Mem source waiting_world.runs
    × (source.status ≡ some queued)
    × ((q : ScrapeRun) → Mem q waiting_world.runs → q.status ≡ some queued → QueuedBefore source q)
    × (oldest ≡ run_by "w1" (at 1000) source)
    × ((claim_next_queued_run "w1" waiting_world).1.runs
        ≡ update (λ q. q.id == source.id) (run_by "w1" (at 1000)) waiting_world.runs)
unfolding sample_engine
claim_next_queued_run-oldest_example =
    claim_next_queued_run_oldest sample_laws "w1" waiting_world claims_oldest

is_child :
    (c : ScrapeRun) → c.retry_of_run_id ≡ some failed_row.id → child_of failed_row.id c ≡ true
unfolding child_of
is_child c h = rw h refl

no_child : tally (child_of failed_row.id) due_world.runs ≡ 0
unfolding child_of tally
no_child = refl

no_retry_yet : (c : ScrapeRun) → Mem c due_world.runs → c.retry_of_run_id ≢ some failed_row.id
no_retry_yet c m same = absurd (
    omega (
      arith,
      tally-pos_of_mem (child_of failed_row.id) due_world.runs m (is_child c same),
      no_child,
    ))

failed_row-Owed : Owed due_world failed_row
failed_row-Owed = record {
  status = refl;
  retryable = refl;
  not_processed = refl;
  not_exhausted = refl;
  no_child = no_retry_yet;
}

list_retry_candidates-complete_example :
    Mem failed_row (list_retry_candidates none none 50 due_world)
    ∨₁ ((length (list_retry_candidates none none 50 due_world) ≡ 50)
        × ((q : ScrapeRun)
            → Mem q (list_retry_candidates none none 50 due_world)
            → NotAfter q.finished_at failed_row.finished_at))
list_retry_candidates-complete_example =
    list_retry_candidates_complete sample_laws due_world none none 50 failed_row
      (mem-cons_of_mem _ mem-cons_self) failed_row-Owed tt tt

failed_row-listed : Mem failed_row (list_retry_candidates none none 50 due_world)
unfolding list_retry_candidates is_candidate child_of tally select sample_engine sort insert
    filter_by
failed_row-listed = mem-cons_self

list_retry_candidates-sound_example :
    Mem failed_row due_world.runs
    × Owed due_world failed_row
    × OfJob none failed_row.job_id
    × EndedBy none failed_row.finished_at
list_retry_candidates-sound_example =
    list_retry_candidates_sound sample_laws due_world none none 50 failed_row failed_row-listed

complete_run_lem_example :
    get_run 2 (complete_run 2 failed (some (literal "x")) none true waiting_world).1
    ≡ some (record (run_of 2 2 running) {
      status = some failed;
      finished_at = some (at 1000);
      error_message = some (literal "x");
      retryable = true;
    })
unfolding sample_engine
complete_run_lem_example =
    complete_run_lem 2 2 waiting_world failed (some (literal "x")) none true (run_of 2 2 running)
      present
