-- ===== src/Scheduler/Retrying.antt =====
-- The walk over the retry candidates, for statements about the runs and the jobs.
use managment2_main.Base.{
  List, Mem, ℕ, ◌≡◌, refl, true, false, Bool, not, Option, none, some, leb, ◌==◌, inl, inr,
  Bool-cases, if◌then◌else◌, mem-of_find, or_default, ◌-◌,
}
use managment2_main.Models.{Datetime, plus, seconds, ScrapeRun, ScrapeJob}
use managment2_main.Engine.{Engine}
use managment2_main.Session.{World, retry_failed, pure, lift, change_run, job_row}
use managment2_main.Session.Keeps.{Keeps, Keeps-bind, bind_at, catch_at, for_each_at}
use managment2_main.Session.Tables.{Tables, Keeps-change_tick}
use managment2_main.Timing.{datetime_gt}
use managment2_main.Runs.Enqueue.{enqueued, enqueue_run-eq, after_enqueue}
use managment2_main.Jobs.{get_scrape_job}
use managment2_main.Scheduler.{
  overlap_guard, retry_args, spawn_retry, link_retry, retry_of, as_processed, note_retry,
  note_error, spawn_if_free, retry_after, retry_job, retry_for, process_candidate, candidate,
  process_retry_candidates, as_exhausted,
}

-- What the writes of the walk over the retry candidates do to a statement `Q` about the two tables,
-- where `C` says what is known of a job whose row is in the table.
pub record RetryRules (e : Engine) (Q : List ScrapeRun → List ScrapeJob → Type 0)
    (C : ScrapeJob → Type 0) : Type 0 where
  pub job_known :
      (runs : List ScrapeRun) (jobs : List ScrapeJob) (job : ScrapeJob)
      → Q runs jobs
      → Mem job jobs
      → C job
  pub processed : (i : ℕ) → Keeps (Tables Q) (change_run i as_processed)
  pub exhausted : (i : ℕ) → Keeps (Tables Q) (change_run i as_exhausted)
  pub linked : (i s : ℕ) → Keeps (Tables Q) (change_run i (retry_of s))
  pub retried :
      (job : ScrapeJob) (source : ScrapeRun) (attempt : ℕ) (w : World)
      → C job
      → overlap_guard job w ≡ false
      → leb job.max_retries (attempt - 1) ≡ false
      → Tables Q w
      → Tables Q (after_enqueue ⦃e = e⦄ (retry_args job source attempt) w)

module _ ⦃e : Engine⦄ (Q : List ScrapeRun → List ScrapeJob → Type 0) (C : ScrapeJob → Type 0)
    (rules : RetryRules e Q C) where
  abbrev P : World → Type 0
  P = Tables Q

  link_retry-Keeps : (source run : ScrapeRun) → Keeps P (link_retry source run)
  unfolding link_retry
  link_retry-Keeps source run = Keeps-bind _ _ (rules.linked run.id source.id) (λ _.
      Keeps-bind _ _ (rules.processed source.id) (λ _. Keeps-change_tick Q (note_retry run.id)))

  spawn_retry_keeps :
      (source : ScrapeRun) (job : ScrapeJob) (attempt : ℕ) (w : World)
      → C job
      → overlap_guard job w ≡ false
      → leb job.max_retries (attempt - 1) ≡ false
      → P w
      → P (spawn_retry source job attempt w).1
  unfolding spawn_retry
  spawn_retry_keeps source job attempt w c clear left g =
      rw (enqueue_run-eq (retry_args job source attempt) w) (
        (link_retry-Keeps source (enqueued (retry_args job source attempt) w)).at _
          (rules.retried job source attempt w c clear left g))

  spawn_if_free_keeps :
      (source : ScrapeRun) (job : ScrapeJob) (attempt : ℕ) (w : World)
      → C job
      → leb job.max_retries (attempt - 1) ≡ false
      → P w
      → P (spawn_if_free source job attempt w).1
  unfolding spawn_if_free
  spawn_if_free_keeps source job attempt w c left g = elim (Bool-cases (overlap_guard job w)) [
    | inl blocked ↦ rw blocked g
    | inr clear ↦ rw clear (spawn_retry_keeps source job attempt w c clear left g)
  ]

  retry_after_keeps :
      (now : Datetime) (source : ScrapeRun) (job : ScrapeJob) (attempt : ℕ) (t : Option Datetime)
      (w : World)
      → C job
      → leb job.max_retries (attempt - 1) ≡ false
      → P w
      → P (retry_after now source job attempt t w).1
  unfolding retry_after
  retry_after_keeps now source job attempt none w c left g = g
  retry_after_keeps now source job attempt (some t) w c left g =
      bind_at P (lift (datetime_gt (plus t (seconds (or_default job.retry_backoff_sec 60))) now))
        (λ waiting. if waiting then pure tt else spawn_if_free source job attempt) w g branch
    where
      branch :
          (b : Bool) (v : World)
          → P v
          → P ((if b then pure tt else spawn_if_free source job attempt) v).1
      branch true v h = h
      branch false v h = spawn_if_free_keeps source job attempt v c left h

  retry_job_keeps :
      (now : Datetime) (source : ScrapeRun) (job : ScrapeJob) (w : World)
      → C job
      → P w
      → P (retry_job now source job w).1
  unfolding retry_job
  retry_job_keeps now source job w c g = elim (Bool-cases (not job.enabled)) [
    | inl off ↦ rw off ((rules.processed source.id).at w g)
    | inr on ↦ elim (Bool-cases (leb job.max_retries (or_default source.attempt 1 - 1))) [
      | inl spent ↦ rw (on, spent) ((rules.exhausted source.id).at w g)
      | inr left ↦ rw (on, left) (retry_after_keeps now source job _ source.finished_at w c left g)
    ]
  ]

  process_candidate_keeps :
      (now : Datetime) (source : ScrapeRun) (o : Option ℕ) (w : World)
      → P w
      → P (process_candidate now source o w).1
  unfolding process_candidate get_scrape_job job_row retry_for Tables
  process_candidate_keeps now source none w g = (rules.processed source.id).at w g
  process_candidate_keeps now source (some i) w g = go (job_row i w) refl
    where
      go : (o : Option ScrapeJob) → job_row i w ≡ o → P (retry_for now source o w).1
      go none e = (rules.processed source.id).at w g
      go (some job) e =
          retry_job_keeps now source job w
            (rules.job_known w.runs w.jobs job g (mem-of_find (λ j. j.id == i) w.jobs e)) g

  candidate_keeps :
      (now : Datetime) (source : ScrapeRun) (w : World) → P w → P (candidate now source w).1
  unfolding candidate
  candidate_keeps now source w g =
      catch_at P (process_candidate now source source.job_id) _ w
        (process_candidate_keeps now source source.job_id w g)
        (λ x. Keeps-change_tick Q (note_error (retry_failed source.id x)))

  pub process_retry_candidates_keeps :
      (now : Datetime) (limit : ℕ) (w : World) → P w → P (process_retry_candidates now limit w).1
  unfolding process_retry_candidates
  process_retry_candidates_keeps now limit w g =
      for_each_at P (candidate now) _ (λ source _ v h. candidate_keeps now source v h) w g
