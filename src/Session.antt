-- ===== src/Session.antt =====
-- The state that the runtime works on, and the actions on it.
--
-- `World` is the modelled part of the database as a session sees it, with the process globals
-- `_TZ_CACHE` (pricewatch/scrape/schedule.py) and `_worker_state` (worker.py), the `SchedulerTick`
-- object of the running `run_tick` (scheduler.py), and how often clock and random source were read.
-- An `Action` is code that works on it and may raise: what was written before a raise stays written.
pub mod Keeps
pub mod Tables
pub mod Yields
use managment2_main.Base.{
  ℕ, suc, ◌+◌, String, Bool, Option, none, some, List, ◌∷◌, [], ◌++◌, map, find, update, select,
  not, ◌==◌,
}
use managment2_main.Models.{
  Error, Message, Datetime, ScrapeRun, ScrapeJob, ScrapeSchedule, GapItemStatus,
}
use managment2_main.Models.Catalogue.{
  Catalogue, Store, Category, CategoryMapping, Product, ProductMapping, ProductPriceHistory,
}
use managment2_main.Engine.{ZoneInfo, Engine}

-- An entry of `tick.errors`: the job or the source run, and the exception that its text reports.
pub data TickError : Type 0 where
  job_failed : ℕ → Error → TickError
  retry_failed : ℕ → Error → TickError

-- `SchedulerTick`: what one call of `run_tick` has done so far.
pub record SchedulerTick : Type 0 where
  pub enqueued : List ℕ
  pub retries_enqueued : List ℕ
  pub skipped_overlap : List ℕ
  pub skipped_no_schedule : List ℕ
  pub errors : List TickError

-- `_worker_state`
pub record WorkerState : Type 0 where
  pub running : Bool
  pub started_at : Option Datetime
  pub last_poll_at : Option Datetime
  pub last_claimed_run_id : Option ℕ
  pub last_completed_run_id : Option ℕ
  pub last_error : Option Message
  pub polls_total : ℕ
  pub runs_claimed_total : ℕ

pub record World : Type 0 where
  pub runs : List ScrapeRun
  pub jobs : List ScrapeJob
  pub schedules : List ScrapeSchedule
  pub gap_statuses : List GapItemStatus
  pub catalogue : Catalogue
  pub tz_cache : List (String × ZoneInfo)
  pub clock_reads : ℕ
  pub random_reads : ℕ
  pub tick : SchedulerTick
  pub worker : WorkerState

pub data Result {ℓ} (A : Type ℓ) : Type ℓ where
  ok : A → Result A
  raised : Error → Result A

abbrev pub Action {ℓ} : Type ℓ → Type ℓ
Action A = World → Result A × World

module _ {ℓ} {A : Type ℓ} where
  pub pure : A → Action A
  pure a w = (ok a, w)

  pub raise : Error → Action A
  raise e w = (raised e, w)

  -- A value read off the state.
  pub gets : (World → A) → Action A
  gets f w = (ok (f w), w)

  pub or_raise : Error → Option A → Action A
  unfolding pure raise
  or_raise e none = raise e
  or_raise e (some a) = pure a

  -- A computation that may raise and touches no state.
  pub lift : Result A → Action A
  lift r w = (r, w)

  abbrev pub recover : (Error → Action A) → Result A → Action A
  recover h (ok a) w = (ok a, w)
  recover h (raised e) w = h e w

  -- `try: m` with `except Exception as exc: h exc`.
  unfoldable pub catch : Action A → (Error → Action A) → Action A
  catch m h w = let (r, w') = m w in recover h r w'

module _ {ℓ κ} {A : Type ℓ} {B : Type κ} where
  abbrev pub continue : (A → Action B) → Result A → Action B
  continue f (ok a) w = f a w
  continue f (raised e) w = (raised e, w)

  infixl 5 ◌>>=◌
  -- To open this is to open the actions above too.
  unfoldable pub ◌>>=◌ : Action A → (A → Action B) → Action B
  unfolding pure raise gets or_raise lift catch
  ◌>>=◌ m f w = let (r, w') = m w in continue f r w'

infixl 5 ◌>>◌
abbrev pub ◌>>◌ {κ} : {B : Type κ} → Action (Unit {0}) → Action B → Action B
m >> k = m >>= λ _. k

-- `session.get(ScrapeRun, id)`, and a change of that row's columns.
unfoldable pub run_row : ℕ → World → Option ScrapeRun
run_row i w = find (λ r. r.id == i) w.runs

unfoldable pub job_row : ℕ → World → Option ScrapeJob
job_row i w = find (λ j. j.id == i) w.jobs

unfoldable pub schedule_row : ℕ → World → Option ScrapeSchedule
schedule_row i w = find (λ s. s.id == i) w.schedules

unfoldable pub change_run : ℕ → (ScrapeRun → ScrapeRun) → Action (Unit {0})
change_run i f w = (ok tt, record w { runs = update (λ r. r.id == i) f w.runs })

unfoldable pub change_job : ℕ → (ScrapeJob → ScrapeJob) → Action (Unit {0})
change_job i f w = (ok tt, record w { jobs = update (λ j. j.id == i) f w.jobs })

unfoldable pub change_schedule : ℕ → (ScrapeSchedule → ScrapeSchedule) → Action (Unit {0})
change_schedule i f w = (ok tt, record w { schedules = update (λ s. s.id == i) f w.schedules })

-- Changes of the rows that pass a test.
unfoldable pub change_gap_statuses :
    (GapItemStatus → Bool) → (GapItemStatus → GapItemStatus) → Action (Unit {0})
change_gap_statuses p f w = (ok tt, record w { gap_statuses = update p f w.gap_statuses })

unfoldable pub change_catalogue : (Catalogue → Catalogue) → Action (Unit {0})
change_catalogue f w = (ok tt, record w { catalogue = f w.catalogue })

unfoldable pub change_tick : (SchedulerTick → SchedulerTick) → Action (Unit {0})
change_tick f w = (ok tt, record w { tick = f w.tick })

unfoldable pub change_worker : (WorkerState → WorkerState) → Action (Unit {0})
change_worker f w = (ok tt, record w { worker = f w.worker })

-- `session.rollback()`: the tables are again as they were last committed; process globals stay.
unfoldable pub rolled_back : World → World → World
rolled_back committed w = record w {
  runs = committed.runs;
  jobs = committed.jobs;
  schedules = committed.schedules;
  gap_statuses = committed.gap_statuses;
  catalogue = committed.catalogue;
}

-- `for x in xs: body(x)`
unfoldable pub for_each {ℓ} : {A : Type ℓ} → (A → Action (Unit {0})) → List A → Action (Unit {0})
unfolding ◌>>=◌
for_each body [] = pure tt
for_each body (x ∷ xs) = do body x; for_each body xs

-- `session.delete(row)` for the rows that pass a test.
unfoldable pub delete_schedules : (ScrapeSchedule → Bool) → Action (Unit {0})
delete_schedules p w = (ok tt, record w { schedules = select (λ s. not (p s)) w.schedules })

module _ ⦃e : Engine⦄ where
  -- `datetime.now(timezone.utc)`: the next reading of the clock.
  unfoldable pub utcnow : Action Datetime
  utcnow w =
      (ok (Datetime.aware (e.clock w.clock_reads)), record w { clock_reads = suc w.clock_reads })

  -- `random.randint(0, k)`
  unfoldable pub randint : ℕ → Action ℕ
  randint k w = (ok (e.randint w.random_reads k), record w { random_reads = suc w.random_reads })

  -- `session.add(row); session.flush()`: the row is stored under a new id, which is the result.
  unfoldable pub add_run : (ℕ → ScrapeRun) → Action ScrapeRun
  add_run row w =
      let run = row (e.next_id (map (λ r. r.id) w.runs)) in
      (ok run, record w { runs = w.runs ++ run ∷ [] })

  unfoldable pub add_job : (ℕ → ScrapeJob) → Action ScrapeJob
  add_job row w =
      let job = row (e.next_id (map (λ j. j.id) w.jobs)) in
      (ok job, record w { jobs = w.jobs ++ job ∷ [] })

  unfoldable pub add_schedule : (ℕ → ScrapeSchedule) → Action ScrapeSchedule
  add_schedule row w =
      let schedule = row (e.next_id (map (λ s. s.id) w.schedules)) in
      (ok schedule, record w { schedules = w.schedules ++ schedule ∷ [] })

  unfoldable pub add_gap_status : (ℕ → GapItemStatus) → Action GapItemStatus
  add_gap_status row w =
      let gap = row (e.next_id (map (λ g. g.id) w.gap_statuses)) in
      (ok gap, record w { gap_statuses = w.gap_statuses ++ gap ∷ [] })
