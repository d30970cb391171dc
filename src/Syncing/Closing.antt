-- ===== src/Syncing/Closing.antt =====
-- What the two sync services write to the run of a sync: `close_run` after the loop, and
-- `fail_and_raise` in the handler of an exception.
use managment2_main.Base.{ℕ, true, some, none}
use managment2_main.Models.{JsonObject, Error, Message, RunStatus, ScrapeRun}
use managment2_main.Engine.{Engine}
use managment2_main.Session.{Action, raise, ◌>>=◌, ◌>>◌, change_run}
use managment2_main.RunRows.{CounterArgs}
use managment2_main.Runs.{finish_run, fail_run, update_counters}

abbrev pub with_metadata : JsonObject → ScrapeRun → ScrapeRun
with_metadata metadata r = record r { metadata_json = some metadata }

module _ ⦃e : Engine⦄ where
  unfoldable pub close_run : ℕ → CounterArgs → JsonObject → Action ScrapeRun
  unfolding ◌>>=◌ change_run
  close_run run args metadata = do
    counted ← update_counters run args true
    change_run run (with_metadata metadata)
    finish_run run RunStatus.success none

  -- `fail_run(...)` and `raise`
  unfoldable pub fail_and_raise {ℓ} : {A : Type ℓ} → ℕ → Error → Action A
  unfolding ◌>>=◌
  fail_and_raise run err = do failed ← fail_run run (Message.of_error err); raise err
