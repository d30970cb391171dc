-- ===== src/Sample/Runners.antt =====
-- Runners for the examples: one that counts three products, and one that raises.
use managment2_main.Base.{[], ◌∷◌}
use managment2_main.Models.{RunnerResult, runner_success, runner_raised, no_counts}
use managment2_main.Session.{ok, raised}
use managment2_main.Worker.{Runner, Registry}

abbrev pub three_products : RunnerResult
three_products = record runner_success { counts = record no_counts { products_processed = 3 } }

abbrev pub shop_runner : Runner
shop_runner = record { runner_type = "shop_scrape"; run = λ ctx w. (ok three_products, w) }

abbrev pub broken_runner : Runner
broken_runner = record {
  runner_type = "mall_scrape";
  run = λ ctx w. (raised (runner_raised "timeout"), w);
}

abbrev pub sample_registry : Registry
sample_registry = shop_runner ∷ broken_runner ∷ []
