-- ===== src/Syncing/RunRow.antt =====
-- The row of the run of a sync: what the start, the end and the failure of a sync leave of it.
use managment2_main.Syncing.Closing.{with_metadata, close_run}
use managment2_main.Models.{JsonObject, Datetime, RunStatus, Message, ScrapeRun, no_counts}
use managment2_main.Base.{
  String, true, Option-cases, ℕ, ◌≡◌, refl, ◌∙◌, Bool, true, false, Option, none, some, List, find,
  update, map, arith, ◌==◌, ==_refl, inl, inr, find_sound, tally_fresh,
}
use managment2_main.Engine.{Engine, EngineLaws}
use managment2_main.Session.{World, ◌>>=◌, utcnow, add_run, change_run, run_row}
use managment2_main.Session.Yields.{Yields, Yields-bind, Yields-at, Yields-weaken}
use managment2_main.Query.Keyed.{find-append, find-update, find_zero}
use managment2_main.RunRows.{CounterArgs, apply_counts, end_with}
use managment2_main.Runs.{
  require_run, changed, get_run, start_run, finish_run, fail_run, update_counters,
}

-- The row `r` is there.
abbrev pub There : ScrapeRun → World → Type 0
There r w = find (λ q. q.id == r.id) w.runs ≡ some r

-- All runs but the one are as they were.
abbrev pub Others : ℕ → World → World → Type 0
Others i w v = (j : ℕ) → (i == j) ≡ false → get_run j v ≡ get_run j w

-- After a change of the row: the result is the row, it is stored, and the other runs and the
-- catalogue are as they were.
abbrev pub Became : World → ScrapeRun → ScrapeRun → World → Type 0
Became w r r' v = (r' ≡ r) × There r v × (v.catalogue ≡ w.catalogue) × Others r.id w v

pub There-update :
    (f : ScrapeRun → ScrapeRun) (r : ScrapeRun) (rows : List ScrapeRun)
    → ((q : ScrapeRun) → (f q).id ≡ q.id)
    → find (λ q. q.id == r.id) rows ≡ some r
    → find (λ q. q.id == r.id) (update (λ q. q.id == r.id) f rows) ≡ some (f r)
There-update f r rows keeps there =
    rw (find-update (λ q. q.id == r.id) (λ q. q.id == r.id) f rows (λ q _. rw (keeps q) refl))
      (rw (there, ==_refl r.id) refl)

pub Others-update :
    (f : ScrapeRun → ScrapeRun) (i : ℕ) (w : World)
    → ((q : ScrapeRun) → (f q).id ≡ q.id)
    → Others i w (record w { runs = update (λ q. q.id == i) f w.runs })
unfolding get_run run_row
Others-update f i w keeps j apart =
    rw (find-update (λ q. q.id == j) (λ q. q.id == i) f w.runs (λ q _. rw (keeps q) refl))
      (elim (Option-cases (find (λ q. q.id == j) w.runs)) [
        | inl nothing ↦ rw nothing refl
        | inr (r, there) ↦
            let other : (r.id == i) ≡ false =
              ground (arith, find_sound (λ q. q.id == j) w.runs there) in
            rw (there, other) refl
      ])

update_counters-Yields :
    (args : CounterArgs) (absolute : Bool) (r : ScrapeRun) (w : World)
    → There r w
    → Yields
        (Became w (record r { counters = apply_counts absolute r.counters args }))
        (update_counters r.id args absolute w)
unfolding update_counters require_run changed change_run run_row ◌>>=◌
update_counters-Yields args absolute r w there = rw there (
    Yields-at _ _ (
      refl,
      There-update (λ q. record q { counters = apply_counts absolute q.counters args }) r w.runs
          (λ q. refl) there,
      refl,
      Others-update _ r.id w (λ q. refl),
    ))

change_run-Yields :
    (f : ScrapeRun → ScrapeRun) (r : ScrapeRun) (w : World)
    → ((q : ScrapeRun) → (f q).id ≡ q.id)
    → There r w
    → Yields
        (λ _ v.
          (find (λ q. q.id == r.id) v.runs ≡ some (f r))
          × (v.catalogue ≡ w.catalogue)
          × Others r.id w v)
        (change_run r.id f w)
unfolding change_run
change_run-Yields f r w keeps there =
    Yields-at tt _ (There-update f r w.runs keeps there, refl, Others-update f r.id w keeps)

module _ ⦃e : Engine⦄ where
  finish_run-Yields :
      (status : RunStatus) (text : Option Message) (r : ScrapeRun) (w : World)
      → There r w
      → Yields
          (Became w (end_with status text (Datetime.aware (e.clock w.clock_reads)) r))
          (finish_run r.id status text w)
  unfolding finish_run require_run changed change_run run_row utcnow ◌>>=◌ get_run
  finish_run-Yields status text r w there = rw there (
      Yields-at _ _ (
        refl,
        There-update (end_with status text (Datetime.aware (e.clock w.clock_reads))) r w.runs
            (λ q. refl) there,
        refl,
        Others-update _ r.id w (λ q. refl),
      ))

-- The same with `fail_run`.
module _ ⦃e : Engine⦄ where
  pub fail_run-Yields :
      (text : Message) (r : ScrapeRun) (w : World)
      → There r w
      → Yields
          (Became w
            (end_with RunStatus.failed (some text) (Datetime.aware (e.clock w.clock_reads)) r))
          (fail_run r.id text w)
  unfolding fail_run finish_run
  fail_run-Yields text r w there = finish_run-Yields RunStatus.failed (some text) r w there

-- The end of a successful sync, whose run was `r`.
pub record Closed (args : CounterArgs) (r : ScrapeRun) (w : World) (done : ScrapeRun) (v : World)
    : Type 0 where
  pub same_id : done.id ≡ r.id
  pub there : get_run done.id v ≡ some done
  pub status : done.status ≡ some RunStatus.success
  pub counters : done.counters ≡ apply_counts true no_counts args
  pub catalogue : v.catalogue ≡ w.catalogue
  pub others : Others r.id w v

module _ ⦃e : Engine⦄ where
  pub close_run-Yields :
      (args : CounterArgs) (metadata : JsonObject) (r : ScrapeRun) (w : World)
      → There r w
      → r.counters ≡ no_counts
      → Yields (Closed args r w) (close_run r.id args metadata w)
  unfolding close_run get_run run_row
  close_run-Yields args metadata r w there counts =
      let f : ScrapeRun → ScrapeRun = with_metadata metadata in
      let counted : ScrapeRun = record r { counters = apply_counts true r.counters args } in
      Yields-bind (update_counters r.id args true) _ w (update_counters-Yields args true r w there)
        (λ _ v q.
          Yields-bind (change_run r.id f) _ v (change_run-Yields f counted v (λ _. refl) q.1)
            (λ _ u q2.
              Yields-weaken (finish_run-Yields RunStatus.success none (f counted) u q2.0)
                (λ done x q3. record {
                  same_id = rw (q3.0) refl;
                  there = rw (q3.0) (q3.1);
                  status = rw (q3.0) refl;
                  counters = rw (q3.0, counts) refl;
                  catalogue = q3.2 ∙ q2.1 ∙ q.2;
                  others = λ j apart. q3.3 j apart ∙ q2.2 j apart ∙ q.3 j apart;
                })))

module _ ⦃e : Engine⦄ (laws : EngineLaws e) where
  -- The new run is stored, and all other runs are as they were.
  pub start_run-Yields :
      (store_id : Option ℕ) (run_type : Option String) (metadata : Option JsonObject) (w : World)
      → Yields
          (λ r v.
            There r v
            × (r.counters ≡ no_counts)
            × (v.catalogue ≡ w.catalogue)
            × Others r.id w v
            × (get_run r.id w ≡ none))
          (start_run store_id run_type metadata w)
  unfolding start_run utcnow add_run get_run run_row ◌>>=◌
  start_run-Yields store_id run_type metadata w =
      let new : ℕ = e.next_id (map (λ r. r.id) w.runs) in
      let missing : find (λ r. r.id == new) w.runs ≡ none =
        find_zero _ w.runs (tally_fresh (λ r. r.id) new w.runs (laws.next_id_fresh _)) in
      Yields-at _ _ (
        rw (find-append (λ r. r.id == new) w.runs) (rw (missing, ==_refl new) refl),
        refl,
        refl,
        λ j other.
            rw (find-append (λ r. r.id == j) w.runs)
              (elim (Option-cases (find (λ r. r.id == j) w.runs)) [
                | inl nothing ↦ rw (nothing, other) refl
                | inr (r, there) ↦ rw there refl
              ]),
        missing,
      )
