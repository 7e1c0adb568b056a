-- ===== src/Commands/Top.antt =====
-- The polling loop of the commands that draw: run_top, run_top_offcpu, run_top_syscalls and
-- run_hot_stacks in src/cli/commands.cpp. They differ in what they show.
pub mod Endless
pub mod Windows
use kernel_scope.Prelude.{
  ℕ, ltb, leb, if◌then◌else◌, Bool, true, false, ◌&&◌, List, [], ◌∷◌, ◌++◌, sub64, String,
}
use kernel_scope.Prelude.Int.{ℤ}
use kernel_scope.Aggregator
use kernel_scope.Aggregator.{Aggregator}
use kernel_scope.Bpf.Loader
use kernel_scope.Bpf.Loader.{BpfLoader}
use kernel_scope.Bpf.Collector
use kernel_scope.Bpf.Collector.{Collector, start, set_callback, poll, events_received, events_lost}
use kernel_scope.Commands.{Config, SetupAnswers, setup_bpf, aggregate, sec_to_ns, expired}
use kernel_scope.Commands.Polling.{Exit, finished, running, or_fail}

-- What one round reads: whether a shutdown was requested, the records in the ring buffer with the
-- answer of its poll, and the two readings of the clock, for the window and for the duration.
pub record Round : Type 0 where
  pub shutdown : Bool
  pub records : List (List ℕ)
  pub answer : ℤ
  pub message : String
  pub now : ℕ
  pub later : ℕ

-- A table on the screen: its rows, and the numbers of events received and lost.
pub record Screen (A : Type 0) : Type 0 where
  pub rows : A
  pub received : ℕ
  pub lost : ℕ

-- `extra` is what the rows need beside the aggregator: the symbolizer of run_hot_stacks.
pub record TopState (A X : Type 0) : Type 0 where
  pub collector : Collector Aggregator
  pub agg : Aggregator
  pub t0 : ℕ
  pub last_draw : ℕ
  pub screens : List (Screen A)
  pub extra : X

-- Whether the window that began at t0 is over.
unfoldable pub window_over : Config → ℕ → ℕ → Bool
window_over cfg now t0 =
    ltb 0 (sec_to_ns cfg.window_sec) && leb (sec_to_ns cfg.window_sec) (sub64 now t0)

module _ {A X : Type 0} where
  unfoldable pub roll : Config → ℕ → TopState A X → TopState A X
  unfolding window_over
  roll cfg now s =
      if window_over cfg now s.t0 then record s { agg = Aggregator.reset s.agg; t0 = now } else s

  unfoldable pub poll_round : Round → TopState A X → TopState A X
  poll_round r s =
      let ((c, agg), status) = poll r.records r.answer r.message s.collector s.agg in
      record s { collector = c; agg = agg }

module _ {A X : Type 0} (show : Aggregator → X → A × X) where
  -- `if (now - last_draw >= 1'000'000'000)`.
  unfoldable pub draw : ℕ → TopState A X → TopState A X
  draw now s =
      let (rows, extra) = show s.agg s.extra in
      let screen : Screen A = record {
        rows = rows;
        received = events_received s.collector;
        lost = events_lost s.collector;
      } in
      if leb 1_000_000_000 (sub64 now s.last_draw)
      then record s { screens = s.screens ++ screen ∷ []; last_draw = now; extra = extra }
      else s

  -- One round up to the test of the duration.
  unfoldable pub round : Config → Round → TopState A X → TopState A X
  unfolding draw roll poll_round
  round cfg r s = roll cfg r.now (draw r.now (poll_round r s))

  unfoldable pub top_loop : Config → List Round → TopState A X → Exit (TopState A X)
  unfolding round
  top_loop cfg [] s = running
  top_loop cfg (r ∷ rs) s =
      let s' = round cfg r s in
      let more = top_loop cfg rs s' in
      if r.shutdown
      then finished s
      else if expired s'.t0 cfg.duration_sec r.later
      then finished s'
      else more

-- What a command reads before and in its loop.
pub record LiveTop : Type 0 where
  pub setup : SetupAnswers
  pub created : Bool
  pub t0 : ℕ
  pub rounds : List Round

unfoldable pub first_state : {A X : Type 0} → Collector Aggregator → ℕ → X → TopState A X
first_state c t0 x = record {
  collector = c;
  agg = Aggregator.empty;
  t0 = t0;
  last_draw = t0;
  screens = [];
  extra = x;
}

-- The command from its setup to the end of its loop.
unfoldable pub live_tables :
    {A X : Type 0} → (Aggregator → X → A × X) → X → LiveTop → Config → Exit (TopState A X)
unfolding top_loop first_state
live_tables show x v cfg =
    let (l, status) = setup_bpf v.setup cfg Loader.new in
    let (c, started) = start v.created (set_callback aggregate (Collector.new l)) in
    or_fail status (or_fail started (top_loop show cfg v.rounds (first_state c v.t0 x)))
