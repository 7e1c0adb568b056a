-- ===== src/Tui/App.antt =====
-- The loop of the terminal interface: src/tui/app.cpp. The library calls the renderer and the handler of
-- events one at a time, so that a session is a list of these calls.
pub mod Shown
pub mod Session
mod Tests
use kernel_scope.Prelude.{
  ℕ, ◌+◌, ◌-◌, leb, ◌==◌, if◌then◌else◌, Bool, ◌||◌, ◌&&◌, List, [], ◌∷◌, Option, none, some,
  String,
}
use kernel_scope.Prelude.Int.{ℤ}
use kernel_scope.Histogram.{DoubleArithmetic}
use kernel_scope.Aggregator.{Aggregator, empty}
use kernel_scope.Symbols.Symbolizer.{Environment, Symbolizer, new_symbolizer}
use kernel_scope.Bpf.Loader
use kernel_scope.Bpf.Bridge.{SkeletonBridge, TaskKey}
use kernel_scope.Bpf.Collector
use kernel_scope.Bpf.Collector.{Collector, poll, start, stop, set_callback}
use kernel_scope.Commands.{Config, SetupAnswers, setup_bpf, aggregate}
use kernel_scope.Commands.Polling.{Exit, finished, running, or_fail, and_finally}
use kernel_scope.Tui.{
  Content, unknown, render_overview, render_processes, render_threads, render_syscalls,
  render_hot_stacks, render_diagnostics,
}

-- What the screens read beside the aggregator; the files and the map of stacks at each drawing.
pub record Sources : Type 0 where
  pub doubles : DoubleArithmetic
  pub env : ℕ → Environment
  pub lookup_elem : ℕ → ℤ → Option (List ℕ)
  pub fuel : ℕ
  pub next_active : TaskKey → Option TaskKey
  pub next_sched : TaskKey → Option TaskKey

pub record App : Type 0 where
  pub tab_index : ℕ
  pub collector : Collector Aggregator
  pub agg : Aggregator
  pub sym : Symbolizer
  pub content : Option Content
  pub drawings : ℕ

-- A call of the renderer, with what the poll reads; a character; Escape; Ctrl+C or a signal, on which the
-- library leaves its loop by itself; and any other event. An event that
-- the handler does not take goes to the toggle of the library, which sets the given index of the tab.
pub data Input : Type 0 where
  refresh : (records : List (List ℕ)) (answer : ℤ) (message : String) → Input
  character : (c : ℕ) (index : ℕ) → Input
  escape : Input
  interrupt : Input
  other : (index : ℕ) → Input

abbrev pub quit_key : ℕ
quit_key = 0x71

-- `switch (tab_index)`.
unfoldable pub render_tab : Sources → SkeletonBridge → Config → App → Content × Symbolizer
render_tab o bridge cfg a =
    if a.tab_index == 0
    then (render_overview o.doubles a.agg a.collector, a.sym)
    else if a.tab_index == 1
    then (render_processes o.doubles a.agg cfg, a.sym)
    else if a.tab_index == 2
    then (render_threads a.agg cfg, a.sym)
    else if a.tab_index == 3
    then (render_syscalls o.doubles a.agg cfg, a.sym)
    else if a.tab_index == 4
    then render_hot_stacks (o.env a.drawings) (o.lookup_elem a.drawings) bridge a.agg cfg a.sym
    else if a.tab_index == 5
    then (render_diagnostics o.fuel o.next_active o.next_sched bridge a.agg a.collector, a.sym)
    else (unknown, a.sym)

unfoldable pub render : Sources → SkeletonBridge → Config → App → App
unfolding render_tab
render o bridge cfg a =
    let (content, sym) = render_tab o bridge cfg a in
    record a { content = some content; sym = sym; drawings = a.drawings + 1 }

unfoldable pub poll_app : List (List ℕ) → ℤ → String → App → App
poll_app records answer message a =
    let ((c, agg), status) = poll records answer message a.collector a.agg in
    record a { collector = c; agg = agg }

-- The characters '1' to '6'.
abbrev pub is_tab_key : ℕ → Bool
is_tab_key c = leb 0x31 c && leb c 0x36

abbrev pub tab_after : ℕ → ℕ → App → App
tab_after c index a = record a { tab_index = if is_tab_key c then c - 0x31 else index }

unfoldable pub app_loop : Sources → SkeletonBridge → Config → List Input → App → Exit App
unfolding render poll_app
app_loop o bridge cfg [] a = running
app_loop o bridge cfg (refresh records answer message ∷ inputs) a =
    app_loop o bridge cfg inputs (render o bridge cfg (poll_app records answer message a))
app_loop o bridge cfg (character c index ∷ inputs) a =
    let rest = app_loop o bridge cfg inputs (tab_after c index a) in
    if c == quit_key then finished a else rest
app_loop o bridge cfg (escape ∷ inputs) a = finished a
app_loop o bridge cfg (interrupt ∷ inputs) a = finished a
app_loop o bridge cfg (other index ∷ inputs) a =
    app_loop o bridge cfg inputs (record a { tab_index = index })

unfoldable pub first_app : Collector Aggregator → App
first_app c = record {
  tab_index = 0;
  collector = c;
  agg = empty;
  sym = new_symbolizer;
  content = none;
  drawings = 0;
}

-- TuiApp::run.
unfoldable pub run_app : SetupAnswers → Bool → Sources → List Input → Config → Exit App
unfolding app_loop first_app or_fail and_finally
run_app setup created o inputs cfg =
    let (l, status) = setup_bpf setup cfg Loader.new in
    let (c, started) = start created (set_callback aggregate (Collector.new l)) in
    or_fail status (
      or_fail started (
        and_finally (λ (a : App). record a { collector = stop a.collector })
          (app_loop o (record { loader = l }) cfg inputs (first_app c))))
