-- ===== src/Tui/App/Session.antt =====
-- A session of the terminal interface, from its setup to its end.
use kernel_scope.Prelude.{◌≡◌, Bool, true, false, [], none}
use kernel_scope.Aggregator.{after}
use kernel_scope.Bpf.Loader
use kernel_scope.Bpf.Loader.{BpfLoader}
use kernel_scope.Bpf.Collector
use kernel_scope.Bpf.Collector.{Collector}
use kernel_scope.Commands.Polling.{Exit, failed, finished, running}
use kernel_scope.Tui.App.{App}
use kernel_scope.Tui.App.Shown.{View, shown_number}

-- What a session leaves.
pub record IsLeft (v : View) (a : App) : Type 0 where
  pub tab : a.tab_index ≡ v.tab
  pub drawn : shown_number a.content ≡ v.drawn
  pub agg : a.agg ≡ after v.evs
  pub stopped : a.collector.running ≡ false

abbrev pub LeavesWith : Bool → View → Exit App → Type 0
LeavesWith ends v (finished a) = IsLeft v a × (ends ≡ true)
LeavesWith ends v running = ends ≡ false
LeavesWith ends v (failed message) = ⊥

-- Nothing is received, the first tab is selected, and nothing is drawn.
abbrev pub first_view : View
first_view = record { evs = []; tab = 0; drawn = none }
