-- ===== src/Tui/App/Shown.antt =====
-- What a session of the terminal interface shows.
use kernel_scope.Prelude.Int.{ℤ}
use kernel_scope.Prelude.{
  ℕ, min, ◌≡◌, arith, ◌==◌, if◌then◌else◌, Bool, Bool-cases, true, false, refl, List, [], ◌∷◌, ◌++◌,
  fold, fold-append, Option, none, some, inl, inr, ap, ◌∙◌, sym, String, String,
}
use kernel_scope.Event.{Event}
use kernel_scope.Aggregator.{process_event, after}
use kernel_scope.Bpf.Bridge.{SkeletonBridge}
use kernel_scope.Bpf.Collector.Delivery.{decoded}
use kernel_scope.Commands.{Config}
use kernel_scope.Commands.Polling.{Exit, failed, finished, running}
use kernel_scope.Pipeline.{IsStarted, poll-IsStarted}
use kernel_scope.Tui.{
  Content, overview, processes, threads, syscalls, hot_stacks, diagnostics, unknown,
  render_overview, render_processes, render_threads, render_syscalls, render_hot_stacks,
  render_diagnostics,
}
use kernel_scope.Tui.App.{
  App, Sources, Input, refresh, character, escape, interrupt, other, quit_key, tab_after,
  render_tab, render, poll_app, app_loop,
}

-- The number of the tab that a screen belongs to; 6 for the text "Unknown screen".
abbrev pub number : Content → ℕ
number (overview events got lost procs scs) = 0
number (processes t) = 1
number (threads t) = 2
number (syscalls t) = 3
number (hot_stacks cells) = 4
number (diagnostics events got lost active sched) = 5
number unknown = 6

abbrev pub shown_number : Option Content → Option ℕ
shown_number none = none
shown_number (some content) = some (number content)

-- What a session is: the events that were received, the tab that is selected, and the tab of the screen
-- that was drawn last.
pub record View : Type 0 where
  pub evs : List Event
  pub tab : ℕ
  pub drawn : Option ℕ

-- The keys 1 to 6 select their tab; for any other event it is the toggle that does.
abbrev pub selected : ℕ → ℕ → ℕ
selected c index =
    if c == 0x31
    then 0
    else if c == 0x32
    then 1
    else if c == 0x33
    then 2
    else if c == 0x34
    then 3
    else if c == 0x35
    then 4
    else if c == 0x36
    then 5
    else index

-- The view when the session ends, or after all inputs.
abbrev pub last_view : List Input → View → View
last_view [] v = v
last_view (refresh records answer message ∷ inputs) v =
    last_view inputs (record v { evs = v.evs ++ decoded records; drawn = some (min v.tab 6) })
last_view (character c index ∷ inputs) v =
    let rest = last_view inputs (record v { tab = selected c index }) in
    if c == quit_key then v else rest
last_view (escape ∷ inputs) v = v
last_view (interrupt ∷ inputs) v = v
last_view (other index ∷ inputs) v = last_view inputs (record v { tab = index })

abbrev pub quits : List Input → Bool
quits [] = false
quits (refresh records answer message ∷ inputs) = quits inputs
quits (character c index ∷ inputs) = if c == quit_key then true else quits inputs
quits (escape ∷ inputs) = true
quits (interrupt ∷ inputs) = true
quits (other index ∷ inputs) = quits inputs

-- A state and its view.
pub record IsShown (v : View) (a : App) : Type 0 where
  pub tab : a.tab_index ≡ v.tab
  pub drawn : shown_number a.content ≡ v.drawn
  pub agg : a.agg ≡ after v.evs
  pub started : IsStarted a.collector

-- The end of a session, which it has just where one of the inputs ends it.
abbrev pub EndsWith : Bool → View → Exit App → Type 0
EndsWith ends v (finished a) = IsShown v a × (ends ≡ true)
EndsWith ends v running = ends ≡ false
EndsWith ends v (failed message) = ⊥

module _ (o : Sources) (bridge : SkeletonBridge) (cfg : Config) where
  render_tab-number : (a : App) → number (render_tab o bridge cfg a).0 ≡ min a.tab_index 6
  unfolding render_tab render_overview render_processes render_threads render_syscalls
      render_hot_stacks render_diagnostics
  render_tab-number a = ground arith

  refresh-IsShown :
      (records : List (List ℕ)) (answer : ℤ) (message : String) (v : View) (a : App)
      → IsShown v a
      → IsShown
          (record v { evs = v.evs ++ decoded records; drawn = some (min v.tab 6) })
          (render o bridge cfg (poll_app records answer message a))
  unfolding render poll_app
  refresh-IsShown records answer message v a shown =
      let (fed, started) = poll-IsStarted records answer message a.collector a.agg shown.started in
      record {
        tab = shown.tab;
        drawn =
            ap (λ n. some n)
              (render_tab-number (poll_app records answer message a)
                ∙ ap (λ tab. min tab 6) shown.tab);
        agg =
            fed
            ∙ ap (λ agg. fold process_event agg (decoded records)) shown.agg
            ∙ sym (fold-append process_event _ v.evs (decoded records));
        started = started;
      }

  tab_after-IsShown :
      (c index : ℕ) (v : View) (a : App)
      → IsShown v a
      → IsShown (record v { tab = selected c index }) (tab_after c index a)
  tab_after-IsShown c index v a shown = record {
    tab = ground arith;
    drawn = shown.drawn;
    agg = shown.agg;
    started = shown.started;
  }

  pub app_loop-EndsWith :
      (inputs : List Input) (v : View) (a : App)
      → IsShown v a
      → EndsWith (quits inputs) (last_view inputs v) (app_loop o bridge cfg inputs a)
  unfolding app_loop
  app_loop-EndsWith [] v a shown = refl
  app_loop-EndsWith (refresh records answer message ∷ inputs) v a shown =
      app_loop-EndsWith inputs _ (render o bridge cfg (poll_app records answer message a))
        (refresh-IsShown records answer message v a shown)
  app_loop-EndsWith (character c index ∷ inputs) v a shown = elim (Bool-cases (c == quit_key)) [
    | inl q ↦ rw q (shown, refl)
    | inr other_key ↦
        rw other_key
          (app_loop-EndsWith inputs _ (tab_after c index a) (tab_after-IsShown c index v a shown))
  ]
  app_loop-EndsWith (escape ∷ inputs) v a shown = (shown, refl)
  app_loop-EndsWith (interrupt ∷ inputs) v a shown = (shown, refl)
  app_loop-EndsWith (other index ∷ inputs) v a shown =
      app_loop-EndsWith inputs _ (record a { tab_index = index })
        (record { tab = refl; drawn = shown.drawn; agg = shown.agg; started = shown.started })
