-- ===== src/Commands/Polling.antt =====
-- The commands that poll without a table, and the replay of a recording: run_trace, run_record,
-- run_export and run_replay in src/cli/commands.cpp.
pub mod Rounds
pub mod Recorded
pub mod Export
use Prim.Native.String.{String}
use kernel_scope.Prelude.{ℕ, ltb, if◌then◌else◌, Bool, List, [], ◌∷◌, ◌++◌, Option, some}
use kernel_scope.Prelude.Int.{ℤ}
use kernel_scope.Errors.{Status, ok, err}
use kernel_scope.Event.{Event}
use kernel_scope.Ksr.{Padding}
use kernel_scope.Ksr.Recorder
use kernel_scope.Ksr.Recorder.{Recorder, Opening, write_event}
use kernel_scope.Ksr.Replay
use kernel_scope.Ksr.Replay.{Callback, ReplaySource, replay, stopped, stuck}
use kernel_scope.Aggregator.{Aggregator, empty, process_event}
use kernel_scope.Bpf.Loader
use kernel_scope.Bpf.Loader.{BpfLoader}
use kernel_scope.Bpf.Collector
use kernel_scope.Bpf.Collector.{Collector, poll, start, set_callback}
use kernel_scope.Commands.{Config, SetupAnswers, setup_bpf, classified, aggregate, expired}

-- What one turn of a loop reads: whether a shutdown was requested, the records in the ring buffer with
-- the answer of its poll, and the clock.
pub record Turn : Type 0 where
  pub shutdown : Bool
  pub records : List (List ℕ)
  pub answer : ℤ
  pub message : String
  pub later : ℕ

-- How a command ends: with the message that it logs and the exit code 1, or with what it has done and
-- the exit code 0. `running` is a command whose loop has used up the given turns and goes on, so that
-- it has no end yet.
pub data Exit {ℓ} (S : Type ℓ) : Type ℓ where
  failed : String → Exit S
  finished : S → Exit S
  running : Exit S

-- `if (!s) { log::error(...); return 1; }` in front of the rest of a command.
unfoldable pub or_fail {ℓ} : {S : Type ℓ} → Status → Exit S → Exit S
or_fail ok rest = rest
or_fail (err e) rest = failed e.message

-- What a command does after its loop.
unfoldable pub and_finally {ℓ κ} : {S : Type ℓ} {R : Type κ} → (S → R) → Exit S → Exit R
and_finally f (failed message) = failed message
and_finally f (finished s) = finished (f s)
and_finally f running = running

module _ {ℓ} {S : Type ℓ} where
  unfoldable pub poll_turn : Turn → Collector S × S → Collector S × S
  poll_turn r (c, s) = (poll r.records r.answer r.message c s).0

  unfoldable pub poll_loop : ℕ → ℕ → List Turn → Collector S × S → Exit (Collector S × S)
  unfolding poll_turn
  poll_loop t0 duration [] cs = running
  poll_loop t0 duration (r ∷ rs) cs =
      let cs' = poll_turn r cs in
      let more = poll_loop t0 duration rs cs' in
      if r.shutdown then finished cs else if expired t0 duration r.later then finished cs' else more

-- What a command reads before and in its loop: the answers of the setup, whether ring_buffer__new
-- answers a buffer, the clock at the start, and the turns.
pub record Live : Type 0 where
  pub setup : SetupAnswers
  pub created : Bool
  pub t0 : ℕ
  pub turns : List Turn

-- A collector with its callback, from its construction to the end of the loop.
unfoldable pub collect {ℓ} :
    {S : Type ℓ} → Live → ℕ → Callback S → BpfLoader → S → Exit (Collector S × S)
unfolding or_fail poll_loop set_callback
collect v duration callback l s =
    let (c, status) = start v.created (set_callback callback (Collector.new l)) in
    or_fail status (poll_loop v.t0 duration v.turns (c, s))

-- The events that print_trace_event prints, in order.
abbrev pub traced : Callback (List Event)
traced = some (λ out ev. out ++ classified ev ∷ [])

unfoldable pub run_trace : Live → Config → Exit (Collector (List Event) × List Event)
unfolding collect
run_trace v cfg =
    let (l, status) = setup_bpf v.setup cfg Loader.new in
    or_fail status (collect v cfg.duration_sec traced l [])

-- The callback of run_record passes over the status of write_event.
abbrev pub record_to : Padding → Callback Recorder
record_to p = some (λ rec ev. (write_event p (classified ev) rec).0)

-- The recorder at the end; its count is what the command prints.
unfoldable pub run_record : Live → Opening → Padding → Config → Exit Recorder
unfolding collect and_finally
run_record v o p cfg =
    let (l, status) = setup_bpf v.setup cfg Loader.new in
    let (rec, opened) = Recorder.open_path o cfg.record_file Recorder.fresh in
    or_fail status (
      or_fail opened (
        and_finally (λ (cs : Collector Recorder × Recorder). Recorder.close cs.1)
          (collect v cfg.duration_sec (record_to p) l rec)))

-- The aggregator that run_export hands to the exporter.
unfoldable pub run_export : Live → Config → Exit Aggregator
unfolding collect and_finally
run_export v cfg =
    let (l, status) = setup_bpf v.setup cfg Loader.new in
    let duration : ℕ = if ltb 0 cfg.duration_sec then cfg.duration_sec else cfg.window_sec in
    or_fail status (
      and_finally (λ (cs : Collector Aggregator × Aggregator). cs.1)
        (collect v duration aggregate l empty))

-- What run_replay does with the outcome of ReplaySource::replay. (`stuck` is no outcome.)
unfoldable pub after_replay : Replay.Outcome Aggregator → Exit (ReplaySource × Aggregator)
unfolding or_fail
after_replay (stopped status src agg) = or_fail status (finished (Replay.close src, agg))
after_replay stuck = running

-- `file` is what the file with the given name holds, or `none` where it does not open, for a reason. The
-- result is the source, whose count the command prints, and the aggregator of its tables.
unfoldable pub run_replay :
    Option (List ℕ) → String → Event → Config → Exit (ReplaySource × Aggregator)
unfolding after_replay
run_replay file reason blank cfg =
    let (src, status) = Replay.open_path file reason cfg.replay_file Replay.new_source in
    or_fail status (after_replay (replay (some process_event) blank src empty))
