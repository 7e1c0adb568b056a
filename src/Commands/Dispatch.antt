-- ===== src/Commands/Dispatch.antt =====
-- The command that the options name: run_command in src/cli/commands.cpp.
pub mod Refused
use Prim.Native.String.{String}
use kernel_scope.Prelude.{ℕ, Bool, List, [], ◌∷◌, Option, none, some}
use kernel_scope.Prelude.Int.{ℤ}
use kernel_scope.Event.{Event}
use kernel_scope.Histogram.{DoubleArithmetic}
use kernel_scope.Ksr.{Padding}
use kernel_scope.Ksr.Recorder.{Opening}
use kernel_scope.Symbols.Symbolizer.{Environment}
use kernel_scope.Commands.{Command, Config, SetupAnswers}
use kernel_scope.Commands.Polling.{
  Turn, Live, Exit, failed, finished, running, run_trace, run_record, run_export, run_replay,
}
use kernel_scope.Commands.Top.{Round, LiveTop}
use kernel_scope.Commands.Tables.{run_top, run_top_offcpu, run_top_syscalls, run_hot_stacks}
use kernel_scope.Commands.Doctor.{System, run_doctor}

-- All that a command may read.
pub record World : Type 0 where
  pub setup : SetupAnswers
  pub created : Bool
  pub t0 : ℕ
  pub turns : List Turn
  pub rounds : List Round
  pub doubles : DoubleArithmetic
  pub env : ℕ → Environment
  pub lookup_elem : ℕ → ℤ → Option (List ℕ)
  pub opening : Opening
  pub padding : Padding
  pub replay_file : Option (List ℕ)
  pub reason : String
  pub blank : Event
  pub system : System

abbrev pub live : World → Live
live w = record { setup = w.setup; created = w.created; t0 = w.t0; turns = w.turns }

abbrev pub live_top : World → LiveTop
live_top w = record { setup = w.setup; created = w.created; t0 = w.t0; rounds = w.rounds }

-- The exit code of the process, or `none` of a command that goes on.
unfoldable pub exit_code {ℓ} : {S : Type ℓ} → Exit S → Option ℕ
exit_code (failed message) = some 1
exit_code (finished s) = some 0
exit_code running = none

unfoldable pub run_command : World → Config → Option ℕ
unfolding exit_code run_trace run_record run_export run_replay run_top run_top_offcpu
    run_top_syscalls run_hot_stacks run_doctor
run_command w cfg = elim cfg.command [
  | Command.top ↦ exit_code (run_top w.doubles (live_top w) cfg)
  | Command.top_offcpu ↦ exit_code (run_top_offcpu w.doubles (live_top w) cfg)
  | Command.top_syscalls ↦ exit_code (run_top_syscalls w.doubles (live_top w) cfg)
  | Command.trace ↦ exit_code (run_trace (live w) cfg)
  | Command.hot_stacks ↦ exit_code (run_hot_stacks w.env w.lookup_elem (live_top w) cfg)
  | Command.record_events ↦ exit_code (run_record (live w) w.opening w.padding cfg)
  | Command.replay_events ↦ exit_code (run_replay w.replay_file w.reason w.blank cfg)
  | Command.export_events ↦ exit_code (run_export (live w) cfg)
  | Command.doctor ↦ some (run_doctor w.system)
  | Command.help ↦ some 1
]
