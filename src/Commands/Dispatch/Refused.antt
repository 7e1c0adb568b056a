-- ===== src/Commands/Dispatch/Refused.antt =====
-- What the commands do where the BPF programs cannot be set up.
use kernel_scope.Prelude.{◌≡◌, refl, some}
use kernel_scope.Errors.{Error, err}
use kernel_scope.Bpf.Loader
use kernel_scope.Commands.{Command, Config, setup_bpf}
use kernel_scope.Commands.Polling.{or_fail, and_finally, run_trace, run_record, run_export}
use kernel_scope.Commands.Top.{live_tables}
use kernel_scope.Commands.Tables.{run_top, run_top_offcpu, run_top_syscalls, run_hot_stacks}
use kernel_scope.Commands.Dispatch.{World, exit_code, run_command}

-- The commands that trace.
abbrev pub IsLive : Command → Type 0
IsLive Command.replay_events = ⊥
IsLive Command.doctor = ⊥
IsLive Command.help = ⊥
IsLive _ = Unit {0}

-- Every command that traces ends with the exit code 1 where a step of the setup fails, whatever else it
-- would read.
pub run_command-refused :
    (w : World) (cfg : Config) (e : Error)
    → IsLive cfg.command
    → (setup_bpf w.setup cfg Loader.new).1 ≡ err e
    → run_command w cfg ≡ some 1
unfolding run_command exit_code run_top run_top_offcpu run_top_syscalls run_trace run_hot_stacks
    run_record run_export live_tables or_fail and_finally
run_command-refused w cfg e live refused = of_command cfg.command live refl
  where
    of_command : (c : Command) → IsLive c → cfg.command ≡ c → run_command w cfg ≡ some 1
    of_command Command.top live h = rw (run_command, h) (rw (run_top, live_tables, refused) refl)
    of_command Command.top_offcpu live h =
        rw (run_command, h) (rw (run_top_offcpu, live_tables, refused) refl)
    of_command Command.top_syscalls live h =
        rw (run_command, h) (rw (run_top_syscalls, live_tables, refused) refl)
    of_command Command.trace live h = rw (run_command, h) (rw (run_trace, refused) refl)
    of_command Command.hot_stacks live h =
        rw (run_command, h) (rw (run_hot_stacks, live_tables, refused) refl)
    of_command Command.record_events live h = rw (run_command, h) (rw (run_record, refused) refl)
    of_command Command.export_events live h = rw (run_command, h) (rw (run_export, refused) refl)
    of_command Command.replay_events live h = absurd live
    of_command Command.doctor live h = absurd live
    of_command Command.help live h = absurd live
