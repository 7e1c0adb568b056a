-- ===== src/Commands.antt =====
-- What the live commands share: src/cli/commands.cpp, the options of cli/parse_args.hpp, and the
-- conversions of util/time.hpp.
pub mod Top
pub mod Setup
pub mod Aggregate
pub mod Polling
pub mod Tables
pub mod Doctor
pub mod Dispatch
mod Tests
use kernel_scope.Prelude.{
  ℕ, ◌*◌, leb, ◌==◌, if◌then◌else◌, Bool, true, false, List, [], Option, some, none, u64, sub64,
  String,
}
use kernel_scope.Prelude.Int.{ℤ}
use kernel_scope.Event.{Event}
use kernel_scope.Errors.{Status, ok, err}
use kernel_scope.Classification.{classify_event}
use kernel_scope.Aggregator.{Aggregator, process_event}
use kernel_scope.Ksr.Replay.{Callback}
use kernel_scope.Bpf.Loader.{
  BpfConfig, BpfLoader, Skeleton, Maps, open_skeleton, configure, load, attach,
}

pub data Command : Type 0 where
  top top_offcpu top_syscalls trace hot_stacks record_events replay_events export_events doctor
        help :
      Command

pub record Config : Type 0 where
  pub command : Command
  pub pid : ℕ
  pub comm : List ℕ
  pub syscall_filter : Option ℕ
  pub min_latency_us : ℕ
  pub min_offcpu_us : ℕ
  pub duration_sec : ℕ
  pub window_sec : ℕ
  pub top_n : ℕ
  pub stack_sampling_pct : ℕ
  pub user_stacks : Bool
  pub kernel_stacks : Bool
  pub json_output : Bool
  pub export_format : String
  pub record_file : String
  pub replay_file : String
  pub export_file : String
  pub config_file : String
  pub verbose : Bool
  pub quiet : Bool

unfoldable pub default_options : Config
default_options = record {
  command = Command.top;
  pid = 0;
  comm = [];
  syscall_filter = none;
  min_latency_us = 100;
  min_offcpu_us = 1000;
  duration_sec = 0;
  window_sec = 5;
  top_n = 20;
  stack_sampling_pct = 100;
  user_stacks = true;
  kernel_stacks = false;
  json_output = false;
  export_format = "json";
  record_file = "";
  replay_file = "";
  export_file = "";
  config_file = "";
  verbose = false;
  quiet = false;
}

abbrev pub us_to_ns : ℕ → ℕ
us_to_ns us = u64 (us * 1000)

abbrev pub sec_to_ns : ℕ → ℕ
sec_to_ns s = u64 (s * 1_000_000_000)

unfoldable pub make_bpf_config : Config → BpfConfig
make_bpf_config cfg = record {
  target_pid = cfg.pid;
  min_latency_ns = us_to_ns cfg.min_latency_us;
  min_offcpu_ns = us_to_ns cfg.min_offcpu_us;
  capture_user_stacks = cfg.user_stacks;
  capture_kern_stacks = cfg.kernel_stacks;
  stack_sampling_pct = cfg.stack_sampling_pct;
  target_comm = cfg.comm;
}

-- What the calls that a setup makes answer, in order.
pub record SetupAnswers : Type 0 where
  pub opened : Option Skeleton
  pub stat : Option (ℕ × ℕ)
  pub loaded : ℤ
  pub load_message : String
  pub maps : Maps
  pub attached : ℤ
  pub attach_message : String

unfoldable pub is_ok : Status → Bool
is_ok ok = true
is_ok (err e) = false

-- `if (!s) return s;` behind a step, and the next step.
unfoldable pub and_then : BpfLoader × Status → (BpfLoader → BpfLoader × Status) → BpfLoader × Status
unfolding is_ok
and_then (l, s) next = if is_ok s then next l else (l, s)

unfoldable pub setup_bpf : SetupAnswers → Config → BpfLoader → BpfLoader × Status
unfolding and_then
setup_bpf a cfg l =
    and_then
      (and_then (and_then (open_skeleton a.opened l) (configure a.stat (make_bpf_config cfg)))
        (load a.loaded a.load_message a.maps))
      (attach a.attached a.attach_message)

-- The last argument is the reading of the monotonic clock.
unfoldable pub expired : ℕ → ℕ → ℕ → Bool
expired start_ns duration_sec now =
    if duration_sec == 0 then false else leb (sec_to_ns duration_sec) (sub64 now start_ns)

-- The copy of an event that the callbacks pass on.
abbrev pub classified : Event → Event
classified ev = record ev { classification = classify_event ev }

-- The callback of the live tables.
abbrev pub aggregate : Callback Aggregator
aggregate = some (λ agg ev. process_event agg (classified ev))
