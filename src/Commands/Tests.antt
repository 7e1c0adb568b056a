-- ===== src/Commands/Tests.antt =====
-- Runs of the commands.
use kernel_scope.Prelude.{
  ◌≡◌, true, All, zero, suc, ℕ, refl, arith, false, List, [], ◌∷◌, ◌++◌, some, none, replicate,
}
use kernel_scope.Prelude.Int.{pos, negsuc}
use kernel_scope.Event.Examples.{futex, padding, padding-IsPadding}
use kernel_scope.Aggregator
use kernel_scope.Bpf.Loader
use kernel_scope.Bpf.Loader.{Skeleton, Maps}
use kernel_scope.Bpf.Collector
use kernel_scope.Commands.{aggregate, Config, expired, SetupAnswers, setup_bpf, default_options}
use kernel_scope.Commands.Setup.{Obeys, IsText, setup_bpf-Obeys}
use kernel_scope.Commands.Polling.{Exit, finished, Live, run_record, run_export}
use kernel_scope.Commands.Polling.Recorded.{replayed}
use kernel_scope.Commands.Polling.Export.{run_record-run_export}
use kernel_scope.Commands.Top.Windows.{View, IsView, IsViewOf, view_loop, top_loop-IsViewOf}
use kernel_scope.Aggregator.{Aggregator}
use kernel_scope.Aggregator.Stats.{ProcessStats}
use kernel_scope.Aggregator.Queries.{SortBy, top_processes}
use kernel_scope.Prelude.Bytes.{IsByte}
use kernel_scope.Ksr.Session.{ready}
use kernel_scope.Commands.Top.{Round, TopState, top_loop, window_over}
use kernel_scope.Commands.Top.Endless.{IsRunning, top_loop-IsRunning}

abbrev maps : Maps
maps = record {
  events = pos 3;
  stack_traces = pos 4;
  active_syscalls = pos 5;
  sched_states = pos 6;
}

abbrev skeleton : Skeleton
skeleton = record {
  rodata = record {
    target_pid = 0;
    min_latency_ns = 0;
    min_offcpu_ns = 0;
    capture_user_stacks = 0;
    capture_kern_stacks = 0;
    stack_sampling_pct = 0;
    target_comm = replicate 16 0;
    pidns_dev = 0;
    pidns_ino = 0;
  };
  maps = maps;
}

-- The load is refused.
abbrev answers : SetupAnswers
answers = record {
  opened = some skeleton;
  stat = none;
  loaded = negsuc 0;
  load_message = "kscope_bpf__load() failed: -1";
  maps = maps;
  attached = pos 0;
  attach_message = "";
}

-- Ten seconds, with the window of five seconds that is the default.
abbrev ten_seconds : Config
ten_seconds = record default_options { duration_sec = 10 }

-- Rounds at 6, 12 and 18 seconds.
abbrev quiet : ℕ → Round
quiet now = record {
  shutdown = false;
  records = [];
  answer = pos 0;
  message = "";
  now = now;
  later = now;
}

abbrev rounds : List Round
rounds = quiet 6_000_000_000 ∷ quiet 12_000_000_000 ∷ quiet 18_000_000_000 ∷ []

abbrev show : Aggregator → Unit {0} → List ProcessStats × Unit {0}
show agg x = (top_processes agg 20 SortBy.total_latency, x)

abbrev at_zero : TopState (List ProcessStats) (Unit {0})
at_zero = record {
  collector = Collector.new Loader.new;
  agg = Aggregator.empty;
  t0 = 0;
  last_draw = 0;
  screens = [];
  extra = tt;
}

top_loop-IsRunning_example : IsRunning (top_loop show ten_seconds rounds at_zero)
unfolding default_options
top_loop-IsRunning_example =
    top_loop-IsRunning show ten_seconds 1 0 rounds at_zero (omega arith) (omega arith) (omega arith)
      (omega arith)
      (
        refl,
        omega arith,
        omega arith,
        omega arith,
        omega arith,
        (
          refl,
          omega arith,
          omega arith,
          omega arith,
          omega arith,
          (refl, omega arith, omega arith, omega arith, omega arith, tt),
        ),
      )

-- Three seconds, which is less than the window.
abbrev three_seconds : Config
three_seconds = record default_options { duration_sec = 3 }

-- One event each round.
abbrev busy : ℕ → Round
busy now = record (quiet now) { records = replicate 88 1 ∷ [] }

abbrev started : TopState (List ProcessStats) (Unit {0})
started = record at_zero {
  collector = record {
    loader = Loader.new;
    rb = true;
    callback = aggregate;
    running = true;
    received = 0;
    decode_errors = 0;
  };
}

abbrev first_view : View (List ProcessStats) (Unit {0})
first_view = record {
  since = [];
  received = 0;
  lost = 0;
  t0 = 0;
  last_draw = 0;
  screens = [];
  extra = tt;
}

started-IsView : IsView started first_view
started-IsView = record {
  agg = refl;
  received = refl;
  lost = refl;
  t0 = refl;
  last_draw = refl;
  screens = refl;
  extra = refl;
  rb = refl;
  on = refl;
  callback = refl;
  received_range = omega arith;
  lost_range = omega arith;
}

abbrev IsFinished {ℓ} : {S : Type ℓ} → Exit S → Type 0
IsFinished (finished s) = Unit {0}
IsFinished _ = ⊥

abbrev busy_rounds : List Round
busy_rounds = busy 1_000_000_000 ∷ busy 2_000_000_000 ∷ busy 4_000_000_000 ∷ []

busy_rounds-IsFinished : IsFinished (view_loop show three_seconds busy_rounds first_view)
unfolding default_options expired window_over
busy_rounds-IsFinished = tt

top_loop-IsViewOf_example :
    IsViewOf
      (top_loop show three_seconds busy_rounds started)
      (view_loop show three_seconds busy_rounds first_view)
top_loop-IsViewOf_example =
    top_loop-IsViewOf show three_seconds busy_rounds started first_view started-IsView

-- A session of one turn behind the first second, with one event and one record that is too short.
abbrev session : Live
session = record {
  setup = record answers { loaded = pos 0 };
  created = true;
  t0 = 0;
  turns =
      record {
        shutdown = false;
        records = replicate 88 1 ∷ (1 ∷ []) ∷ [];
        answer = pos 2;
        message = "";
        later = 1_500_000_000;
      }
      ∷ [];
}

abbrev one_second : Config
one_second = record default_options { duration_sec = 1 }

run_record-run_export_example :
    replayed "" futex one_second (run_record session (ready 1 2) padding one_second)
    ≡ run_export session one_second
unfolding default_options
run_record-run_export_example =
    run_record-run_export session padding 1 2 "" futex one_second (omega arith) padding-IsPadding
      ((All-ones 88, ((omega arith, tt), tt)), tt)
  where
    All-ones : (n : ℕ) → All IsByte (replicate n 1)
    All-ones zero = tt
    All-ones (suc n) = (omega arith, All-ones n)

-- The process 7, with names that begin as a name of 15 characters or more.
abbrev one_process : Config
one_process = record default_options { pid = 7; comm = replicate 20 0x61 }

abbrev long_name : List ℕ
long_name = replicate 15 0x61 ++ 0 ∷ []

setup_bpf-Obeys_example :
    (sk : Skeleton) × ((setup_bpf (record answers { loaded = pos 0 }) one_process Loader.new).0.skel
      ≡ some sk)
    × Obeys one_process 9 long_name sk.rodata
setup_bpf-Obeys_example =
    setup_bpf-Obeys (record answers { loaded = pos 0 }) one_process skeleton Loader.new 9 long_name
      refl refl (letters 20) refl
  where
    letters : (n : ℕ) → IsText (replicate n 0x61)
    letters zero = tt
    letters (suc n) = (omega arith, letters n)
