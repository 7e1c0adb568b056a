-- ===== src/Tracer/Slices.antt =====
-- The off-CPU slices of one thread, in a run in which any other threads take part.
pub mod Steps
pub mod Resume
pub mod Whole
use kernel_scope.Prelude.{
  ℕ, ltb, leb, ◌==◌, if◌then◌else◌, Bool, true, false, ◌&&◌, List, [], ◌∷◌, ◌++◌, Option, some,
  none, sub64, u32, u64, ◌+◌,
}
use kernel_scope.Prelude.Assoc.{or_default}
use kernel_scope.Decoder.{RawEvent}
use kernel_scope.Bpf.Loader.{Rodata}
use kernel_scope.Bpf.Bridge.{TaskKey}
use kernel_scope.Tracer.{SchedState, task_key_eq}
use kernel_scope.Tracer.Filters.{filter_pid}
use kernel_scope.Tracer.Handlers.{
  Hit, enter, exit, switch, exec, quit, Switch, tid_key, no_state, slice_event,
}
use kernel_scope.Tracer.Runs.{mine, submitted}

module _ (r : Rodata) (κ : TaskKey) where
  -- Whether the filter admits a thread, and it has the key.
  abbrev pub admits : ℕ → Bool
  admits tid = filter_pid r tid && task_key_eq.beq (tid_key tid) κ

  abbrev pub left : Switch → Option SchedState → SchedState
  left w o = record (or_default o no_state) {
    switch_out_ns = w.out_ns;
    last_state = u32 w.prev_state;
  }

  abbrev pub switched_out : Option SchedState → Switch → Option SchedState
  switched_out o w = if admits w.prev_pid then some (left w o) else o

  -- The slice is added to the time off the processor, and is over.
  abbrev pub brought : Switch → SchedState → SchedState
  brought w state = record {
    switch_out_ns = 0;
    switch_in_ns = w.in_ns;
    accumulated_offcpu_ns = u64 (state.accumulated_offcpu_ns + sub64 w.in_ns state.switch_out_ns);
    last_state = state.last_state;
  }

  abbrev pub came_in : Switch → Option SchedState → Option SchedState
  came_in w none = none
  came_in w (some state) = some (if ltb 0 state.switch_out_ns then brought w state else state)

  abbrev pub switched_in : Option SchedState → Switch → Option SchedState
  switched_in o w = if admits w.next_pid then came_in w o else o

  -- The state of the thread, as it alone determines it.
  abbrev pub thread_step : Option SchedState → Hit → Option SchedState
  thread_step o (switch w) = switched_in (switched_out o w) w
  thread_step o (quit t memory) = if mine r κ t then none else o
  thread_step o _ = o

  abbrev pub sliced : Switch → Option SchedState → List RawEvent
  sliced w none = []
  sliced w (some state) =
      let offcpu_ns : ℕ = sub64 w.in_ns state.switch_out_ns in
      if ltb 0 state.switch_out_ns && leb r.min_offcpu_ns offcpu_ns
      then submitted r κ w.memory (slice_event w offcpu_ns)
      else []

  -- The events of its slices.
  abbrev pub thread_events : Option SchedState → Hit → List RawEvent
  thread_events o (switch w) = if admits w.next_pid then sliced w (switched_out o w) else []
  thread_events o _ = []

  abbrev pub state_after : Option SchedState → List Hit → Option SchedState
  state_after o [] = o
  state_after o (h ∷ hs) = state_after (thread_step o h) hs

  abbrev pub slices : Option SchedState → List Hit → List RawEvent
  slices o [] = []
  slices o (h ∷ hs) = thread_events o h ++ slices (thread_step o h) hs

  abbrev pub of_thread : RawEvent → Bool
  of_thread e = e.type == 2 && (e.pid == κ.pid && e.tid == κ.tid)
