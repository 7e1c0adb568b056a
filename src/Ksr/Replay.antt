-- ===== src/Ksr/Replay.antt =====
-- Replaying a recording: src/record/replay.hpp and src/record/replay.cpp.
pub mod Total
pub mod Steps
pub mod Recorded
pub mod Corrupt
use Prim.Native.String.{String, ◌++◌ as concat}
use kernel_scope.Prelude.{
  ℕ, zero, suc, ◌+◌, ltb, if◌then◌else◌, Bool, List, length, take, drop, Option, none, some, u64,
}
use kernel_scope.Prelude.Bytes.{le_value}
use kernel_scope.Event.{Event}
use kernel_scope.Errors.{ErrorCode, Status, ok, err, make_error, errno_error}
use kernel_scope.Ksr.{deserialize_event, header_object, header_size, validate_header}

-- `file` holds the bytes that are not read yet, and is `none` where `file_` is null.
pub record ReplaySource : Type 0 where
  pub file : Option (List ℕ)
  pub events_replayed : ℕ

-- The source as it is constructed.
unfoldable pub new_source : ReplaySource
new_source = record { file = none; events_replayed = 0 }

-- The answer of fopen is the bytes of the file, or `none` with a reason.
unfoldable pub open_path : Option (List ℕ) → String → String → ReplaySource → ReplaySource × Status
open_path none reason path src = (
  record src { file = none },
  err (errno_error ErrorCode.io_error (concat "failed to open " path) reason),
)
open_path (some bytes) reason path src =
    let opened : ReplaySource = record src { file = some (drop header_size bytes) } in
    if ltb (length bytes) header_size
    then (opened, err (make_error ErrorCode.record_format_error "failed to read KSR header"))
    else if validate_header (header_object bytes)
    then (opened, ok)
    else (opened, err (make_error ErrorCode.record_format_error "invalid KSR file"))

-- A callback acts on a state of its own, and may be absent.
abbrev pub Callback {ℓ} : Type ℓ → Type ℓ
Callback S = Option (S → Event → S)

unfoldable pub call {ℓ} : {S : Type ℓ} → Callback S → S → Event → S
call none s ev = s
call (some f) s ev = f s ev

-- `stuck` is no outcome of the program: the fuel of the loop ran out.
pub data Outcome {ℓ} (S : Type ℓ) : Type ℓ where
  stopped : Status → ReplaySource → S → Outcome S
  stuck : Outcome S

abbrev pub max_event_size : ℕ
max_event_size = 65536

module _ {ℓ} {S : Type ℓ} (callback : Callback S) (blank : Event) where
  abbrev pub reading : List ℕ → ℕ → ReplaySource
  reading rest replayed = record { file = some rest; events_replayed = replayed }

  -- The `while (true)` loop on the bytes that are left. `blank` is what `Event ev;` holds.
  unfoldable pub replay_loop : ℕ → List ℕ → ℕ → S → Outcome S
  unfolding call
  replay_loop zero rest replayed s = stuck
  replay_loop (suc fuel) rest replayed s =
      let size = le_value (take 4 rest) in
      let body = drop 4 rest in
      let (done, ev) = deserialize_event (take size body) blank in
      let replayed' : ℕ = if done then u64 (replayed + 1) else replayed in
      let s' : S = if done then call callback s ev else s in
      let more = replay_loop fuel (drop size body) replayed' s' in
      if ltb (length rest) 4
      then stopped ok (reading body replayed) s
      else if ltb max_event_size size
      then stopped (err (make_error ErrorCode.record_format_error "event size exceeds 64KB limit"))
          (reading body replayed) s
      else if ltb (length body) size
      then stopped ok (reading (drop size body) replayed) s
      else more

  -- A round that goes on takes four bytes at least, so one more round than bytes is enough.
  unfoldable pub replay : ReplaySource → S → Outcome S
  replay src s = elim src.file [
    | none ↦ stopped (err (make_error ErrorCode.internal "replay source not opened")) src s
    | some rest ↦ replay_loop (suc (length rest)) rest src.events_replayed s
  ]

unfoldable pub close : ReplaySource → ReplaySource
close src = record src { file = none }
