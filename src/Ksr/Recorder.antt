-- ===== src/Ksr/Recorder.antt =====
-- The recorder: src/record/recorder.hpp and src/record/recorder.cpp.
pub mod Appends
use Prim.Native.String.{String, ◌++◌ as concat}
use kernel_scope.Prelude.{
  ℕ, ◌+◌, min, ltb, ◌==◌, if◌then◌else◌, Bool, true, false, not, ◌||◌, List, [], ◌∷◌, ◌++◌, length,
  take, Option, none, some, u32, u64,
}
use kernel_scope.Prelude.Bytes.{le_bytes}
use kernel_scope.Event.{Event}
use kernel_scope.Errors.{ErrorCode, Status, ok, err, make_error, errno_error}
use kernel_scope.Ksr.{Padding, serialize_event, make_header, header_bytes}

-- A file that is written: the bytes that it holds, and how many bytes each coming fwrite stores at
-- most. Calls behind the end of `answers` store everything.
pub record Disk : Type 0 where
  pub content : List ℕ
  pub answers : List ℕ

unfoldable pub accepted : List ℕ → List ℕ → ℕ
accepted [] bytes = length bytes
accepted (a ∷ answers) bytes = min a (length bytes)

unfoldable pub later : List ℕ → List ℕ
later [] = []
later (a ∷ answers) = answers

-- fwrite(bytes, 1, n, f): the file afterwards, and the number of bytes stored.
unfoldable pub fwrite : List ℕ → Disk → Disk × ℕ
unfolding accepted later
fwrite bytes d = (
  record {
    content = d.content ++ take (accepted d.answers bytes) bytes;
    answers = later d.answers;
  },
  accepted d.answers bytes,
)

-- `file` says whether `file_` is not null; `disk` is the file that was opened last.
pub record Recorder : Type 0 where
  pub file : Bool
  pub disk : Disk
  pub events_written : ℕ

-- The recorder as it is constructed.
unfoldable pub fresh : Recorder
fresh = record { file = false; disk = record { content = []; answers = [] }; events_written = 0 }

-- What fopen and the clocks answer: `answers` is `none` where fopen fails, for the given reason.
pub record Opening : Type 0 where
  pub answers : Option (List ℕ)
  pub reason : String
  pub monotonic_ns : ℕ
  pub wall_clock_ns : ℕ

unfoldable pub write_header : Opening → Disk → Recorder → Recorder × Status
unfolding fwrite
write_header o d r =
    let bytes = header_bytes (make_header o.monotonic_ns o.wall_clock_ns) in
    let (d', stored) = fwrite bytes d in
    let opened : Recorder = record r { file = true; disk = d' } in
    if stored == length bytes
    then (opened, ok)
    else (opened, err (make_error ErrorCode.io_error "failed to write KSR header"))

unfoldable pub open_path : Opening → String → Recorder → Recorder × Status
unfolding write_header
open_path o path r = elim o.answers [
  | none ↦ (
    record r { file = false },
    err (errno_error ErrorCode.io_error (concat "failed to open " path) o.reason),
  )
  | some answers ↦ write_header o (record { content = []; answers = answers }) r
]

-- The bytes of one record: the size, and behind it the event.
unfoldable pub frame : Padding → Event → List ℕ
frame p ev = le_bytes 4 (u32 (length (serialize_event p ev))) ++ serialize_event p ev

unfoldable pub write_failed : Disk → Recorder → Recorder × Status
write_failed d r =
    (record r { disk = d }, err (make_error ErrorCode.io_error "fwrite failed during recording"))

-- The second fwrite is made only if the first one stored the whole size.
unfoldable pub write_data : List ℕ → Recorder → Recorder × Status
unfolding fwrite write_failed
write_data bytes r =
    let (d', stored) = fwrite (le_bytes 4 (u32 (length bytes))) r.disk in
    let (d'', stored') = fwrite bytes d' in
    if not (stored == 4)
    then write_failed d' r
    else if not (stored' == length bytes)
    then write_failed d'' r
    else (record r { disk = d''; events_written = u64 (r.events_written + 1) }, ok)

unfoldable pub write_event : Padding → Event → Recorder → Recorder × Status
unfolding write_data
write_event p ev r =
    if r.file
    then write_data (serialize_event p ev) r
    else (r, err (make_error ErrorCode.internal "recorder not opened"))

unfoldable pub close : Recorder → Recorder
close r = if r.file then record r { file = false } else r
