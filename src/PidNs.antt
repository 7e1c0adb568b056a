-- ===== src/PidNs.antt =====
-- Pids in the namespace of the tracer and in the kernel: src/util/pidns.cpp.
pub mod Translation
mod Tests
use kernel_scope.Prelude.{
  ℕ, ◌+◌, ltb, leb, ◌==◌, if◌then◌else◌, Bool, true, false, not, ◌&&◌, ◌||◌, List, [], ◌∷◌, take,
  drop, Option, none, some,
}
use kernel_scope.Decoder.Syscalls.{codes}

-- A name in /proc: whether it is a directory, and the number that sscanf reads of it.
pub record Entry : Type 0 where
  pub is_directory : Bool
  pub number : Option ℕ

-- The files that are read: the lines of /proc/<pid>/status and of /proc/self/status, or `none` where the
-- file does not open; whether /proc/<pid>/maps exists; the names in /proc; and sscanf with " %u".
pub record Proc : Type 0 where
  pub status : ℕ → Option (List (List ℕ))
  pub self_status : Option (List (List ℕ))
  pub has_maps : ℕ → Bool
  pub entries : List Entry
  pub scan : List ℕ → Option ℕ

unfoldable pub same_codes : List ℕ → List ℕ → Bool
same_codes [] [] = true
same_codes (a ∷ as_) (b ∷ bs) = a == b && same_codes as_ bs
same_codes _ _ = false

-- `line.compare(0, 7, "NStgid:") == 0`.
unfoldable pub is_nstgid : List ℕ → Bool
unfolding same_codes
is_nstgid line = same_codes (take 7 line) (codes "NStgid:")

-- The loop over the lines: `found` is what sscanf reads of a line that begins with the tag.
unfoldable pub first_nstgid : (List ℕ → Option ℕ) → List (List ℕ) → Option ℕ
unfolding is_nstgid
first_nstgid scan [] = none
first_nstgid scan (line ∷ lines) =
    let rest = first_nstgid scan lines in
    if is_nstgid line then elim (scan (drop 7 line)) [ none ↦ rest | some pid ↦ some pid ] else rest

unfoldable pub parse_nstgid : Proc → ℕ → Option ℕ
unfolding first_nstgid
parse_nstgid o pid = elim (o.status pid) [ none ↦ none | some lines ↦ first_nstgid o.scan lines ]

abbrev pub or_same : Option ℕ → ℕ → ℕ
or_same none ns_pid = ns_pid
or_same (some kpid) ns_pid = if not (kpid == ns_pid) then kpid else ns_pid

unfoldable pub to_kernel_pid : Proc → ℕ → ℕ
unfolding parse_nstgid
to_kernel_pid o ns_pid = or_same (parse_nstgid o ns_pid) ns_pid

abbrev pub is_pid : ℕ → Option ℕ → Bool
is_pid kernel_pid none = false
is_pid kernel_pid (some kpid) = kpid == kernel_pid

-- What the loop returns at a name, or `none` where it goes on.
abbrev pub entry_pid : Proc → ℕ → Entry → Option ℕ
entry_pid o kernel_pid e =
    if e.is_directory
    then elim e.number [
      | none ↦ none
      | some pid ↦ if is_pid kernel_pid (parse_nstgid o pid) then some pid else none
    ]
    else none

unfoldable pub search_entries : Proc → ℕ → List Entry → ℕ
unfolding parse_nstgid
search_entries o kernel_pid [] = 0
search_entries o kernel_pid (e ∷ es) =
    let rest = search_entries o kernel_pid es in
    elim (entry_pid o kernel_pid e) [ none ↦ rest | some pid ↦ pid ]

unfoldable pub to_ns_pid : Proc → ℕ → ℕ
unfolding search_entries
to_ns_pid o kernel_pid =
    if o.has_maps kernel_pid then kernel_pid else search_entries o kernel_pid o.entries

-- ' ' and '\t', and the digits.
abbrev pub is_blank : ℕ → Bool
is_blank c = c == 0x20 || c == 9

abbrev pub is_digit : ℕ → Bool
is_digit c = leb 0x30 c && leb c 0x39

-- The loops over the characters behind the tag; `inside` says whether the last one was a digit.
unfoldable pub count_numbers : Bool → ℕ → List ℕ → ℕ
count_numbers inside count [] = count
count_numbers inside count (c ∷ cs) =
    let counted = count_numbers true (count + 1) cs in
    let digits = count_numbers true count cs in
    let blank = count_numbers false count cs in
    if is_digit c then (if inside then digits else counted) else if is_blank c then blank else count

unfoldable pub namespaced : List (List ℕ) → Bool
unfolding is_nstgid count_numbers
namespaced [] = false
namespaced (line ∷ lines) =
    let rest = namespaced lines in
    if is_nstgid line then ltb 1 (count_numbers false 0 (drop 7 line)) else rest

unfoldable pub has_pid_namespace : Proc → Bool
unfolding namespaced
has_pid_namespace o = elim o.self_status [ none ↦ false | some lines ↦ namespaced lines ]
