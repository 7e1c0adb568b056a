-- ===== src/Symbols/ProcMaps.antt =====
-- The executable mappings of a process: src/symbolization/proc_maps.hpp and proc_maps.cpp.
pub mod Find
use kernel_scope.Prelude.{
  ℕ, ltb, leb, ◌==◌, if◌then◌else◌, Bool, true, false, not, ◌&&◌, ◌||◌, List, [], ◌∷◌, ◌++◌, Option,
  some, none,
}

pub record MemoryMapping : Type 0 where
  pub start : ℕ
  pub end : ℕ
  pub offset : ℕ
  pub pathname : List ℕ

-- What sscanf stores for a line of /proc/<pid>/maps: the number of items it assigned, the two
-- addresses, the third character of the permissions, the offset and the path.
pub record MapsLine : Type 0 where
  pub assigned : ℕ
  pub start : ℕ
  pub end : ℕ
  pub execute : ℕ
  pub offset : ℕ
  pub pathname : List ℕ

pub record ProcMaps : Type 0 where
  pub pid : ℕ
  pub mappings : List MemoryMapping

unfoldable pub new : ℕ → ProcMaps
new pid = record { pid = pid; mappings = [] }

unfoldable pub mapping : MapsLine → MemoryMapping
mapping l = record {
  start = l.start;
  end = l.end;
  offset = l.offset;
  pathname = if leb 8 l.assigned then l.pathname else [];
}

-- A path such as "[vdso]".
unfoldable pub is_special : List ℕ → Bool
is_special [] = false
is_special (c ∷ cs) = c == 0x5b

-- One round of the loop: a line is skipped, or its mapping is appended. 0x78 is 'x'.
unfoldable pub load_line : List MemoryMapping → MapsLine → List MemoryMapping
unfolding mapping is_special
load_line ms l =
    if ltb l.assigned 7
    then ms
    else if not (l.execute == 0x78)
    then ms
    else if is_special (mapping l).pathname
    then ms
    else ms ++ mapping l ∷ []

unfoldable pub load_lines : List MemoryMapping → List MapsLine → List MemoryMapping
unfolding load_line
load_lines ms [] = ms
load_lines ms (l ∷ ls) = load_lines (load_line ms l) ls

unfoldable pub is_empty {ℓ} : {A : Type ℓ} → List A → Bool
is_empty [] = true
is_empty (x ∷ xs) = false

-- The first argument is the scanned file, which is `none` where it cannot be opened.
unfoldable pub load : Option (List MapsLine) → ProcMaps → ProcMaps × Bool
unfolding load_lines is_empty
load none p = (record p { mappings = [] }, false)
load (some lines) p =
    let ms = load_lines [] lines in (record p { mappings = ms }, not (is_empty ms))

abbrev pub covers : ℕ → MemoryMapping → Bool
covers addr m = leb m.start addr && ltb addr m.end

unfoldable pub find_in : ℕ → List MemoryMapping → Option MemoryMapping
find_in addr [] = none
find_in addr (m ∷ ms) = let more = find_in addr ms in if covers addr m then some m else more

unfoldable pub find : ℕ → ProcMaps → Option MemoryMapping
unfolding find_in
find addr p = find_in addr p.mappings
