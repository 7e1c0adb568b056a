-- ===== src/Symbols/ProcMaps/Find.antt =====
-- What a lookup in the loaded mappings returns.
use kernel_scope.Prelude.{
  ℕ, ◌≤◌, ◌<◌, ◌≡◌, refl, arith, leb, ◌==◌, Bool-cases, Bool, false, List, [], ◌∷◌, ◌++◌, Option,
  some, none, inl, inr, All, ◌&&◌, not, map, keep, append-nil, append_assoc, ap, sym, ◌∙◌,
}
use kernel_scope.Symbols.ProcMaps.{
  MemoryMapping, MapsLine, ProcMaps, mapping, is_special, load_line, load_lines, load, covers,
  find_in, find,
}

abbrev pub Contains : ℕ → MemoryMapping → Type 0
Contains addr m = (m.start ≤ addr) × (addr < m.end)

-- The line of an executable mapping that is no pseudo-file such as "[vdso]".
abbrev pub is_mapped : MapsLine → Bool
is_mapped l = leb 7 l.assigned && (l.execute == 0x78 && not (is_special (mapping l).pathname))

abbrev pub mapped : List MapsLine → List MemoryMapping
mapped ls = map mapping (keep is_mapped ls)

-- `none` where no mapping contains the address, and otherwise the first one that does.
abbrev pub First : ℕ → List MemoryMapping → Option MemoryMapping → Type 0
First addr ms none = All (λ m. covers addr m ≡ false) ms
First addr ms (some m) =
    (front : List MemoryMapping) × (back : List MemoryMapping) × (ms ≡ front ++ m ∷ back)
    × All (λ x. covers addr x ≡ false) front
    × Contains addr m

find_in-First : (addr : ℕ) (ms : List MemoryMapping) → First addr ms (find_in addr ms)
unfolding find_in
find_in-First addr [] = tt
find_in-First addr (m ∷ ms) = elim (Bool-cases (covers addr m)) [
  | inl h ↦ rw h ([], ms, refl, tt, (ground arith, ground arith))
  | inr h ↦ rw h (ahead (find_in addr ms) h (find_in-First addr ms))
]
  where
    ahead :
        (o : Option MemoryMapping) → covers addr m ≡ false → First addr ms o → First addr (m ∷ ms) o
    ahead none h f = (h, f)
    ahead (some x) h (front, back, e, a, c) = (m ∷ front, back, ap (◌∷◌ m) e, (h, a), c)

load_line-mapped :
    (ms : List MemoryMapping) (l : MapsLine) (ls : List MapsLine)
    → load_line ms l ++ mapped ls ≡ ms ++ mapped (l ∷ ls)
unfolding load_line
load_line-mapped ms l ls =
    ground (arith, append_assoc ms (mapping l ∷ []) (mapped ls), append-nil ms)

load_lines-mapped :
    (ms : List MemoryMapping) (ls : List MapsLine) → load_lines ms ls ≡ ms ++ mapped ls
unfolding load_lines
load_lines-mapped ms [] = sym (append-nil ms)
load_lines-mapped ms (l ∷ ls) = load_lines-mapped (load_line ms l) ls ∙ load_line-mapped ms l ls

-- After a successful load, a lookup returns the first executable mapping of the file that contains the
-- address and is no pseudo-file, and fails only if there is none.
pub find-First :
    (lines : List MapsLine) (p : ProcMaps) (addr : ℕ)
    → First addr (mapped lines) (find addr (load (some lines) p).0)
unfolding find load
find-First lines p addr = rw (load_lines-mapped [] lines) (find_in-First addr (mapped lines))
