-- ===== src/Symbols/Elf/Lookup.antt =====
-- Which symbol an address in a file is resolved to.
use kernel_scope.Prelude.{
  ℕ, ◌+◌, ◌-◌, ◌≤◌, ◌<◌, arith, ltb, leb, if◌then◌else◌, List, [], ◌∷◌, Option, some, none, ◌⊎◌,
  inl, inr, u64, Bool-cases, Option-cases, ◌&&◌,
}
use kernel_scope.Prelude.Sorting.{IsSortedBy, sort-IsSortedBy, ascending-StrictWeakOrder}
use kernel_scope.Symbols.Nearest.{preceding, by_address, Nearest, preceding-Nearest}
use kernel_scope.Symbols.ProcMaps.{is_empty}
use kernel_scope.Symbols.Elf.{
  ElfSymbol, ElfFile, address, parse_elf, parse_file, parse_typed, find_symbol, near_enough,
  max_distance,
}

-- The symbol at or in front of an address, if the address lies inside it or less than 64 KiB behind its
-- start; `none` only where the nearest symbol is too far or none is in front.
abbrev pub Resolves : ℕ → List ElfSymbol → Option ElfSymbol → Type 0
Resolves offset syms (some s) =
    Nearest address offset syms (some s)
    × ((offset < u64 (s.addr + s.size)) ⊎ (offset < s.addr + max_distance))
Resolves offset syms none =
    Nearest address offset syms none
    ⊎ ((s : ElfSymbol) × Nearest address offset syms (some s)
        × (u64 (s.addr + s.size) ≤ offset)
        × (s.addr + max_distance ≤ offset))

near_enough-Resolves :
    (offset : ℕ) (syms : List ElfSymbol) (o : Option ElfSymbol)
    → Nearest address offset syms o
    → Resolves offset syms (near_enough offset o)
unfolding near_enough
near_enough-Resolves offset syms none n = inl n
near_enough-Resolves offset syms (some s) n =
    elim (Bool-cases (leb s.addr offset && ltb offset (u64 (s.addr + s.size)))) [
      | inl inside ↦ rw inside (n, inl (ground arith))
      | inr outside ↦ elim (Bool-cases (leb s.addr offset && ltb (offset - s.addr) max_distance)) [
        | inl close ↦ rw (outside, close) (n, inr (ground (arith, n.1)))
        | inr far ↦ rw (outside, far) (inr (s, n, ground (arith, n.1), ground (arith, n.1)))
      ]
    ]

parse_elf-IsSortedBy : (f : Option ElfFile) → IsSortedBy (by_address address) (parse_elf f).symbols
unfolding parse_elf parse_file parse_typed
parse_elf-IsSortedBy none = tt
parse_elf-IsSortedBy (some f) = elim (Option-cases f.e_type) [
  | inl h ↦ rw h tt
  | inr (t, h) ↦ rw h (sort-IsSortedBy _ (ascending-StrictWeakOrder address) _)
]

search-Resolves :
    (offset : ℕ) (syms : List ElfSymbol)
    → IsSortedBy (by_address address) syms
    → Resolves offset syms
        (if is_empty syms then none else near_enough offset (preceding address offset none syms))
unfolding is_empty
search-Resolves offset [] s = inl tt
search-Resolves offset (x ∷ xs) s =
    near_enough-Resolves offset (x ∷ xs) _ (preceding-Nearest address offset (x ∷ xs) s)

-- In every file the search finds the symbol with the greatest address that is not above the one asked
-- for, if the address lies in the symbol or less than 64 KiB behind its start, and fails only where no
-- symbol is in front or that one is too far.
pub find_symbol-Resolves :
    (f : Option ElfFile) (offset : ℕ)
    → Resolves offset (parse_elf f).symbols (find_symbol offset (parse_elf f))
unfolding find_symbol
find_symbol-Resolves f offset =
    search-Resolves offset (parse_elf f).symbols (parse_elf-IsSortedBy f)
