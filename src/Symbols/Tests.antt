-- ===== src/Symbols/Tests.antt =====
-- Runs of the lookups.
use kernel_scope.Prelude.{ℕ, ◌≡◌, refl, arith, false, List, [], ◌∷◌, map, Option, some}
use kernel_scope.Prelude.Sorting.{IsSortedBy}
use kernel_scope.Symbols.Nearest.{by_address}
use kernel_scope.Symbols.ProcMaps
use kernel_scope.Symbols.ProcMaps.{MapsLine, load, find}
use kernel_scope.Symbols.ProcMaps.Find.{First, mapped, find-First}
use kernel_scope.Symbols.Elf
use kernel_scope.Symbols.Elf.{
  ElfFile, ElfSym, ElfSymbol, address, parse_elf, find_symbol, resolve, get_info, size, et_dyn,
  pt_load, sht_symtab, stt_func,
}
use kernel_scope.Symbols.Elf.Lookup.{Resolves, find_symbol-Resolves}
use kernel_scope.Symbols.Elf.Cache.{Kept, resolve-Kept}
use kernel_scope.Symbols.Symbolizer.{Environment, Symbolizer, new_symbolizer, resolve_stack}
use kernel_scope.Symbols.Symbolizer.Caching.{
  IsTrue, frame, Resolved, resolve_stack-Resolved, new_symbolizer-IsTrue,
}
use kernel_scope.Symbols.Symbolizer.FirstRead.{first_read}
use kernel_scope.Symbols.Symbolizer.Changing.{resolve_stack-first_read}

abbrev lines : List MapsLine
lines =
    record {
      assigned = 8;
      start = 4096;
      end = 8192;
      execute = 0x78;
      offset = 0;
      pathname = 97 ∷ [];
    }
    ∷ record { assigned = 7; start = 8192; end = 9000; execute = 0x2d; offset = 0; pathname = [] }
    ∷ []

-- A table with one function named "f".
abbrev entries : ℕ → Option ElfSym
entries i = some (record { st_name = 1; kind = stt_func; st_value = 16; st_size = 8 })

abbrev binary : ElfFile
binary = record {
  e_type = some et_dyn;
  phdrs = some (record { p_type = pt_load; p_vaddr = 0 }) ∷ [];
  sections =
      some (record {
        sh_type = sht_symtab;
        sh_size = 24;
        sh_entsize = 24;
        sh_link = 2;
        content = some entries;
      })
      ∷ [];
  strptr = λ link name. some (102 ∷ []);
}

abbrev system : Environment
system = record {
  files = λ path. some binary;
  maps = λ pid. some lines;
  kallsyms = some (record { assigned = 3; addr = 77; type = 0x54; name = 107 ∷ [] } ∷ []);
  filename = λ path. path;
}

abbrev symbols : List ElfSymbol
symbols =
    record { name = 102 ∷ []; addr = 16; size = 8 }
    ∷ record { name = 103 ∷ []; addr = 32; size = 8 }
    ∷ []

symbols-IsSortedBy : IsSortedBy (by_address address) symbols
symbols-IsSortedBy = ((refl, tt), (tt, tt))

find-First_example : First 5000 (mapped lines) (find 5000 (load (some lines) (ProcMaps.new 7)).0)
find-First_example = find-First lines (ProcMaps.new 7) 5000

find_symbol-Resolves_example :
    Resolves 20 (parse_elf (some binary)).symbols (find_symbol 20 (parse_elf (some binary)))
find_symbol-Resolves_example = find_symbol-Resolves (some binary) 20

resolve-Kept_example :
    Kept system.files (Elf.new 1) (resolve system.files (97 ∷ []) 20 (Elf.new 1)).0
    × Kept system.files (Elf.new 1) (get_info system.files (97 ∷ []) (Elf.new 1)).0
resolve-Kept_example = resolve-Kept system.files (97 ∷ []) 20 (Elf.new 1)

new_is_roomy : (size new_symbolizer.elf_cache ≡ 0) × (new_symbolizer.elf_cache.max_entries ≡ 10000)
unfolding new_symbolizer Elf.new size
new_is_roomy = (refl, refl)

-- What a first call leaves.
abbrev used : Symbolizer
used = (resolve_stack system 7 (5000 ∷ []) false new_symbolizer).0

used-Resolved :
    Resolved system 7
      (5000 ∷ [])
      false
      new_symbolizer
      (resolve_stack system 7 (5000 ∷ []) false new_symbolizer)
unfolding new_symbolizer Elf.new Elf.size
used-Resolved =
    resolve_stack-Resolved system 7 (5000 ∷ []) false new_symbolizer (new_symbolizer-IsTrue system)
      (omega arith)

-- The process has no mappings any more.
abbrev emptied : Environment
emptied = record system { maps = λ pid. some [] }

resolve_stack-first_read_example :
    ((resolve_stack emptied 7 (5000 ∷ 0 ∷ []) false used).1
      ≡ map (frame (first_read system emptied used) false 7) (5000 ∷ 0 ∷ []))
    × IsTrue (first_read system emptied used) (resolve_stack emptied 7 (5000 ∷ 0 ∷ []) false used).0
resolve_stack-first_read_example =
    resolve_stack-first_read system emptied 7 (5000 ∷ 0 ∷ []) false used used-Resolved.is_true
      (omega (arith, used-Resolved.grows, used-Resolved.limit, new_is_roomy))
