-- ===== src/Symbols/Elf.antt =====
-- The symbols of ELF files and their cache: src/symbolization/elf_cache.hpp and elf_cache.cpp. libelf
-- is a parameter: `ElfFile` holds what its calls answer for one file.
pub mod Cache
pub mod Lookup
use kernel_scope.Prelude.{
  ℕ, zero, suc, ◌+◌, ◌-◌, ◌/◌, ltb, leb, ◌==◌, if◌then◌else◌, Bool, true, false, not, ◌&&◌, ◌||◌,
  List, [], ◌∷◌, ◌++◌, Option, some, none, u64, u64_mod, sub64, length,
}
use kernel_scope.Prelude.Assoc.{lookup}
use kernel_scope.Prelude.Sorting.{sort}
use kernel_scope.Prelude.Text.{text_eq}
use kernel_scope.Symbols.Nearest.{preceding, by_address}
use kernel_scope.Symbols.ProcMaps.{is_empty}

pub record ElfSymbol : Type 0 where
  pub name : List ℕ
  pub addr : ℕ
  pub size : ℕ

pub record ElfInfo : Type 0 where
  pub symbols : List ElfSymbol
  pub load_base : ℕ
  pub is_pie : Bool

-- GElf_Phdr and GElf_Sym, as far as they are read; `kind` is GELF_ST_TYPE(st_info).
pub record ProgramHeader : Type 0 where
  pub p_type : ℕ
  pub p_vaddr : ℕ

pub record ElfSym : Type 0 where
  pub st_name : ℕ
  pub kind : ℕ
  pub st_value : ℕ
  pub st_size : ℕ

-- A section with its header, as far as it is read; the entry size of a symbol table is not 0 in a
-- well-formed file, and dividing by 0 is undefined in the source. `content` is the answer of elf_getdata, on which
-- gelf_getsym answers for each index.
pub record Section : Type 0 where
  pub sh_type : ℕ
  pub sh_size : ℕ
  pub sh_entsize : ℕ
  pub sh_link : ℕ
  pub content : Option (ℕ → Option ElfSym)

-- An ELF file that open and elf_begin accept. `e_type` is `none` where gelf_getehdr fails, and an
-- element of `phdrs` or `sections` where the call for its header fails.
pub record ElfFile : Type 0 where
  pub e_type : Option ℕ
  pub phdrs : List (Option ProgramHeader)
  pub sections : List (Option Section)
  pub strptr : ℕ → ℕ → Option (List ℕ)

abbrev pub et_dyn : ℕ
et_dyn = 3

abbrev pub pt_load : ℕ
pt_load = 1

abbrev pub sht_symtab : ℕ
sht_symtab = 2

abbrev pub sht_dynsym : ℕ
sht_dynsym = 11

abbrev pub stt_func : ℕ
stt_func = 2

-- The loop over the program headers.
unfoldable pub min_vaddr : ℕ → List (Option ProgramHeader) → ℕ
min_vaddr least [] = least
min_vaddr least (none ∷ hs) = min_vaddr least hs
min_vaddr least (some h ∷ hs) =
    min_vaddr (if h.p_type == pt_load && ltb h.p_vaddr least then h.p_vaddr else least) hs

unfoldable pub load_base : List (Option ProgramHeader) → ℕ
unfolding min_vaddr
load_base hs = let least = min_vaddr (u64_mod - 1) hs in if least == u64_mod - 1 then 0 else least

-- The symbol that a named table entry is entered as.
unfoldable pub named_symbol : Option (List ℕ) → ElfSym → List ElfSymbol
named_symbol none sym = []
named_symbol (some name) sym =
    if is_empty name
    then []
    else record {
      name = name;
      addr = sym.st_value;
      size = if sym.st_size == 0 then 1 else sym.st_size;
    }
      ∷ []

-- One round of the loop over a symbol table: the entry that is appended, if any.
unfoldable pub table_entry : (ℕ → ℕ → Option (List ℕ)) → ℕ → Option ElfSym → List ElfSymbol
unfolding named_symbol
table_entry strptr link none = []
table_entry strptr link (some sym) =
    if not (sym.kind == stt_func)
    then []
    else if sym.st_value == 0
    then []
    else named_symbol (strptr link sym.st_name) sym

-- The entries from index i on, `count` of them.
unfoldable pub table_entries :
    (ℕ → ℕ → Option (List ℕ)) → ℕ → (ℕ → Option ElfSym) → ℕ → ℕ → List ElfSymbol
unfolding table_entry
table_entries strptr link get i zero = []
table_entries strptr link get i (suc count) =
    table_entry strptr link (get i) ++ table_entries strptr link get (i + 1) count

unfoldable pub section_symbols : (ℕ → ℕ → Option (List ℕ)) → Section → List ElfSymbol
unfolding table_entries
section_symbols strptr s =
    if not (s.sh_type == sht_symtab) && not (s.sh_type == sht_dynsym) then [] else elim s.content [
      | none ↦ []
      | some get ↦ table_entries strptr s.sh_link get 0 (s.sh_size / s.sh_entsize)
    ]

-- The loop over the sections.
unfoldable pub all_symbols : (ℕ → ℕ → Option (List ℕ)) → List (Option Section) → List ElfSymbol
unfolding section_symbols
all_symbols strptr [] = []
all_symbols strptr (none ∷ ss) = all_symbols strptr ss
all_symbols strptr (some s ∷ ss) = section_symbols strptr s ++ all_symbols strptr ss

abbrev pub no_info : ElfInfo
no_info = record { symbols = []; load_base = 0; is_pie = false }

abbrev pub address : ElfSymbol → ℕ
address s = s.addr

-- parse_elf once the header is read.
unfoldable pub parse_typed : ℕ → ElfFile → ElfInfo
unfolding load_base all_symbols
parse_typed e_type f = record {
  symbols = sort (by_address address) (all_symbols f.strptr f.sections);
  load_base = load_base f.phdrs;
  is_pie = e_type == et_dyn;
}

unfoldable pub parse_file : ElfFile → ElfInfo
unfolding parse_typed
parse_file f = elim f.e_type [ none ↦ no_info | some e_type ↦ parse_typed e_type f ]

-- The argument is `none` where open or elf_begin fails.
unfoldable pub parse_elf : Option ElfFile → ElfInfo
unfolding parse_file
parse_elf none = no_info
parse_elf (some f) = parse_file f

pub record ElfCache : Type 0 where
  pub max_entries : ℕ
  pub cache : List (List ℕ × ElfInfo)

unfoldable pub new : ℕ → ElfCache
new max_entries = record { max_entries = max_entries; cache = [] }

unfoldable pub size : ElfCache → ℕ
size c = length c.cache

unfoldable pub clear : ElfCache → ElfCache
clear c = record c { cache = [] }

-- How far behind the start of a symbol an address may lie.
abbrev pub max_distance : ℕ
max_distance = 0x10000

-- What is returned for the symbol in front of the upper bound, if there is one.
unfoldable pub near_enough : ℕ → Option ElfSymbol → Option ElfSymbol
near_enough offset none = none
near_enough offset (some s) =
    if leb s.addr offset && ltb offset (u64 (s.addr + s.size))
    then some s
    else if leb s.addr offset && ltb (offset - s.addr) max_distance
    then some s
    else none

-- The search in the symbols of a loaded file.
unfoldable pub find_symbol : ℕ → ElfInfo → Option ElfSymbol
unfolding near_enough
find_symbol offset info =
    if is_empty info.symbols
    then none
    else near_enough offset (preceding address offset none info.symbols)

module _ (files : List ℕ → Option ElfFile) where
  unfoldable pub ensure_loaded : List ℕ → ElfCache → ElfCache × ElfInfo
  ensure_loaded path c = elim (lookup path c.cache) [
    | some info ↦ (c, info)
    | none ↦
        let info = parse_elf (files path) in
        (record c { cache = c.cache ++ (path, info) ∷ [] }, info)
  ]

  -- cache_.size() >= max_entries_ && cache_.find(path) == cache_.end()
  unfoldable pub is_refused : List ℕ → ElfCache → Bool
  unfolding size
  is_refused path c =
      leb c.max_entries (size c) && (elim (lookup path c.cache) [ none ↦ true | some info ↦ false ])

  unfoldable pub resolve : List ℕ → ℕ → ElfCache → ElfCache × Option ElfSymbol
  unfolding ensure_loaded is_refused
  resolve path offset c =
      let (c', info) = ensure_loaded path c in
      if is_refused path c then (c, none) else (c', find_symbol offset info)

  unfoldable pub get_info : List ℕ → ElfCache → ElfCache × Option ElfInfo
  unfolding ensure_loaded is_refused
  get_info path c =
      let (c', info) = ensure_loaded path c in
      if is_refused path c then (c, none) else (c', some info)
