-- ===== src/Symbols/Symbolizer.antt =====
-- The symbolizer: src/symbolization/symbolizer.hpp, symbolizer.cpp and stack_formatter.cpp.
pub mod Caching
pub mod FirstRead
pub mod Changing
use kernel_scope.Prelude.{
  ℕ, ◌+◌, ltb, ◌==◌, if◌then◌else◌, Bool, true, false, not, ◌&&◌, ◌||◌, List, [], ◌∷◌, ◌++◌, Option,
  some, none, u64, sub64, nat_eq,
}
use kernel_scope.Prelude.Assoc.{lookup}
use kernel_scope.Prelude.Sorting.{sort}
use kernel_scope.Prelude.Text.{hex}
use kernel_scope.Decoder.Syscalls.{codes, to_string}
use kernel_scope.Symbols.Nearest.{preceding, by_address}
use kernel_scope.Symbols.ProcMaps
use kernel_scope.Symbols.ProcMaps.{MapsLine, MemoryMapping, ProcMaps, load, find, is_empty}
use kernel_scope.Symbols.Elf
use kernel_scope.Symbols.Elf.{ElfCache, ElfFile, ElfInfo, ElfSymbol, get_info, resolve}

pub record ResolvedFrame : Type 0 where
  pub addr : ℕ
  pub symbol : List ℕ
  pub binary : List ℕ
  pub offset : ℕ
  pub resolved : Bool

pub record KernelSymbol : Type 0 where
  pub addr : ℕ
  pub name : List ℕ

-- What sscanf stores for a line of /proc/kallsyms: the number of items it assigned, and these.
pub record KallsymsLine : Type 0 where
  pub assigned : ℕ
  pub addr : ℕ
  pub type : ℕ
  pub name : List ℕ

-- What the files hold at the time of a call, scanned line by line, and std::filesystem::path::filename. Each
-- call is given its own, since the files change between the calls.
pub record Environment : Type 0 where
  pub files : List ℕ → Option ElfFile
  pub maps : ℕ → Option (List MapsLine)
  pub kallsyms : Option (List KallsymsLine)
  pub filename : List ℕ → List ℕ

pub record Symbolizer : Type 0 where
  pub elf_cache : ElfCache
  pub proc_cache : List (ℕ × ProcMaps)
  pub kallsyms : List KernelSymbol
  pub kallsyms_loaded : Bool

unfoldable pub new_symbolizer : Symbolizer
new_symbolizer = record {
  elf_cache = Elf.new 10000;
  proc_cache = [];
  kallsyms = [];
  kallsyms_loaded = false;
}

unfoldable pub clear_cache : Symbolizer → Symbolizer
clear_cache s = record s {
  elf_cache = Elf.clear s.elf_cache;
  proc_cache = [];
  kallsyms = [];
  kallsyms_loaded = false;
}

-- A line is kept for a function: 0x54 and 0x74 are 'T' and 't'.
unfoldable pub kallsyms_lines : List KallsymsLine → List KernelSymbol
kallsyms_lines [] = []
kallsyms_lines (l ∷ ls) =
    let rest = kallsyms_lines ls in
    if not (ltb l.assigned 3) && (not (l.addr == 0) && (l.type == 0x54 || l.type == 0x74))
    then record { addr = l.addr; name = l.name } ∷ rest
    else rest

abbrev pub kernel_address : KernelSymbol → ℕ
kernel_address k = k.addr

-- What is returned for an address that no mapping or symbol covers.
abbrev pub raw_frame : ℕ → List ℕ → ResolvedFrame
raw_frame addr binary = record {
  addr = addr;
  symbol = codes "0x" ++ hex addr;
  binary = binary;
  offset = 0;
  resolved = false;
}

abbrev pub null_frame : List ℕ → ResolvedFrame
null_frame binary = record {
  addr = 0;
  symbol = codes "[unknown]";
  binary = binary;
  offset = 0;
  resolved = false;
}

-- The frame of an address in a mapping, once its symbol was looked for.
unfoldable pub user_result : ℕ → List ℕ → ℕ → Option ElfSymbol → ResolvedFrame
user_result addr basename elf_vaddr (some sym) = record {
  addr = addr;
  symbol = sym.name;
  binary = basename;
  offset = sub64 elf_vaddr sym.addr;
  resolved = true;
}
user_result addr basename elf_vaddr none = record {
  addr = addr;
  symbol = codes "0x" ++ hex elf_vaddr;
  binary = basename;
  offset = elf_vaddr;
  resolved = false;
}

-- addr - mapping->start + mapping->offset, and the base where the file is known.
unfoldable pub elf_vaddr : ℕ → MemoryMapping → Option ElfInfo → ℕ
elf_vaddr addr m (some info) = u64 (sub64 addr m.start + m.offset + info.load_base)
elf_vaddr addr m none = u64 (sub64 addr m.start + m.offset)

-- The frame of an address by the symbol in front of the upper bound.
unfoldable pub kernel_result : ℕ → Option KernelSymbol → ResolvedFrame
kernel_result addr (some k) = record {
  addr = addr;
  symbol = k.name;
  binary = codes "[kernel]";
  offset = sub64 addr k.addr;
  resolved = true;
}
kernel_result addr none = raw_frame addr (codes "[kernel]")

module _ (env : Environment) where
  unfoldable pub get_proc_maps : ℕ → Symbolizer → Symbolizer × ProcMaps
  get_proc_maps pid s = elim (lookup pid s.proc_cache) [
    | some p ↦ (s, p)
    | none ↦
        let (p, found) = load (env.maps pid) (ProcMaps.new pid) in
        (record s { proc_cache = s.proc_cache ++ (pid, p) ∷ [] }, p)
  ]

  -- The table that is read from /proc/kallsyms.
  unfoldable pub read_kallsyms : List KernelSymbol → List KernelSymbol
  unfolding kallsyms_lines
  read_kallsyms before = elim env.kallsyms [
    | none ↦ before
    | some lines ↦ sort (by_address kernel_address) (before ++ kallsyms_lines lines)
  ]

  unfoldable pub load_kallsyms : Symbolizer → Symbolizer
  unfolding read_kallsyms
  load_kallsyms s =
      if s.kallsyms_loaded
      then s
      else record s { kallsyms = read_kallsyms s.kallsyms; kallsyms_loaded = true }

  -- resolve_user for an address in the mapping `m`.
  unfoldable pub resolve_mapped : ℕ → MemoryMapping → Symbolizer → Symbolizer × ResolvedFrame
  unfolding elf_vaddr user_result
  resolve_mapped addr m s =
      let (c, info) = get_info env.files m.pathname s.elf_cache in
      let (c', sym) = resolve env.files m.pathname (elf_vaddr addr m info) c in
      (
        record s { elf_cache = c' },
        user_result addr (env.filename m.pathname) (elf_vaddr addr m info) sym,
      )

  -- resolve_user once the mapping is looked for.
  unfoldable pub resolve_found : ℕ → Option MemoryMapping → Symbolizer → Symbolizer × ResolvedFrame
  unfolding resolve_mapped
  resolve_found addr none s = (s, raw_frame addr [])
  resolve_found addr (some m) s = resolve_mapped addr m s

  unfoldable pub resolve_user : ℕ → ℕ → Symbolizer → Symbolizer × ResolvedFrame
  unfolding get_proc_maps resolve_found
  resolve_user pid addr s =
      let (s', maps) = get_proc_maps pid s in
      if addr == 0 then (s, null_frame []) else resolve_found addr (find addr maps) s'

  unfoldable pub resolve_kernel : ℕ → Symbolizer → Symbolizer × ResolvedFrame
  unfolding load_kallsyms kernel_result
  resolve_kernel addr s =
      let s' = load_kallsyms s in
      if addr == 0
      then (s, null_frame (codes "[kernel]"))
      else if is_empty s'.kallsyms
      then (s', raw_frame addr (codes "[kernel]"))
      else (s', kernel_result addr (preceding kernel_address addr none s'.kallsyms))

  unfoldable pub resolve_one : Bool → ℕ → ℕ → Symbolizer → Symbolizer × ResolvedFrame
  unfolding resolve_user resolve_kernel
  resolve_one is_kernel pid addr s =
      if is_kernel then resolve_kernel addr s else resolve_user pid addr s

  unfoldable pub resolve_stack : ℕ → List ℕ → Bool → Symbolizer → Symbolizer × List ResolvedFrame
  unfolding resolve_one
  resolve_stack pid [] is_kernel s = (s, [])
  resolve_stack pid (addr ∷ addrs) is_kernel s =
      let (s', frame) = resolve_one is_kernel pid addr s in
      let (s'', frames) = resolve_stack pid addrs is_kernel s' in (s'', frame ∷ frames)

unfoldable pub format_frame : ResolvedFrame → ℕ → List ℕ
format_frame frame index =
    if frame.resolved
    then codes "  #"
      ++ to_string index
      ++ codes " "
      ++ frame.symbol
      ++ codes " ("
      ++ frame.binary
      ++ codes "+0x"
      ++ hex frame.offset
      ++ codes ")"
    else codes "  #" ++ to_string index ++ codes " 0x" ++ hex frame.addr

-- The frames from index i on. 0x0a is the new line.
unfoldable pub format_from : ℕ → List ResolvedFrame → List ℕ
unfolding format_frame
format_from i [] = []
format_from i (frame ∷ frames) = format_frame frame i ++ 0x0a ∷ format_from (i + 1) frames

unfoldable pub format_stack : List ResolvedFrame → List ℕ
unfolding format_from
format_stack = format_from 0
