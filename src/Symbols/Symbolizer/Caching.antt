-- ===== src/Symbols/Symbolizer/Caching.antt =====
-- Resolving with the caches while the files stay as they are.
use kernel_scope.Prelude.{
  ℕ, ◌+◌, ◌≤◌, ◌<◌, ◌≡◌, refl, arith, if◌then◌else◌, ◌==◌, Bool, true, false, List, [], ◌∷◌, map,
  length, Option, some, none, inl, inr, Bool-cases, Option-cases, ap, ◌∙◌, nat_eq,
}
use kernel_scope.Prelude.Assoc.{lookup, lookup-append}
use kernel_scope.Decoder.Syscalls.{codes}
use kernel_scope.Symbols.Nearest.{preceding}
use kernel_scope.Symbols.ProcMaps
use kernel_scope.Symbols.ProcMaps.{MemoryMapping, ProcMaps, load, find, is_empty}
use kernel_scope.Symbols.Elf
use kernel_scope.Symbols.Elf.{ElfCache, ElfInfo, find_symbol, parse_elf, size, get_info, resolve}
use kernel_scope.Symbols.Elf.Cache.{Coherent, resolve-Kept, resolve-roomy, resolve-get_info}
use kernel_scope.Symbols.Symbolizer.{
  Environment, Symbolizer, ResolvedFrame, new_symbolizer, kernel_address, raw_frame, null_frame,
  user_result, elf_vaddr, kernel_result, get_proc_maps, read_kallsyms, load_kallsyms,
  resolve_mapped, resolve_found, resolve_user, resolve_kernel, resolve_one, resolve_stack,
}

module _ (env : Environment) where
  abbrev pub loaded_maps : ℕ → ProcMaps
  loaded_maps pid = (load (env.maps pid) (ProcMaps.new pid)).0

  -- The frames without any cache.
  abbrev pub mapped_frame : ℕ → MemoryMapping → ResolvedFrame
  mapped_frame addr m =
      let info : ElfInfo = parse_elf (env.files m.pathname) in
      let v : ℕ = elf_vaddr addr m (some info) in
      user_result addr (env.filename m.pathname) v (find_symbol v info)

  abbrev pub mapping_frame : ℕ → Option MemoryMapping → ResolvedFrame
  mapping_frame addr none = raw_frame addr []
  mapping_frame addr (some m) = mapped_frame addr m

  abbrev pub user_frame : ℕ → ℕ → ResolvedFrame
  user_frame pid addr =
      if addr == 0 then null_frame [] else mapping_frame addr (find addr (loaded_maps pid))

  abbrev pub kernel_frame : ℕ → ResolvedFrame
  kernel_frame addr =
      if addr == 0
      then null_frame (codes "[kernel]")
      else if is_empty (read_kallsyms env [])
      then raw_frame addr (codes "[kernel]")
      else kernel_result addr (preceding kernel_address addr none (read_kallsyms env []))

  abbrev pub frame : Bool → ℕ → ℕ → ResolvedFrame
  frame is_kernel pid addr = if is_kernel then kernel_frame addr else user_frame pid addr

  -- Every cached value is what its file gives.
  pub record IsTrue (s : Symbolizer) : Type 0 where
    pub elf : Coherent env.files s.elf_cache
    pub maps : (pid : ℕ) (p : ProcMaps) → lookup pid s.proc_cache ≡ some p → p ≡ loaded_maps pid
    pub kernel : s.kallsyms_loaded ≡ true → s.kallsyms ≡ read_kallsyms env []
    pub unread : s.kallsyms_loaded ≡ false → s.kallsyms ≡ []

  -- What one address leaves of a symbolizer.
  record Next (s s' : Symbolizer) : Type 0 where
    is_true : IsTrue s'
    limit : s'.elf_cache.max_entries ≡ s.elf_cache.max_entries
    grows : size s'.elf_cache ≤ size s.elf_cache + 1

  Next-same : (s : Symbolizer) → IsTrue s → Next s s
  Next-same s t = record { is_true = t; limit = refl; grows = omega arith }

  get_proc_maps-loaded :
      (pid : ℕ) (s : Symbolizer) → IsTrue s → (get_proc_maps env pid s).1 ≡ loaded_maps pid
  unfolding get_proc_maps
  get_proc_maps-loaded pid s t = elim (Option-cases (lookup pid s.proc_cache)) [
    | inr (p, h) ↦ rw (h, get_proc_maps) (t.maps pid p h)
    | inl h ↦ rw (h, get_proc_maps)
  ]

  get_proc_maps-IsTrue : (pid : ℕ) (s : Symbolizer) → IsTrue s → IsTrue (get_proc_maps env pid s).0
  unfolding get_proc_maps
  get_proc_maps-IsTrue pid s t = elim (Option-cases (lookup pid s.proc_cache)) [
    | inr (p, h) ↦ rw (h, get_proc_maps) t
    | inl h ↦
        rw (h, get_proc_maps)
          (record {
            elf = t.elf;
            maps = λ q p e. elim (lookup-append q pid s.proc_cache (loaded_maps pid) p e) [
              | inl old ↦ t.maps q p old
              | inr (same, new) ↦ rw same at new
            ];
            kernel = t.kernel;
            unread = t.unread;
          })
  ]

  get_proc_maps-elf_cache :
      (pid : ℕ) (s : Symbolizer) → (get_proc_maps env pid s).0.elf_cache ≡ s.elf_cache
  unfolding get_proc_maps
  get_proc_maps-elf_cache pid s = elim (Option-cases (lookup pid s.proc_cache)) [
    | inr (p, h) ↦ rw (h, get_proc_maps)
    | inl h ↦ rw (h, get_proc_maps)
  ]

  module _ (s : Symbolizer) (t : IsTrue s) (room : size s.elf_cache < s.elf_cache.max_entries) where
    resolve_mapped-frame :
        (addr : ℕ) (m : MemoryMapping)
        → ((resolve_mapped env addr m s).1 ≡ mapped_frame addr m)
          × Next s (resolve_mapped env addr m s).0
    unfolding resolve_mapped
    resolve_mapped-frame addr m =
        let c = s.elf_cache in
        let kept = (resolve-Kept env.files m.pathname 0 c).1 in
        let info = (resolve-roomy env.files m.pathname 0 c t.elf room).1 in
        let v = elf_vaddr addr m (some (parse_elf (env.files m.pathname))) in
        rw (info, resolve-get_info env.files m.pathname v c t.elf room)
          (
            refl,
            record {
              is_true = record {
                elf = kept.coherent t.elf;
                maps = t.maps;
                kernel = t.kernel;
                unread = t.unread;
              };
              limit = kept.limit;
              grows = kept.grows;
            },
          )

    load_kallsyms-table : (load_kallsyms env s).kallsyms ≡ read_kallsyms env []
    unfolding load_kallsyms
    load_kallsyms-table = elim (Bool-cases s.kallsyms_loaded) [
      | inl done ↦ rw done (t.kernel done)
      | inr fresh ↦ rw (fresh, t.unread fresh)
    ]

    load_kallsyms-Next : Next s (load_kallsyms env s)
    unfolding load_kallsyms
    load_kallsyms-Next = read s.kallsyms_loaded refl
      where
        read :
            (b : Bool)
            → s.kallsyms_loaded ≡ b
            → Next s (
                if b
                then s
                else record s { kallsyms = read_kallsyms env s.kallsyms; kallsyms_loaded = true })
        read true done = Next-same s t
        read false fresh = record {
          is_true = record {
            elf = t.elf;
            maps = t.maps;
            kernel = λ h. ap (read_kallsyms env) (t.unread fresh);
            unread = λ h. absurd (ground (arith, h));
          };
          limit = refl;
          grows = omega arith;
        }

    resolve_kernel-frame :
        (addr : ℕ)
        → ((resolve_kernel env addr s).1 ≡ kernel_frame addr) × Next s (resolve_kernel env addr s).0
    unfolding resolve_kernel
    resolve_kernel-frame addr = elim (Bool-cases (addr == 0)) [
      | inl null ↦ rw null (refl, Next-same s t)
      | inr given ↦
          rw (given, load_kallsyms-table)
            (elim (Bool-cases (is_empty (read_kallsyms env []))) [
              | inl nothing ↦ rw nothing (refl, load_kallsyms-Next)
              | inr table ↦ rw table (refl, load_kallsyms-Next)
            ])
    ]

  resolve_found-frame :
      (addr : ℕ) (o : Option MemoryMapping) (s : Symbolizer)
      → IsTrue s
      → size s.elf_cache < s.elf_cache.max_entries
      → ((resolve_found env addr o s).1 ≡ mapping_frame addr o)
        × Next s (resolve_found env addr o s).0
  unfolding resolve_found
  resolve_found-frame addr none s t room = (refl, Next-same s t)
  resolve_found-frame addr (some m) s t room = resolve_mapped-frame s t room addr m

  resolve_user-frame :
      (pid addr : ℕ) (s : Symbolizer)
      → IsTrue s
      → size s.elf_cache < s.elf_cache.max_entries
      → ((resolve_user env pid addr s).1 ≡ user_frame pid addr)
        × Next s (resolve_user env pid addr s).0
  unfolding resolve_user
  resolve_user-frame pid addr s t room = elim (Bool-cases (addr == 0)) [
    | inl null ↦ rw null (refl, Next-same s t)
    | inr given ↦
        let s' = (get_proc_maps env pid s).0 in
        let cache = get_proc_maps-elf_cache pid s in
        let (same, next) =
          resolve_found-frame addr (find addr (loaded_maps pid)) s' (get_proc_maps-IsTrue pid s t)
            (rw cache room) in
        rw (given, get_proc_maps-loaded pid s t)
          (
            same,
            record {
              is_true = next.is_true;
              limit = rw cache at next.limit;
              grows = rw cache at next.grows;
            },
          )
  ]

  resolve_one-frame :
      (is_kernel : Bool) (pid addr : ℕ) (s : Symbolizer)
      → IsTrue s
      → size s.elf_cache < s.elf_cache.max_entries
      → ((resolve_one env is_kernel pid addr s).1 ≡ frame is_kernel pid addr)
        × Next s (resolve_one env is_kernel pid addr s).0
  unfolding resolve_one
  resolve_one-frame true pid addr s t room = resolve_kernel-frame s t room addr
  resolve_one-frame false pid addr s t room = resolve_user-frame pid addr s t room

  pub record Resolved (pid : ℕ) (addrs : List ℕ) (is_kernel : Bool) (s : Symbolizer)
      (outcome : Symbolizer × List ResolvedFrame) : Type 0 where
    pub frames : outcome.1 ≡ map (frame is_kernel pid) addrs
    pub is_true : IsTrue outcome.0
    pub limit : outcome.0.elf_cache.max_entries ≡ s.elf_cache.max_entries
    pub grows : size outcome.0.elf_cache ≤ size s.elf_cache + length addrs

  -- The frames of a stack, and what they leave of a symbolizer.
  pub resolve_stack-Resolved :
      (pid : ℕ) (addrs : List ℕ) (is_kernel : Bool) (s : Symbolizer)
      → IsTrue s
      → size s.elf_cache + length addrs ≤ s.elf_cache.max_entries
      → Resolved pid addrs is_kernel s (resolve_stack env pid addrs is_kernel s)
  unfolding resolve_stack
  resolve_stack-Resolved pid [] is_kernel s t room = record {
    frames = refl;
    is_true = t;
    limit = refl;
    grows = omega arith;
  }
  resolve_stack-Resolved pid (addr ∷ addrs) is_kernel s t room =
      let (same, next) = resolve_one-frame is_kernel pid addr s t (omega arith) in
      let others =
        resolve_stack-Resolved pid addrs is_kernel (resolve_one env is_kernel pid addr s).0
          next.is_true (omega (arith, next.limit, next.grows)) in
      record {
        frames = rw (same, others.frames) refl;
        is_true = others.is_true;
        limit = others.limit ∙ next.limit;
        grows = omega (arith, others.grows, next.grows);
      }

  -- A new symbolizer has nothing cached.
  pub new_symbolizer-IsTrue : IsTrue new_symbolizer
  unfolding new_symbolizer Elf.new lookup
  new_symbolizer-IsTrue = record {
    elf = λ path info e. absurd (ground (arith, e));
    maps = λ pid p e. absurd (ground (arith, e));
    kernel = λ h. absurd (ground (arith, h));
    unread = λ h. refl;
  }
