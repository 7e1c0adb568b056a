-- ===== src/Symbols/Symbolizer/FirstRead.antt =====
-- What the caches keep while the files change: each file is used as it was when it was first read.
use kernel_scope.Prelude.{
  ℕ, ◌≡◌, refl, if◌then◌else◌, ◌==◌, Bool, Bool-cases, true, false, List, [], ◌∷◌, Option,
  Option-cases, some, none, inl, inr, nat_eq,
}
use kernel_scope.Prelude.Assoc.{lookup, lookup-append_none}
use kernel_scope.Prelude.Text.{text_eq}
use kernel_scope.Symbols.ProcMaps.{MemoryMapping, find, is_empty}
use kernel_scope.Symbols.Elf.{ElfFile, ElfCache, is_refused, ensure_loaded, get_info, resolve}
use kernel_scope.Symbols.Symbolizer.{
  Environment, Symbolizer, get_proc_maps, read_kallsyms, load_kallsyms, resolve_mapped,
  resolve_found, resolve_user, resolve_kernel, resolve_one, resolve_stack,
}

-- What is read of each file from now on: what is cached is as `seen` has it, and the rest is as it is now.
unfoldable pub first_read : Environment → Environment → Symbolizer → Environment
first_read seen now s = record {
  files = λ path. elim (lookup path s.elf_cache.cache) [
    | none ↦ now.files path
    | some info ↦ seen.files path
  ];
  maps = λ pid. elim (lookup pid s.proc_cache) [ none ↦ now.maps pid | some p ↦ seen.maps pid ];
  kallsyms = if s.kallsyms_loaded then seen.kallsyms else now.kallsyms;
  filename = now.filename;
}

-- Nothing that is cached gets lost.
pub record Grows (s s' : Symbolizer) : Type 0 where
  pub files :
      (path : List ℕ) → lookup path s'.elf_cache.cache ≡ none → lookup path s.elf_cache.cache ≡ none
  pub maps : (pid : ℕ) → lookup pid s'.proc_cache ≡ none → lookup pid s.proc_cache ≡ none
  pub kernel : s'.kallsyms_loaded ≡ false → s.kallsyms_loaded ≡ false

Grows-same : (s : Symbolizer) → Grows s s
Grows-same s = record { files = λ p h. h; maps = λ p h. h; kernel = λ h. h }

Grows-trans : {s t u : Symbolizer} → Grows s t → Grows t u → Grows s u
Grows-trans g h = record {
  files = λ path n. g.files path (h.files path n);
  maps = λ pid n. g.maps pid (h.maps pid n);
  kernel = λ n. g.kernel (h.kernel n);
}

module _ (files : List ℕ → Option ElfFile) (path : List ℕ) where
  ensure_loaded-grows :
      (c : ElfCache) (p : List ℕ)
      → lookup p (ensure_loaded files path c).0.cache ≡ none
      → lookup p c.cache ≡ none
  unfolding ensure_loaded
  ensure_loaded-grows c p n = elim (Option-cases (lookup path c.cache)) [
    | inr (info, h) ↦ rw (h, ensure_loaded) at n
    | inl h ↦ lookup-append_none p c.cache _ (rw (h, ensure_loaded) at n)
  ]

  pub get_info-grows :
      (c : ElfCache) (p : List ℕ)
      → lookup p (get_info files path c).0.cache ≡ none
      → lookup p c.cache ≡ none
  unfolding get_info
  get_info-grows c p n = elim (Bool-cases (is_refused files path c)) [
    | inl r ↦ rw r at n
    | inr r ↦ ensure_loaded-grows c p (rw r at n)
  ]

  resolve-grows :
      (offset : ℕ) (c : ElfCache) (p : List ℕ)
      → lookup p (resolve files path offset c).0.cache ≡ none
      → lookup p c.cache ≡ none
  unfolding resolve
  resolve-grows offset c p n = elim (Bool-cases (is_refused files path c)) [
    | inl r ↦ rw r at n
    | inr r ↦ ensure_loaded-grows c p (rw r at n)
  ]

module _ (files files' : List ℕ → Option ElfFile) (path : List ℕ) (c : ElfCache)
    (agree : lookup path c.cache ≡ none → files path ≡ files' path) where
  ensure_loaded-agree : ensure_loaded files path c ≡ ensure_loaded files' path c
  unfolding ensure_loaded
  ensure_loaded-agree = elim (Option-cases (lookup path c.cache)) [
    | inr (info, h) ↦ rw (h, ensure_loaded) refl
    | inl h ↦ rw (h, ensure_loaded, agree h) refl
  ]

  pub get_info-agree : get_info files path c ≡ get_info files' path c
  unfolding get_info is_refused
  get_info-agree = rw ensure_loaded-agree refl

  pub resolve-agree : (offset : ℕ) → resolve files path offset c ≡ resolve files' path offset c
  unfolding resolve is_refused
  resolve-agree offset = rw ensure_loaded-agree refl

module _ (env : Environment) where
  pub get_proc_maps-Grows : (pid : ℕ) (s : Symbolizer) → Grows s (get_proc_maps env pid s).0
  unfolding get_proc_maps
  get_proc_maps-Grows pid s = elim (Option-cases (lookup pid s.proc_cache)) [
    | inr (p, h) ↦ rw (h, get_proc_maps) (Grows-same s)
    | inl h ↦
        rw (h, get_proc_maps)
          (record {
            files = λ path n. n;
            maps = λ q n. lookup-append_none q s.proc_cache _ n;
            kernel = λ n. n;
          })
  ]

  resolve_mapped-Grows :
      (addr : ℕ) (m : MemoryMapping) (s : Symbolizer) → Grows s (resolve_mapped env addr m s).0
  unfolding resolve_mapped
  resolve_mapped-Grows addr m s = record {
    files = λ path n.
        get_info-grows env.files m.pathname s.elf_cache path
          (resolve-grows env.files m.pathname _ _ path n);
    maps = λ pid n. n;
    kernel = λ n. n;
  }

  resolve_found-Grows :
      (addr : ℕ) (o : Option MemoryMapping) (s : Symbolizer)
      → Grows s (resolve_found env addr o s).0
  unfolding resolve_found
  resolve_found-Grows addr none s = Grows-same s
  resolve_found-Grows addr (some m) s = resolve_mapped-Grows addr m s

  resolve_user-Grows : (pid addr : ℕ) (s : Symbolizer) → Grows s (resolve_user env pid addr s).0
  unfolding resolve_user
  resolve_user-Grows pid addr s = elim (Bool-cases (addr == 0)) [
    | inl null ↦ rw null (Grows-same s)
    | inr given ↦ rw given (
        Grows-trans (get_proc_maps-Grows pid s) (
          resolve_found-Grows addr (find addr (get_proc_maps env pid s).1)
            (get_proc_maps env pid s).0))
  ]

  load_kallsyms-Grows : (s : Symbolizer) → Grows s (load_kallsyms env s)
  unfolding load_kallsyms
  load_kallsyms-Grows s = tested s.kallsyms_loaded refl
    where
      tested :
          (b : Bool)
          → s.kallsyms_loaded ≡ b
          → Grows s (
              if b
              then s
              else record s { kallsyms = read_kallsyms env s.kallsyms; kallsyms_loaded = true })
      tested true done = Grows-same s
      tested false fresh = record { files = λ p n. n; maps = λ p n. n; kernel = λ n. fresh }

  resolve_kernel-Grows : (addr : ℕ) (s : Symbolizer) → Grows s (resolve_kernel env addr s).0
  unfolding resolve_kernel
  resolve_kernel-Grows addr s = elim (Bool-cases (addr == 0)) [
    | inl null ↦ rw null (Grows-same s)
    | inr given ↦ elim (Bool-cases (is_empty (load_kallsyms env s).kallsyms)) [
      | inl nothing ↦ rw (given, nothing) (load_kallsyms-Grows s)
      | inr table ↦ rw (given, table) (load_kallsyms-Grows s)
    ]
  ]

  pub resolve_one-Grows :
      (is_kernel : Bool) (pid addr : ℕ) (s : Symbolizer)
      → Grows s (resolve_one env is_kernel pid addr s).0
  unfolding resolve_one
  resolve_one-Grows true pid addr s = resolve_kernel-Grows addr s
  resolve_one-Grows false pid addr s = resolve_user-Grows pid addr s

  pub resolve_stack-Grows :
      (pid : ℕ) (addrs : List ℕ) (is_kernel : Bool) (s : Symbolizer)
      → Grows s (resolve_stack env pid addrs is_kernel s).0
  unfolding resolve_stack
  resolve_stack-Grows pid [] is_kernel s = Grows-same s
  resolve_stack-Grows pid (addr ∷ addrs) is_kernel s =
      Grows-trans (resolve_one-Grows is_kernel pid addr s)
        (resolve_stack-Grows pid addrs is_kernel (resolve_one env is_kernel pid addr s).0)
