-- ===== src/Symbols/Symbolizer/Changing.antt =====
-- Resolving while the files change.
use kernel_scope.Prelude.{
  ℕ, ◌+◌, ◌≤◌, ◌≡◌, refl, Bool, Bool-cases, true, false, List, [], ◌∷◌, map, length, Option,
  Option-cases, some, none, inl, inr, nat_eq, sym, ◌∙◌, ap,
}
use kernel_scope.Prelude.Assoc.{lookup}
use kernel_scope.Prelude.Text.{text_eq}
use kernel_scope.Symbols.ProcMaps
use kernel_scope.Symbols.ProcMaps.{MemoryMapping, load, find, is_empty}
use kernel_scope.Symbols.Elf.{size, get_info}
use kernel_scope.Symbols.Symbolizer.{
  Environment, Symbolizer, get_proc_maps, read_kallsyms, load_kallsyms, resolve_mapped,
  resolve_found, resolve_user, resolve_kernel, resolve_one, resolve_stack,
}
use kernel_scope.Symbols.Symbolizer.Caching.{IsTrue, frame, resolve_stack-Resolved}
use kernel_scope.Symbols.Symbolizer.FirstRead.{
  first_read, Grows, get_proc_maps-Grows, resolve_one-Grows, get_info-grows, get_info-agree,
  resolve-agree,
}

-- Two environments that differ at most on what is cached.
pub record Agree (env env' : Environment) (s : Symbolizer) : Type 0 where
  pub files :
      (path : List ℕ) → lookup path s.elf_cache.cache ≡ none → env.files path ≡ env'.files path
  pub maps : (pid : ℕ) → lookup pid s.proc_cache ≡ none → env.maps pid ≡ env'.maps pid
  pub kernel : s.kallsyms_loaded ≡ false → env.kallsyms ≡ env'.kallsyms
  pub filename : (path : List ℕ) → env.filename path ≡ env'.filename path

module _ (env env' : Environment) where
  pub Agree-Grows : {s s' : Symbolizer} → Agree env env' s → Grows s s' → Agree env env' s'
  Agree-Grows a g = record {
    files = λ path n. a.files path (g.files path n);
    maps = λ pid n. a.maps pid (g.maps pid n);
    kernel = λ n. a.kernel (g.kernel n);
    filename = a.filename;
  }

  get_proc_maps-Agree :
      (pid : ℕ) (s : Symbolizer)
      → Agree env env' s
      → get_proc_maps env pid s ≡ get_proc_maps env' pid s
  unfolding get_proc_maps
  get_proc_maps-Agree pid s a = elim (Option-cases (lookup pid s.proc_cache)) [
    | inr (p, h) ↦ rw (h, get_proc_maps) refl
    | inl h ↦ rw (h, get_proc_maps, a.maps pid h) refl
  ]

  resolve_mapped-Agree :
      (addr : ℕ) (m : MemoryMapping) (s : Symbolizer)
      → Agree env env' s
      → resolve_mapped env addr m s ≡ resolve_mapped env' addr m s
  unfolding resolve_mapped
  resolve_mapped-Agree addr m s a =
      let info = get_info-agree env.files env'.files m.pathname s.elf_cache (a.files m.pathname) in
      let resolved =
        resolve-agree env.files env'.files m.pathname (get_info env'.files m.pathname s.elf_cache).0
          (λ n.
            a.files m.pathname (get_info-grows env'.files m.pathname s.elf_cache m.pathname n)) in
      rw (info, resolved, a.filename m.pathname) refl

  resolve_found-Agree :
      (addr : ℕ) (o : Option MemoryMapping) (s : Symbolizer)
      → Agree env env' s
      → resolve_found env addr o s ≡ resolve_found env' addr o s
  unfolding resolve_found
  resolve_found-Agree addr none s a = refl
  resolve_found-Agree addr (some m) s a = resolve_mapped-Agree addr m s a

  load_kallsyms-Agree :
      (s : Symbolizer) → Agree env env' s → load_kallsyms env s ≡ load_kallsyms env' s
  unfolding load_kallsyms read_kallsyms
  load_kallsyms-Agree s a = elim (Bool-cases s.kallsyms_loaded) [
    | inl done ↦ simp done refl
    | inr fresh ↦ rw (a.kernel fresh) refl
  ]

  resolve_one-Agree :
      (is_kernel : Bool) (pid addr : ℕ) (s : Symbolizer)
      → Agree env env' s
      → resolve_one env is_kernel pid addr s ≡ resolve_one env' is_kernel pid addr s
  unfolding resolve_one resolve_user resolve_kernel
  resolve_one-Agree true pid addr s a = rw (load_kallsyms-Agree s a) refl
  resolve_one-Agree false pid addr s a =
      rw
        (
          get_proc_maps-Agree pid s a,
          resolve_found-Agree addr (find addr (get_proc_maps env' pid s).1)
              (get_proc_maps env' pid s).0 (Agree-Grows a (get_proc_maps-Grows env' pid s)),
        )
        refl

  pub resolve_stack-Agree :
      (pid : ℕ) (addrs : List ℕ) (is_kernel : Bool) (s : Symbolizer)
      → Agree env env' s
      → resolve_stack env pid addrs is_kernel s ≡ resolve_stack env' pid addrs is_kernel s
  unfolding resolve_stack
  resolve_stack-Agree pid [] is_kernel s a = refl
  resolve_stack-Agree pid (addr ∷ addrs) is_kernel s a =
      rw
        (
          resolve_one-Agree is_kernel pid addr s a,
          resolve_stack-Agree pid addrs is_kernel (resolve_one env' is_kernel pid addr s).0
              (Agree-Grows a (resolve_one-Grows env' is_kernel pid addr s)),
        )
        refl

module _ (seen now : Environment) (s : Symbolizer) where
  pub first_read-Agree : Agree now (first_read seen now s) s
  unfolding first_read
  first_read-Agree = record {
    files = λ path n. rw (n, first_read) refl;
    maps = λ pid n. rw (n, first_read) refl;
    kernel = λ n. rw n refl;
    filename = λ path. refl;
  }

  pub first_read-IsTrue : IsTrue seen s → IsTrue (first_read seen now s) s
  unfolding first_read read_kallsyms
  first_read-IsTrue t = record {
    elf = λ path info h. rw (h, first_read) (t.elf path info h);
    maps = λ pid p h.
        let same : (first_read seen now s).maps pid ≡ seen.maps pid = rw (h, first_read) refl in
        t.maps pid p h ∙ ap (λ lines. (load lines (ProcMaps.new pid)).0) (sym same);
    kernel = λ h. rw h (t.kernel h);
    unread = t.unread;
  }

-- Whatever the files hold now, resolve_stack takes the maps of a process, a file and the kernel's table as
-- they were when they were first read, and reads only those that are not cached: while the cache of files
-- has room for one file per address, it returns the frames that these give, in order. `seen` is what the
-- cached ones held when they were read, and the result keeps account of it for the next call, so that a
-- process that has mapped other files since, or whose id was given to another, is resolved with old maps.
pub resolve_stack-first_read :
    (seen now : Environment) (pid : ℕ) (addrs : List ℕ) (is_kernel : Bool) (s : Symbolizer)
    → IsTrue seen s
    → size s.elf_cache + length addrs ≤ s.elf_cache.max_entries
    → ((resolve_stack now pid addrs is_kernel s).1
        ≡ map (frame (first_read seen now s) is_kernel pid) addrs)
      × IsTrue (first_read seen now s) (resolve_stack now pid addrs is_kernel s).0
resolve_stack-first_read seen now pid addrs is_kernel s t room =
    let read = first_read seen now s in
    let all =
      resolve_stack-Resolved read pid addrs is_kernel s (first_read-IsTrue seen now s t) room in
    rw (resolve_stack-Agree now read pid addrs is_kernel s (first_read-Agree seen now s))
      (all.frames, all.is_true)
