-- ===== src/Commands/Tables/Frames.antt =====
-- The rows of run_hot_stacks, while the files change between the screens.
use kernel_scope.Prelude.{ℕ, ◌+◌, ◌≤◌, ◌≡◌, refl, arith, List, [], ◌∷◌, map, length, sum, Option}
use kernel_scope.Prelude.Int.{ℤ}
use kernel_scope.Aggregator.{Aggregator}
use kernel_scope.Aggregator.Stats.{StackStats}
use kernel_scope.Aggregator.Queries.{top_stacks}
use kernel_scope.Symbols.Elf.{size}
use kernel_scope.Symbols.Symbolizer.{Environment, Symbolizer, resolve_stack}
use kernel_scope.Symbols.Symbolizer.Caching.{IsTrue, frame, resolve_stack-Resolved}
use kernel_scope.Symbols.Symbolizer.FirstRead.{first_read, resolve_stack-Grows}
use kernel_scope.Symbols.Symbolizer.Changing.{
  Agree, Agree-Grows, resolve_stack-Agree, first_read-Agree, first_read-IsTrue,
}
use kernel_scope.Bpf.Bridge.{SkeletonBridge}
use kernel_scope.Commands.{Config}
use kernel_scope.Commands.Tables.{StackRow, stack_row, read_addrs, stack_rows, show_stacks}

module _ (env : Environment) (lookup_elem : ℤ → Option (List ℕ)) (bridge : SkeletonBridge) where
  -- The rows without any cache.
  abbrev pub fresh_rows : ℕ → List StackStats → List StackRow
  fresh_rows i [] = []
  fresh_rows i (st ∷ sts) =
      stack_row i st (map (frame env st.is_kernel st.pid) (read_addrs env lookup_elem bridge st))
      ∷ fresh_rows (i + 1) sts

  -- How many addresses the stacks have.
  abbrev pub depth : List StackStats → ℕ
  depth sts = sum (map (λ st. length (read_addrs env lookup_elem bridge st)) sts)

  stack_rows-fresh :
      (i : ℕ) (sts : List StackStats) (sym : Symbolizer)
      → IsTrue env sym
      → size sym.elf_cache + depth sts ≤ sym.elf_cache.max_entries
      → ((stack_rows env lookup_elem bridge i sts sym).0 ≡ fresh_rows i sts)
        × IsTrue env (stack_rows env lookup_elem bridge i sts sym).1
  unfolding stack_rows
  stack_rows-fresh i [] sym t room = (refl, t)
  stack_rows-fresh i (st ∷ sts) sym t room =
      let addrs = read_addrs env lookup_elem bridge st in
      let one = resolve_stack-Resolved env st.pid addrs st.is_kernel sym t (omega arith) in
      let (others, done) =
        stack_rows-fresh (i + 1) sts (resolve_stack env st.pid addrs st.is_kernel sym).0 one.is_true
          (omega (arith, one.limit, one.grows)) in
      (rw (one.frames, others) refl, done)

module _ (lookup_elem : ℤ → Option (List ℕ)) (bridge : SkeletonBridge) where
  stack_rows-Agree :
      (now read : Environment) (i : ℕ) (sts : List StackStats) (sym : Symbolizer)
      → Agree now read sym
      → stack_rows now lookup_elem bridge i sts sym ≡ stack_rows read lookup_elem bridge i sts sym
  unfolding stack_rows
  stack_rows-Agree now read i [] sym a = refl
  stack_rows-Agree now read i (st ∷ sts) sym a =
      let addrs = read_addrs now lookup_elem bridge st in
      rw
        (
          resolve_stack-Agree now read st.pid addrs st.is_kernel sym a,
          stack_rows-Agree now read (i + 1) sts (resolve_stack read st.pid addrs st.is_kernel sym).0
              (Agree-Grows now read a (resolve_stack-Grows read st.pid addrs st.is_kernel sym)),
        )
        refl

  -- While the cache of files has room for the addresses of all stacks, run_hot_stacks shows the rows that
  -- the maps, the files and the kernel's table give as they were when they were first read, on this screen
  -- or on an earlier one: `seen` is what the cached ones held then, and the result keeps account of what
  -- this screen reads. The files may have changed since; what is cached is not read again.
  pub show_stacks-first_read :
      (seen now : Environment) (cfg : Config) (agg : Aggregator) (sym : Symbolizer)
      → IsTrue seen sym
      → size sym.elf_cache + depth now lookup_elem bridge (top_stacks agg cfg.top_n)
        ≤ sym.elf_cache.max_entries
      → ((show_stacks now lookup_elem bridge cfg agg sym).0
          ≡ fresh_rows (first_read seen now sym) lookup_elem bridge 0 (top_stacks agg cfg.top_n))
        × IsTrue (first_read seen now sym) (show_stacks now lookup_elem bridge cfg agg sym).1
  unfolding show_stacks
  show_stacks-first_read seen now cfg agg sym t room =
      let read = first_read seen now sym in
      rw
        (stack_rows-Agree now read 0 (top_stacks agg cfg.top_n) sym (first_read-Agree seen now sym))
        (stack_rows-fresh read lookup_elem bridge 0 (top_stacks agg cfg.top_n) sym
          (first_read-IsTrue seen now sym t) room)
