-- ===== src/Symbols/Elf/Cache.antt =====
-- The cache of ELF files: how large it grows, and that it does not change an answer.
use kernel_scope.Prelude.{
  ℕ, ◌+◌, ◌≤◌, ◌<◌, ◌≡◌, refl, arith, leb, List, [], ◌∷◌, Option, some, inl, inr, ◌&&◌, true, false,
  Bool-cases, Option-cases, length-append,
}
use kernel_scope.Prelude.Assoc.{lookup, lookup-append, lookup-append_self}
use kernel_scope.Prelude.Text.{text_eq}
use kernel_scope.Symbols.Elf.{
  ElfFile, ElfInfo, ElfCache, size, is_refused, ensure_loaded, resolve, get_info, find_symbol,
  parse_elf,
}

module _ (files : List ℕ → Option ElfFile) where
  -- Every entry is what parsing the file gives.
  abbrev pub Coherent : ElfCache → Type 0
  Coherent c =
      (path : List ℕ) (info : ElfInfo)
      → lookup path c.cache ≡ some info
      → info ≡ parse_elf (files path)

  -- A cache that is as large as it may be does not take in a new file.
  abbrev pub IsRoomy : ElfCache → Type 0
  IsRoomy c = size c < c.max_entries

  -- What a call leaves of the cache: the limit, the bound, and true entries; with one entry more at
  -- most.
  pub record Kept (c c' : ElfCache) : Type 0 where
    pub limit : c'.max_entries ≡ c.max_entries
    pub bounded : size c ≤ c.max_entries → size c' ≤ c'.max_entries
    pub grows : size c' ≤ size c + 1
    pub coherent : Coherent c → Coherent c'

  Kept-same : (c : ElfCache) → Kept c c
  Kept-same c = record { limit = refl; bounded = λ h. h; grows = omega arith; coherent = λ h. h }

  ensure_loaded-Kept :
      (path : List ℕ) (c : ElfCache)
      → is_refused files path c ≡ false
      → Kept c (ensure_loaded files path c).0
  unfolding ensure_loaded is_refused size
  ensure_loaded-Kept path c r = elim (Option-cases (lookup path c.cache)) [
    | inr (info, h) ↦ rw (h, ensure_loaded) (Kept-same c)
    | inl h ↦
        let entry = (path, parse_elf (files path)) ∷ [] in
        let longer = length-append c.cache entry in
        rw (h, ensure_loaded)
          (record {
            limit = refl;
            bounded = λ b. omega (arith, longer, room (size c) c.max_entries (rw h at r));
            grows = omega (arith, longer);
            coherent = λ co p i e.
                elim (lookup-append p path c.cache (parse_elf (files path)) i e) [
                  | inl old ↦ co p i old
                  | inr (same, new) ↦ rw same at new
                ];
          })
  ]
    where
      room : (n limit : ℕ) → (leb limit n && true) ≡ false → n < limit
      room n limit h = ground arith

  -- With true entries, the information is that of the file.
  ensure_loaded-info :
      (path : List ℕ) (c : ElfCache)
      → Coherent c
      → (ensure_loaded files path c).1 ≡ parse_elf (files path)
  unfolding ensure_loaded
  ensure_loaded-info path c co = elim (Option-cases (lookup path c.cache)) [
    | inr (info, h) ↦ rw (h, ensure_loaded) (co path info h)
    | inl h ↦ rw (h, ensure_loaded)
  ]

  -- The two operations that load files never let the cache outgrow its limit, add one entry at most,
  -- and keep every entry equal to what parsing its file gives.
  pub resolve-Kept :
      (path : List ℕ) (offset : ℕ) (c : ElfCache)
      → Kept c (resolve files path offset c).0 × Kept c (get_info files path c).0
  unfolding resolve get_info
  resolve-Kept path offset c = elim (Bool-cases (is_refused files path c)) [
    | inl r ↦ rw r (Kept-same c, Kept-same c)
    | inr r ↦ rw r (ensure_loaded-Kept path c r, ensure_loaded-Kept path c r)
  ]

  accepts : (path : List ℕ) (c : ElfCache) → IsRoomy c → is_refused files path c ≡ false
  unfolding is_refused
  accepts path c room = ground (arith, room)

  ensure_loaded-present :
      (path : List ℕ) (c : ElfCache)
      → lookup path (ensure_loaded files path c).0.cache ≡ some (ensure_loaded files path c).1
  unfolding ensure_loaded
  ensure_loaded-present path c = elim (Option-cases (lookup path c.cache)) [
    | inr (info, h) ↦ rw (h, ensure_loaded) h
    | inl h ↦ rw (h, ensure_loaded) (lookup-append_self path c.cache (parse_elf (files path)) h)
  ]

  resolve-present :
      (path : List ℕ) (offset : ℕ) (c : ElfCache) (info : ElfInfo)
      → lookup path c.cache ≡ some info
      → resolve files path offset c ≡ (c, find_symbol offset info)
  unfolding resolve
  resolve-present path offset c info h =
      let kept : is_refused files path c ≡ false = rw (is_refused, h) (ground arith) in
      let same : ensure_loaded files path c ≡ (c, info) = rw (ensure_loaded, h) in rw (kept, same)

  get_info-accepted :
      (path : List ℕ) (c : ElfCache)
      → IsRoomy c
      → (get_info files path c).0 ≡ (ensure_loaded files path c).0
  unfolding get_info
  get_info-accepted path c room = rw (accepts path c room)

  -- After get_info, resolve finds the file in the cache, which it leaves as it is.
  pub resolve-get_info :
      (path : List ℕ) (offset : ℕ) (c : ElfCache)
      → Coherent c
      → IsRoomy c
      → resolve files path offset (get_info files path c).0
        ≡ ((get_info files path c).0, find_symbol offset (parse_elf (files path)))
  resolve-get_info path offset c co room =
      rw (get_info-accepted path c room, ← ensure_loaded-info path c co)
        (resolve-present path offset (ensure_loaded files path c).0 (ensure_loaded files path c).1
          (ensure_loaded-present path c))

  -- While there is room, the answers are those that parsing the file anew gives.
  pub resolve-roomy :
      (path : List ℕ) (offset : ℕ) (c : ElfCache)
      → Coherent c
      → IsRoomy c
      → ((resolve files path offset c).1 ≡ find_symbol offset (parse_elf (files path)))
        × ((get_info files path c).1 ≡ some (parse_elf (files path)))
  unfolding resolve get_info
  resolve-roomy path offset c co room =
      rw (accepts path c room, ensure_loaded-info path c co) (refl, refl)
