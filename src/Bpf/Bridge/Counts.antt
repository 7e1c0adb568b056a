-- ===== src/Bpf/Bridge/Counts.antt =====
-- How many keys of a map are counted.
use kernel_scope.Prelude.{◌≡◌, if◌then◌else◌, List, [], ◌∷◌, ◌++◌, Option, some, none}
use kernel_scope.Prelude.Assoc.{or_default}
use kernel_scope.Bpf.Bridge.{TaskKey, zero_key}
use kernel_scope.Tracer.{task_key_eq}

abbrev pub head_of : List TaskKey → Option TaskKey
head_of [] = none
head_of (k ∷ ks) = some k

abbrev pub tail_of : List TaskKey → List TaskKey
tail_of [] = []
tail_of (k ∷ ks) = ks

-- The keys behind the first occurrence of a key.
abbrev pub behind : TaskKey → List TaskKey → Option (List TaskKey)
behind key [] = none
behind key (k ∷ ks) = let rest = behind key ks in if task_key_eq.beq k key then some ks else rest

-- What bpf_map_get_next_key promises for a map with the given keys, in its order: the key behind a key of
-- the map, and the first for any other.
pub record IsNextKey (keys : List TaskKey) (next : TaskKey → Option TaskKey) : Type 0 where
  pub present :
      (front : List TaskKey) (key : TaskKey) (back : List TaskKey)
      → keys ≡ front ++ key ∷ back
      → next key ≡ head_of back
  pub absent : (key : TaskKey) → behind key keys ≡ none → next key ≡ head_of keys

-- The keys that the loop gets to see: it starts behind the key 0, where the map has that key.
abbrev pub counted : List TaskKey → List TaskKey
counted keys = or_default (behind zero_key keys) keys
