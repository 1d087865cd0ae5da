-- ===== src/Text/Parts.antt =====
-- What the program uses of Go's `strings` package to take texts apart and to join them.
use otherhost.Base.{
  ◌||◌, ℕ, ◌-◌, Bool, List, [], ◌∷◌, ◌++◌, Option, none, some, if◌then◌else◌, ◌==◌, Bytes, drop,
  take, length, reverse,
}
use otherhost.Text.{has_prefix}

abbrev pub with_front : ℕ → Option (Bytes × Bytes) → Option (Bytes × Bytes)
with_front c none = none
with_front c (some (front, back)) = some (c ∷ front, back)

-- The text before and behind the first such byte.
unfoldable pub split_first : ℕ → Bytes → Option (Bytes × Bytes)
split_first b [] = none
split_first b (c ∷ s) =
    let rest = split_first b s in if c == b then some ([], s) else with_front c rest

-- `strings.HasSuffix`, and `strings.TrimSuffix` and `strings.TrimPrefix`.
unfoldable pub has_suffix : Bytes → Bytes → Bool
unfolding has_prefix
has_suffix s suffix = has_prefix (reverse s) (reverse suffix)

unfoldable pub trim_suffix : Bytes → Bytes → Bytes
unfolding has_suffix
trim_suffix s suffix = if has_suffix s suffix then take (length s - length suffix) s else s

unfoldable pub trim_prefix : Bytes → Bytes → Bytes
unfolding has_prefix
trim_prefix s prefix = if has_prefix s prefix then drop (length prefix) s else s

-- `strings.Split` at a byte.
abbrev pub onto_first : ℕ → List Bytes → List Bytes
onto_first c [] = (c ∷ []) ∷ []
onto_first c (part ∷ parts) = (c ∷ part) ∷ parts

unfoldable pub split_on : ℕ → Bytes → List Bytes
split_on b [] = [] ∷ []
split_on b (c ∷ s) = let rest = split_on b s in if c == b then [] ∷ rest else onto_first c rest

-- `strings.Contains`
unfoldable pub contains : Bytes → Bytes → Bool
unfolding has_prefix
contains [] needle = has_prefix [] needle
contains (c ∷ s) needle = has_prefix (c ∷ s) needle || contains s needle

-- `strings.Join`
unfoldable pub join : Bytes → List Bytes → Bytes
join between [] = []
join between (part ∷ []) = part
join between (part ∷ next ∷ parts) = part ++ (between ++ join between (next ∷ parts))
