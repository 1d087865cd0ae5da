-- ===== src/Dashboard/Config/Updated.antt =====
-- What `updateKeyValueFile` (internal/pairing/config.go) does to the settings of a file.
use otherhost.Base.{
  ℕ, ◌≡◌, ◌≢◌, ◌⊎◌, refl, sym, ap, ◌∙◌, inl, inr, ◌||◌, Bool, true, List, [], ◌∷◌, Option, none,
  some, arith, Bytes, All, Bool-cases, Option-cases, bytes_eq, bytes_eq_iff, bytes_eq_refl, codes,
  find, find-insert, if◌then◌else◌,
}
use otherhost.Dashboard.Config.Entries.{entry_onto, find-entry_onto, or_else, settings}
use otherhost.Dashboard.Config.{setting_of}
use otherhost.Pairing.Config.{
  devbox_name, key_of, mark, otherhost_name, put_value, saved_keys, setting_line, update_keyed,
  update_line, update_lines, Settings,
}
use otherhost.Pairing.Names.{is_empty}
use otherhost.Text.Parts.{split_first}
use otherhost.Text.Trim.Kept.{trim_space-setting}
use otherhost.Text.{
  has_prefix, trim_space, drop_spaces, IsVisible, is_ascii_space, is_space_2, is_space_3,
  space_width, space_width_back, trim_left, trim_right,
}

abbrev key_part : Option (Bytes × Bytes) → Option Bytes
key_part none = none
key_part (some (key, value)) = some key

-- Both readers take the same key from a line.
key_of-setting_of : (t : Bytes) → key_of t ≡ key_part (setting_of t)
unfolding key_of setting_of
key_of-setting_of t = elim (Bool-cases (is_empty t || has_prefix t (codes "#"))) [
  | inl e ↦ rw e refl
  | inr e ↦ rw e elim (Option-cases (split_first b'=' t)) [
    | inl n ↦ rw n refl
    | inr ((f, b), n) ↦
        rw n elim (Bool-cases (is_empty f)) [ inl q ↦ rw q refl | inr q ↦ rw q refl ]
  ]
]

-- A line with this key and a trimmed value is read as that setting.
abbrev pub IsReadBack : Bytes → Bytes → Type 0
IsReadBack key value = setting_of (trim_space (setting_line key value)) ≡ some (key, value)

IsReadBack-lem :
    (c : ℕ) (key value : Bytes)
    → IsVisible c
    → trim_space value ≡ value
    → setting_of (setting_line (c ∷ key) value) ≡ some (c ∷ key, trim_space value)
    → IsReadBack (c ∷ key) value
IsReadBack-lem c key value v h e =
    ap setting_of (trim_space-setting c key value v h) ∙ e ∙ ap (λ t. some (c ∷ key, t)) h

-- The keys that a pairing saves are read back.
pub saved_key-IsReadBack :
    (value : Bytes) → trim_space value ≡ value → All (λ key. IsReadBack key value) saved_keys
unfolding setting_of split_first has_prefix is_empty trim_space trim_left trim_right drop_spaces
    space_width space_width_back is_ascii_space is_space_2 is_space_3
saved_key-IsReadBack value h = (
  IsReadBack-lem _ _ value refl h refl,
  (
    IsReadBack-lem _ _ value refl h refl,
    (
      IsReadBack-lem _ _ value refl h refl,
      (IsReadBack-lem _ _ value refl h refl, (IsReadBack-lem _ _ value refl h refl, tt)),
    ),
  ),
)

-- The value that a line gives a key, if it gives one.
abbrev pub value_in : Bytes → Bytes → Option Bytes
value_in key line = find key (entry_onto (setting_of (trim_space line)) [])

abbrev SetsValue : Bytes → Bytes → Bytes × Option Bytes → Type 0
SetsValue key value (line, marked) = (marked ≡ some key) × (value_in key line ≡ some value)

abbrev SetsNone : Bytes → Bytes × Option Bytes → Type 0
SetsNone key (line, marked) = (marked ≢ some key) × (value_in key line ≡ none)

pub value_in-IsReadBack :
    (k j v : Bytes)
    → IsReadBack j v
    → value_in k (setting_line j v) ≡ (if bytes_eq j k then some v else none)
value_in-IsReadBack k j v r = ap (λ s. find k (entry_onto s [])) r

find-key_part :
    (k : Bytes) (s : Option (Bytes × Bytes)) → key_part s ≢ some k → find k (entry_onto s []) ≡ none
find-key_part k none d = refl
find-key_part k (some (j, v)) d = elim (Bool-cases (bytes_eq j k)) [
  | inl e ↦ absurd (d (ap some ((bytes_eq_iff j k).0 e)))
  | inr e ↦ rw e refl
]

pub value_in-key_of :
    (k line : Bytes) (o : Option Bytes)
    → key_of (trim_space line) ≡ o
    → o ≢ some k
    → value_in k line ≡ none
value_in-key_of k line o e d =
    find-key_part k (setting_of (trim_space line))
      (λ q. d (sym e ∙ key_of-setting_of (trim_space line) ∙ q))

-- Every value is read back under its key.
abbrev pub AllReadBack : Settings → Type 0
AllReadBack values = All (λ entry. IsReadBack entry.0 entry.1) values

found_first :
    (j key w value : Bytes) (values : Settings)
    → bytes_eq j key ≡ true
    → find key ((j, w) ∷ values) ≡ some value
    → w ≡ value
found_first j key w value values q e = ground arith

pub AllReadBack-find :
    (values : Settings) (key value : Bytes)
    → AllReadBack values
    → find key values ≡ some value
    → IsReadBack key value
AllReadBack-find [] key value h e = absurd (ground arith)
AllReadBack-find ((j, w) ∷ values) key value h e = elim (Bool-cases (bytes_eq j key)) [
  | inl q ↦ rw (← (bytes_eq_iff j key).0 q, ← found_first j key w value values q e) h.0
  | inr q ↦ AllReadBack-find values key value h.1 (ground arith)
]

pub of_some : {a b : Bytes} → some a ≡ some b → a ≡ b
of_some h = cc

find-mark_seen :
    (k : Bytes) (o : Option Bytes) (seen : List (Bytes × Bool))
    → find k seen ≡ some true
    → find k (mark o seen) ≡ some true
find-mark_seen k none seen h = h
find-mark_seen k (some j) seen h = ground (arith, find-insert j k true seen)

find-mark :
    (k : Bytes) (o : Option Bytes) (seen : List (Bytes × Bool))
    → o ≢ some k
    → find k (mark o seen) ≡ find k seen
find-mark k none seen d = refl
find-mark k (some j) seen d = elim (Bool-cases (bytes_eq j k)) [
  | inl e ↦ absurd (d (ap some ((bytes_eq_iff j k).0 e)))
  | inr e ↦ find-insert j k true seen ∙ rw e refl
]

-- The first value of a key in some lines.
abbrev pub first_value : Bytes → List Bytes → Option Bytes
first_value key lines = find key (settings lines)

pub first_value-cons :
    (k line : Bytes) (lines : List Bytes)
    → first_value k (line ∷ lines) ≡ or_else (value_in k line) (first_value k lines)
unfolding settings
first_value-cons k line lines = find-entry_onto k (setting_of (trim_space line)) (settings lines)

-- The lines have the value and the key is seen, or neither.
abbrev pub IsUpdated : Bytes → Bytes → List Bytes × List (Bytes × Bool) → Type 0
IsUpdated key value (lines, seen) =
    ((first_value key lines ≡ some value) × (find key seen ≡ some true))
    ⊎ ((first_value key lines ≡ none) × (find key seen ≡ none))

module _ (values : Settings) (all_back : AllReadBack values) (k : Bytes) where
  -- A line that is given the value of a key, or kept.
  put_value-lem :
      (v line j : Bytes) (o : Option Bytes)
      → find k values ≡ some v
      → find j values ≡ o
      → (o ≡ none → value_in k line ≡ none)
      → SetsValue k v (put_value line j o) ⊎ SetsNone k (put_value line j o)
  put_value-lem v line j none e f h = inr ((λ q. ground arith), h refl)
  put_value-lem v line j (some w) e f h =
      let back = value_in-IsReadBack k j w (AllReadBack-find values j w all_back f) in
      elim (Bool-cases (bytes_eq j k)) [
        | inl q ↦ inl (
          ap some ((bytes_eq_iff j k).0 q),
          back ∙ rw q (sym f ∙ ap (λ i. find i values) ((bytes_eq_iff j k).0 q) ∙ e),
        )
        | inr q ↦ inr ((λ r. ground (arith, bytes_eq_iff j k)), back ∙ rw q refl)
      ]

  -- A line names the key that it is read with.
  update_keyed-lem :
      (v line : Bytes) (o : Option Bytes)
      → find k values ≡ some v
      → k ≢ devbox_name
      → key_of (trim_space line) ≡ o
      → SetsValue k v (update_keyed values line o) ⊎ SetsNone k (update_keyed values line o)
  update_keyed-lem v line none e d q =
      inr ((λ r. ground arith), value_in-key_of k line none q (λ r. ground arith))
  update_keyed-lem v line (some j) e d q = elim (Bool-cases (bytes_eq j devbox_name)) [
    | inl b ↦ rw b (
        put_value-lem v line otherhost_name (find otherhost_name values) e refl (λ _.
          value_in-key_of k line (some j) q
            (λ r. d (let s = (bytes_eq_iff j devbox_name).0 b in cc))))
    | inr b ↦ rw b (
        put_value-lem v line j (find j values) e refl
          (λ n. value_in-key_of k line (some j) q (λ r. let s = of_some r in cc)))
  ]

  update_line-lem :
      (v line : Bytes)
      → find k values ≡ some v
      → k ≢ devbox_name
      → SetsValue k v (update_line values line) ⊎ SetsNone k (update_line values line)
  unfolding update_line
  update_line-lem v line e d = update_keyed-lem v line (key_of (trim_space line)) e d refl

  -- A key that is seen stays seen.
  update_lines-seen :
      (seen : List (Bytes × Bool)) (lines : List Bytes)
      → find k seen ≡ some true
      → find k (update_lines values seen lines).1 ≡ some true
  unfolding update_lines
  update_lines-seen seen [] h = h
  update_lines-seen seen (line ∷ lines) h =
      update_lines-seen (mark (update_line values line).1 seen) lines (find-mark_seen k _ seen h)

  pub update_lines-IsUpdated :
      (v : Bytes) (seen : List (Bytes × Bool)) (lines : List Bytes)
      → find k values ≡ some v
      → k ≢ devbox_name
      → find k seen ≡ none
      → IsUpdated k v (update_lines values seen lines)
  unfolding update_lines settings
  update_lines-IsUpdated v seen [] e d n = inr (refl, n)
  update_lines-IsUpdated v seen (line ∷ lines) e d n =
      let (changed, marked) = update_line values line in
      let rest = (update_lines values (mark marked seen) lines).0 in
      let head = first_value-cons k changed rest in
      elim (update_line-lem v line e d) [
        | inl (m, s) ↦ inl (
          head ∙ rw s refl,
          update_lines-seen (mark marked seen) lines (
              ap (λ o. find k (mark o seen)) m ∙ find-insert k k true seen ∙ rw bytes_eq_refl refl),
        )
        | inr (m, s) ↦
            elim (update_lines-IsUpdated v (mark marked seen) lines e d
              (find-mark k marked seen m ∙ n)) [
                | inl (p, q) ↦ inl (head ∙ rw s p, q)
                | inr (p, q) ↦ inr (head ∙ rw s p, q)
              ]
      ]
