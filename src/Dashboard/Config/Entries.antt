-- ===== src/Dashboard/Config/Entries.antt =====
-- The settings of a text, line by line: what the two readers of a configuration file agree on.
use otherhost.Base.{
  ℕ, ◌≡◌, refl, sym, ap, ◌∙◌, inl, inr, true, false, List, [], ◌∷◌, ◌++◌, Option, none, some, arith,
  Bytes, All, All-append, Bool-cases, append_assoc, bytes_eq_iff, find, find-insert, has, has-find,
  ◌==◌, ◌&&◌, Option-cases,
}
use otherhost.Dashboard.Config.{add_setting, drop_last_blank, drop_returns, read_values, setting_of}
use otherhost.Pairing.Names.{is_empty}
use otherhost.Text.Lines.Ended.{IsInside, split_lines-ended}
use otherhost.Text.Lines.{replace_crlf, split_from, split_lines}
use otherhost.Text.Parts.{join}
use otherhost.Text.Trim.Return.{trim_space-return, trim_space-trim_suffix_byte}
use otherhost.Text.{drop_spaces, trim_left, trim_right, trim_space}

abbrev pub entry_onto : Option (Bytes × Bytes) → List (Bytes × Bytes) → List (Bytes × Bytes)
entry_onto none entries = entries
entry_onto (some entry) entries = entry ∷ entries

-- The settings of the lines, in their order.
unfoldable pub settings : List Bytes → List (Bytes × Bytes)
settings [] = []
settings (line ∷ lines) = entry_onto (setting_of (trim_space line)) (settings lines)

abbrev pub or_else : Option Bytes → Option Bytes → Option Bytes
or_else none o = o
or_else (some v) o = some v

pub find-entry_onto :
    (k : Bytes) (s : Option (Bytes × Bytes)) (entries : List (Bytes × Bytes))
    → find k (entry_onto s entries) ≡ or_else (find k (entry_onto s [])) (find k entries)
find-entry_onto k none entries = refl
find-entry_onto k (some (j, v)) entries = ground arith

has_absent : (k : Bytes) (m : List (Bytes × Bytes)) → find k m ≡ none → has k m ≡ false
has_absent k [] h = refl
has_absent k ((j, w) ∷ m) h = ground (arith, has_absent k m)

find-add_setting :
    (k : Bytes) (s : Option (Bytes × Bytes)) (values : List (Bytes × Bytes))
    → find k (add_setting s values) ≡ or_else (find k values) (find k (entry_onto s []))
find-add_setting k none values = elim (Option-cases (find k values)) [
  | inl e ↦ rw e refl
  | inr (v, e) ↦ rw e refl
]
find-add_setting k (some (j, v)) values = elim (Option-cases (find j values)) [
  | inl e ↦ ground (arith, has_absent j values, find-insert j k v values, bytes_eq_iff j k)
  | inr (w, e) ↦ ground (arith, has-find j w values, bytes_eq_iff j k)
]

pub or_else_assoc : (a b c : Option Bytes) → or_else (or_else a b) c ≡ or_else a (or_else b c)
or_else_assoc none b c = refl
or_else_assoc (some v) b c = refl

-- The loop of `LoadConfig` keeps the first value of each key.
pub find-read_values :
    (k : Bytes) (values : List (Bytes × Bytes)) (lines : List Bytes)
    → find k (read_values values lines) ≡ or_else (find k values) (find k (settings lines))
unfolding read_values settings
find-read_values k values [] = elim (Option-cases (find k values)) [
  | inl e ↦ rw e refl
  | inr (v, e) ↦ rw e refl
]
find-read_values k values (line ∷ lines) =
    let s = setting_of (trim_space line) in
    ap (λ t. find k (read_values (add_setting (setting_of t) values) lines))
      (trim_space-trim_suffix_byte line)
    ∙ find-read_values k (add_setting s values) lines
    ∙ ap (λ o. or_else o (find k (settings lines))) (find-add_setting k s values)
    ∙ or_else_assoc (find k values) (find k (entry_onto s [])) (find k (settings lines))
    ∙ ap (or_else (find k values)) (sym (find-entry_onto k s (settings lines)))

pub settings_tail :
    (line : Bytes) (a b : List Bytes)
    → settings a ≡ settings b
    → settings (line ∷ a) ≡ settings (line ∷ b)
unfolding settings
settings_tail line a b h = ap (entry_onto (setting_of (trim_space line))) h

settings_head :
    (a b : Bytes) (lines : List Bytes)
    → trim_space a ≡ trim_space b
    → settings (a ∷ lines) ≡ settings (b ∷ lines)
unfolding settings
settings_head a b lines h = ap (λ t. entry_onto (setting_of t) (settings lines)) h

-- The scanner changes no setting.
pub settings-drop_returns : (lines : List Bytes) → settings (drop_returns lines) ≡ settings lines
settings-drop_returns [] = refl
settings-drop_returns (line ∷ lines) =
    settings_head _ _ (drop_returns lines) (trim_space-trim_suffix_byte line)
    ∙ settings_tail line _ _ (settings-drop_returns lines)

pub settings_none : settings [] ≡ []
unfolding settings
settings_none = refl

pub settings_blank : settings ([] ∷ []) ≡ []
unfolding settings trim_space trim_left trim_right drop_spaces setting_of is_empty
settings_blank = refl

pub settings-drop_last_blank :
    (lines : List Bytes) → settings (drop_last_blank lines) ≡ settings lines
unfolding settings
settings-drop_last_blank [] = refl
settings-drop_last_blank ([] ∷ []) = sym settings_blank
settings-drop_last_blank ((c ∷ s) ∷ lines) =
    settings_tail (c ∷ s) _ _ (settings-drop_last_blank lines)
settings-drop_last_blank ([] ∷ line ∷ lines) =
    settings_tail [] _ (line ∷ lines) (settings-drop_last_blank (line ∷ lines))

both_eq : (c d : ℕ) → (c == 13 && d == 10) ≡ true → (c ≡ 13) × (d ≡ 10)
both_eq c d e = ground arith

-- A carriage return in front of a line end changes no setting.
split_from-replace_crlf :
    (acc s : Bytes) → settings (split_from acc (replace_crlf s)) ≡ settings (split_from acc s)
unfolding replace_crlf split_from
split_from-replace_crlf acc [] = refl
split_from-replace_crlf acc (c ∷ []) = refl
split_from-replace_crlf acc (c ∷ d ∷ s) = elim (Bool-cases (c == 13 && d == 10)) [
  | inl e ↦
      let (ec, ed) = both_eq c d e in
      rw (ec, ed)
        (settings_tail acc _ _ (split_from-replace_crlf [] s)
          ∙ settings_head acc (acc ++ (13 ∷ [])) (split_from [] s) (sym (trim_space-return acc)))
  | inr e ↦ elim (Bool-cases (c == 10)) [
    | inl n ↦ rw (e, n, split_from) (settings_tail acc _ _ (split_from-replace_crlf [] (d ∷ s)))
    | inr n ↦ rw (e, n, split_from) (split_from-replace_crlf (acc ++ (c ∷ [])) (d ∷ s))
  ]
]

pub settings-replace_crlf :
    (s : Bytes) → settings (split_lines (replace_crlf s)) ≡ settings (split_lines s)
unfolding split_lines
settings-replace_crlf s = split_from-replace_crlf [] s

-- The lines that a newline of one or two bytes joins and ends are found again.
pub data IsNewline : Bytes → Type 0 where
  lf : IsNewline (10 ∷ [])
  crlf : IsNewline (13 ∷ 10 ∷ [])

pub settings-ended :
    (newline line rest : Bytes)
    → IsNewline newline
    → All IsInside line
    → settings (split_lines (line ++ (newline ++ rest))) ≡ settings (line ∷ split_lines rest)
settings-ended newline line rest lf h = ap settings (split_lines-ended line rest h)
settings-ended newline line rest crlf h =
    ap (λ t. settings (split_lines t)) (sym (append_assoc line (13 ∷ []) (10 ∷ rest)))
    ∙ ap settings (
        split_lines-ended (line ++ (13 ∷ [])) rest
          (All-append IsInside line (13 ∷ []) h (refl, tt)))
    ∙ settings_head (line ++ (13 ∷ [])) line (split_lines rest) (trim_space-return line)

module _ (newline : Bytes) (n : IsNewline newline) (end : Bytes) where
  pub settings-join :
      (lines : List Bytes)
      → ((line : Bytes)
          → All IsInside line
          → settings (split_lines (line ++ end)) ≡ settings (line ∷ []))
      → All (All IsInside) lines
      → settings (split_lines (join newline lines ++ end)) ≡ settings lines
  unfolding join
  settings-join [] he h = he [] tt ∙ settings_blank ∙ sym settings_none
  settings-join (line ∷ []) he h = he line h.0
  settings-join (line ∷ next ∷ lines) he h =
      ap (λ t. settings (split_lines t))
        (append_assoc line (newline ++ join newline (next ∷ lines)) end
          ∙ ap (λ t. line ++ t) (append_assoc newline (join newline (next ∷ lines)) end))
      ∙ settings-ended newline line (join newline (next ∷ lines) ++ end) n h.0
      ∙ settings_tail line _ _ (settings-join (next ∷ lines) he h.1)
