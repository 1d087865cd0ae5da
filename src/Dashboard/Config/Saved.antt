-- ===== src/Dashboard/Config/Saved.antt =====
-- A configuration that a pairing saves (internal/pairing/config.go), as the dashboard loads it.
use otherhost.Base.{
  or_blank, ◌≡◌, refl, sym, ap, ◌∙◌, inl, inr, Bool, true, false, List, [], ◌∷◌, ◌++◌, Option, none,
  some, arith, append-nil, Bytes, All, All-append, Bool-cases, Option-cases, bytes_eq, bytes_eq_iff,
  subst, codes, find,
}
use otherhost.Dashboard.Config.Entries.{
  IsNewline, crlf, lf, settings, settings-ended, settings-join, settings_blank, settings_none,
  settings_tail,
}
use otherhost.Pairing.Config.{
  Settings, bytes_contain, devbox_name, drop_blank, end_lines, is_unseen, key_of, mark,
  missing_lines, newline_of, put_value, saved_keys, setting_line, update_keyed, update_line,
  update_lines, updated_lines, updated_text, otherhost_name,
}
use otherhost.Text.Lines.Ended.{IsInside, split_lines-IsInside, split_lines-inside}
use otherhost.Text.Lines.{replace_crlf, split_lines}
use otherhost.Text.Parts.{has_suffix, join}
use otherhost.Text.{contains_any, contains_byte, trim_space}

split_lines_blank : split_lines [] ≡ [] ∷ []
split_lines_blank = split_lines-inside [] tt

settings_ended_line :
    (newline line : Bytes)
    → IsNewline newline
    → All IsInside line
    → settings (split_lines (line ++ newline)) ≡ settings (line ∷ [])
settings_ended_line newline line n h =
    ap (λ t. settings (split_lines (line ++ t))) (sym (append-nil newline))
    ∙ settings-ended newline line [] n h
    ∙ settings_tail line (split_lines []) []
        (ap settings split_lines_blank ∙ settings_blank ∙ sym settings_none)

settings-end_lines :
    (newline : Bytes) (lines : List Bytes)
    → IsNewline newline
    → All (All IsInside) lines
    → settings (split_lines (end_lines newline (join newline lines))) ≡ settings lines
settings-end_lines newline lines n h = elim (Bool-cases (has_suffix (join newline lines) newline)) [
  | inl e ↦ rw e (
      ap (λ t. settings (split_lines t)) (sym (append-nil (join newline lines)))
      ∙ settings-join newline n [] lines
          (λ line i. ap settings (ap split_lines (append-nil line) ∙ split_lines-inside line i)) h)
  | inr e ↦
      rw e
        (settings-join newline n newline lines (λ line i. settings_ended_line newline line n i) h)
]

newline_of-IsNewline : (content : Bytes) → IsNewline (newline_of content)
newline_of-IsNewline content = elim (Bool-cases (bytes_contain content (codes "\r\n"))) [
  | inl e ↦ rw e crlf
  | inr e ↦ rw e lf
]

pub contains_any-IsInside : (s : Bytes) → contains_any s (codes "\r\n") ≡ false → All IsInside s
unfolding contains_any contains_byte
contains_any-IsInside [] h = tt
contains_any-IsInside (c ∷ s) h = ground (arith, contains_any-IsInside s)

saved_keys-IsInside : All (All IsInside) saved_keys
unfolding contains_any contains_byte
saved_keys-IsInside = (
  contains_any-IsInside otherhost_name refl,
  (
    contains_any-IsInside (codes "host") refl,
    (
      contains_any-IsInside (codes "ssh_user") refl,
      (
        contains_any-IsInside (codes "ssh_port") refl,
        (contains_any-IsInside (codes "known_hosts_file") refl, tt),
      ),
    ),
  ),
)

-- A setting of one line: neither the key nor the value holds a line end.
abbrev pub IsOneLine : Bytes × Bytes → Type 0
IsOneLine (key, value) = All IsInside key × All IsInside value

first_found :
    (j key w value : Bytes) (values : Settings)
    → bytes_eq j key ≡ true
    → find key ((j, w) ∷ values) ≡ some value
    → w ≡ value
first_found j key w value values q e = ground arith

find-IsOneLine :
    (values : Settings) (key value : Bytes)
    → All IsOneLine values
    → find key values ≡ some value
    → IsOneLine (key, value)
find-IsOneLine [] key value h e = absurd (ground arith)
find-IsOneLine ((j, w) ∷ values) key value h e = elim (Bool-cases (bytes_eq j key)) [
  | inl q ↦
      subst (λ k. IsOneLine (k, value)) ((bytes_eq_iff j key).0 q)
        (subst (λ v. IsOneLine (j, v)) (first_found j key w value values q e) h.0)
  | inr q ↦ find-IsOneLine values key value h.1 (ground arith)
]

setting_line-IsInside :
    (key value : Bytes) → IsOneLine (key, value) → All IsInside (setting_line key value)
setting_line-IsInside key value h = All-append IsInside key (b'=' ∷ value) h.0 (refl, h.1)

module _ (values : Settings) (one : All IsOneLine values) where
  put_value-IsInside :
      (line key : Bytes) (o : Option Bytes)
      → find key values ≡ o
      → All IsInside line
      → All IsInside (put_value line key o).0
  put_value-IsInside line key none e h = h
  put_value-IsInside line key (some value) e h =
      setting_line-IsInside key value (find-IsOneLine values key value one e)

  update_keyed-IsInside :
      (line : Bytes) (o : Option Bytes)
      → All IsInside line
      → All IsInside (update_keyed values line o).0
  update_keyed-IsInside line none h = h
  update_keyed-IsInside line (some key) h = elim (Bool-cases (bytes_eq key devbox_name)) [
    | inl b ↦ rw b (put_value-IsInside line otherhost_name (find otherhost_name values) refl h)
    | inr b ↦ rw b (put_value-IsInside line key (find key values) refl h)
  ]

  update_lines-IsInside :
      (seen : List (Bytes × Bool)) (lines : List Bytes)
      → All (All IsInside) lines
      → All (All IsInside) (update_lines values seen lines).0
  unfolding update_lines update_line
  update_lines-IsInside seen [] h = tt
  update_lines-IsInside seen (line ∷ lines) h = (
    update_keyed-IsInside line (key_of (trim_space line)) h.0,
    update_lines-IsInside (mark (update_line values line).1 seen) lines h.1,
  )

  drop_blank-IsInside :
      (lines : List Bytes) → All (All IsInside) lines → All (All IsInside) (drop_blank lines)
  drop_blank-IsInside [] h = tt
  drop_blank-IsInside ([] ∷ []) h = tt
  drop_blank-IsInside ([] ∷ line ∷ lines) h = h
  drop_blank-IsInside ((c ∷ s) ∷ lines) h = h

  or_blank-IsInside : (key : Bytes) → All IsInside (or_blank (find key values))
  or_blank-IsInside key = elim (Option-cases (find key values)) [
    | inl e ↦ rw e tt
    | inr (v, e) ↦ rw e (find-IsOneLine values key v one e).1
  ]

  missing_lines-IsInside :
      (seen : List (Bytes × Bool)) (keys : List Bytes)
      → All (All IsInside) keys
      → All (All IsInside) (missing_lines values seen keys)
  unfolding missing_lines
  missing_lines-IsInside seen [] h = tt
  missing_lines-IsInside seen (key ∷ keys) h =
      let rest = missing_lines-IsInside seen keys h.1 in
      elim (Bool-cases (is_unseen (find key seen))) [
        | inl u ↦ rw u (setting_line-IsInside key _ (h.0, or_blank-IsInside key), rest)
        | inr u ↦ rw u rest
      ]

  updated_lines-IsInside :
      (lines : List Bytes)
      → All (All IsInside) lines
      → All (All IsInside) (updated_lines values lines)
  unfolding updated_lines
  updated_lines-IsInside lines h =
      let (changed, seen) = update_lines values [] lines in
      All-append (All IsInside) (drop_blank changed) (missing_lines values seen saved_keys)
        (drop_blank-IsInside changed (update_lines-IsInside [] lines h))
        (missing_lines-IsInside seen saved_keys saved_keys-IsInside)

  -- The settings of the text that is written are those of the updated lines.
  pub settings-updated_text :
      (content : Bytes)
      → settings (split_lines (updated_text values content))
        ≡ settings (updated_lines values (split_lines (replace_crlf content)))
  unfolding updated_text
  settings-updated_text content =
      let lines = split_lines (replace_crlf content) in
      settings-end_lines (newline_of content) (updated_lines values lines)
        (newline_of-IsNewline content)
        (updated_lines-IsInside lines (split_lines-IsInside (replace_crlf content)))
