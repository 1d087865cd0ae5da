-- ===== src/Dashboard/Config/Kept.antt =====
-- The lines that `updateKeyValueFile` appends, and the settings that it does not touch.
use otherhost.Base.{
  or_blank, ◌≡◌, ◌≢◌, refl, sym, ap, ◌∙◌, inl, inr, Bool, true, false, List, [], ◌∷◌, ◌++◌, Option,
  none, some, arith, Bytes, All, Bool-cases, Option-cases, any, bytes_eq, bytes_eq_iff, find,
  if◌then◌else◌,
}
use otherhost.Dashboard.Config.Entries.{or_else, or_else_assoc, settings, settings_blank}
use otherhost.Dashboard.Config.Updated.{
  AllReadBack, AllReadBack-find, IsReadBack, first_value, first_value-cons, of_some,
  saved_key-IsReadBack, update_lines-IsUpdated, value_in, value_in-IsReadBack, value_in-key_of,
}
use otherhost.Pairing.Config.{
  Settings, devbox_name, drop_blank, is_unseen, key_of, mark, missing_lines, otherhost_name,
  put_value, saved_keys, setting_line, update_keyed, update_line, update_lines, updated_lines,
}
use otherhost.Text.Trim.Kept.{trim_space_blank}
use otherhost.Text.{trim_space}

first_value-append :
    (k : Bytes) (a b : List Bytes)
    → first_value k (a ++ b) ≡ or_else (first_value k a) (first_value k b)
unfolding settings
first_value-append k [] b = refl
first_value-append k (line ∷ a) b =
    first_value-cons k line (a ++ b)
    ∙ ap (or_else (value_in k line)) (first_value-append k a b)
    ∙ sym (or_else_assoc (value_in k line) (first_value k a) (first_value k b))
    ∙ ap (λ o. or_else o (first_value k b)) (sym (first_value-cons k line a))

or_else-none : (o : Option Bytes) → or_else o none ≡ o
or_else-none none = refl
or_else-none (some v) = refl

first_value-setting_line :
    (k j v : Bytes) (rest : List Bytes)
    → IsReadBack j v
    → first_value k (setting_line j v ∷ rest)
      ≡ (if bytes_eq j k then some v else first_value k rest)
first_value-setting_line k j v rest b =
    first_value-cons k (setting_line j v) rest
    ∙ ap (λ o. or_else o (first_value k rest)) (value_in-IsReadBack k j v b)
    ∙ elim (Bool-cases (bytes_eq j k)) [ inl q ↦ rw q refl | inr q ↦ rw q refl ]

first_value-drop_blank :
    (k : Bytes) (lines : List Bytes) → first_value k (drop_blank lines) ≡ first_value k lines
unfolding settings
first_value-drop_blank k [] = refl
first_value-drop_blank k ([] ∷ []) = ap (find k) (sym settings_blank)
first_value-drop_blank k ([] ∷ line ∷ lines) = refl
first_value-drop_blank k ((c ∷ s) ∷ lines) = refl

module _ (values : Settings) (all_back : AllReadBack values) (k : Bytes) where
  IsReadBack-or_blank :
      (key : Bytes) → IsReadBack key [] → IsReadBack key (or_blank (find key values))
  IsReadBack-or_blank key blank = elim (Option-cases (find key values)) [
    | inl e ↦ rw e blank
    | inr (v, e) ↦ rw e (AllReadBack-find values key v all_back e)
  ]

  -- An unseen key is appended with its value.
  missing_lines-value :
      (v : Bytes) (seen : List (Bytes × Bool)) (keys : List Bytes)
      → All (λ key. IsReadBack key []) keys
      → find k seen ≡ none
      → find k values ≡ some v
      → any (λ j. bytes_eq j k) keys ≡ true
      → first_value k (missing_lines values seen keys) ≡ some v
  unfolding missing_lines
  missing_lines-value v seen [] b n e h = absurd (ground arith)
  missing_lines-value v seen (j ∷ keys) b n e h =
      let rest = missing_lines values seen keys in
      let line = first_value-setting_line k j _ rest (IsReadBack-or_blank j b.0) in
      elim (Bool-cases (bytes_eq j k)) [
        | inl q ↦
            let same = (bytes_eq_iff j k).0 q in
            rw (ap (λ i. find i seen) same ∙ n)
              (line ∙ rw q (ap (λ i. some (or_blank (find i values))) same ∙ rw e refl))
        | inr q ↦
            let later = missing_lines-value v seen keys b.1 n e (ground arith) in
            elim (Bool-cases (is_unseen (find j seen))) [
              | inl u ↦ rw u (line ∙ rw q later)
              | inr u ↦ rw u later
            ]
      ]

  missing_lines-other :
      (seen : List (Bytes × Bool)) (keys : List Bytes)
      → All (λ key. IsReadBack key []) keys
      → any (λ j. bytes_eq j k) keys ≡ false
      → first_value k (missing_lines values seen keys) ≡ none
  unfolding missing_lines settings
  missing_lines-other seen [] b h = refl
  missing_lines-other seen (j ∷ keys) b h =
      let rest = missing_lines values seen keys in
      let line = first_value-setting_line k j _ rest (IsReadBack-or_blank j b.0) in
      let later = missing_lines-other seen keys b.1 (ground arith) in
      elim (Bool-cases (is_unseen (find j seen))) [
        | inl u ↦ rw u (line ∙ ground arith)
        | inr u ↦ rw u later
      ]

  -- Behind an update, a key that is saved has its value.
  pub updated_lines-saved :
      (v : Bytes) (lines : List Bytes)
      → find k values ≡ some v
      → any (λ j. bytes_eq j k) saved_keys ≡ true
      → k ≢ devbox_name
      → first_value k (updated_lines values lines) ≡ some v
  unfolding updated_lines
  updated_lines-saved v lines e m d =
      let (changed, seen) = update_lines values [] lines in
      let blank = saved_key-IsReadBack [] trim_space_blank in
      first_value-append k (drop_blank changed) (missing_lines values seen saved_keys)
      ∙ ap (λ o. or_else o (first_value k (missing_lines values seen saved_keys)))
          (first_value-drop_blank k changed)
      ∙ elim (update_lines-IsUpdated values all_back k v [] lines e d refl) [
        | inl (p, q) ↦ rw p refl
        | inr (p, q) ↦ rw p (missing_lines-value v seen saved_keys blank q e m)
      ]

  module _ (absent : find k values ≡ none) (d : k ≢ devbox_name) where
    put_value-other :
        (line j i : Bytes) (o : Option Bytes)
        → find j values ≡ o
        → key_of (trim_space line) ≡ some i
        → i ≢ k
        → value_in k (put_value line j o).0 ≡ value_in k line
    put_value-other line j i none f q n = refl
    put_value-other line j i (some w) f q n =
        value_in-IsReadBack k j w (AllReadBack-find values j w all_back f)
        ∙ elim (Bool-cases (bytes_eq j k)) [
          | inl b ↦ let s = (bytes_eq_iff j k).0 b in cc
          | inr b ↦ rw b (sym (value_in-key_of k line (some i) q (λ r. n (of_some r))))
        ]

    update_keyed-other :
        (line : Bytes) (o : Option Bytes)
        → key_of (trim_space line) ≡ o
        → value_in k (update_keyed values line o).0 ≡ value_in k line
    update_keyed-other line none q = refl
    update_keyed-other line (some i) q = elim (Bool-cases (bytes_eq i devbox_name)) [
      | inl b ↦ rw b (
          put_value-other line otherhost_name i (find otherhost_name values) refl q
            (λ r. d (let s = (bytes_eq_iff i devbox_name).0 b in cc)))
      | inr b ↦ rw b (elim (Option-cases (find i values)) [
        | inl n ↦ rw n refl
        | inr (w, n) ↦ put_value-other line i i (find i values) refl q (λ r. cc)
      ])
    ]

    update_lines-other :
        (seen : List (Bytes × Bool)) (lines : List Bytes)
        → first_value k (update_lines values seen lines).0 ≡ first_value k lines
    unfolding update_lines update_line
    update_lines-other seen [] = refl
    update_lines-other seen (line ∷ lines) =
        let (changed, marked) = update_line values line in
        let rest = (update_lines values (mark marked seen) lines).0 in
        first_value-cons k changed rest
        ∙ ap (λ o. or_else o (first_value k rest))
            (update_keyed-other line (key_of (trim_space line)) refl)
        ∙ ap (or_else (value_in k line)) (update_lines-other (mark marked seen) lines)
        ∙ sym (first_value-cons k line lines)

    -- A key that is not saved keeps its value.
    pub updated_lines-other :
        (lines : List Bytes)
        → any (λ j. bytes_eq j k) saved_keys ≡ false
        → first_value k (updated_lines values lines) ≡ first_value k lines
    unfolding updated_lines
    updated_lines-other lines m =
        let (changed, seen) = update_lines values [] lines in
        let blank = saved_key-IsReadBack [] trim_space_blank in
        first_value-append k (drop_blank changed) (missing_lines values seen saved_keys)
        ∙ ap (or_else (first_value k (drop_blank changed)))
            (missing_lines-other seen saved_keys blank m)
        ∙ or_else-none (first_value k (drop_blank changed))
        ∙ first_value-drop_blank k changed
        ∙ update_lines-other [] lines
