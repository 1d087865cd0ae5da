-- ===== src/Dashboard/Config/Paired.antt =====
-- A pairing that was saved is loaded by the dashboard under the same name, host, user and port.
use otherhost.Base.{
  suc, ◌≡◌, ◌≢◌, refl, ap, ◌∙◌, true, false, List, [], ◌∷◌, none, some, arith, Bytes, All, any,
  bytes_eq, codes, find, ℤ, pos, negsuc,
}
use otherhost.Dashboard.Config.Entries.{
  find-read_values, settings, settings-drop_last_blank, settings-drop_returns,
  settings-replace_crlf,
}
use otherhost.Dashboard.Config.Kept.{updated_lines-other, updated_lines-saved}
use otherhost.Dashboard.Config.Saved.{IsOneLine, contains_any-IsInside, settings-updated_text}
use otherhost.Dashboard.Config.Updated.{AllReadBack, first_value, saved_key-IsReadBack}
use otherhost.Dashboard.Config.{drop_last_blank, drop_returns, read_values, scan_lines}
use otherhost.Pairing.Config.{
  is_invalid_setting, saved_settings, saved_keys, updated_text, updated_lines, devbox_name,
}
use otherhost.Pairing.Messages.{PairResult}
use otherhost.Text.Decimal.{IsDigit, itoa, itoa_ℕ-IsDigit}
use otherhost.Text.Lines.Ended.{IsInside}
use otherhost.Text.Lines.{replace_crlf, split_lines}
use otherhost.Text.Trim.Kept.{trim_space-All}
use otherhost.Text.{IsVisible, contains_any, contains_byte, trim_space}

scanned :
    (text : Bytes) (lines : List Bytes)
    → scan_lines text ≡ some lines
    → lines ≡ drop_returns (drop_last_blank (split_lines text))
unfolding scan_lines
scanned text lines e = ground arith

-- What the scanner hands on has the settings of the text.
first_value-scan_lines :
    (key text : Bytes) (lines : List Bytes)
    → scan_lines text ≡ some lines
    → find key (read_values [] lines) ≡ first_value key (split_lines text)
first_value-scan_lines key text lines e =
    let split = split_lines text in
    find-read_values key [] lines
    ∙ ap (find key) (
        ap settings (scanned text lines e)
        ∙ settings-drop_returns (drop_last_blank split)
        ∙ settings-drop_last_blank split)

-- The values of a pairing are trimmed: the port is, and each of the others.
pub record IsTrimmed (path : Bytes) (result : PairResult) : Type 0 where
  pub name : trim_space result.otherhost_name ≡ result.otherhost_name
  pub host : trim_space result.host ≡ result.host
  pub user : trim_space result.ssh_user ≡ result.ssh_user
  pub hosts_path : trim_space path ≡ path

IsDigit-IsVisible : (s : Bytes) → All IsDigit s → All IsVisible s
IsDigit-IsVisible [] h = tt
IsDigit-IsVisible (c ∷ s) h = ground (arith, IsDigit-IsVisible s)

trim_space-itoa : (port : ℤ) → trim_space (itoa port) ≡ itoa port
unfolding itoa
trim_space-itoa (pos n) = trim_space-All _ (IsDigit-IsVisible _ (itoa_ℕ-IsDigit n))
trim_space-itoa (negsuc n) = trim_space-All _ (refl, IsDigit-IsVisible _ (itoa_ℕ-IsDigit (suc n)))

saved_settings-AllReadBack :
    (path : Bytes) (result : PairResult)
    → IsTrimmed path result
    → AllReadBack (saved_settings path result)
saved_settings-AllReadBack path result t =
    let port = saved_key-IsReadBack (itoa result.ssh_port) (trim_space-itoa result.ssh_port) in
    (
      (saved_key-IsReadBack result.otherhost_name t.name).0,
      (
        (saved_key-IsReadBack result.host t.host).1.0,
        (
          (saved_key-IsReadBack result.ssh_user t.user).1.1.0,
          (port.1.1.1.0, ((saved_key-IsReadBack path t.hosts_path).1.1.1.1.0, tt)),
        ),
      ),
    )

key_in_line : (s : Bytes) → contains_any s (codes "=\r\n") ≡ false → All IsInside s
unfolding contains_any contains_byte
key_in_line [] h = tt
key_in_line (c ∷ s) h = ground (arith, key_in_line s)

valid_setting-IsOneLine :
    (values : List (Bytes × Bytes)) → any is_invalid_setting values ≡ false → All IsOneLine values
unfolding is_invalid_setting
valid_setting-IsOneLine [] h = tt
valid_setting-IsOneLine ((key, value) ∷ values) h = (
  (key_in_line key (ground arith), contains_any-IsInside value (ground arith)),
  valid_setting-IsOneLine values (ground arith),
)

-- The values that the dashboard reads behind an update of a text.
module _ (path content : Bytes) (result : PairResult) (lines : List Bytes)
    (trimmed : IsTrimmed path result)
    (valid : any is_invalid_setting (saved_settings path result) ≡ false)
    (scans : scan_lines (updated_text (saved_settings path result) content) ≡ some lines) where
  read_values-first :
      (key : Bytes)
      → find key (read_values [] lines)
        ≡ first_value key
            (updated_lines (saved_settings path result) (split_lines (replace_crlf content)))
  read_values-first key =
      let values = saved_settings path result in
      first_value-scan_lines key (updated_text values content) lines scans
      ∙ ap (find key) (settings-updated_text values (valid_setting-IsOneLine values valid) content)

  pub read_values-saved :
      (key value : Bytes)
      → find key (saved_settings path result) ≡ some value
      → any (λ j. bytes_eq j key) saved_keys ≡ true
      → key ≢ devbox_name
      → find key (read_values [] lines) ≡ some value
  read_values-saved key value e m d =
      read_values-first key
      ∙ updated_lines-saved (saved_settings path result)
          (saved_settings-AllReadBack path result trimmed) key value
          (split_lines (replace_crlf content)) e m d

  pub read_values-other :
      (key : Bytes)
      → find key (saved_settings path result) ≡ none
      → any (λ j. bytes_eq j key) saved_keys ≡ false
      → key ≢ devbox_name
      → find key (read_values [] lines) ≡ first_value key (split_lines content)
  read_values-other key e m d =
      read_values-first key
      ∙ updated_lines-other (saved_settings path result)
          (saved_settings-AllReadBack path result trimmed) key e d
          (split_lines (replace_crlf content)) m
      ∙ ap (find key) (settings-replace_crlf content)
