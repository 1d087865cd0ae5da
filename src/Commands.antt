-- ===== src/Commands.antt =====
-- cmd/otherhost-pair/main.go: the choices and the texts of the command line. What is typed is an argument,
-- none where reading fails; `strings.ToLower` is a parameter, a table of Unicode.
pub mod DeviceName
use otherhost.Base.{
  ℕ, suc, zero, ◌+◌, ◌-◌, Bool, true, false, ◌||◌, List, [], ◌∷◌, ◌++◌, Option, none, some,
  if◌then◌else◌, ltb, ◌==◌, Bytes, bytes_eq, codes, length, take, drop, get_elem?, ℤ, pos, negsuc,
  Result, ok, err, ◌>>=◌, ◌>>◌, refuse_if, or_err,
}
use otherhost.Pairing.Discovery.{Device}
use otherhost.Pairing.Names.{is_allowed, is_empty}
use otherhost.Text.Numbers.{atoi}
use otherhost.Text.{trim_space}

pub data SelectFault : Type 0 where
  no_answer invalid_selection : SelectFault

-- Whether `selection < 1 || selection > count`, and the index of the selection otherwise.
unfoldable pub selected_index : ℤ → ℕ → Option ℕ
selected_index (pos zero) count = none
selected_index (pos (suc i)) count = if ltb count (suc i) then none else some i
selected_index (negsuc n) count = none

unfoldable pub ask_for_device : List Device → Option Bytes → Result SelectFault Device
unfolding selected_index
ask_for_device devices answer = do
  typed ← or_err answer no_answer
  selection ← or_err (atoi (trim_space typed)) invalid_selection
  index ← or_err (selected_index selection (length devices)) invalid_selection
  or_err (get_elem? devices index) invalid_selection

-- `selectDevice`, which asks unless there is one device.
unfoldable pub select_device : List Device → Option Bytes → Result SelectFault Device
unfolding ask_for_device
select_device [] answer = ask_for_device [] answer
select_device (d ∷ []) answer = ok d
select_device (d ∷ e ∷ devices) answer = ask_for_device (d ∷ e ∷ devices) answer

-- `promptYesNo`.
unfoldable pub prompt_yes_no : (Bytes → Bytes) → Option Bytes → Bool
prompt_yes_no to_lower none = false
prompt_yes_no to_lower (some answer) =
    let typed = to_lower (trim_space answer) in
    bytes_eq typed (codes "y") || bytes_eq typed (codes "yes")

unfoldable pub format_code : Bytes → Bytes
format_code code = if length code == 6 then take 3 code ++ (b' ' ∷ drop 3 code) else code

abbrev pub device_name_punctuation : Bytes
device_name_punctuation = codes "._ -"

abbrev pub portable_character : ℕ → ℕ
portable_character c = if is_allowed device_name_punctuation c then c else b'-'

-- The loop of `portableDeviceName` over the characters of a name, behind so many that are written.
unfoldable pub portable_characters : ℕ → List ℕ → Bytes
portable_characters written [] = []
portable_characters written (c ∷ value) =
    let rest = portable_characters (written + 1) value in
    portable_character c ∷ (if written + 1 == 64 then [] else rest)

unfoldable pub portable_device_name : List ℕ → Bytes
unfolding portable_characters
portable_device_name value =
    let cleaned = trim_space (portable_characters 0 value) in
    if is_empty cleaned then codes "Mac" else cleaned
