-- ===== src/Tests/Typed.antt =====
-- What is typed and shown by the command line.
use otherhost.Base.{
  ℕ, ◌≡◌, refl, true, List, [], ◌∷◌, none, some, Bytes, bytes_eq, codes, ok, err, pos,
}
use otherhost.Commands.DeviceName.{clean_device_name-portable_device_name}
use otherhost.Commands.{
  format_code, invalid_selection, portable_device_name, prompt_yes_no, select_device,
}
use otherhost.Pairing.Discovery.{Device}
use otherhost.Pairing.Local.{ip4}
use otherhost.Pairing.Names.{clean_device_name, is_allowed, is_empty}
use otherhost.Text.Numbers.{atoi}
use otherhost.Text.{trim_space}

abbrev device : Bytes → Device
device name = record {
  instance_id = codes "i";
  name = name;
  address = ip4 10 0 0 2;
  port = pos 25371;
}

abbrev listed : List Device
listed = device (codes "forge") ∷ device (codes "anvil") ∷ []

selects_second : select_device listed (some (codes " 2\n")) ≡ ok (device (codes "anvil"))
unfolding select_device atoi trim_space
selects_second = refl

refuses_third : select_device listed (some (codes "3\n")) ≡ err invalid_selection
unfolding select_device atoi trim_space
refuses_third = refl

takes_only_device : select_device (device (codes "forge") ∷ []) none ≡ ok (device (codes "forge"))
unfolding select_device
takes_only_device = refl

accepts_yes : prompt_yes_no (λ s. s) (some (codes "yes\r\n")) ≡ true
unfolding prompt_yes_no trim_space bytes_eq
accepts_yes = refl

shows_code : format_code (codes "012345") ≡ codes "012 345"
unfolding format_code
shows_code = refl

-- "Zoë's Mac", as its characters.
abbrev host_name : List ℕ
host_name = b'Z' ∷ b'o' ∷ 235 ∷ b'\'' ∷ codes "s Mac"

portable_host_name : portable_device_name host_name ≡ codes "Zo--s Mac"
unfolding portable_device_name is_allowed is_empty trim_space
portable_host_name = refl

clean_device_name-portable_device_name_example :
    clean_device_name (portable_device_name host_name) ≡ ok (portable_device_name host_name)
clean_device_name-portable_device_name_example = clean_device_name-portable_device_name host_name
