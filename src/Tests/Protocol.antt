-- ===== src/Tests/Protocol.antt =====
-- The protocol's theorems at small inputs.
use otherhost.Base.{all, true, ◌≡◌, ◌%◌, refl, [], some, arith, All, length, codes, take, pos, ok}
use otherhost.Pairing.Keys.Code.{comparison_code_digits}
use otherhost.Pairing.Keys.Expand.{hkdf_expand-rfc_blocks, rfc_blocks}
use otherhost.Pairing.Keys.Sealing.{open_sealed-seal}
use otherhost.Pairing.Keys.{
  SessionKeys, comparison_code, encode, get_u32, hkdf_expand, open_sealed, seal,
}
use otherhost.Pairing.Messages.{HelloRequest, HelloResponse, PairPayload, payload_strings}
use otherhost.Pairing.Names.Sound.{IsCleanName, clean_device_name-IsCleanName}
use otherhost.Pairing.Names.{clean_device_name, is_allowed}
use otherhost.Tests.Toy.{toy, block, payload_json}
use otherhost.Text.Utf8.{valid_utf8}
use otherhost.Text.Decimal.{IsDigit, value_from}
use otherhost.Text.{trim_space}

abbrev keys : SessionKeys
keys = record {
  client_to_host = block 32 1;
  host_to_client = block 32 2;
  sas = block 32 3;
  transcript = block 32 4;
}

comparison_code_digits_example :
    let code = comparison_code toy keys in
    (length code ≡ 6)
    × All IsDigit code
    × (value_from 0 code ≡ get_u32 (take 4 (toy.hmac keys.sas keys.transcript)) % 1_000_000)
comparison_code_digits_example = comparison_code_digits toy keys

hkdf_expand-rfc_blocks_example :
    (hkdf_expand toy (codes "s") (codes "t") (codes "label") 50
      ≡ take 50 (rfc_blocks toy (toy.hmac (codes "t") (codes "s")) (codes "label") 255 1 []))
    × (length (hkdf_expand toy (codes "s") (codes "t") (codes "label") 50) ≡ 50)
hkdf_expand-rfc_blocks_example =
    hkdf_expand-rfc_blocks toy (codes "s") (codes "t") (codes "label") 50 (omega arith)

abbrev payload : PairPayload
payload = record { ssh_public_key = codes "key" }

sealed :
    seal toy payload_json (block 32 1) [] (some (block 12 9)) payload
    ≡ ok (encode (block 12 9), encode (codes "key"))
unfolding seal
sealed = refl

valid : all valid_utf8 (payload_strings payload) ≡ true
unfolding valid_utf8
valid = refl

open_sealed-seal_example :
    open_sealed toy payload_json (block 32 1) [] (encode (block 12 9)) (encode (codes "key"))
    ≡ ok payload
open_sealed-seal_example =
    open_sealed-seal toy payload_json (block 32 1) [] (block 12 9) payload (omega arith) refl valid
      sealed

cleaned : clean_device_name (codes " My Mac\t") ≡ ok (codes "My Mac")
unfolding clean_device_name trim_space is_allowed
cleaned = refl

clean_device_name-IsCleanName_example :
    IsCleanName (codes "My Mac") × (clean_device_name (codes "My Mac") ≡ ok (codes "My Mac"))
clean_device_name-IsCleanName_example = clean_device_name-IsCleanName (codes " My Mac\t") cleaned

abbrev request : HelloRequest
request = record {
  version = pos 1;
  instance_id = codes "i";
  client_name = codes "ab";
  client_public_key = codes "c";
  client_nonce = codes "n";
}

abbrev response : HelloResponse
response = record {
  session_id = codes "s";
  host_name = codes "h";
  host_public_key = codes "k";
  host_nonce = codes "m";
  expires_in = pos 120;
}

abbrev other_request : HelloRequest
other_request = record request { version = pos 7 }
