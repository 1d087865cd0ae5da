-- ===== src/Tests/Completed.antt =====
-- A pairing of the test client and the test host that nothing disturbs.
use otherhost.Base.{
  all, ◌/◌, ◌^◌, ◌≡◌, refl, none, true, false, [], ◌∷◌, some, arith, Bytes, bytes_eq, codes, ok,
  pos,
}
use otherhost.Pairing.Client.{
  ClientSession, accept_hello, accept_result, confirm_pairing, is_no_ip, valid_expiry,
}
use otherhost.Pairing.Exchange.Answered.{drawn, posted}
use otherhost.Pairing.Exchange.Complete.{run_completes_pairing, undisturbed}
use otherhost.Pairing.Exchange.Run.{idle, in_session, pairing_events}
use otherhost.Pairing.Host.Handlers.{answer_hello, complete_confirm, pair_result}
use otherhost.Pairing.Host.World.{run, start}
use otherhost.Pairing.Host.{HostSession, Response, paired}
use otherhost.Pairing.Keys.{get_u32}
use otherhost.Pairing.Local.{Ip, ip4, is_local_network_ip}
use otherhost.Pairing.Messages.{ConfirmRequest, ConfirmResponse}
use otherhost.Pairing.Names.{clean_device_name, is_allowed, is_empty, valid_identifier, valid_port}
use otherhost.Pairing.Ssh.{first_two, normalize_ed25519_public_key, read_ssh_field}
use otherhost.Tests.Meeting.{greeted, greeting, host, options, parse_ip}
use otherhost.Tests.Toy.{
  block, block-IsByte, flag_json, length-block, marshal_result, payload_json, result_json,
  sent_result, toy,
}
use otherhost.Text.Base64.{std_decode}
use otherhost.Text.Lines.{fields}
use otherhost.Text.Utf8.{valid_utf8}
use otherhost.Text.{contains_any, space_width, trim_space, trim_suffix_byte}

abbrev key : Bytes
key = sent_result.ssh_host_key

abbrev mac_ip : Ip
mac_ip = ip4 10 0 0 7

local_mac : is_local_network_ip mac_ip ≡ true
unfolding is_local_network_ip
local_mac = refl

clean_forge : clean_device_name (codes "forge") ≡ ok (codes "forge")
unfolding clean_device_name is_allowed is_empty trim_space bytes_eq
clean_forge = refl

marshalled_result :
    marshal_result
      (pair_result toy result_json (idle host.options (codes "i")) (codes "10.0.0.2") key)
    ≡ some (b'r' ∷ [])
unfolding pair_result marshal_result
marshalled_result = refl

host_address :
    (is_no_ip (parse_ip (codes "10.0.0.2")) ≡ false)
    × (is_local_network_ip (parse_ip (codes "10.0.0.2")) ≡ true)
unfolding is_no_ip is_local_network_ip
host_address = (refl, refl)

host_account : (valid_identifier (codes "dev") ≡ true) × (valid_port (pos 2222) ≡ true)
unfolding valid_identifier valid_port is_allowed is_empty
host_account = (refl, refl)

normal_key : normalize_ed25519_public_key key ≡ ok key
unfolding normalize_ed25519_public_key first_two get_u32 read_ssh_field std_decode fields
    contains_any space_width trim_suffix_byte bytes_eq
normal_key = refl

valid_window : valid_expiry (pos (host.options.duration / 10 ^ 9)) ≡ true
unfolding valid_expiry
valid_window = refl

texts : all valid_utf8 (codes "10.0.0.2" ∷ key ∷ []) ≡ true
unfolding valid_utf8
texts = refl

run_completes_pairing_example :
    let given =
      pair_result toy result_json (idle host.options (codes "i")) (codes "10.0.0.2") key in
    let c = undisturbed key (block 12 9) (codes "10.0.0.2") in
    let draws = drawn (block 32 5) (block 32 6) (block 16 7) in
    (s : HostSession) × (session : ClientSession) × (q : ConfirmRequest) × (a : ConfirmResponse)
    × (answer_hello toy (idle host.options (codes "i")) draws 1000 (posted mac_ip greeting.hello)
        ≡ ok s)
    × (accept_hello toy greeting s.response ≡ ok session)
    × (session.code ≡ s.code)
    × (confirm_pairing toy payload_json greeting session (some (block 12 8)) ≡ ok q)
    × (let w = run toy payload_json result_json flag_json (start host.options (codes "i")) (
          pairing_events false draws 1000
            (posted mac_ip greeting.hello)
            2000
            (posted mac_ip q)
            c) in
        (w.host.done ≡ some paired) × (w.installed ≡ key ∷ []))
    × ((complete_confirm toy result_json
          (in_session host.options (codes "i") (record s { decision = none }))
          s.keys
          c).1
        ≡ Response.confirmed a)
    × (accept_result toy result_json parse_ip session a ≡ ok (record given { ssh_host_key = key }))
run_completes_pairing_example =
    run_completes_pairing toy payload_json result_json flag_json parse_ip false options greeting
      host.options 1000 2000 mac_ip (block 32 3) (block 32 4) (block 32 5) (block 32 6) (block 16 7)
      (block 32 0) (block 12 8) key (block 12 9) (b'r' ∷ []) (codes "10.0.0.2") key key greeted
      (block-IsByte 32 4 (omega arith), length-block 32 4)
      (block-IsByte 32 6 (omega arith), length-block 32 6) (length-block 16 7)
      (block-IsByte 12 8 (omega arith), length-block 12 8)
      (block-IsByte 12 9 (omega arith), length-block 12 9) refl local_mac (clean_forge, clean_forge)
      valid_window (omega arith) refl marshalled_result host_address host_account normal_key texts
