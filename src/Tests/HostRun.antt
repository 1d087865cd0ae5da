-- ===== src/Tests/HostRun.antt =====
-- One pairing, from hello to the installed key, and the theorems about hosts at it.
use otherhost.Base.{
  ◌+◌, ◌*◌, ◌^◌, ◌≤◌, ◌≡◌, ◌≢◌, refl, true, false, List, [], ◌∷◌, Option, none, some, Bytes, All,
  length, codes, bytes_eq, pos,
}
use otherhost.Pairing.Host.Approval.{run-needs_approval}
use otherhost.Pairing.Host.Authentic.{run-IsAuthentic}
use otherhost.Pairing.Host.Carried.{IsAmong, IsAuthentic}
use otherhost.Pairing.Host.Handlers.{
  Completion, HelloDraws, admit_hello, answer_hello, begin_confirm, complete_confirm, open_session,
}
use otherhost.Pairing.Host.Once.{held, run_installs_once}
use otherhost.Pairing.Host.Outcomes.{run-paired}
use otherhost.Pairing.Host.Rejection.{run-rejected}
use otherhost.Pairing.Host.World.{
  Event, hello, answer, confirm, decided, installs, completes, World, decision_of, run, start,
}
use otherhost.Pairing.Host.{
  HostOptions, HostSession, Request, post, paired, local_post, is_post, decode_json_body,
}
use otherhost.Pairing.Keys.{
  comparison_code, decode, derive_session_keys, encode, hkdf_expand, open_sealed, seal,
}
use otherhost.Pairing.Local.{ip4, is_local_network_ip}
use otherhost.Pairing.Messages.{ConfirmRequest}
use otherhost.Pairing.Names.{clean_device_name, is_allowed}
use otherhost.Pairing.Ssh.{first_two, normalize_ed25519_public_key, read_ssh_field}
use otherhost.Pairing.Transcript.{make_transcript, write_field, put_u32}
use otherhost.Text.Base64.{raw_decode, raw_encode, std_decode}
use otherhost.Text.Decimal.{itoa}
use otherhost.Text.Lines.{fields}
use otherhost.Text.{contains_any, trim_space, trim_suffix_byte, space_width}
use otherhost.Tests.Toy.{toy, block, payload_json, flag_json, result_json, marshal_result}

abbrev options : HostOptions
options = record {
  name = codes "forge";
  ssh_user = codes "dev";
  ssh_port = pos 2222;
  duration = 120 * 10 ^ 9;
}

abbrev mac_key : Bytes
mac_key = codes "ssh-ed25519 AAAAC3NzaC1lZDI1NTE5AAAAIAAAAAAAAAAAAAAAAAAAAAAAAAAAAAAAAAAAAAAAAAAA"

abbrev from_mac : {A : Type 0} → A → Request A
from_mac a = record { method = post; remote = ip4 10 0 0 7; body = some a; at_end = true }

abbrev draws : HelloDraws
draws = record {
  private_key = some (block 32 5);
  host_nonce = some (block 32 6);
  session_id = some (block 16 7);
}

-- 32 zero bytes in base64
abbrev zero_key : Bytes
zero_key = codes "AAAAAAAAAAAAAAAAAAAAAAAAAAAAAAAAAAAAAAAAAAA"

abbrev greeting : Event
greeting = hello draws 1000 true (
    from_mac (record {
      version = pos 1;
      instance_id = codes "i";
      client_name = codes " mac-1 ";
      client_public_key = zero_key;
      client_nonce = zero_key;
    }))

abbrev confirmation : ConfirmRequest
confirmation = record {
  session_id = codes "07070707070707070707070707070707";
  nonce = codes "AAAAAAAAAAAAAAAA";
  ciphertext =
      codes
        "c3NoLWVkMjU1MTkgQUFBQUMzTnphQzFsWkRJMU5URTVBQUFBSUFBQUFBQUFBQUFBQUFBQUFBQUFBQUFBQUFBQUFBQUFBQUFBQUFBQUFBQUE";
}

abbrev completion : Completion
completion = record {
  installs = true;
  host_key = some mac_key;
  nonce = some (block 12 0);
  writes = true;
  local_address = codes "10.0.0.2";
}

abbrev confirmed : Event
confirmed = confirm 2000 (from_mac confirmation)

abbrev pairing_run : List Event
pairing_run =
    greeting ∷ confirmed ∷ answer true ∷ decided 0 ∷ installs 0 completion ∷ completes 0 ∷ []

abbrev at_start : World
at_start = start options (codes "i")

abbrev after : List Event → World
after es = run toy payload_json result_json flag_json at_start es

after-pairing_run :
    ((after pairing_run).host.done ≡ some paired) × ((after pairing_run).installed ≡ mac_key ∷ [])
unfolding run start answer_hello admit_hello open_session begin_confirm complete_confirm local_post
    is_post decode_json_body is_local_network_ip clean_device_name is_allowed decode encode
    derive_session_keys hkdf_expand comparison_code make_transcript write_field put_u32 itoa
    raw_decode raw_encode open_sealed seal marshal_result normalize_ed25519_public_key first_two
    read_ssh_field std_decode fields contains_any trim_space trim_suffix_byte space_width bytes_eq
after-pairing_run = (refl, refl)

run_installs_once_example :
    length (after pairing_run).prompts
      + held (decision_of (after pairing_run).host.session)
      + length (after pairing_run).approved
      + length (after pairing_run).installed
    ≤ 1
run_installs_once_example =
    run_installs_once toy payload_json result_json flag_json options (codes "i") pairing_run

run-paired_example :
    (length (after pairing_run).installed ≡ 1)
    × ((after pairing_run).prompts ≡ [])
    × (decision_of (after pairing_run).host.session ≡ none)
run-paired_example =
    run-paired toy payload_json result_json flag_json options (codes "i") pairing_run
      after-pairing_run.0

run-needs_approval_example : (after (greeting ∷ confirmed ∷ answer false ∷ [])).installed ≡ []
run-needs_approval_example =
    run-needs_approval toy payload_json result_json flag_json options (codes "i")
      (greeting ∷ confirmed ∷ answer false ∷ []) refl

after-greeting : (after (greeting ∷ confirmed ∷ [])).prompts ≢ []
unfolding run start answer_hello admit_hello open_session begin_confirm local_post is_post
    decode_json_body is_local_network_ip clean_device_name is_allowed decode encode
    derive_session_keys hkdf_expand comparison_code make_transcript write_field put_u32 itoa
    raw_decode raw_encode open_sealed normalize_ed25519_public_key first_two read_ssh_field
    std_decode fields contains_any trim_space trim_suffix_byte space_width bytes_eq
after-greeting h = cc

run-rejected_example :
    let w =
      run toy payload_json result_json flag_json
        (after (greeting ∷ confirmed ∷ []))
        (answer false ∷ decided 0 ∷ installs 0 completion ∷ completes 0 ∷ []) in
    (w.installed ≡ []) × (w.host.done ≢ some paired)
run-rejected_example =
    run-rejected toy payload_json result_json flag_json options (codes "i")
      (greeting ∷ confirmed ∷ []) (decided 0 ∷ installs 0 completion ∷ completes 0 ∷ [])
      after-greeting

no_session : HostSession
no_session = record {
  id = [];
  request = record {
    version = pos 0;
    instance_id = [];
    client_name = [];
    client_public_key = [];
    client_nonce = [];
  };
  response = record {
    session_id = [];
    host_name = [];
    host_public_key = [];
    host_nonce = [];
    expires_in = pos 0;
  };
  keys = record { client_to_host = []; host_to_client = []; sas = []; transcript = [] };
  code = [];
  decision = none;
  expires = 0;
}

session_or : HostSession → Option HostSession → HostSession
session_or s none = s
session_or _ (some s) = s

-- The session of the run above.
final_session : HostSession
unfolding session_or no_session
final_session = session_or no_session (after pairing_run).host.session

pairing_run-session : (after pairing_run).host.session ≡ some final_session
unfolding final_session session_or run start answer_hello admit_hello open_session begin_confirm
    complete_confirm local_post is_post decode_json_body is_local_network_ip clean_device_name
    is_allowed decode encode derive_session_keys hkdf_expand comparison_code make_transcript
    write_field put_u32 itoa raw_decode raw_encode open_sealed seal marshal_result
    normalize_ed25519_public_key first_two read_ssh_field std_decode fields contains_any trim_space
    trim_suffix_byte space_width bytes_eq
pairing_run-session = refl

run-IsAuthentic_example :
    All
      (IsAuthentic toy payload_json (IsAmong pairing_run) final_session.id final_session.keys)
      (after pairing_run).installed
run-IsAuthentic_example =
    run-IsAuthentic toy payload_json result_json flag_json options (codes "i") pairing_run
      final_session pairing_run-session
