-- ===== src/Tests/Meeting.antt =====
-- A client and a host that meet: the hello, its answer, and the result.
use otherhost.Base.{◌*◌, ◌^◌, ◌≡◌, refl, true, none, some, ok, Bytes, bytes_eq, codes, pos}
use otherhost.Pairing.Client.Agreement.{accept_hello-answer_hello}
use otherhost.Pairing.Client.Trust.{accept_result-IsKeyLine}
use otherhost.Pairing.Client.{
  ClientOptions, ClientSession, Greeting, accept_hello, accept_result, greet, is_no_ip,
  valid_expiry,
}
use otherhost.Pairing.Host.Handlers.{
  HelloDraws, admit_hello, answer_hello, is_version, open_session,
}
use otherhost.Pairing.Host.{
  HostSession, PairingHost, Request, decode_json_body, is_post, local_post, post,
}
use otherhost.Pairing.Install.KeyLine.{IsKeyLine}
use otherhost.Pairing.Keys.{decode, derive_session_keys, encode, get_u32, open_sealed}
use otherhost.Pairing.Local.{Ip, ip4, is_local_network_ip}
use otherhost.Pairing.Messages.{ConfirmResponse, HelloRequest, PairResult}
use otherhost.Pairing.Names.{clean_device_name, is_allowed, is_empty, valid_identifier, valid_port}
use otherhost.Pairing.Ssh.{first_two, normalize_ed25519_public_key, read_ssh_field}
use otherhost.Tests.Toy.{block, result_json, sent_result, toy}
use otherhost.Text.Base64.{raw_decode, raw_encode, std_decode}
use otherhost.Text.Lines.{fields}
use otherhost.Text.{contains_any, space_width, trim_space, trim_suffix_byte}

abbrev pub options : ClientOptions
options = record {
  device = record {
    instance_id = codes "i";
    name = codes "forge";
    address = ip4 10 0 0 2;
    port = pos 25371;
  };
  client_name = codes " mac-1 ";
  ssh_public_key = sent_result.ssh_host_key;
  has_confirm = true;
}

abbrev pub greeting : Greeting
greeting = record {
  hello = record {
    version = pos 1;
    instance_id = codes "i";
    client_name = codes "mac-1";
    client_public_key = encode (toy.public_key (block 32 3));
    client_nonce = encode (block 32 4);
  };
  host_name = codes "forge";
  private_key = block 32 3;
  public_key = sent_result.ssh_host_key;
}

pub greeted : greet toy options (some (block 32 3)) (some (block 32 4)) ≡ ok greeting
unfolding greet is_no_ip clean_device_name is_allowed is_empty valid_port trim_space
    normalize_ed25519_public_key first_two get_u32 read_ssh_field std_decode fields contains_any
    space_width trim_suffix_byte bytes_eq
greeted = refl

abbrev pub host : PairingHost
host = record {
  options = record {
    name = codes "forge";
    ssh_user = codes "dev";
    ssh_port = pos 2222;
    duration = 120 * 10 ^ 9;
  };
  instance_id = codes "i";
  session = none;
  done = none;
}

abbrev draws : HelloDraws
draws = record {
  private_key = some (block 32 5);
  host_nonce = some (block 32 6);
  session_id = some (block 16 7);
}

abbrev sent : Request HelloRequest
sent = record { method = post; remote = ip4 10 0 0 7; body = some greeting.hello; at_end = true }

-- The session that the host opens, and what the client makes of the host's answer.
opens_session : (s : HostSession) × (answer_hello toy host draws 1000 sent ≡ ok s)
unfolding answer_hello admit_hello open_session local_post is_post decode_json_body
    is_local_network_ip is_version clean_device_name is_allowed is_empty decode encode
    derive_session_keys raw_decode raw_encode trim_space bytes_eq
opens_session = (_, refl)

accepts_answer : (c : ClientSession) × (accept_hello toy greeting opens_session.0.response ≡ ok c)
unfolding opens_session accept_hello valid_expiry clean_device_name is_allowed is_empty decode
    encode raw_decode raw_encode derive_session_keys trim_space bytes_eq
accepts_answer = (_, refl)

accept_hello-answer_hello_example :
    (accepts_answer.0.keys ≡ opens_session.0.keys) × (accepts_answer.0.code ≡ opens_session.0.code)
accept_hello-answer_hello_example =
    accept_hello-answer_hello toy options (some (block 32 3)) (some (block 32 4)) greeting host
      draws 1000 sent opens_session.0 accepts_answer.0 greeted refl opens_session.1 accepts_answer.1

abbrev pub parse_ip : Bytes → Ip
parse_ip text = ip4 10 0 0 2

abbrev answer : ConfirmResponse
answer = record { nonce = codes "AAAAAAAAAAAAAAAA"; ciphertext = codes "cg" }

accepts_result : accept_result toy result_json parse_ip accepts_answer.0 answer ≡ ok sent_result
unfolding accepts_answer opens_session accept_result is_no_ip is_local_network_ip open_sealed decode
    raw_decode clean_device_name is_allowed is_empty valid_identifier valid_port
    normalize_ed25519_public_key first_two get_u32 read_ssh_field std_decode fields contains_any
    space_width trim_space trim_suffix_byte bytes_eq
accepts_result = refl

accept_result-IsKeyLine_example :
    (sent_result.otherhost_name ≡ accepts_answer.0.response.host_name)
    × (is_local_network_ip (parse_ip sent_result.host) ≡ true)
    × (valid_identifier sent_result.ssh_user ≡ true)
    × (valid_port sent_result.ssh_port ≡ true)
    × IsKeyLine sent_result.ssh_host_key
    × ((given : PairResult) × (open_sealed toy result_json accepts_answer.0.keys.host_to_client
            accepts_answer.0.keys.transcript answer.nonce answer.ciphertext
          ≡ ok given)
        × (normalize_ed25519_public_key given.ssh_host_key ≡ ok sent_result.ssh_host_key)
        × (sent_result ≡ record given { ssh_host_key = sent_result.ssh_host_key }))
accept_result-IsKeyLine_example =
    accept_result-IsKeyLine toy result_json parse_ip accepts_answer.0 answer sent_result
      accepts_result
