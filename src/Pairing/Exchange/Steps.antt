-- ===== src/Pairing/Exchange/Steps.antt =====
-- What each step of a pairing comes to, when nothing is in its way.
use otherhost.Base.{
  List, ℕ, ◌≤◌, ◌≡◌, refl, true, false, some, none, arith, Bytes, bytes_eq_refl, ok, ok_of_bind,
}
use otherhost.Pairing.Client.{
  ClientSession, Greeting, accept_hello, accept_result, confirm_pairing, is_no_ip,
}
use otherhost.Pairing.Crypto.{Crypto, Json}
use otherhost.Pairing.Host.Handlers.{
  Completion, HelloDraws, admit_hello, answer_hello, begin_confirm, complete_confirm,
  current_session, open_session, pair_result,
}
use otherhost.Pairing.Host.{
  HostSession, PairingHost, Request, Response, decode_json_body, local_post, paired,
}
use otherhost.Pairing.Keys.{SessionKeys, open_sealed, seal}
use otherhost.Pairing.Local.{Ip, is_local_network_ip}
use otherhost.Pairing.Messages.{
  result_strings, payload_strings, ConfirmRequest, ConfirmResponse, HelloRequest, PairPayload,
  PairResult,
}
use otherhost.Pairing.Names.{clean_device_name, valid_identifier, valid_port}
use otherhost.Pairing.Ssh.{normalize_ed25519_public_key}

module _ (crypto : Crypto) where
  pub accept_hello-response :
      (g : Greeting) (response : _) (c : ClientSession)
      → accept_hello crypto g response ≡ ok c
      → c.response ≡ response
  unfolding accept_hello
  accept_hello-response g response c e = ground arith

  open_session-opened :
      (host : PairingHost) (d : HelloDraws) (now : ℕ) (q : HelloRequest) (key : Bytes)
      (s : HostSession)
      → open_session crypto host d now q key ≡ ok s
      → (s.response.session_id ≡ s.id)
        × (s.response.host_name ≡ host.options.name)
        × (s.decision ≡ none)
  unfolding open_session
  open_session-opened host d now q key s e = ground arith

  pub answer_hello-opened :
      (host : PairingHost) (d : HelloDraws) (now : ℕ) (r : Request HelloRequest) (s : HostSession)
      → answer_hello crypto host d now r ≡ ok s
      → (s.response.session_id ≡ s.id)
        × (s.response.host_name ≡ host.options.name)
        × (s.decision ≡ none)
  unfolding answer_hello
  answer_hello-opened host d now r s e =
      let (a, admitted, opened) =
        ok_of_bind (λ a. open_session crypto host d now a.0 a.1) (admit_hello crypto host r) e in
      open_session-opened host d now a.0 a.1 s opened

  module _ (payloads : Json PairPayload payload_strings) where
    -- What a client seals in its confirmation.
    pub confirm_pairing-sealed :
        (g : Greeting) (c : ClientSession) (nonce : Bytes) (q : ConfirmRequest)
        → confirm_pairing crypto payloads g c (some nonce) ≡ ok q
        → (q.session_id ≡ c.response.session_id)
          × (seal crypto payloads c.keys.client_to_host c.keys.transcript
                (some nonce)
                (record { ssh_public_key = g.public_key })
              ≡ ok (q.nonce, q.ciphertext))
    unfolding confirm_pairing
    confirm_pairing-sealed g c nonce q e = ground arith

    pub begin_confirm-opened :
        (host : PairingHost) (now : ℕ) (r : Request ConfirmRequest) (q : ConfirmRequest)
        (s : HostSession) (key : Bytes)
        → local_post r ≡ true
        → r.body ≡ some q
        → r.at_end ≡ true
        → current_session host q.session_id ≡ some s
        → now ≤ s.expires
        → open_sealed crypto payloads s.keys.client_to_host s.keys.transcript q.nonce q.ciphertext
          ≡ ok (record { ssh_public_key = key })
        → normalize_ed25519_public_key key ≡ ok key
        → begin_confirm crypto payloads host now r ≡ ok (key, s)
    unfolding begin_confirm decode_json_body
    begin_confirm-opened host now r q s key l b a c t o n = ground arith

module _ (crypto : Crypto) (results : Json PairResult result_strings) where
  -- A completion where nothing fails.
  pub complete_confirm-paired :
      (host : PairingHost) (keys : SessionKeys) (c : Completion) (host_key nonce ciphertext : Bytes)
      → c.installs ≡ true
      → c.writes ≡ true
      → c.host_key ≡ some host_key
      → seal crypto results keys.host_to_client keys.transcript c.nonce
          (pair_result crypto results host c.local_address host_key)
        ≡ ok (nonce, ciphertext)
      → complete_confirm crypto results host keys c
        ≡ (paired, Response.confirmed (record { nonce = nonce; ciphertext = ciphertext }))
  unfolding complete_confirm
  complete_confirm-paired host keys c host_key nonce ciphertext i w h s = ground arith

  pub accept_result-opened :
      (parse_ip : Bytes → Ip) (c : ClientSession) (q : ConfirmResponse) (r : PairResult)
      (name host_key : Bytes)
      → open_sealed crypto results c.keys.host_to_client c.keys.transcript q.nonce q.ciphertext
        ≡ ok r
      → clean_device_name r.otherhost_name ≡ ok name
      → r.otherhost_name ≡ c.response.host_name
      → is_no_ip (parse_ip r.host) ≡ false
      → is_local_network_ip (parse_ip r.host) ≡ true
      → valid_identifier r.ssh_user ≡ true
      → valid_port r.ssh_port ≡ true
      → normalize_ed25519_public_key r.ssh_host_key ≡ ok host_key
      → accept_result crypto results parse_ip c q ≡ ok (record r { ssh_host_key = host_key })
  unfolding accept_result
  accept_result-opened parse_ip c q r name host_key o n same given local user port key =
      ground (arith, bytes_eq_refl r.otherhost_name)

module _ (crypto : Crypto) {A : Type 0} {strings : A → List Bytes} (json : Json A strings) where
  pub seal-sealed :
      (key ad nonce text : Bytes) (value : A)
      → json.marshal value ≡ some text
      → crypto.accepts_key key ≡ true
      → (m : Bytes × Bytes) × (seal crypto json key ad (some nonce) value ≡ ok m)
  unfolding seal
  seal-sealed key ad nonce text value m a = rw (m, a) (_, refl)

pub confirm_pairing-sent :
    (crypto : Crypto) (payloads : Json PairPayload payload_strings) (g : Greeting)
    (c : ClientSession) (nonce text : Bytes)
    → payloads.marshal (record { ssh_public_key = g.public_key }) ≡ some text
    → crypto.accepts_key c.keys.client_to_host ≡ true
    → (q : ConfirmRequest) × (confirm_pairing crypto payloads g c (some nonce) ≡ ok q)
unfolding confirm_pairing
confirm_pairing-sent crypto payloads g c nonce text m a =
    let (sealed, e) =
      seal-sealed crypto payloads c.keys.client_to_host c.keys.transcript nonce text
        (record { ssh_public_key = g.public_key }) m a in
    rw e (_, refl)
