-- ===== src/Pairing/Exchange/Hello.antt =====
-- A hello that a host answers, and an answer that the client accepts.
use otherhost.Base.{
  ℕ, ◌+◌, ◌*◌, ◌≤◌, ◌≡◌, refl, inr, true, false, [], ◌∷◌, some, none, arith, Bytes, bytes_eq_refl,
  length, ltb, ok, pos,
}
use otherhost.Pairing.Client.{
  ClientOptions, ClientSession, Greeting, accept_hello, greet, valid_expiry,
}
use otherhost.Pairing.Crypto.{Crypto}
use otherhost.Pairing.Host.Handlers.{
  HelloDraws, admit_hello, hello_response, hex_encode, is_pairing, is_version, open_session,
}
use otherhost.Pairing.Host.{HostSession, PairingHost, Request, decode_json_body, local_post}
use otherhost.Pairing.Keys.Sealing.{decode-encode}
use otherhost.Pairing.Keys.Expand.{hkdf_expand-rfc_blocks}
use otherhost.Pairing.Keys.{SessionKeys, decode, derive_session_keys, encode, hkdf_expand}
use otherhost.Pairing.Messages.{
  HelloRequest, HelloResponse, client_to_host_label, host_to_client_label,
}
use otherhost.Pairing.Names.{clean_device_name, is_empty}
use otherhost.Pairing.Transcript.{make_transcript}

pub length-hex_encode : (s : Bytes) → length (hex_encode s) ≡ 2 * length s
unfolding hex_encode
length-hex_encode [] = refl
length-hex_encode (c ∷ s) = ground (arith, length-hex_encode s)

module _ (crypto : Crypto) where
  pub greet-greeted :
      (o : ClientOptions) (private_key nonce : Bytes) (g : Greeting)
      → greet crypto o (some private_key) (some nonce) ≡ ok g
      → (g.hello ≡ record {
        version = pos 1;
        instance_id = o.device.instance_id;
        client_name = g.hello.client_name;
        client_public_key = encode (crypto.public_key private_key);
        client_nonce = encode nonce;
      })
        × (g.private_key ≡ private_key)
        × (clean_device_name o.client_name ≡ ok g.hello.client_name)
        × (clean_device_name o.device.name ≡ ok g.host_name)
  unfolding greet
  greet-greeted o private_key nonce g e = ground arith

  -- The cipher takes both keys of a session.
  abbrev pub TakesKeys : SessionKeys → Type 0
  TakesKeys keys =
      (crypto.accepts_key keys.client_to_host ≡ true)
      × (crypto.accepts_key keys.host_to_client ≡ true)

  takes_expanded :
      (secret salt label : Bytes)
      → crypto.accepts_key (hkdf_expand crypto secret salt label 32) ≡ true
  takes_expanded secret salt label =
      crypto.accepts_long_key (hkdf_expand crypto secret salt label 32)
        (hkdf_expand-rfc_blocks crypto secret salt label 32 (omega arith)).1

  derive_session_keys-derived :
      (private_key peer transcript secret : Bytes)
      → crypto.accepts_peer peer ≡ true
      → crypto.ecdh private_key peer ≡ some secret
      → (keys : SessionKeys) × (derive_session_keys crypto private_key peer transcript ≡ ok keys)
        × TakesKeys keys
  unfolding derive_session_keys
  derive_session_keys-derived private_key peer transcript secret a e =
      let hash = crypto.sha256 transcript in
      rw (a, e)
        (
          _,
          refl,
          (
            takes_expanded secret hash client_to_host_label,
            takes_expanded secret hash host_to_client_label,
          ),
        )

  pub decoded_key :
      (private_key : Bytes)
      → decode (encode (crypto.public_key private_key)) 32 ≡ ok (crypto.public_key private_key)
  decoded_key private_key =
      decode-encode (crypto.public_key private_key) 32 (crypto.public_key_bytes private_key)
        (inr (crypto.public_key_size private_key))

  pub admit_hello-admitted :
      (host : PairingHost) (r : Request HelloRequest) (hello : HelloRequest) (key nonce : Bytes)
      → local_post r ≡ true
      → r.body ≡ some hello
      → r.at_end ≡ true
      → clean_device_name hello.client_name ≡ ok hello.client_name
      → hello.version ≡ pos 1
      → hello.instance_id ≡ host.instance_id
      → decode hello.client_public_key 32 ≡ ok key
      → decode hello.client_nonce 32 ≡ ok nonce
      → admit_hello crypto host r ≡ ok (hello, key)
  unfolding admit_hello decode_json_body is_version
  admit_hello-admitted host r hello key nonce l b a n v i k d =
      ground (arith, bytes_eq_refl hello.instance_id)

  pub open_session-drawn :
      (host : PairingHost) (d : HelloDraws) (now : ℕ) (q : HelloRequest)
      (key private_key host_nonce id secret : Bytes)
      → is_pairing host ≡ false
      → d.private_key ≡ some private_key
      → d.host_nonce ≡ some host_nonce
      → d.session_id ≡ some id
      → crypto.accepts_peer key ≡ true
      → crypto.ecdh private_key key ≡ some secret
      → (s : HostSession) × (open_session crypto host d now q key ≡ ok s)
        × (s.response ≡ hello_response crypto host private_key host_nonce (hex_encode id))
        × (s.expires ≡ now + host.options.duration)
        × (s.decision ≡ none)
        × (s.id ≡ hex_encode id)
        × TakesKeys s.keys
  unfolding open_session
  open_session-drawn host d now q key private_key host_nonce id secret f p n i a x =
      let response = hello_response crypto host private_key host_nonce (hex_encode id) in
      let (keys, e, takes) =
        derive_session_keys-derived private_key key (make_transcript host.instance_id q response)
          secret a x in
      rw (f, p, n, i) rw e (_, refl, refl, refl, refl, refl, takes)

  pub accept_hello-accepted :
      (g : Greeting) (r : HelloResponse) (key nonce secret : Bytes)
      → clean_device_name r.host_name ≡ ok g.host_name
      → is_empty r.session_id ≡ false
      → length r.session_id ≤ 64
      → valid_expiry r.expires_in ≡ true
      → decode r.host_public_key 32 ≡ ok key
      → decode r.host_nonce 32 ≡ ok nonce
      → crypto.accepts_peer key ≡ true
      → crypto.ecdh g.private_key key ≡ some secret
      → (c : ClientSession) × (accept_hello crypto g r ≡ ok c)
  unfolding accept_hello
  accept_hello-accepted g r key nonce secret n i l v k d a x =
      let (keys, e, takes) =
        derive_session_keys-derived g.private_key key
          (make_transcript g.hello.instance_id g.hello r) secret a x in
      let same = bytes_eq_refl g.host_name in
      let short : ltb 64 (length r.session_id) ≡ false = ground arith in
      rw (n, same, i, short, v, k, d, e) (_, refl)
