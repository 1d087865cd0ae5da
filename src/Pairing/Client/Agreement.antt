-- ===== src/Pairing/Client/Agreement.antt =====
-- Both devices of a pairing derive the same keys, and show the same code.
use otherhost.Base.{
  ℕ, ◌≡◌, refl, sym, ap, ◌∙◌, inl, inr, true, Option, some, arith, Bytes, bytes_eq, bytes_eq_iff,
  ok, Result, Option-cases, ok_of_bind,
}
use otherhost.Pairing.Client.{ClientOptions, ClientSession, Greeting, accept_hello, greet}
use otherhost.Pairing.Crypto.{Crypto}
use otherhost.Pairing.Host.Handlers.{HelloDraws, admit_hello, answer_hello, open_session}
use otherhost.Pairing.Host.{decode_json_body, HostSession, PairingHost, Request}
use otherhost.Pairing.Keys.Sealing.{decode-encode}
use otherhost.Pairing.Keys.{comparison_code, decode, derive_session_keys, encode}
use otherhost.Pairing.Messages.{Fault, HelloRequest, HelloResponse}
use otherhost.Pairing.Names.Sound.{clean_device_name-IsCleanName}
use otherhost.Pairing.Names.{clean_device_name}
use otherhost.Pairing.Transcript.{make_transcript}

abbrev success : {A : Type 0} → A → Result Fault A
success a = ok a

ok-injective : {A : Type 0} {a b : A} → success a ≡ success b → a ≡ b
ok-injective e = cc

module _ (crypto : Crypto) where
  derive_session_keys_comm :
      (a b transcript : Bytes)
      → derive_session_keys crypto a (crypto.public_key b) transcript
        ≡ derive_session_keys crypto b (crypto.public_key a) transcript
  unfolding derive_session_keys
  derive_session_keys_comm a b transcript =
      rw (crypto.accepts_public_key a, crypto.accepts_public_key b, crypto.ecdh_comm a b) refl

  greet-parts :
      (o : ClientOptions) (key_draw nonce_draw : Option Bytes) (g : Greeting)
      → greet crypto o key_draw nonce_draw ≡ ok g
      → (clean_device_name o.client_name ≡ ok g.hello.client_name)
        × (g.hello.client_public_key ≡ encode (crypto.public_key g.private_key))
  unfolding greet
  greet-parts o key_draw nonce_draw g e = ground arith

  accept_hello-keys :
      (g : Greeting) (response : HelloResponse) (s : ClientSession) (key : Bytes)
      → decode response.host_public_key 32 ≡ ok key
      → accept_hello crypto g response ≡ ok s
      → (derive_session_keys crypto g.private_key key
            (make_transcript g.hello.instance_id g.hello response)
          ≡ ok s.keys)
        × (s.code ≡ comparison_code crypto s.keys)
  unfolding accept_hello
  accept_hello-keys g response s key k e = ground arith

  admit_hello-parts :
      (host : PairingHost) (r : Request HelloRequest) (hello q : HelloRequest) (key : Bytes)
      → r.body ≡ some hello
      → admit_hello crypto host r ≡ ok (q, key)
      → (clean_device_name hello.client_name ≡ ok q.client_name)
        × (q ≡ record hello { client_name = q.client_name })
        × (bytes_eq hello.instance_id host.instance_id ≡ true)
        × (decode hello.client_public_key 32 ≡ ok key)
  unfolding admit_hello decode_json_body
  admit_hello-parts host r hello q key b e = ground arith

  open_session-drawn :
      (host : PairingHost) (d : HelloDraws) (now : ℕ) (q : HelloRequest) (key : Bytes)
      (s : HostSession) (private_key : Bytes)
      → d.private_key ≡ some private_key
      → open_session crypto host d now q key ≡ ok s
      → (s.response.host_public_key ≡ encode (crypto.public_key private_key))
        × (derive_session_keys crypto private_key key
              (make_transcript host.instance_id q s.response)
            ≡ ok s.keys)
        × (s.code ≡ comparison_code crypto s.keys)
  unfolding open_session
  open_session-drawn host d now q key s private_key k e = ground arith

  open_session-keys :
      (host : PairingHost) (d : HelloDraws) (now : ℕ) (q : HelloRequest) (key : Bytes)
      (s : HostSession)
      → open_session crypto host d now q key ≡ ok s
      → (private_key : Bytes) × (s.response.host_public_key
          ≡ encode (crypto.public_key private_key))
        × (derive_session_keys crypto private_key key
              (make_transcript host.instance_id q s.response)
            ≡ ok s.keys)
        × (s.code ≡ comparison_code crypto s.keys)
  unfolding open_session
  open_session-keys host d now q key s e = elim (Option-cases d.private_key) [
    | inl n ↦ absurd (ground arith)
    | inr (p, k) ↦
        let (answer, derived, code) = open_session-drawn host d now q key s p k e in
        (p, answer, derived, code)
  ]

  -- The client's key, as the host decodes it.
  public_key-decoded :
      (private_key key : Bytes)
      → decode (encode (crypto.public_key private_key)) 32 ≡ ok key
      → key ≡ crypto.public_key private_key
  public_key-decoded private_key key e =
      let there =
        decode-encode (crypto.public_key private_key) 32 (crypto.public_key_bytes private_key)
          (inr (crypto.public_key_size private_key)) in
      ok-injective (sym e ∙ there)

  -- If a host opens a session for a client's hello, and the client accepts the host's answer, then both
  -- have derived the same session keys, and both show their users the same code.
  pub accept_hello-answer_hello :
      (o : ClientOptions) (key_draw nonce_draw : Option Bytes) (g : Greeting) (host : PairingHost)
      (d : HelloDraws) (now : ℕ) (r : Request HelloRequest) (s : HostSession) (c : ClientSession)
      → greet crypto o key_draw nonce_draw ≡ ok g
      → r.body ≡ some g.hello
      → answer_hello crypto host d now r ≡ ok s
      → accept_hello crypto g s.response ≡ ok c
      → (c.keys ≡ s.keys) × (c.code ≡ s.code)
  unfolding answer_hello
  accept_hello-answer_hello o key_draw nonce_draw g host d now r s c greeted sent opened accepted =
      let ((q, key), admitted, session) =
        ok_of_bind (λ a. open_session crypto host d now a.0 a.1) (admit_hello crypto host r)
          opened in
      let (named, shown) = greet-parts o key_draw nonce_draw g greeted in
      let (cleaned, same, id, decoded) = admit_hello-parts host r g.hello q key sent admitted in
      let (private_key, answer, derived, code) = open_session-keys host d now q key s session in
      let key_is =
        public_key-decoded g.private_key key (ap (λ k. decode k 32) (sym shown) ∙ decoded) in
      let name_is =
        ok-injective (sym (clean_device_name-IsCleanName o.client_name named).1 ∙ cleaned) in
      let instance_is = (bytes_eq_iff g.hello.instance_id host.instance_id).0 id in
      let host_key =
        ap (λ k. decode k 32) answer
        ∙ decode-encode (crypto.public_key private_key) 32 (crypto.public_key_bytes private_key)
            (inr (crypto.public_key_size private_key)) in
      let (client_derived, client_code) =
        accept_hello-keys g s.response c (crypto.public_key private_key) host_key accepted in
      let hello_is = same ∙ ap (λ n. record g.hello { client_name = n }) (sym name_is) in
      let both =
        sym client_derived
        ∙ derive_session_keys_comm g.private_key private_key
            (make_transcript g.hello.instance_id g.hello s.response)
        ∙ ap
            (λ k.
              derive_session_keys crypto private_key k
                (make_transcript g.hello.instance_id g.hello s.response))
            (sym key_is)
        ∙ ap
            (λ i. derive_session_keys crypto private_key key (make_transcript i g.hello s.response))
            instance_is
        ∙ ap
            (λ h.
              derive_session_keys crypto private_key key
                (make_transcript host.instance_id h s.response))
            (sym hello_is)
        ∙ derived in
      let keys = ok-injective both in
      (keys, client_code ∙ ap (comparison_code crypto) keys ∙ sym code)
