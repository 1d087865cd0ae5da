-- ===== src/Pairing/Exchange/Answered.antt =====
-- What a client and a host make of the hello and its answer, when nothing fails.
use otherhost.Base.{
  ℕ, suc, ◌+◌, ◌*◌, ◌/◌, ◌^◌, ◌≡◌, refl, sym, ap, ◌∙◌, inr, true, false, [], ◌∷◌, some, none, arith,
  Bytes, All, length, ok, pos,
}
use otherhost.Pairing.Client.{
  ClientOptions, ClientSession, Greeting, accept_hello, greet, valid_expiry,
}
use otherhost.Pairing.Crypto.{Crypto, IsByte}
use otherhost.Pairing.Exchange.Hello.{
  TakesKeys, accept_hello-accepted, admit_hello-admitted, decoded_key, greet-greeted,
  length-hex_encode, open_session-drawn,
}
use otherhost.Pairing.Host.Handlers.{
  HelloDraws, answer_hello, hello_response, hex_encode, is_pairing,
}
use otherhost.Pairing.Host.{HostSession, PairingHost, Request, is_post, local_post, post}
use otherhost.Pairing.Keys.Sealing.{decode-encode}
use otherhost.Pairing.Keys.{decode}
use otherhost.Pairing.Local.{Ip, is_local_network_ip}
use otherhost.Pairing.Messages.{HelloResponse}
use otherhost.Pairing.Names.Sound.{clean_device_name-IsCleanName}
use otherhost.Pairing.Names.{clean_device_name, is_empty}

-- A request that a device at that address posts, with nothing behind its value.
abbrev pub posted : {A : Type 0} → Ip → A → Request A
posted ip a = record { method = post; remote = ip; body = some a; at_end = true }

pub local_post-posted :
    {A : Type 0} (ip : Ip) (a : A) → is_local_network_ip ip ≡ true → local_post (posted ip a) ≡ true
unfolding local_post is_post
local_post-posted ip a h = h

-- What a host draws for a hello.
abbrev pub drawn : Bytes → Bytes → Bytes → HelloDraws
drawn private_key host_nonce id = record {
  private_key = some private_key;
  host_nonce = some host_nonce;
  session_id = some id;
}

not_empty : (s : Bytes) (n : ℕ) → length s ≡ suc n → is_empty s ≡ false
unfolding is_empty
not_empty [] n h = absurd (omega arith)
not_empty (c ∷ s) n h = refl

module _ (crypto : Crypto) where
  -- A host that answers a client's hello, with what it draws.
  pub hello_answered :
      (o : ClientOptions) (k n : Bytes) (g : Greeting) (host : PairingHost) (now : ℕ) (ip : Ip)
      (p host_nonce id secret : Bytes)
      → greet crypto o (some k) (some n) ≡ ok g
      → All IsByte n
      → length n ≡ 32
      → is_pairing host ≡ false
      → host.instance_id ≡ o.device.instance_id
      → is_local_network_ip ip ≡ true
      → crypto.ecdh p (crypto.public_key k) ≡ some secret
      → (s : HostSession) × (answer_hello crypto host
            (drawn p host_nonce id)
            now
            (posted ip g.hello)
          ≡ ok s)
        × (s.response ≡ hello_response crypto host p host_nonce (hex_encode id))
        × (s.expires ≡ now + host.options.duration)
        × (s.decision ≡ none)
        × (s.id ≡ hex_encode id)
        × TakesKeys crypto s.keys
  unfolding answer_hello
  hello_answered o k n g host now ip p host_nonce id secret e b l f i local x =
      let (hello, private_key, named, device) = greet-greeted crypto o k n g e in
      let clean = (clean_device_name-IsCleanName o.client_name named).1 in
      let key_is = ap (λ h. decode h.client_public_key 32) hello ∙ decoded_key crypto k in
      let nonce_is = ap (λ h. decode h.client_nonce 32) hello ∙ decode-encode n 32 b (inr l) in
      let admitted =
        admit_hello-admitted crypto host (posted ip g.hello) g.hello (crypto.public_key k) n
          (local_post-posted ip g.hello local) refl refl clean (ap (λ h. h.version) hello)
          (ap (λ h. h.instance_id) hello ∙ sym i) key_is nonce_is in
      let opened =
        open_session-drawn crypto host (drawn p host_nonce id) now g.hello (crypto.public_key k) p
          host_nonce id secret f refl refl refl (crypto.accepts_public_key k) x in
      rw admitted opened

  -- The client accepts that answer.
  pub answer_accepted :
      (o : ClientOptions) (k n : Bytes) (g : Greeting) (host : PairingHost) (r : HelloResponse)
      (p host_nonce id secret : Bytes)
      → greet crypto o (some k) (some n) ≡ ok g
      → r ≡ hello_response crypto host p host_nonce (hex_encode id)
      → clean_device_name host.options.name ≡ clean_device_name o.device.name
      → valid_expiry (pos (host.options.duration / 10 ^ 9)) ≡ true
      → All IsByte host_nonce
      → length host_nonce ≡ 32
      → length id ≡ 16
      → crypto.ecdh p (crypto.public_key k) ≡ some secret
      → (c : ClientSession) × (accept_hello crypto g r ≡ ok c)
  unfolding hello_response
  answer_accepted o k n g host r p host_nonce id secret e response name expiry b l i x =
      let (hello, private_key, named, device) = greet-greeted crypto o k n g e in
      let size = length-hex_encode id ∙ ap (λ n. 2 * n) i in
      rw response (
        accept_hello-accepted crypto g (hello_response crypto host p host_nonce (hex_encode id))
          (crypto.public_key p) host_nonce secret (name ∙ device)
          (not_empty (hex_encode id) 31 size) (omega arith) expiry (decoded_key crypto p)
          (decode-encode host_nonce 32 b (inr l)) (crypto.accepts_public_key p)
          (ap (λ s. crypto.ecdh s (crypto.public_key p)) private_key ∙ crypto.ecdh_comm k p ∙ x))
