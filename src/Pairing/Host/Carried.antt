-- ===== src/Pairing/Host/Carried.antt =====
-- What it means that a key came in a confirmation of a run.
use otherhost.Base.{
  ℕ, ◌≡◌, refl, true, List, [], ◌∷◌, some, arith, Bytes, All, bytes_eq_iff, ◌⊎◌, ok, Result-cases,
  inl, inr,
}
use otherhost.Pairing.Crypto.{Crypto, Json}
use otherhost.Pairing.Host.Handlers.{begin_confirm, current_session}
use otherhost.Pairing.Host.World.{Event, confirm}
use otherhost.Pairing.Host.{PairingHost, HostSession, Request, decode_json_body, local_post}
use otherhost.Pairing.Keys.{SessionKeys, open_sealed}
use otherhost.Pairing.Messages.{payload_strings, ConfirmRequest, PairPayload}
use otherhost.Pairing.Ssh.{normalize_ed25519_public_key}

-- An event of a run.
abbrev pub IsAmong : List Event → Event → Type 0
IsAmong [] e = ⊥
IsAmong (x ∷ es) e = (e ≡ x) ⊎ IsAmong es e

pub All-IsAmong :
    (P : Event → Type 0) (es : List Event) → ((e : Event) → IsAmong es e → P e) → All P es
All-IsAmong P [] f = tt
All-IsAmong P (x ∷ es) f = (f x (inl refl), All-IsAmong P es (λ e m. f e (inr m)))

module _ (crypto : Crypto) (payloads : Json PairPayload payload_strings)
    (Happened : Event → Type 0) where
  -- A confirmation that happened, for this session and from a local address, carries the key in a message
  -- that opens under the session's keys.
  pub record IsAuthentic (session_id : Bytes) (keys : SessionKeys) (key : Bytes) : Type 0 where
    pub now : ℕ
    pub request : Request ConfirmRequest
    pub happened : Happened (confirm now request)
    pub is_local : local_post request ≡ true
    pub message : ConfirmRequest
    pub received : request.body ≡ some message
    pub for_session : message.session_id ≡ session_id
    pub payload : PairPayload
    pub opens :
        open_sealed crypto payloads keys.client_to_host keys.transcript message.nonce
          message.ciphertext
        ≡ ok payload
    pub carries : normalize_ed25519_public_key payload.ssh_public_key ≡ ok key

  pub begin_confirm-IsAuthentic :
      (host : PairingHost) (now : ℕ) (r : Request ConfirmRequest) {key : Bytes} {s : HostSession}
      → Happened (confirm now r)
      → begin_confirm crypto payloads host now r ≡ ok (key, s)
      → (host.session ≡ some s) × IsAuthentic s.id s.keys key
  unfolding begin_confirm current_session decode_json_body
  begin_confirm-IsAuthentic host now r {key} {s} m h = elim (Result-cases (decode_json_body r)) [
    | inr (status, e) ↦ absurd (ground arith)
    | inl (q, e) ↦
        elim (Result-cases (
          open_sealed crypto payloads s.keys.client_to_host s.keys.transcript q.nonce
            q.ciphertext)) [
              | inl (payload, opened) ↦ (
                ground arith,
                record {
                  now = now;
                  request = r;
                  happened = m;
                  is_local = ground arith;
                  message = q;
                  received = ground arith;
                  for_session = ground (arith, bytes_eq_iff s.id q.session_id);
                  payload = payload;
                  opens = opened;
                  carries = ground arith;
                },
              )
              | inr (fault, failed) ↦ absurd (ground arith)
            ]
  ]
