-- ===== src/Pairing/Exchange/Run.antt =====
-- The host's events of one pairing, in both orders of the client's confirmation and the user's approval.
use otherhost.Base.{ℕ, ◌≡◌, refl, true, false, Bool, [], ◌∷◌, List, some, none, Bytes, ok}
use otherhost.Pairing.Crypto.{no_strings, Crypto, Json}
use otherhost.Pairing.Host.Handlers.{
  Completion, HelloDraws, answer_hello, begin_confirm, complete_confirm,
}
use otherhost.Pairing.Host.World.{
  Event, answer, confirm, decided, installs, completes, hello, run, start,
}
use otherhost.Pairing.Host.{HostOptions, HostSession, PairingHost, Request, Response, paired}
use otherhost.Pairing.Messages.{
  result_strings, payload_strings, ConfirmRequest, HelloRequest, PairPayload, PairResult,
}

-- The host that has just begun to listen.
abbrev pub idle : HostOptions → Bytes → PairingHost
idle options instance_id = record {
  options = options;
  instance_id = instance_id;
  session = none;
  done = none;
}

abbrev pub in_session : HostOptions → Bytes → HostSession → PairingHost
in_session options instance_id s = record (idle options instance_id) { session = some s }

-- A hello, a confirmation and an approval, in one of two orders, and the decision that is received.
abbrev pub pairing_events :
    Bool
    → HelloDraws
    → ℕ
    → Request HelloRequest
    → ℕ
    → Request ConfirmRequest
    → Completion
    → List Event
pairing_events true d now r later q c =
    hello d now true r ∷ confirm later q ∷ answer true ∷ decided 0 ∷ installs 0 c ∷ completes 0 ∷ []
pairing_events false d now r later q c =
    hello d now true r ∷ answer true ∷ confirm later q ∷ decided 0 ∷ installs 0 c ∷ completes 0 ∷ []

-- The session before or behind the approval, at the confirmation.
abbrev pub at_confirm : Bool → HostSession → HostSession
at_confirm true s = s
at_confirm false s = record s { decision = some true }

module _ (crypto : Crypto) (payloads : Json PairPayload payload_strings)
    (results : Json PairResult result_strings) (cancellations : Json Bool no_strings) where
  pub run-pairing_events :
      (early : Bool) (options : HostOptions) (instance_id : Bytes) (d : HelloDraws) (now : ℕ)
      (r : Request HelloRequest) (later : ℕ) (q : Request ConfirmRequest) (c : Completion)
      (s : HostSession) (key : Bytes) (response : Response)
      → answer_hello crypto (idle options instance_id) d now r ≡ ok s
      → s.decision ≡ none
      → begin_confirm crypto payloads (in_session options instance_id (at_confirm early s)) later q
        ≡ ok (key, at_confirm early s)
      → complete_confirm crypto results
          (in_session options instance_id (record s { decision = none }))
          s.keys
          c
        ≡ (paired, response)
      → c.installs ≡ true
      → let w =
          run crypto payloads results cancellations
            (start options instance_id)
            (pairing_events early d now r later q c) in
        (w.host.done ≡ some paired) × (w.installed ≡ key ∷ [])
  unfolding run start
  run-pairing_events true options instance_id d now r later q c s key response a n b p i =
      rw (a) rw (b) rw (n) rw (p, i) (refl, refl)
  run-pairing_events false options instance_id d now r later q c s key response a n b p i =
      rw (a, n) rw (b) rw (p, i) (refl, refl)
