-- ===== src/Pairing/Host/World.antt =====
-- The pairing host as it runs: its state, the goroutines that ask the user, the confirmations that wait
-- for the answer, those that have received an approval and those behind the install, and the keys that
-- were installed. An event is one uninterrupted run; other handlers may run between any two. A run from
-- the install to the outcome reads the host's key, seals and writes, and what it meets there is an input:
-- its one effect on the state of the others is the outcome, at its end.
use otherhost.Base.{
  ℕ, zero, suc, Bool, true, false, List, [], ◌∷◌, Option, none, some, Bytes, Result, ok, err,
}
use otherhost.Pairing.Crypto.{no_strings, Crypto, Json}
use otherhost.Pairing.Host.Handlers.{
  HelloDraws, answer_hello, begin_confirm, handle_cancel, Completion, complete_confirm,
}
use otherhost.Pairing.Host.{
  HostOptions, PairingHost, HostSession, Outcome, rejected_on_windows, client_disconnected,
  service_failed, Request, finish, try_send,
}
use otherhost.Pairing.Keys.{SessionKeys}
use otherhost.Pairing.Messages.{
  result_strings, payload_strings, HelloRequest, ConfirmRequest, PairPayload, PairResult,
}

-- A confirmation that has been authenticated: the key to install, and the session's keys.
pub record Waiting : Type 0 where
  pub public_key : Bytes
  pub keys : SessionKeys

pub record World : Type 0 where
  pub host : PairingHost
  -- the client name and code of each `Confirm` call that has not returned
  pub prompts : List (Bytes × Bytes)
  pub waiting : List Waiting
  -- the confirmations that have received an approval and not yet called `InstallPublicKey`
  pub approved : List Waiting
  -- those behind this call, with what they meet, which have not yet reported their outcome
  pub answering : List (SessionKeys × Completion)
  -- the keys that `InstallPublicKey` has installed, newest first
  pub installed : List Bytes

pub data Event : Type 0 where
  -- a hello, at a time, whose answer is written or not
  hello : HelloDraws → ℕ → Bool → Request HelloRequest → Event
  -- `Confirm` returns
  answer : Bool → Event
  -- a confirmation reaches its `select`, at a time
  confirm : ℕ → Request ConfirmRequest → Event
  -- the waiting confirmation of that number receives the decision
  decided : ℕ → Event
  -- the approved confirmation of that number calls `InstallPublicKey`
  installs : ℕ → Completion → Event
  -- the answering confirmation of that number writes its response and reports its outcome
  completes : ℕ → Event
  -- its client goes away, or its session expires
  give_up : ℕ → Event
  cancel : Request ConfirmRequest → Event
  -- the server or the discovery fails
  service_fails : Event

module _ {ℓ} {A : Type ℓ} where
  abbrev pub put_back : A → Option (A × List A) → Option (A × List A)
  put_back x none = none
  put_back x (some (y, ys)) = some (y, x ∷ ys)

  -- The element of that number, and the others.
  unfoldable pub take_out : ℕ → List A → Option (A × List A)
  take_out i [] = none
  take_out zero (x ∷ xs) = some (x, xs)
  take_out (suc i) (x ∷ xs) = put_back x (take_out i xs)

abbrev pub with_session : World → HostSession → World
with_session w s = record w { host = record w.host { session = some s } }

abbrev pub finished : World → Outcome → World
finished w outcome = record w { host = finish w.host outcome }

abbrev pub sent : World → Bool → Option HostSession → World
sent w approved none = w
sent w approved (some s) = with_session w (record s { decision = try_send s.decision approved })

unfoldable pub begin_hello : World → Bool → Result ℕ HostSession → World
unfolding finish
begin_hello w writes (err status) = w
begin_hello w true (ok s) = record w {
  host = record w.host { session = some s };
  prompts = (s.request.client_name, s.code) ∷ w.prompts;
}
begin_hello w false (ok s) = finished (with_session w s) client_disconnected

unfoldable pub answer_prompt : World → Bool → List (Bytes × Bytes) → World
unfolding finish
answer_prompt w approved [] = w
answer_prompt w true (p ∷ rest) = sent (record w { prompts = rest }) true w.host.session
answer_prompt w false (p ∷ rest) =
    finished (sent (record w { prompts = rest }) false w.host.session) rejected_on_windows

unfoldable pub wait_for : World → Result ℕ (Bytes × HostSession) → World
wait_for w (err status) = w
wait_for w (ok (key, s)) = record w {
  waiting = record { public_key = key; keys = s.keys } ∷ w.waiting;
}

-- `InstallPublicKey`
abbrev pub install : Bool → Bytes → List Bytes → List Bytes
install true key keys = key ∷ keys
install false key keys = keys

-- A waiting confirmation on the session whose decision it receives.
unfoldable pub receive :
    World → Option (Waiting × List Waiting) → Option HostSession → Option Bool → World
receive w none session decision = w
receive w (some (wt, rest)) none decision = w
receive w (some (wt, rest)) (some s) none = w
receive w (some (wt, rest)) (some s) (some false) =
    record (with_session w (record s { decision = none })) { waiting = rest }
receive w (some (wt, rest)) (some s) (some true) =
    record (with_session w (record s { decision = none })) {
      waiting = rest;
      approved = wt ∷ w.approved;
    }

unfoldable pub install_approved : World → Completion → Option (Waiting × List Waiting) → World
install_approved w c none = w
install_approved w c (some (wt, rest)) = record w {
  approved = rest;
  answering = (wt.keys, c) ∷ w.answering;
  installed = install c.installs wt.public_key w.installed;
}

module _ (crypto : Crypto) (results : Json PairResult result_strings) where
  -- The response of a confirmation behind the install, and the outcome that it sends to `done`.
  unfoldable pub complete :
      World → Option ((SessionKeys × Completion) × List (SessionKeys × Completion)) → World
  unfolding finish
  complete w none = w
  complete w (some ((keys, c), rest)) =
      finished (record w { answering = rest }) (complete_confirm crypto results w.host keys c).0

unfoldable pub leave : World → Option (Waiting × List Waiting) → World
leave w none = w
leave w (some (wt, rest)) = record w { waiting = rest }

-- A refused request leaves the host as it is.
abbrev pub or_old : PairingHost → Result ℕ PairingHost → PairingHost
or_old old (err status) = old
or_old old (ok host) = host

unfoldable pub cancelled : World → Result ℕ PairingHost → World
cancelled w r = record w { host = or_old w.host r }

abbrev pub decision_of : Option HostSession → Option Bool
decision_of none = none
decision_of (some s) = s.decision

module _ (crypto : Crypto) (payloads : Json PairPayload payload_strings)
    (results : Json PairResult result_strings) (cancellations : Json Bool no_strings) where
  unfoldable pub step : World → Event → World
  unfolding begin_hello answer_prompt wait_for receive install_approved complete leave cancelled
      take_out finish
  step w (hello draws now writes request) =
      begin_hello w writes (answer_hello crypto w.host draws now request)
  step w (answer approved) = answer_prompt w approved w.prompts
  step w (confirm now request) = wait_for w (begin_confirm crypto payloads w.host now request)
  step w (decided i) = receive w (take_out i w.waiting) w.host.session (decision_of w.host.session)
  step w (installs i c) = install_approved w c (take_out i w.approved)
  step w (completes i) = complete crypto results w (take_out i w.answering)
  step w (give_up i) = leave w (take_out i w.waiting)
  step w (cancel request) = cancelled w (handle_cancel crypto cancellations w.host request)
  step w service_fails = finished w service_failed

  unfoldable pub run : World → List Event → World
  unfolding step
  run w [] = w
  run w (e ∷ es) = run (step w e) es

-- `RunHost` when it starts to listen.
unfoldable pub start : HostOptions → Bytes → World
start options instance_id = record {
  host = record { options = options; instance_id = instance_id; session = none; done = none };
  prompts = [];
  waiting = [];
  approved = [];
  answering = [];
  installed = [];
}
