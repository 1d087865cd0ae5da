-- ===== src/Pairing/Host/Once.antt =====
-- One pairing window asks the user once and installs one key at most.
use otherhost.Base.{
  ℕ, zero, suc, ◌+◌, ◌≤◌, ◌≡◌, refl, Bool, true, false, List, [], ◌∷◌, Option, none, some, arith,
  Bytes, length, Result, ok, err, ok_of_bind,
}
use otherhost.Pairing.Crypto.{no_strings, Crypto, Json}
use otherhost.Pairing.Host.Handlers.{
  Completion, HelloDraws, admit_hello, answer_hello, is_pairing, open_session, handle_cancel,
}
use otherhost.Pairing.Host.World.{
  World, Waiting, Event, hello, answer, confirm, decided, give_up, cancel, service_fails, take_out,
  begin_hello, answer_prompt, wait_for, receive, install_approved, complete, put_back, installs,
  completes, leave, cancelled, or_old, decision_of, step, run, start,
}
use otherhost.Pairing.Host.{HostOptions, PairingHost, HostSession, Request}
use otherhost.Pairing.Keys.{SessionKeys}
use otherhost.Pairing.Messages.{
  result_strings, payload_strings, ConfirmRequest, HelloRequest, PairPayload, PairResult,
}

abbrev pub held : Option Bool → ℕ
held none = 0
held (some b) = 1

-- The answers that may still come, the one in the channel, the approvals, and the keys installed.
abbrev pub tokens : World → ℕ
tokens w =
    length w.prompts + held (decision_of w.host.session) + length w.approved + length w.installed

-- Before a session there is none of them.
abbrev pub allowance : Option HostSession → ℕ
allowance none = 0
allowance (some s) = 1

abbrev pub IsSingle : World → Type 0
IsSingle w = tokens w ≤ allowance w.host.session

pub tokens_le_one : (w : World) → IsSingle w → tokens w ≤ 1
tokens_le_one w v = ground arith

module _ (crypto : Crypto) where
  open_session-fresh :
      (host : PairingHost) (d : HelloDraws) (now : ℕ) (q : HelloRequest) (key : Bytes)
      {s : HostSession}
      → open_session crypto host d now q key ≡ ok s
      → (host.session ≡ none) × (s.decision ≡ none)
  unfolding open_session is_pairing
  open_session-fresh host d now q key h = ground arith

  -- A hello opens a session only where there is none, and the new one has no decision.
  pub answer_hello-fresh :
      (host : PairingHost) (d : HelloDraws) (now : ℕ) (r : Request HelloRequest) {s : HostSession}
      → answer_hello crypto host d now r ≡ ok s
      → (host.session ≡ none) × (s.decision ≡ none)
  unfolding answer_hello
  answer_hello-fresh host d now r h =
      let (admitted, _, opened) =
        ok_of_bind (λ a. open_session crypto host d now a.0 a.1) (admit_hello crypto host r) h in
      open_session-fresh host d now admitted.0 admitted.1 opened

begin_hello-IsSingle :
    (w : World) (writes : Bool) (r : Result ℕ HostSession)
    → ((s : HostSession) → r ≡ ok s → (w.host.session ≡ none) × (s.decision ≡ none))
    → IsSingle w
    → IsSingle (begin_hello w writes r)
unfolding begin_hello
begin_hello-IsSingle w writes (err e) f v = v
begin_hello-IsSingle w true (ok s) f v = ground (arith, f s refl)
begin_hello-IsSingle w false (ok s) f v = ground (arith, f s refl)

answer_prompt-IsSingle :
    (w : World) (approved : Bool) (ps : List (Bytes × Bytes))
    → w.prompts ≡ ps
    → IsSingle w
    → IsSingle (answer_prompt w approved ps)
unfolding answer_prompt
answer_prompt-IsSingle w approved [] e v = v
answer_prompt-IsSingle w true (p ∷ rest) e v = ground arith
answer_prompt-IsSingle w false (p ∷ rest) e v = ground arith

wait_for-IsSingle :
    (w : World) (r : Result ℕ (Bytes × HostSession)) → IsSingle w → IsSingle (wait_for w r)
unfolding wait_for
wait_for-IsSingle w (ok a) v = v
wait_for-IsSingle w (err e) v = v

leave-IsSingle :
    (w : World) (t : Option (Waiting × List Waiting)) → IsSingle w → IsSingle (leave w t)
unfolding leave
leave-IsSingle w none v = v
leave-IsSingle w (some t) v = v

-- A confirmation that receives an approval takes it out of the channel, and installs one key.
receive-IsSingle :
    (w : World) (t : Option (Waiting × List Waiting)) (session : Option HostSession)
    → w.host.session ≡ session
    → IsSingle w
    → IsSingle (receive w t session (decision_of session))
unfolding receive
receive-IsSingle w none session e v = v
receive-IsSingle w (some t) none e v = v
receive-IsSingle w (some t) (some s) e v = ground arith

abbrev rest_length : {A : Type 0} → Option (A × List A) → ℕ
rest_length none = 0
rest_length (some (x, xs)) = suc (length xs)

put_back-length :
    {A : Type 0} (x : A) (t : Option (A × List A)) (n : ℕ)
    → rest_length t ≤ n
    → rest_length (put_back x t) ≤ suc n
put_back-length x none n h = omega arith
put_back-length x (some (y, ys)) n h = omega (arith, h)

take_out-length : {A : Type 0} (i : ℕ) (xs : List A) → rest_length (take_out i xs) ≤ length xs
unfolding take_out
take_out-length i [] = omega arith
take_out-length zero (x ∷ xs) = omega arith
take_out-length (suc i) (x ∷ xs) =
    put_back-length x (take_out i xs) (length xs) (take_out-length i xs)

install_approved-IsSingle :
    (w : World) (c : Completion) (t : Option (Waiting × List Waiting))
    → rest_length t ≤ length w.approved
    → IsSingle w
    → IsSingle (install_approved w c t)
unfolding install_approved
install_approved-IsSingle w c none l v = v
install_approved-IsSingle w c (some (wt, rest)) l v = ground arith

complete-IsSingle :
    (crypto : Crypto) (results : Json PairResult result_strings) (w : World)
    (t : Option ((SessionKeys × Completion) × List (SessionKeys × Completion)))
    → IsSingle w
    → IsSingle (complete crypto results w t)
unfolding complete
complete-IsSingle crypto results w none v = v
complete-IsSingle crypto results w (some ((keys, c), rest)) v = v

handle_cancel-session :
    (crypto : Crypto) (cancellations : Json Bool no_strings) (host : PairingHost)
    (r : Request ConfirmRequest) (after : PairingHost)
    → handle_cancel crypto cancellations host r ≡ ok after
    → after.session ≡ host.session
unfolding handle_cancel
handle_cancel-session crypto cancellations host r after h = ground arith

or_old-session :
    (host : PairingHost) (r : Result ℕ PairingHost)
    → ((after : PairingHost) → r ≡ ok after → after.session ≡ host.session)
    → (or_old host r).session ≡ host.session
or_old-session host (ok after) f = f after refl
or_old-session host (err e) f = refl

-- A cancellation ends the pairing and leaves the session alone.
pub cancelled-session :
    (crypto : Crypto) (cancellations : Json Bool no_strings) (w : World)
    (r : Request ConfirmRequest)
    → (cancelled w (handle_cancel crypto cancellations w.host r)).host.session ≡ w.host.session
unfolding cancelled
cancelled-session crypto cancellations w r =
    or_old-session w.host _ (handle_cancel-session crypto cancellations w.host r)

module _ (crypto : Crypto) (payloads : Json PairPayload payload_strings)
    (results : Json PairResult result_strings) (cancellations : Json Bool no_strings) where
  step-IsSingle :
      (w : World) (e : Event)
      → IsSingle w
      → IsSingle (step crypto payloads results cancellations w e)
  unfolding step
  step-IsSingle w (hello d now writes r) v =
      begin_hello-IsSingle w writes _ (λ s. answer_hello-fresh crypto w.host d now r) v
  step-IsSingle w (answer approved) v = answer_prompt-IsSingle w approved w.prompts refl v
  step-IsSingle w (confirm now r) v = wait_for-IsSingle w _ v
  step-IsSingle w (decided i) v = receive-IsSingle w (take_out i w.waiting) w.host.session refl v
  step-IsSingle w (installs i c) v =
      install_approved-IsSingle w c (take_out i w.approved) (take_out-length i w.approved) v
  step-IsSingle w (completes i) v = complete-IsSingle crypto results w (take_out i w.answering) v
  step-IsSingle w (give_up i) v = leave-IsSingle w _ v
  step-IsSingle w (cancel r) v = rw (cancelled-session crypto cancellations w r) v
  step-IsSingle w service_fails v = v

  pub run-IsSingle :
      (es : List Event) (w : World)
      → IsSingle w
      → IsSingle (run crypto payloads results cancellations w es)
  unfolding run
  run-IsSingle [] w v = v
  run-IsSingle (e ∷ es) w v = run-IsSingle es _ (step-IsSingle w e v)

  -- Whatever requests, answers and failures a pairing host meets, in any order: the questions that are
  -- open, the answer that waits in the channel, the approvals that were received and not yet acted on
  -- and the keys that were installed are one at most, together. So one window never installs two keys,
  -- and asks no second question after an install.
  pub run_installs_once :
      (options : HostOptions) (instance_id : Bytes) (es : List Event)
      → let w = run crypto payloads results cancellations (start options instance_id) es in
        length w.prompts
          + held (decision_of w.host.session)
          + length w.approved
          + length w.installed
        ≤ 1
  unfolding start
  run_installs_once options instance_id es =
      let w = run crypto payloads results cancellations (start options instance_id) es in
      tokens_le_one w (run-IsSingle es (start options instance_id) (omega arith))
