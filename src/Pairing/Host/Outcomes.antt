-- ===== src/Pairing/Host/Outcomes.antt =====
-- What `RunHost` reports: success stands for an installed key, and the first outcome stays.
use otherhost.Base.{
  ℕ, ◌<◌, ◌≡◌, ◌≢◌, refl, Bool, true, false, List, [], ◌∷◌, Option, none, some, arith, Bytes, All,
  length, Result, ok, err, inl, ◌⊎◌,
}
use otherhost.Pairing.Crypto.{no_strings, Crypto, Json}
use otherhost.Pairing.Host.Handlers.{Completion, handle_cancel, complete_confirm}
use otherhost.Pairing.Host.Once.{run_installs_once}
use otherhost.Pairing.Host.Taken.{TakenAll, take_out-TakenAll}
use otherhost.Pairing.Host.World.{
  World, Waiting, Event, hello, answer, confirm, decided, give_up, cancel, service_fails, take_out,
  begin_hello, answer_prompt, wait_for, receive, install, install_approved, complete, installs,
  completes, leave, cancelled, or_old, decision_of, step, run, start, finished, sent,
}
use otherhost.Pairing.Host.{
  HostOptions, PairingHost, HostSession, Outcome, paired, rejected_on_windows, rejected_on_mac,
  client_disconnected, service_failed, Request, finish, try_send,
}
use otherhost.Pairing.Keys.{SessionKeys}
use otherhost.Pairing.Messages.{
  result_strings, payload_strings, PairPayload, PairResult, ConfirmRequest,
}

abbrev pub is_paired : Option Outcome → Bool
is_paired (some paired) = true
is_paired _ = false

abbrev IsBacked : List Bytes → SessionKeys × Completion → Type 0
IsBacked installed a = a.1.installs ≡ true → 0 < length installed

-- An outcome of success stands for an installed key, and so does a confirmation that is answering.
abbrev pub IsHonest : World → Type 0
IsHonest w =
    (is_paired w.host.done ≡ true → 0 < length w.installed) × All (IsBacked w.installed) w.answering

-- `handleConfirm` reports success only when the key was installed and the answer written.
complete_confirm-paired :
    (crypto : Crypto) (results : Json PairResult result_strings) (host : PairingHost)
    (keys : SessionKeys) (c : Completion)
    → (complete_confirm crypto results host keys c).0 ≡ paired
    → (c.installs ≡ true) × (c.writes ≡ true)
unfolding complete_confirm
complete_confirm-paired crypto results host keys c h = ground arith

try_send-paired :
    (d : Option Outcome) (o : Outcome)
    → is_paired (try_send d o) ≡ true
    → (is_paired d ≡ true) ⊎ (o ≡ paired)
try_send-paired none o h = ground arith
try_send-paired (some d) o h = inl h

finished-IsHonest : (w : World) (o : Outcome) → o ≢ paired → IsHonest w → IsHonest (finished w o)
unfolding finish
finished-IsHonest w o h v = (λ e. ground (arith, try_send-paired w.host.done o e, v.0), v.1)

begin_hello-IsHonest :
    (w : World) (writes : Bool) (r : Result ℕ HostSession)
    → IsHonest w
    → IsHonest (begin_hello w writes r)
unfolding begin_hello
begin_hello-IsHonest w writes (err e) v = v
begin_hello-IsHonest w true (ok s) v = v
begin_hello-IsHonest w false (ok s) v = finished-IsHonest w client_disconnected (λ e. cc) v

sent-IsHonest :
    (w : World) (approved : Bool) (session : Option HostSession)
    → IsHonest w
    → IsHonest (sent w approved session)
sent-IsHonest w approved none v = v
sent-IsHonest w approved (some s) v = v

answer_prompt-IsHonest :
    (w : World) (approved : Bool) (ps : List (Bytes × Bytes))
    → IsHonest w
    → IsHonest (answer_prompt w approved ps)
unfolding answer_prompt
answer_prompt-IsHonest w approved [] v = v
answer_prompt-IsHonest w true (p ∷ rest) v =
    sent-IsHonest (record w { prompts = rest }) true w.host.session v
answer_prompt-IsHonest w false (p ∷ rest) v =
    finished-IsHonest (sent (record w { prompts = rest }) false w.host.session) rejected_on_windows
      (λ e. cc) (sent-IsHonest (record w { prompts = rest }) false w.host.session v)

receive-IsHonest :
    (w : World) (t : Option (Waiting × List Waiting)) (session : Option HostSession)
    (decision : Option Bool)
    → IsHonest w
    → IsHonest (receive w t session decision)
unfolding receive
receive-IsHonest w none session d v = v
receive-IsHonest w (some t) none d v = v
receive-IsHonest w (some t) (some s) none v = v
receive-IsHonest w (some t) (some s) (some false) v = v
receive-IsHonest w (some t) (some s) (some true) v = v

installed-IsBacked :
    (done : Bool) (key : Bytes) (keys : List Bytes) (xs : List (SessionKeys × Completion))
    → All (IsBacked keys) xs
    → All (IsBacked (install done key keys)) xs
installed-IsBacked false key keys xs h = h
installed-IsBacked true key keys [] h = tt
installed-IsBacked true key keys (a ∷ xs) h =
    (λ e. omega arith, installed-IsBacked true key keys xs h.1)

install_approved-IsHonest :
    (w : World) (c : Completion) (t : Option (Waiting × List Waiting))
    → IsHonest w
    → IsHonest (install_approved w c t)
unfolding install_approved
install_approved-IsHonest w c none v = v
install_approved-IsHonest w c (some (wt, rest)) v = (
  λ e. ground (arith, v.0 e),
  (λ e. ground arith, installed-IsBacked c.installs wt.public_key w.installed w.answering v.1),
)

complete-IsHonest :
    (crypto : Crypto) (results : Json PairResult result_strings) (w : World)
    (t : Option ((SessionKeys × Completion) × List (SessionKeys × Completion)))
    → TakenAll (IsBacked w.installed) t
    → IsHonest w
    → IsHonest (complete crypto results w t)
unfolding complete finish
complete-IsHonest crypto results w none a v = v
complete-IsHonest crypto results w (some ((keys, c), rest)) a v = (
  λ e.
      let o = (complete_confirm crypto results w.host keys c).0 in
      ground (
        arith,
        v.0,
        a.0,
        try_send-paired w.host.done o e,
        complete_confirm-paired crypto results w.host keys c,
      ),
  a.1,
)

pub handle_cancel-done :
    (crypto : Crypto) (cancellations : Json Bool no_strings) (host : PairingHost)
    (r : Request ConfirmRequest) (after : PairingHost)
    → handle_cancel crypto cancellations host r ≡ ok after
    → after.done ≡ try_send host.done rejected_on_mac
unfolding handle_cancel
handle_cancel-done crypto cancellations host r after h = ground arith

or_old-done :
    (host : PairingHost) (r : Result ℕ PairingHost)
    → ((after : PairingHost) → r ≡ ok after → after.done ≡ try_send host.done rejected_on_mac)
    → is_paired (or_old host r).done ≡ true
    → is_paired host.done ≡ true
or_old-done host (err e) f h = h
or_old-done host (ok after) f h =
    ground (arith, f after refl, try_send-paired host.done rejected_on_mac)

wait_for-IsHonest :
    (w : World) (r : Result ℕ (Bytes × HostSession)) → IsHonest w → IsHonest (wait_for w r)
unfolding wait_for
wait_for-IsHonest w (ok a) v = v
wait_for-IsHonest w (err e) v = v

leave-IsHonest :
    (w : World) (t : Option (Waiting × List Waiting)) → IsHonest w → IsHonest (leave w t)
unfolding leave
leave-IsHonest w none v = v
leave-IsHonest w (some t) v = v

module _ (crypto : Crypto) (payloads : Json PairPayload payload_strings)
    (results : Json PairResult result_strings) (cancellations : Json Bool no_strings) where
  step-IsHonest :
      (w : World) (e : Event)
      → IsHonest w
      → IsHonest (step crypto payloads results cancellations w e)
  unfolding step wait_for leave cancelled
  step-IsHonest w (hello d now writes r) v = begin_hello-IsHonest w writes _ v
  step-IsHonest w (answer approved) v = answer_prompt-IsHonest w approved w.prompts v
  step-IsHonest w (confirm now r) v = wait_for-IsHonest w _ v
  step-IsHonest w (decided i) v =
      receive-IsHonest w (take_out i w.waiting) w.host.session (decision_of w.host.session) v
  step-IsHonest w (installs i c) v = install_approved-IsHonest w c (take_out i w.approved) v
  step-IsHonest w (completes i) v =
      complete-IsHonest crypto results w (take_out i w.answering)
        (take_out-TakenAll (IsBacked w.installed) i w.answering v.1) v
  step-IsHonest w (give_up i) v = leave-IsHonest w _ v
  step-IsHonest w (cancel r) v =
      (λ e. v.0 (or_old-done w.host _ (handle_cancel-done crypto cancellations w.host r) e), v.1)
  step-IsHonest w service_fails v = finished-IsHonest w service_failed (λ e. cc) v

  pub run-IsHonest :
      (es : List Event) (w : World)
      → IsHonest w
      → IsHonest (run crypto payloads results cancellations w es)
  unfolding run
  run-IsHonest [] w v = v
  run-IsHonest (e ∷ es) w v =
      run-IsHonest es (step crypto payloads results cancellations w e) (step-IsHonest w e v)

  -- When the host reports success, exactly one key has been installed, no question to the user is
  -- open and no answer is left in the channel.
  pub run-paired :
      (options : HostOptions) (instance_id : Bytes) (es : List Event)
      → (run crypto payloads results cancellations (start options instance_id) es).host.done
        ≡ some paired
      → let w = run crypto payloads results cancellations (start options instance_id) es in
        (length w.installed ≡ 1) × (w.prompts ≡ []) × (decision_of w.host.session ≡ none)
  unfolding start
  run-paired options instance_id es h =
      let w = run crypto payloads results cancellations (start options instance_id) es in
      let once = run_installs_once crypto payloads results cancellations options instance_id es in
      let honest = (run-IsHonest es (start options instance_id) ((λ e. cc), tt)).0 (rw h refl) in
      ground arith
