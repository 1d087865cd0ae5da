-- ===== src/Pairing/Host/Rejection.antt =====
-- A rejection at the Windows host is final.
use otherhost.Base.{
  ℕ, ◌≡◌, ◌≢◌, refl, ap, Bool, true, false, List, [], ◌∷◌, Option, none, some, arith, Bytes, length,
  Result, ok, err,
}
use otherhost.Pairing.Crypto.{no_strings, Crypto, Json}
use otherhost.Pairing.Host.Approval.{approves}
use otherhost.Pairing.Host.Handlers.{Completion, has_session}
use otherhost.Pairing.Host.Once.{IsSingle, answer_hello-fresh, cancelled-session, run-IsSingle}
use otherhost.Pairing.Host.Outcomes.{IsHonest, run-IsHonest}
use otherhost.Pairing.Host.World.{
  World, Waiting, Event, hello, answer, confirm, decided, give_up, cancel, service_fails, take_out,
  begin_hello, answer_prompt, wait_for, receive, install_approved, complete, installs, completes,
  leave, cancelled, decision_of, step, run, start,
}
use otherhost.Pairing.Host.{HostOptions, HostSession, paired, finish}
use otherhost.Pairing.Keys.{SessionKeys}
use otherhost.Pairing.Messages.{result_strings, payload_strings, PairPayload, PairResult}

-- The session exists, nobody is asked any more, and no approval is on its way.
record IsClosed (w : World) : Type 0 where
  session : has_session w.host.session ≡ true
  no_prompt : w.prompts ≡ []
  no_key : w.installed ≡ []
  none_approved : w.approved ≡ []
  no_approval : approves (decision_of w.host.session) ≡ false

begin_hello-IsClosed :
    (w : World) (writes : Bool) (r : Result ℕ HostSession)
    → ((s : HostSession) → r ≡ ok s → (w.host.session ≡ none) × (s.decision ≡ none))
    → IsClosed w
    → IsClosed (begin_hello w writes r)
unfolding begin_hello
begin_hello-IsClosed w writes (err e) f v = v
begin_hello-IsClosed w writes (ok s) f v = absurd (ground (arith, f s refl, v.session))

answer_prompt-IsClosed :
    (w : World) (approved : Bool) (ps : List (Bytes × Bytes))
    → w.prompts ≡ ps
    → IsClosed w
    → IsClosed (answer_prompt w approved ps)
unfolding answer_prompt
answer_prompt-IsClosed w approved [] e v = v
answer_prompt-IsClosed w approved (p ∷ rest) e v = absurd (ground (arith, v.no_prompt))

receive-IsClosed :
    (w : World) (t : Option (Waiting × List Waiting)) (session : Option HostSession)
    → w.host.session ≡ session
    → IsClosed w
    → IsClosed (receive w t session (decision_of session))
unfolding receive
receive-IsClosed w none session e v = v
receive-IsClosed w (some t) none e v = v
receive-IsClosed w (some t) (some s) e v = ground arith

install_approved-IsClosed :
    (w : World) (c : Completion) (i : ℕ)
    → IsClosed w
    → IsClosed (install_approved w c (take_out i w.approved))
unfolding install_approved take_out
install_approved-IsClosed w c i v = rw v.none_approved (record {
  session = v.session;
  no_prompt = v.no_prompt;
  no_key = v.no_key;
  none_approved = refl;
  no_approval = v.no_approval;
})

complete-IsClosed :
    (crypto : Crypto) (results : Json PairResult result_strings) (w : World)
    (t : Option ((SessionKeys × Completion) × List (SessionKeys × Completion)))
    → IsClosed w
    → IsClosed (complete crypto results w t)
unfolding complete finish
complete-IsClosed crypto results w none v = v
complete-IsClosed crypto results w (some ((keys, c), rest)) v = record {
  session = v.session;
  no_prompt = v.no_prompt;
  no_key = v.no_key;
  none_approved = v.none_approved;
  no_approval = v.no_approval;
}

rejected-IsClosed :
    (w : World) (ps : List (Bytes × Bytes))
    → IsSingle w
    → w.prompts ≡ ps
    → ps ≢ []
    → IsClosed (answer_prompt w false ps)
unfolding answer_prompt finish
rejected-IsClosed w [] v e h = absurd (h refl)
rejected-IsClosed w (p ∷ rest) v e h = ground (arith, e)

module _ (crypto : Crypto) (payloads : Json PairPayload payload_strings)
    (results : Json PairResult result_strings) (cancellations : Json Bool no_strings) where
  step-IsClosed :
      (w : World) (e : Event)
      → IsClosed w
      → IsClosed (step crypto payloads results cancellations w e)
  unfolding step wait_for leave cancelled
  step-IsClosed w (hello d now writes r) v =
      begin_hello-IsClosed w writes _ (λ s. answer_hello-fresh crypto w.host d now r) v
  step-IsClosed w (answer approved) v = answer_prompt-IsClosed w approved w.prompts refl v
  step-IsClosed w (confirm now r) v = ground arith
  step-IsClosed w (decided i) v = receive-IsClosed w (take_out i w.waiting) w.host.session refl v
  step-IsClosed w (installs i c) v = install_approved-IsClosed w c i v
  step-IsClosed w (completes i) v = complete-IsClosed crypto results w (take_out i w.answering) v
  step-IsClosed w (give_up i) v = ground arith
  step-IsClosed w (cancel r) v = record {
    session = rw (cancelled-session crypto cancellations w r) v.session;
    no_prompt = v.no_prompt;
    no_key = v.no_key;
    none_approved = v.none_approved;
    no_approval = rw (cancelled-session crypto cancellations w r) v.no_approval;
  }
  step-IsClosed w service_fails v = ground arith

  run-IsClosed :
      (es : List Event) (w : World)
      → IsClosed w
      → IsClosed (run crypto payloads results cancellations w es)
  unfolding run
  run-IsClosed [] w v = v
  run-IsClosed (e ∷ es) w v =
      run-IsClosed es (step crypto payloads results cancellations w e) (step-IsClosed w e v)

  rejected-step :
      (w : World)
      → IsSingle w
      → w.prompts ≢ []
      → IsClosed (step crypto payloads results cancellations w (answer false))
  unfolding step
  rejected-step w v h = rejected-IsClosed w w.prompts v refl h

  not_paired :
      (w : World) (after : List Event)
      → IsClosed (step crypto payloads results cancellations w (answer false))
      → IsHonest w
      → let v = run crypto payloads results cancellations w (answer false ∷ after) in
        (v.installed ≡ []) × (v.host.done ≢ some paired)
  unfolding run
  not_paired w after closed honest =
      let next = step crypto payloads results cancellations w (answer false) in
      let still = run-IsClosed after next closed in
      let told =
        run-IsHonest crypto payloads results cancellations (answer false ∷ after) w honest in
      (still.no_key, λ e. absurd (omega (arith, told.0 (rw e refl), ap length still.no_key)))

  -- After any history in which the user is being asked: if the answer is no, no key is installed and
  -- no success is reported, whatever happens afterwards.
  pub run-rejected :
      (options : HostOptions) (instance_id : Bytes) (before after : List Event)
      → (run crypto payloads results cancellations (start options instance_id) before).prompts ≢ []
      → let asked = run crypto payloads results cancellations (start options instance_id) before in
        let w = run crypto payloads results cancellations asked (answer false ∷ after) in
        (w.installed ≡ []) × (w.host.done ≢ some paired)
  unfolding start
  run-rejected options instance_id before after h =
      let asked = run crypto payloads results cancellations (start options instance_id) before in
      let single =
        run-IsSingle crypto payloads results cancellations before (start options instance_id)
          (omega arith) in
      let honest =
        run-IsHonest crypto payloads results cancellations before (start options instance_id)
          ((λ e. cc), tt) in
      not_paired asked after (rejected-step asked single h) honest
