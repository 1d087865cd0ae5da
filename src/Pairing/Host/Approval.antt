-- ===== src/Pairing/Host/Approval.antt =====
-- Keys are installed after the user at the Windows host has approved, and not otherwise.
use otherhost.Base.{
  ℕ, ◌≡◌, refl, Bool, true, false, List, [], ◌∷◌, Option, none, some, arith, Bytes, any, Result, ok,
  err,
}
use otherhost.Pairing.Crypto.{no_strings, Crypto, Json}
use otherhost.Pairing.Host.Handlers.{Completion}
use otherhost.Pairing.Host.Once.{answer_hello-fresh, cancelled-session}
use otherhost.Pairing.Host.World.{
  World, Waiting, Event, hello, answer, confirm, decided, give_up, cancel, service_fails, take_out,
  begin_hello, answer_prompt, wait_for, receive, install_approved, complete, installs, completes,
  leave, cancelled, decision_of, step, run, start,
}
use otherhost.Pairing.Host.{HostOptions, HostSession}
use otherhost.Pairing.Keys.{SessionKeys}
use otherhost.Pairing.Messages.{result_strings, payload_strings, PairPayload, PairResult}

abbrev pub is_approval : Event → Bool
is_approval (answer approved) = approved
is_approval _ = false

abbrev pub approves : Option Bool → Bool
approves none = false
approves (some approved) = approved

-- Nothing is installed, and no approval is on its way to a confirmation or received.
abbrev pub IsUnapproved : World → Type 0
IsUnapproved w =
    (w.installed ≡ []) × (approves (decision_of w.host.session) ≡ false) × (w.approved ≡ [])

begin_hello-IsUnapproved :
    (w : World) (writes : Bool) (r : Result ℕ HostSession)
    → ((s : HostSession) → r ≡ ok s → (w.host.session ≡ none) × (s.decision ≡ none))
    → IsUnapproved w
    → IsUnapproved (begin_hello w writes r)
unfolding begin_hello
begin_hello-IsUnapproved w writes (err e) f v = v
begin_hello-IsUnapproved w true (ok s) f v = ground (arith, f s refl)
begin_hello-IsUnapproved w false (ok s) f v = ground (arith, f s refl)

answer_prompt-IsUnapproved :
    (w : World) (approved : Bool) (ps : List (Bytes × Bytes))
    → approved ≡ false
    → IsUnapproved w
    → IsUnapproved (answer_prompt w approved ps)
unfolding answer_prompt
answer_prompt-IsUnapproved w approved [] e v = v
answer_prompt-IsUnapproved w true (p ∷ rest) e v = cc
answer_prompt-IsUnapproved w false (p ∷ rest) e v = ground arith

receive-IsUnapproved :
    (w : World) (t : Option (Waiting × List Waiting)) (session : Option HostSession)
    → w.host.session ≡ session
    → IsUnapproved w
    → IsUnapproved (receive w t session (decision_of session))
unfolding receive
receive-IsUnapproved w none session e v = v
receive-IsUnapproved w (some t) none e v = v
receive-IsUnapproved w (some t) (some s) e v = ground arith

install_approved-IsUnapproved :
    (w : World) (c : Completion) (i : ℕ)
    → IsUnapproved w
    → IsUnapproved (install_approved w c (take_out i w.approved))
unfolding install_approved take_out
install_approved-IsUnapproved w c i v = rw v.2 (v.0, v.1, refl)

complete-IsUnapproved :
    (crypto : Crypto) (results : Json PairResult result_strings) (w : World)
    (t : Option ((SessionKeys × Completion) × List (SessionKeys × Completion)))
    → IsUnapproved w
    → IsUnapproved (complete crypto results w t)
unfolding complete
complete-IsUnapproved crypto results w none v = v
complete-IsUnapproved crypto results w (some ((keys, c), rest)) v = v

module _ (crypto : Crypto) (payloads : Json PairPayload payload_strings)
    (results : Json PairResult result_strings) (cancellations : Json Bool no_strings) where
  step-IsUnapproved :
      (w : World) (e : Event)
      → is_approval e ≡ false
      → IsUnapproved w
      → IsUnapproved (step crypto payloads results cancellations w e)
  unfolding step wait_for leave cancelled
  step-IsUnapproved w (hello d now writes r) h v =
      begin_hello-IsUnapproved w writes _ (λ s. answer_hello-fresh crypto w.host d now r) v
  step-IsUnapproved w (answer approved) h v = answer_prompt-IsUnapproved w approved w.prompts h v
  step-IsUnapproved w (confirm now r) h v = ground arith
  step-IsUnapproved w (decided i) h v =
      receive-IsUnapproved w (take_out i w.waiting) w.host.session refl v
  step-IsUnapproved w (installs i c) h v = install_approved-IsUnapproved w c i v
  step-IsUnapproved w (completes i) h v =
      complete-IsUnapproved crypto results w (take_out i w.answering) v
  step-IsUnapproved w (give_up i) h v = ground arith
  step-IsUnapproved w (cancel r) h v =
      (v.0, rw (cancelled-session crypto cancellations w r) v.1, v.2)
  step-IsUnapproved w service_fails h v = v

  run-IsUnapproved :
      (es : List Event) (w : World)
      → any is_approval es ≡ false
      → IsUnapproved w
      → IsUnapproved (run crypto payloads results cancellations w es)
  unfolding run
  run-IsUnapproved [] w h v = v
  run-IsUnapproved (e ∷ es) w h v =
      run-IsUnapproved es (step crypto payloads results cancellations w e) (ground arith)
        (step-IsUnapproved w e (ground arith) v)

  -- A host that never gets an approval from its user installs no key, whatever else happens.
  pub run-needs_approval :
      (options : HostOptions) (instance_id : Bytes) (es : List Event)
      → any is_approval es ≡ false
      → (run crypto payloads results cancellations (start options instance_id) es).installed ≡ []
  unfolding start
  run-needs_approval options instance_id es h =
      (run-IsUnapproved es (start options instance_id) h (refl, refl, refl)).0
