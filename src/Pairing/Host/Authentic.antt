-- ===== src/Pairing/Host/Authentic.antt =====
-- Every key that the host installs came in a confirmation that was sealed under the session's keys.
use otherhost.Base.{
  ℕ, ◌≡◌, refl, Bool, true, false, List, [], ◌∷◌, Option, none, some, Bytes, All, Result, ok, err,
}
use otherhost.Pairing.Crypto.{no_strings, Crypto, Json}
use otherhost.Pairing.Host.Carried.{All-IsAmong, IsAmong, IsAuthentic, begin_confirm-IsAuthentic}
use otherhost.Pairing.Host.Handlers.{Completion}
use otherhost.Pairing.Host.Once.{answer_hello-fresh, cancelled-session}
use otherhost.Pairing.Host.Taken.{TakenAll, take_out-TakenAll}
use otherhost.Pairing.Host.World.{
  World, Waiting, Event, hello, answer, confirm, decided, give_up, cancel, service_fails, take_out,
  begin_hello, answer_prompt, wait_for, receive, install_approved, complete, installs, completes,
  leave, cancelled, decision_of, step, run, start, sent, install,
}
use otherhost.Pairing.Host.{HostOptions, HostSession, finish}
use otherhost.Pairing.Keys.{SessionKeys}
use otherhost.Pairing.Messages.{result_strings, payload_strings, PairPayload, PairResult}

module _ (crypto : Crypto) (payloads : Json PairPayload payload_strings)
    (Happened : Event → Type 0) where
  abbrev Fits : HostSession → Waiting → Type 0
  Fits s wt = (wt.keys ≡ s.keys) × IsAuthentic crypto payloads Happened s.id s.keys wt.public_key

  -- Before a session nothing waits and nothing is installed; in a session only its own keys are.
  abbrev AuthenticIn : Option HostSession → List Waiting → List Waiting → List Bytes → Type 0
  AuthenticIn none waiting approved installed = (waiting ≡ []) × (approved ≡ []) × (installed ≡ [])
  AuthenticIn (some s) waiting approved installed =
      All (Fits s) waiting
      × All (Fits s) approved
      × All (IsAuthentic crypto payloads Happened s.id s.keys) installed

  abbrev IsSealed : World → Type 0
  IsSealed w = AuthenticIn w.host.session w.waiting w.approved w.installed

  opened :
      (s : HostSession) {ws vs : List Waiting} {ks : List Bytes}
      → AuthenticIn none ws vs ks
      → AuthenticIn (some s) ws vs ks
  opened s (no_waiting, no_approved, no_key) = (rw no_waiting tt, rw no_approved tt, rw no_key tt)

  begin_hello-IsSealed :
      (w : World) (writes : Bool) (r : Result ℕ HostSession)
      → ((s : HostSession) → r ≡ ok s → w.host.session ≡ none)
      → IsSealed w
      → IsSealed (begin_hello w writes r)
  unfolding begin_hello finish
  begin_hello-IsSealed w writes (err e) f v = v
  begin_hello-IsSealed w true (ok s) f v = opened s (rw (f s refl) at v)
  begin_hello-IsSealed w false (ok s) f v = opened s (rw (f s refl) at v)

  sent-IsSealed :
      (w : World) (approved : Bool) (session : Option HostSession)
      → w.host.session ≡ session
      → IsSealed w
      → IsSealed (sent w approved session)
  sent-IsSealed w approved none e v = v
  sent-IsSealed w approved (some s) e v = rw e at v

  answer_prompt-IsSealed :
      (w : World) (approved : Bool) (ps : List (Bytes × Bytes))
      → IsSealed w
      → IsSealed (answer_prompt w approved ps)
  unfolding answer_prompt finish
  answer_prompt-IsSealed w approved [] v = v
  answer_prompt-IsSealed w true (p ∷ rest) v =
      sent-IsSealed (record w { prompts = rest }) true w.host.session refl v
  answer_prompt-IsSealed w false (p ∷ rest) v =
      sent-IsSealed (record w { prompts = rest }) false w.host.session refl v

  wait_for-IsSealed :
      (w : World) (r : Result ℕ (Bytes × HostSession))
      → ((key : Bytes) (s : HostSession)
          → r ≡ ok (key, s)
          → (w.host.session ≡ some s) × IsAuthentic crypto payloads Happened s.id s.keys key)
      → IsSealed w
      → IsSealed (wait_for w r)
  unfolding wait_for
  wait_for-IsSealed w (err e) f v = v
  wait_for-IsSealed w (ok (key, s)) f v =
      let (e, a) = f key s refl in
      let (waits, approved, keys) = rw e at v in rw e (((refl, a), waits), approved, keys)

  abbrev TakenIn : Option HostSession → Option (Waiting × List Waiting) → Type 0
  TakenIn none t = t ≡ none
  TakenIn (some s) t = TakenAll (Fits s) t

  take_out-TakenIn :
      (session : Option HostSession) (i : ℕ) (ws vs : List Waiting) (ks : List Bytes)
      → AuthenticIn session ws vs ks
      → TakenIn session (take_out i ws)
  take_out-TakenIn none i ws vs ks (e, _, _) = rw e (unfold take_out in refl)
  take_out-TakenIn (some s) i ws vs ks (a, _, _) = take_out-TakenAll (Fits s) i ws a

  leave-IsSealed :
      (w : World) (t : Option (Waiting × List Waiting)) (session : Option HostSession)
      → w.host.session ≡ session
      → TakenIn session t
      → IsSealed w
      → IsSealed (leave w t)
  unfolding leave
  leave-IsSealed w none session e h v = v
  leave-IsSealed w (some (wt, rest)) none e h v = cc
  leave-IsSealed w (some (wt, rest)) (some s) e (_, a) v =
      let (_, approved, keys) = rw e at v in rw e (a, approved, keys)

  take_out_approved :
      (session : Option HostSession) (i : ℕ) (ws vs : List Waiting) (ks : List Bytes)
      → AuthenticIn session ws vs ks
      → TakenIn session (take_out i vs)
  take_out_approved none i ws vs ks (_, e, _) = rw e (unfold take_out in refl)
  take_out_approved (some s) i ws vs ks (_, a, _) = take_out-TakenAll (Fits s) i vs a

  receive-IsSealed :
      (w : World) (t : Option (Waiting × List Waiting)) (session : Option HostSession)
      (d : Option Bool)
      → w.host.session ≡ session
      → TakenIn session t
      → IsSealed w
      → IsSealed (receive w t session d)
  unfolding receive
  receive-IsSealed w none session d e h v = v
  receive-IsSealed w (some t) none d e h v = cc
  receive-IsSealed w (some t) (some s) none e h v = v
  receive-IsSealed w (some (wt, rest)) (some s) (some false) e (_, a) v =
      let (_, approved, keys) = rw e at v in (a, approved, keys)
  receive-IsSealed w (some (wt, rest)) (some s) (some true) e (x, a) v =
      let (_, approved, installed) = rw e at v in (a, (x, approved), installed)

  install-All :
      (s : HostSession) (done : Bool) (key : Bytes) (keys : List Bytes)
      → IsAuthentic crypto payloads Happened s.id s.keys key
      → All (IsAuthentic crypto payloads Happened s.id s.keys) keys
      → All (IsAuthentic crypto payloads Happened s.id s.keys) (install done key keys)
  install-All s true key keys x xs = (x, xs)
  install-All s false key keys x xs = xs

  install_approved-IsSealed :
      (w : World) (c : Completion) (t : Option (Waiting × List Waiting))
      (session : Option HostSession)
      → w.host.session ≡ session
      → TakenIn session t
      → IsSealed w
      → IsSealed (install_approved w c t)
  unfolding install_approved
  install_approved-IsSealed w c none session e h v = v
  install_approved-IsSealed w c (some t) none e h v = cc
  install_approved-IsSealed w c (some (wt, rest)) (some s) e ((_, x), a) v =
      let (waits, _, keys) = rw e at v in
      rw e (waits, a, install-All s c.installs wt.public_key w.installed x keys)

  complete-IsSealed :
      (results : Json PairResult result_strings) (w : World)
      (t : Option ((SessionKeys × Completion) × List (SessionKeys × Completion)))
      → IsSealed w
      → IsSealed (complete crypto results w t)
  unfolding complete finish
  complete-IsSealed results w none v = v
  complete-IsSealed results w (some ((keys, c), rest)) v = v

  module _ (results : Json PairResult result_strings) (cancellations : Json Bool no_strings) where
    step-IsSealed :
        (w : World) (e : Event)
        → Happened e
        → IsSealed w
        → IsSealed (step crypto payloads results cancellations w e)
    unfolding step cancelled
    step-IsSealed w (hello d now writes r) m v =
        begin_hello-IsSealed w writes _ (λ s h. (answer_hello-fresh crypto w.host d now r h).0) v
    step-IsSealed w (answer approved) m v = answer_prompt-IsSealed w approved w.prompts v
    step-IsSealed w (confirm now r) m v =
        wait_for-IsSealed w _
          (λ key s. begin_confirm-IsAuthentic crypto payloads Happened w.host now r m) v
    step-IsSealed w (decided i) m v =
        receive-IsSealed w (take_out i w.waiting) w.host.session (decision_of w.host.session) refl
          (take_out-TakenIn w.host.session i w.waiting w.approved w.installed v) v
    step-IsSealed w (installs i c) m v =
        install_approved-IsSealed w c (take_out i w.approved) w.host.session refl
          (take_out_approved w.host.session i w.waiting w.approved w.installed v) v
    step-IsSealed w (completes i) m v = complete-IsSealed results w (take_out i w.answering) v
    step-IsSealed w (give_up i) m v =
        leave-IsSealed w (take_out i w.waiting) w.host.session refl
          (take_out-TakenIn w.host.session i w.waiting w.approved w.installed v) v
    step-IsSealed w (cancel r) m v = rw (cancelled-session crypto cancellations w r) v
    step-IsSealed w service_fails m v = v

    run-IsSealed :
        (es : List Event) (w : World)
        → All Happened es
        → IsSealed w
        → IsSealed (run crypto payloads results cancellations w es)
    unfolding run
    run-IsSealed [] w m v = v
    run-IsSealed (e ∷ es) w m v =
        run-IsSealed es (step crypto payloads results cancellations w e) m.1
          (step-IsSealed w e m.0 v)

    installed-IsAuthentic :
        (session : Option HostSession) (ws vs : List Waiting) (ks : List Bytes) (s : HostSession)
        → session ≡ some s
        → AuthenticIn session ws vs ks
        → All (IsAuthentic crypto payloads Happened s.id s.keys) ks
    installed-IsAuthentic session ws vs ks s e v = (rw e at v).2

module _ (crypto : Crypto) (payloads : Json PairPayload payload_strings)
    (results : Json PairResult result_strings) (cancellations : Json Bool no_strings) where
  -- In any run of a pairing host with a session, each key that was installed came in a confirmation of that
  -- run, which was posted from a local address with the session's id, and whose message opens under that
  -- session's client-to-host key and transcript to a payload with the key.
  pub run-IsAuthentic :
      (options : HostOptions) (instance_id : Bytes) (es : List Event) (s : HostSession)
      → (run crypto payloads results cancellations (start options instance_id) es).host.session
        ≡ some s
      → All
          (IsAuthentic crypto payloads (IsAmong es) s.id s.keys)
          (run crypto payloads results cancellations (start options instance_id) es).installed
  unfolding start
  run-IsAuthentic options instance_id es s e =
      let w = run crypto payloads results cancellations (start options instance_id) es in
      installed-IsAuthentic crypto payloads (IsAmong es) results cancellations w.host.session
        w.waiting w.approved w.installed s e
        (run-IsSealed crypto payloads (IsAmong es) results cancellations es
          (start options instance_id) (All-IsAmong (IsAmong es) es (λ e m. m)) (refl, refl, refl))
