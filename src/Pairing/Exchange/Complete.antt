-- ===== src/Pairing/Exchange/Complete.antt =====
-- A pairing that nothing disturbs, from the hello to the result.
use otherhost.Base.{
  ℕ, ◌+◌, ◌/◌, ◌^◌, ◌≤◌, ◌≡◌, refl, sym, ap, subst, ◌∙◌, true, false, [], ◌∷◌, none, some, arith,
  Bool, Bytes, bytes_eq_refl, All, all, length, ok, pos,
}
use otherhost.Pairing.Client.Agreement.{accept_hello-answer_hello}
use otherhost.Pairing.Client.{
  ClientOptions, ClientSession, Greeting, accept_hello, accept_result, confirm_pairing, greet,
  is_no_ip, valid_expiry,
}
use otherhost.Pairing.Crypto.{no_strings, Crypto, IsByte, Json}
use otherhost.Pairing.Exchange.Answered.{
  answer_accepted, drawn, hello_answered, local_post-posted, posted,
}
use otherhost.Pairing.Exchange.Hello.{TakesKeys}
use otherhost.Pairing.Exchange.Run.{
  at_confirm, idle, in_session, pairing_events, run-pairing_events,
}
use otherhost.Pairing.Exchange.Steps.{
  accept_hello-response, accept_result-opened, answer_hello-opened, begin_confirm-opened,
  complete_confirm-paired, confirm_pairing-sealed, confirm_pairing-sent, seal-sealed,
}
use otherhost.Pairing.Exchange.Texts.{
  valid_utf8-clean_device_name, valid_utf8-key_line, valid_utf8-valid_identifier,
}
use otherhost.Text.Utf8.{valid_utf8}
use otherhost.Pairing.Install.KeyLine.{normalize_ed25519_public_key-IsKeyLine}
use otherhost.Pairing.Host.Handlers.{
  Completion, answer_hello, begin_confirm, complete_confirm, current_session, is_pairing,
  pair_result,
}
use otherhost.Pairing.Host.World.{run, start}
use otherhost.Pairing.Host.{HostOptions, HostSession, PairingHost, Response, paired}
use otherhost.Pairing.Install.Normal.{normalize_ed25519_public_key_again}
use otherhost.Pairing.Keys.Sealing.{open_sealed-seal}
use otherhost.Pairing.Keys.{open_sealed}
use otherhost.Pairing.Local.{Ip, is_local_network_ip}
use otherhost.Pairing.Messages.{
  result_strings, payload_strings, ConfirmRequest, ConfirmResponse, PairPayload, PairResult,
}
use otherhost.Pairing.Names.{clean_device_name, valid_identifier, valid_port}
use otherhost.Pairing.Ssh.{normalize_ed25519_public_key}

-- A completion without a failure.
abbrev pub undisturbed : Bytes → Bytes → Bytes → Completion
undisturbed host_key nonce address = record {
  installs = true;
  host_key = some host_key;
  nonce = some nonce;
  writes = true;
  local_address = address;
}

greet-key :
    (crypto : Crypto) (o : ClientOptions) (k n : Bytes) (g : Greeting)
    → greet crypto o (some k) (some n) ≡ ok g
    → normalize_ed25519_public_key o.ssh_public_key ≡ ok g.public_key
unfolding greet
greet-key crypto o k n g e = ground arith

current_session-own :
    (host : PairingHost) (s : HostSession) (id : Bytes)
    → host.session ≡ some s
    → id ≡ s.id
    → current_session host id ≡ some s
unfolding current_session
current_session-own host s id h e = rw (h, e, bytes_eq_refl s.id) refl

module _ (crypto : Crypto) (payloads : Json PairPayload payload_strings) where
  -- The confirmation of the host's own client.
  begin_confirm_own :
      (early : Bool) (options : HostOptions) (instance_id : Bytes) (later : ℕ) (ip : Ip)
      (q : ConfirmRequest) (s : HostSession) (key : Bytes)
      → is_local_network_ip ip ≡ true
      → q.session_id ≡ s.id
      → later ≤ s.expires
      → open_sealed crypto payloads s.keys.client_to_host s.keys.transcript q.nonce q.ciphertext
        ≡ ok (record { ssh_public_key = key })
      → normalize_ed25519_public_key key ≡ ok key
      → begin_confirm crypto payloads
          (in_session options instance_id (at_confirm early s))
          later
          (posted ip q)
        ≡ ok (key, at_confirm early s)
  begin_confirm_own true options instance_id later ip q s key l i t o n =
      begin_confirm-opened crypto payloads (in_session options instance_id s) later (posted ip q) q
        s key (local_post-posted ip q l) refl refl
        (current_session-own (in_session options instance_id s) s q.session_id refl i) t o n
  begin_confirm_own false options instance_id later ip q s key l i t o n =
      let decided = at_confirm false s in
      begin_confirm-opened crypto payloads (in_session options instance_id decided) later
        (posted ip q) q decided key (local_post-posted ip q l) refl refl
        (current_session-own (in_session options instance_id decided) decided q.session_id refl i) t
        o n

module _ (crypto : Crypto) where
  -- The hello and its answer, and what both sides hold behind them.
  hello_exchanged :
      (o : ClientOptions) (g : Greeting) (options : HostOptions) (now : ℕ) (ip : Ip)
      (k n p host_nonce id secret : Bytes)
      → greet crypto o (some k) (some n) ≡ ok g
      → All IsByte n × (length n ≡ 32)
      → All IsByte host_nonce × (length host_nonce ≡ 32)
      → length id ≡ 16
      → crypto.ecdh p (crypto.public_key k) ≡ some secret
      → is_local_network_ip ip ≡ true
      → clean_device_name options.name ≡ clean_device_name o.device.name
      → valid_expiry (pos (options.duration / 10 ^ 9)) ≡ true
      → (s : HostSession) × (session : ClientSession) × (answer_hello crypto
            (idle options o.device.instance_id)
            (drawn p host_nonce id)
            now
            (posted ip g.hello)
          ≡ ok s)
        × (accept_hello crypto g s.response ≡ ok session)
        × (session.keys ≡ s.keys)
        × (session.code ≡ s.code)
        × (session.response.session_id ≡ s.id)
        × (session.response.host_name ≡ options.name)
        × (s.expires ≡ now + options.duration)
        × (s.decision ≡ none)
        × TakesKeys crypto s.keys
  unfolding is_pairing
  hello_exchanged o g options now ip k n p host_nonce id secret e nb hb ib x local name expiry =
      let host = idle options o.device.instance_id in
      let (s, opened, response, expires, undecided, id_is, takes) =
        hello_answered crypto o k n g host now ip p host_nonce id secret e nb.0 nb.1 refl refl local
          x in
      let (session, accepted) =
        answer_accepted crypto o k n g host s.response p host_nonce id secret e response name expiry
          hb.0 hb.1 ib x in
      let (keys, code) =
        accept_hello-answer_hello crypto o (some k) (some n) g host (drawn p host_nonce id) now
          (posted ip g.hello) s session e refl opened accepted in
      let answered = accept_hello-response crypto g s.response session accepted in
      let (own_id, own_name, _) =
        answer_hello-opened crypto host (drawn p host_nonce id) now (posted ip g.hello) s opened in
      (
        s,
        session,
        opened,
        accepted,
        keys,
        code,
        ap (λ r. r.session_id) answered ∙ own_id,
        ap (λ r. r.host_name) answered ∙ own_name,
        expires,
        undecided,
        takes,
      )

module _ (crypto : Crypto) (payloads : Json PairPayload payload_strings)
    (results : Json PairResult result_strings) (cancellations : Json Bool no_strings)
    (parse_ip : Bytes → Ip) where
  -- A client whose device and SSH key are valid greets, from a local address, a host that has just begun
  -- to listen under that device's name and instance, with valid settings and a window of 10 to 600
  -- seconds. If all draws succeed with their sizes, the key exchange gives a secret, the messages can be
  -- marshalled (the host's address and key being valid UTF-8), the confirmation comes before the session
  -- expires, the host's user approves, and the install, the reading of a valid host key and the answer from
  -- a local address succeed, then the host opens a session, the client accepts its answer with the same
  -- code and sends a confirmation; and whether that or the approval comes first, the host ends as paired,
  -- with the client's key installed and no other, and the client accepts the result, with the host's key in
  -- normal form.
  pub run_completes_pairing :
      (early : Bool) (o : ClientOptions) (g : Greeting) (options : HostOptions) (now later : ℕ)
      (ip : Ip) (k n p host_nonce id secret : Bytes)
      (payload_nonce payload_text result_nonce result_text address host_key line : Bytes)
      → greet crypto o (some k) (some n) ≡ ok g
      → All IsByte n × (length n ≡ 32)
      → All IsByte host_nonce × (length host_nonce ≡ 32)
      → length id ≡ 16
      → All IsByte payload_nonce × (length payload_nonce ≡ 12)
      → All IsByte result_nonce × (length result_nonce ≡ 12)
      → crypto.ecdh p (crypto.public_key k) ≡ some secret
      → is_local_network_ip ip ≡ true
      → (clean_device_name o.device.name ≡ ok options.name)
        × (clean_device_name options.name ≡ ok options.name)
      → valid_expiry (pos (options.duration / 10 ^ 9)) ≡ true
      → later ≤ now + options.duration
      → payloads.marshal (record { ssh_public_key = g.public_key }) ≡ some payload_text
      → let host = idle options o.device.instance_id in
        let given = pair_result crypto results host address host_key in
        let c = undisturbed host_key result_nonce address in
        results.marshal given ≡ some result_text
        → (is_no_ip (parse_ip address) ≡ false) × (is_local_network_ip (parse_ip address) ≡ true)
        → (valid_identifier options.ssh_user ≡ true) × (valid_port options.ssh_port ≡ true)
        → normalize_ed25519_public_key host_key ≡ ok line
        → all valid_utf8 (address ∷ host_key ∷ []) ≡ true
        → (s : HostSession) × (session : ClientSession) × (q : ConfirmRequest)
          × (a : ConfirmResponse) × (answer_hello crypto host
                (drawn p host_nonce id)
                now
                (posted ip g.hello)
              ≡ ok s)
          × (accept_hello crypto g s.response ≡ ok session)
          × (session.code ≡ s.code)
          × (confirm_pairing crypto payloads g session (some payload_nonce) ≡ ok q)
          × (let w =
                run crypto payloads results cancellations (start options o.device.instance_id) (
                  pairing_events early
                    (drawn p host_nonce id)
                    now
                    (posted ip g.hello)
                    later
                    (posted ip q)
                    c) in
              (w.host.done ≡ some paired) × (w.installed ≡ g.public_key ∷ []))
          × ((complete_confirm crypto results
                (in_session options o.device.instance_id (record s { decision = none }))
                s.keys
                c).1
              ≡ Response.confirmed a)
          × (accept_result crypto results parse_ip session a
              ≡ ok (record given { ssh_host_key = line }))
  unfolding pair_result
  run_completes_pairing early o g options now later ip k n p host_nonce id secret payload_nonce
        payload_text result_nonce result_text address host_key line e nb hb ib pb rb x local name
        expiry time pm rm at valid normal utf8 =
      let host = idle options o.device.instance_id in
      let given = pair_result crypto results host address host_key in
      let c = undisturbed host_key result_nonce address in
      let own_key = greet-key crypto o k n g e in
      let valid_key =
        valid_utf8-key_line g.public_key
          (normalize_ed25519_public_key-IsKeyLine o.ssh_public_key g.public_key own_key) in
      let valid_name = valid_utf8-clean_device_name options.name options.name name.1 in
      let valid_user = valid_utf8-valid_identifier options.ssh_user valid.0 in
      let (s, session, opened, accepted, keys, code, own_id, own_name, expires, undecided, takes) =
        hello_exchanged crypto o g options now ip k n p host_nonce id secret e nb hb ib x local
          (name.1 ∙ sym name.0) expiry in
      let (q, sent) =
        confirm_pairing-sent crypto payloads g session payload_nonce payload_text pm
          (subst (TakesKeys crypto) (sym keys) takes).0 in
      let (q_id, sealed) = confirm_pairing-sealed crypto payloads g session payload_nonce q sent in
      let read =
        ap (λ t. open_sealed crypto payloads t.client_to_host t.transcript q.nonce q.ciphertext)
          (sym keys)
        ∙ open_sealed-seal crypto payloads session.keys.client_to_host session.keys.transcript
            payload_nonce (record { ssh_public_key = g.public_key }) pb.0 pb.1
            (ground (arith, valid_key)) sealed in
      let begun =
        begin_confirm_own crypto payloads early options o.device.instance_id later ip q s
          g.public_key local (q_id ∙ own_id) (subst (λ t. later ≤ t) (sym expires) time) read
          (normalize_ed25519_public_key_again o.ssh_public_key g.public_key own_key) in
      let (m, result_sealed) =
        seal-sealed crypto results s.keys.host_to_client s.keys.transcript result_nonce result_text
          given rm takes.1 in
      let a : ConfirmResponse = record { nonce = m.0; ciphertext = m.1 } in
      let completed =
        complete_confirm-paired crypto results
          (in_session options o.device.instance_id (record s { decision = none })) s.keys c host_key
          m.0 m.1 refl refl refl result_sealed in
      let shown =
        ap (λ t. open_sealed crypto results t.host_to_client t.transcript m.0 m.1) keys
        ∙ open_sealed-seal crypto results s.keys.host_to_client s.keys.transcript result_nonce given
            rb.0 rb.1 (ground (arith, valid_name, valid_user, utf8)) result_sealed in
      (
        s,
        session,
        q,
        a,
        opened,
        accepted,
        code,
        sent,
        run-pairing_events crypto payloads results cancellations early options o.device.instance_id
            (drawn p host_nonce id) now (posted ip g.hello) later (posted ip q) c s g.public_key
            (Response.confirmed a) opened undecided begun completed refl,
        ap (λ o. o.1) completed,
        accept_result-opened crypto results parse_ip session a given options.name line shown name.1
            (sym own_name) at.0 at.1 valid.0 valid.1 normal,
      )
