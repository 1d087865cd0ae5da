-- ===== src/Pairing/Client/Trust.antt =====
-- What a client takes from the host that it has paired with.
use otherhost.Base.{◌≡◌, inl, inr, Result-cases, true, arith, Bytes, bytes_eq, bytes_eq_iff, ok}
use otherhost.Pairing.Client.{ClientSession, accept_result}
use otherhost.Pairing.Crypto.{Crypto, Json}
use otherhost.Pairing.Install.KeyLine.{IsKeyLine, normalize_ed25519_public_key-IsKeyLine}
use otherhost.Pairing.Keys.{open_sealed}
use otherhost.Pairing.Local.{Ip, is_local_network_ip}
use otherhost.Pairing.Messages.{result_strings, ConfirmResponse, PairResult}
use otherhost.Pairing.Names.{valid_identifier, valid_port}
use otherhost.Pairing.Ssh.{normalize_ed25519_public_key}

module _ (crypto : Crypto) (results : Json PairResult result_strings) (parse_ip : Bytes → Ip) where
  accept_result-parts :
      (s : ClientSession) (confirmation : ConfirmResponse) (r : PairResult)
      → accept_result crypto results parse_ip s confirmation ≡ ok r
      → (bytes_eq r.otherhost_name s.response.host_name ≡ true)
        × (is_local_network_ip (parse_ip r.host) ≡ true)
        × (valid_identifier r.ssh_user ≡ true)
        × (valid_port r.ssh_port ≡ true)
  unfolding accept_result
  accept_result-parts s confirmation r e = ground arith

  -- The opened result and its key in normal form.
  accept_result-opened :
      (s : ClientSession) (confirmation : ConfirmResponse) (r : PairResult)
      → accept_result crypto results parse_ip s confirmation ≡ ok r
      → (given : PairResult) × (open_sealed crypto results s.keys.host_to_client s.keys.transcript
            confirmation.nonce confirmation.ciphertext
          ≡ ok given)
        × (normalize_ed25519_public_key given.ssh_host_key ≡ ok r.ssh_host_key)
        × (r ≡ record given { ssh_host_key = r.ssh_host_key })
  unfolding accept_result
  accept_result-opened s confirmation r e =
      elim (Result-cases (
        open_sealed crypto results s.keys.host_to_client s.keys.transcript confirmation.nonce
          confirmation.ciphertext)) [
            | inl (given, o) ↦ (given, o, ground arith, ground arith)
            | inr (fault, o) ↦ absurd (ground arith)
          ]

  -- The result of a client that pairs is the one that opens from the host's answer under the session's
  -- host-to-client key and transcript, with its SSH host key brought into normal form and nothing else
  -- changed. It has the name of the host that the user has confirmed, a local address, a valid user and
  -- port, and a host key that is one line.
  pub accept_result-IsKeyLine :
      (s : ClientSession) (confirmation : ConfirmResponse) (r : PairResult)
      → accept_result crypto results parse_ip s confirmation ≡ ok r
      → (r.otherhost_name ≡ s.response.host_name)
        × (is_local_network_ip (parse_ip r.host) ≡ true)
        × (valid_identifier r.ssh_user ≡ true)
        × (valid_port r.ssh_port ≡ true)
        × IsKeyLine r.ssh_host_key
        × ((given : PairResult) × (open_sealed crypto results s.keys.host_to_client
                s.keys.transcript confirmation.nonce confirmation.ciphertext
              ≡ ok given)
            × (normalize_ed25519_public_key given.ssh_host_key ≡ ok r.ssh_host_key)
            × (r ≡ record given { ssh_host_key = r.ssh_host_key }))
  accept_result-IsKeyLine s confirmation r e =
      let (n, l, u, p) = accept_result-parts s confirmation r e in
      let (given, o, k, same) = accept_result-opened s confirmation r e in
      (
        (bytes_eq_iff r.otherhost_name s.response.host_name).0 n,
        l,
        u,
        p,
        normalize_ed25519_public_key-IsKeyLine given.ssh_host_key r.ssh_host_key k,
        (given, o, k, same),
      )
