-- ===== src/Dashboard/Messages.antt =====
-- The input that a terminal socket passes on, and the path of a terminal session.
use otherhost.Base.{
  ℕ, zero, suc, ◌-◌, ◌≤◌, ◌≡◌, refl, sym, subst, ap, ◌∙◌, true, false, [], ◌∷◌, ◌++◌, Option, none,
  some, arith, ◌≢◌, ok, Bytes, bytes_eq, length, take, drop, append_assoc, append-nil,
  reverse-append, length-append, reverse, take_append, drop_append,
}
use otherhost.Text.Base64.Url.{contains_byte-raw_url_encode, raw_url_encode}
use otherhost.Dashboard.Server.{is_get, random_token}
use otherhost.Dashboard.Sockets.{
  SocketRequest, admit_socket, terminal_web_socket_origin_allowed, MessageFault, TerminalDevice,
  count, out_of_fuel, socket_path, socket_prefix, socket_suffix, terminal_session_id,
  write_terminal_input, resume,
}
use otherhost.Text.{contains_byte, has_prefix}
use otherhost.Text.Parts.{has_suffix, trim_prefix, trim_suffix}

append-take-drop : (n : ℕ) (m : Bytes) → take n m ++ drop n m ≡ m
append-take-drop zero m = refl
append-take-drop (suc n) [] = refl
append-take-drop (suc n) (b ∷ m) = ap (◌∷◌ b) (append-take-drop n m)

length-drop-le : (n : ℕ) (m : Bytes) → length (drop n m) ≤ length m
length-drop-le zero m = omega arith
length-drop-le (suc n) [] = omega arith
length-drop-le (suc n) (b ∷ m) = omega (arith, length-drop-le n m)

module _ {T : Type 0} (device : TerminalDevice T) where
  -- The contract of `io.Writer`: `Write` takes in the front of the message that it counts.
  abbrev pub IsWriter : Type 0
  IsWriter =
      (t : T) (message : Bytes) (n : ℕ)
      → (device.write t message).1 ≡ some n
      → (n ≤ length message)
        × (device.received (device.write t message).0 ≡ device.received t ++ take n message)

  -- The whole message was taken in, or there was a fault, which is not the model's own.
  abbrev pub Delivers : T → Bytes → T × Option MessageFault → Type 0
  Delivers t message (after, none) = device.received after ≡ device.received t ++ message
  Delivers t message (after, some fault) = fault ≢ out_of_fuel

  resume-Delivers :
      (t after : T) (message : Bytes) (r : Option ℕ) (rest : T × Option MessageFault)
      → ((n : ℕ)
          → r ≡ some n
          → (n ≤ length message) × (device.received after ≡ device.received t ++ take n message))
      → ((k : ℕ) → r ≡ some (suc k) → Delivers after (drop (suc k) message) rest)
      → Delivers t message (resume device after r rest)
  resume-Delivers t after message none rest law ih = λ e. cc
  resume-Delivers t after message (some zero) rest law ih = λ e. cc
  resume-Delivers t after message (some (suc k)) (last, none) law ih =
      ih k refl
      ∙ ap (λ front. front ++ drop (suc k) message) ((law (suc k) refl).1)
      ∙ append_assoc (device.received t) (take (suc k) message) (drop (suc k) message)
      ∙ ap (λ m. device.received t ++ m) (append-take-drop (suc k) message)
  resume-Delivers t after message (some (suc k)) (last, some fault) law ih = ih k refl

  -- On fuel for each byte, the loop of `writeTerminalInput` ends by itself; without an error the terminal
  -- has received all bytes of the message in order, each once, in however many pieces.
  pub write_terminal_input-Delivers :
      IsWriter
      → (fuel : ℕ) (t : T) (message : Bytes) → length message ≤ fuel
      → Delivers t message (write_terminal_input device fuel t message)
  unfolding write_terminal_input
  write_terminal_input-Delivers law fuel t [] e = sym (append-nil (device.received t))
  write_terminal_input-Delivers law zero t (b ∷ m) e = ground arith
  write_terminal_input-Delivers law (suc fuel) t (b ∷ m) e =
      let (after, r) = device.write t (b ∷ m) in
      resume-Delivers t after (b ∷ m) r
        (write_terminal_input device fuel after (drop (count r) (b ∷ m))) (law t (b ∷ m))
        (λ k h.
          subst
            (λ n.
              Delivers after (drop (suc k) (b ∷ m))
                (write_terminal_input device fuel after (drop (count n) (b ∷ m))))
            (sym h)
            (write_terminal_input-Delivers law fuel after (drop k m)
              (omega (arith, length-drop-le k m))))

has_prefix-append : (p s : Bytes) → has_prefix (p ++ s) p ≡ true
unfolding has_prefix
has_prefix-append [] s = refl
has_prefix-append (x ∷ p) s = ground (arith, has_prefix-append p s)

has_suffix-append : (s suffix : Bytes) → has_suffix (s ++ suffix) suffix ≡ true
unfolding has_suffix
has_suffix-append s suffix =
    ap (λ r. has_prefix r (reverse suffix)) (reverse-append s suffix)
    ∙ has_prefix-append (reverse suffix) (reverse s)

trim_prefix-append : (p s : Bytes) → trim_prefix (p ++ s) p ≡ s
unfolding trim_prefix
trim_prefix-append p s = rw (has_prefix-append p s) (drop_append p s (length p) refl)

trim_suffix-append : (s suffix : Bytes) → trim_suffix (s ++ suffix) suffix ≡ s
unfolding trim_suffix
trim_suffix-append s suffix = rw (has_suffix-append s suffix) (
    take_append s suffix (length (s ++ suffix) - length suffix)
      (omega (arith, length-append s suffix)))

socket_path_lem :
    (id : Bytes)
    → bytes_eq id [] ≡ false
    → contains_byte id 47 ≡ false
    → terminal_session_id (socket_path id) ≡ some id
unfolding terminal_session_id socket_path
socket_path_lem id n s =
    let p = has_prefix-append socket_prefix (id ++ socket_suffix) in
    let q =
      ap (λ x. has_suffix x socket_suffix) (sym (append_assoc socket_prefix id socket_suffix))
      ∙ has_suffix-append (socket_prefix ++ id) socket_suffix in
    let t = trim_prefix-append socket_prefix (id ++ socket_suffix) in
    let u = trim_suffix-append id socket_suffix in rw (p, q, t, u, n, s) refl

raw_url_encode_given : (s : Bytes) → length s ≡ 18 → bytes_eq (raw_url_encode s) [] ≡ false
unfolding raw_url_encode bytes_eq
raw_url_encode_given [] h = absurd (ground arith)
raw_url_encode_given (a ∷ []) h = refl
raw_url_encode_given (a ∷ b ∷ []) h = refl
raw_url_encode_given (a ∷ b ∷ c ∷ s) h = refl

random_token-drawn :
    (drawn id : Bytes)
    → length drawn ≡ 18
    → random_token (some drawn) ≡ some id
    → (bytes_eq id [] ≡ false) × (contains_byte id 47 ≡ false)
unfolding random_token
random_token-drawn drawn id size e =
    let same : raw_url_encode drawn ≡ id = ground arith in
    (
      ap (λ t. bytes_eq t []) (sym same) ∙ raw_url_encode_given drawn size,
      ap (λ t. contains_byte t 47) (sym same) ∙ contains_byte-raw_url_encode drawn,
    )

-- An id that `randomToken` makes of 18 drawn bytes, whatever they are, is read back from the path of its
-- socket; so a GET request for that path from an allowed origin is admitted with this id.
pub terminal_session_id-socket_path :
    (drawn id : Bytes) (r : SocketRequest)
    → length drawn ≡ 18
    → random_token (some drawn) ≡ some id
    → is_get r.method ≡ true
    → terminal_web_socket_origin_allowed r ≡ true
    → (terminal_session_id (socket_path id) ≡ some id)
      × (admit_socket (record r { path = socket_path id }) ≡ ok (id, r.protocols))
unfolding admit_socket terminal_web_socket_origin_allowed
terminal_session_id-socket_path drawn id r size e get origin =
    let (n, s) = random_token-drawn drawn id size e in
    let back = socket_path_lem id n s in (back, rw (get, back, origin) refl)
