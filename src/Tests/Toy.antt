-- ===== src/Tests/Toy.antt =====
-- Concrete functions for what the pairing package imports, simple enough to run.
use mathlib.Core.List.{foldr}
use otherhost.Base.{
  ℕ, zero, suc, ◌+◌, ◌%◌, ◌<◌, ◌≡◌, refl, ap, Bool, true, false, ◌&&◌, [], ◌∷◌, ◌++◌, Option, none,
  some, arith, Bytes, length, All, all, ltb, ◌==◌, if◌then◌else◌, bytes_eq, bytes_eq_iff, codes, ℤ,
  pos, negsuc,
}
use otherhost.Text.Utf8.{valid_utf8}
use otherhost.Pairing.Crypto.{no_strings, Crypto, Json, IsByte}
use otherhost.Pairing.Messages.{result_strings, payload_strings, PairPayload, PairResult}

abbrev pub block : ℕ → ℕ → Bytes
block zero b = []
block (suc n) b = b ∷ block n b

pub length-block : (n b : ℕ) → length (block n b) ≡ n
length-block zero b = refl
length-block (suc n) b = ap suc (length-block n b)

pub block-IsByte : (n b : ℕ) → b < 256 → All IsByte (block n b)
block-IsByte zero b h = tt
block-IsByte (suc n) b h = (h, block-IsByte n b h)

abbrev pub checksum : Bytes → ℕ
checksum s = foldr ◌+◌ 0 s % 256

pub checksum-lt : (s : Bytes) → checksum s < 256
checksum-lt s = omega arith

abbrev pub toy_public_key : Bytes → Bytes
toy_public_key private_key = block 32 (checksum private_key)

-- Both sides add the two check sums.
abbrev pub head_of : Bytes → ℕ
head_of [] = 0
head_of (c ∷ s) = c

abbrev pub toy_ecdh : Bytes → Bytes → Option Bytes
toy_ecdh private_key peer = some (block 32 ((checksum private_key + head_of peer) % 256))

pub toy_ecdh_comm : (a b : Bytes) → toy_ecdh a (toy_public_key b) ≡ toy_ecdh b (toy_public_key a)
toy_ecdh_comm a b = ap (λ n. some (block 32 n)) (omega arith)

abbrev pub toy : Crypto
toy = record {
  hmac = λ key message. block 32 (checksum (key ++ message));
  hmac_size = λ key message. length-block 32 (checksum (key ++ message));
  sha256 = λ text. block 32 (checksum text);
  public_key = toy_public_key;
  public_key_size = λ key. length-block 32 (checksum key);
  public_key_bytes = λ key. block-IsByte 32 (checksum key) (checksum-lt key);
  accepts_peer = λ key. true;
  accepts_public_key = λ key. refl;
  ecdh = toy_ecdh;
  ecdh_comm = toy_ecdh_comm;
  accepts_key = λ key. true;
  accepts_long_key = λ key h. refl;
  gcm_seal = λ key nonce text ad. text;
  gcm_seal_bytes = λ key nonce text ad h. h;
  gcm_open = λ key nonce text ad. some text;
  gcm_open_seal = λ key nonce text ad. refl;
}

all_bytes : (s : Bytes) → all (λ b. ltb b 256) s ≡ true → All IsByte s
all_bytes [] h = tt
all_bytes (c ∷ s) h = ground (arith, all_bytes s)

abbrev pub marshal_payload : PairPayload → Option Bytes
marshal_payload p = if all (λ b. ltb b 256) p.ssh_public_key then some p.ssh_public_key else none

abbrev pub unmarshal_payload : Bytes → Option PairPayload
unmarshal_payload text = some (record { ssh_public_key = text })

pub marshal_payload_bytes :
    (p : PairPayload) (text : Bytes) → marshal_payload p ≡ some text → All IsByte text
marshal_payload_bytes p text h = ground (arith, all_bytes p.ssh_public_key)

pub unmarshal_marshal_payload :
    (p : PairPayload) (text : Bytes)
    → all valid_utf8 (payload_strings p) ≡ true
    → marshal_payload p ≡ some text
    → unmarshal_payload text ≡ some p
unmarshal_marshal_payload p text valid h = ground arith

abbrev pub payload_json : Json PairPayload payload_strings
payload_json = record {
  marshal = marshal_payload;
  unmarshal = unmarshal_payload;
  marshal_bytes = marshal_payload_bytes;
  unmarshal_marshal = unmarshal_marshal_payload;
}

abbrev pub marshal_flag : Bool → Option Bytes
marshal_flag b = some ((if b then 1 else 0) ∷ [])

abbrev pub unmarshal_flag : Bytes → Option Bool
unmarshal_flag [] = none
unmarshal_flag (c ∷ s) = some (c == 1)

pub marshal_flag_bytes : (b : Bool) (text : Bytes) → marshal_flag b ≡ some text → All IsByte text
marshal_flag_bytes b text h = ground arith

pub unmarshal_marshal_flag :
    (b : Bool) (text : Bytes)
    → all valid_utf8 (no_strings b) ≡ true
    → marshal_flag b ≡ some text
    → unmarshal_flag text ≡ some b
unmarshal_marshal_flag b text valid h = ground arith

abbrev pub flag_json : Json Bool no_strings
flag_json = record {
  marshal = marshal_flag;
  unmarshal = unmarshal_flag;
  marshal_bytes = marshal_flag_bytes;
  unmarshal_marshal = unmarshal_marshal_flag;
}

int_eq : ℤ → ℤ → Bool
int_eq (pos a) (pos b) = a == b
int_eq (negsuc a) (negsuc b) = a == b
int_eq _ _ = false

-- The one result that the test host sends.
abbrev pub sent_result : PairResult
sent_result = record {
  otherhost_name = codes "forge";
  host = codes "10.0.0.2";
  ssh_user = codes "dev";
  ssh_port = pos 2222;
  ssh_host_key =
      codes "ssh-ed25519 AAAAC3NzaC1lZDI1NTE5AAAAIAAAAAAAAAAAAAAAAAAAAAAAAAAAAAAAAAAAAAAAAAAA";
}

is_sent : PairResult → Bool
is_sent r =
    bytes_eq r.otherhost_name sent_result.otherhost_name
    && (bytes_eq r.host sent_result.host
        && (bytes_eq r.ssh_user sent_result.ssh_user
            && (int_eq r.ssh_port sent_result.ssh_port
                && bytes_eq r.ssh_host_key sent_result.ssh_host_key)))

int_eq-eq : (a b : ℤ) → int_eq a b ≡ true → a ≡ b
unfolding int_eq
int_eq-eq (pos a) (pos b) h = ground arith
int_eq-eq (negsuc a) (negsuc b) h = ground arith
int_eq-eq (pos a) (negsuc b) h = cc
int_eq-eq (negsuc a) (pos b) h = cc

is_sent-eq : (r : PairResult) → is_sent r ≡ true → sent_result ≡ r
unfolding is_sent
is_sent-eq r h = ground (
  arith,
  bytes_eq_iff r.otherhost_name sent_result.otherhost_name,
  bytes_eq_iff r.host sent_result.host,
  bytes_eq_iff r.ssh_user sent_result.ssh_user,
  int_eq-eq r.ssh_port sent_result.ssh_port,
  bytes_eq_iff r.ssh_host_key sent_result.ssh_host_key,
)

unfoldable pub marshal_result : PairResult → Option Bytes
unfolding is_sent int_eq bytes_eq
marshal_result r = if is_sent r then some (b'r' ∷ []) else none

abbrev pub unmarshal_result : Bytes → Option PairResult
unmarshal_result text = some sent_result

pub marshal_result_bytes :
    (r : PairResult) (text : Bytes) → marshal_result r ≡ some text → All IsByte text
unfolding marshal_result
marshal_result_bytes r text h = ground arith

pub unmarshal_marshal_result :
    (r : PairResult) (text : Bytes)
    → all valid_utf8 (result_strings r) ≡ true
    → marshal_result r ≡ some text
    → unmarshal_result text ≡ some r
unfolding marshal_result
unmarshal_marshal_result r text valid h = ground (arith, is_sent-eq r)

abbrev pub result_json : Json PairResult result_strings
result_json = record {
  marshal = marshal_result;
  unmarshal = unmarshal_result;
  marshal_bytes = marshal_result_bytes;
  unmarshal_marshal = unmarshal_marshal_result;
}
