-- ===== src/Tests/Fixtures.antt =====
-- A small deployment: one agent, one caller with one grant, and stand-ins for the libraries.
use Prim.Native.Char.{code}
use Prim.Native.String.{len}
use uncluster.Prelude.{
  ℕ, zero, suc, ◌+◌, String, ◌≡◌, refl, ap, ◌∙◌, false, Option, none, some, List, [], ◌∷◌, ◌==◌,
  length, if◌then◌else◌, arith, str_eq, decimal, any_char,
}
use uncluster.Prelude.Exec.{World}
use uncluster.Token.{Crypto, hash_secret}
use uncluster.Token.RoundTrip.{IsStandard}
use uncluster.Store.Db.{TokenKind, Agent, AclEntry, PolicyVersion, Db, online, empty_db}
use uncluster.Store.Db
use uncluster.Server.Certs.{Ssh}

-- Each number as that many 'A' and a 'B'.
unary : ℕ → String → String
unary zero s = String.◌∷◌ "B" s
unary (suc n) s = String.◌∷◌ "A" (unary n s)

encode : List ℕ → String
unfolding unary
encode [] = String.[]
encode (n ∷ ns) = unary n (encode ns)

abbrev prefixed : ℕ → Option (List ℕ) → Option (List ℕ)
prefixed n none = none
prefixed n (some ns) = some (n ∷ ns)

unfoldable pub decode_from : ℕ → String → Option (List ℕ)
decode_from n String.[] = some []
decode_from n (String.◌∷◌ c s) =
    let closed = prefixed n (decode_from 0 s) in
    let counted = decode_from (suc n) s in
    if code c == 65 then counted else if code c == 66 then closed else none

abbrev zeros : List ℕ
zeros =
    0 ∷ 0 ∷ 0 ∷ 0 ∷ 0 ∷ 0 ∷ 0 ∷ 0 ∷ 0 ∷ 0 ∷ 0 ∷ 0 ∷ 0 ∷ 0 ∷ 0 ∷ 0 ∷ 0 ∷ 0 ∷ 0 ∷ 0 ∷ 0 ∷ 0 ∷ 0 ∷ 0
    ∷ 0 ∷ 0 ∷ 0 ∷ 0 ∷ 0 ∷ 0 ∷ 0 ∷ []

unfoldable pub crypto : Crypto
unfolding encode decode_from str_eq
crypto = record {
  b32_encode = encode;
  b32_decode = decode_from 0;
  scan_params = λ s. if str_eq s "m=65536,t=3,p=2" then some (65536, 3, 2) else none;
  id_key = λ secret salt t m p n. len secret ∷ zeros;
}

decode-unary :
    (n k : ℕ) (s : String) → decode_from k (unary n s) ≡ prefixed (k + n) (decode_from 0 s)
unfolding decode_from unary
decode-unary zero k s = ap (λ m. prefixed m (decode_from 0 s)) (omega arith)
decode-unary (suc n) k s =
    decode-unary n (suc k) s ∙ ap (λ m. prefixed m (decode_from 0 s)) (omega arith)

decode-encode : (b : List ℕ) → decode_from 0 (encode b) ≡ some b
unfolding encode decode_from
decode-encode [] = refl
decode-encode (n ∷ ns) =
    decode-unary n 0 (encode ns)
    ∙ ap (λ m. prefixed m (decode_from 0 (encode ns))) (omega arith)
    ∙ ap (prefixed n) (decode-encode ns)

plain-unary :
    (n : ℕ) (s : String) → any_char (λ x. x == b'$') (unary n s) ≡ any_char (λ x. x == b'$') s
unfolding any_char unary
plain-unary zero s = refl
plain-unary (suc n) s = plain-unary n s

plain-encode : (b : List ℕ) → any_char (λ x. x == b'$') (encode b) ≡ false
unfolding any_char encode
plain-encode [] = refl
plain-encode (n ∷ ns) = plain-unary n (encode ns) ∙ plain-encode ns

pub crypto-IsStandard : IsStandard crypto (1 ∷ [])
unfolding crypto str_eq
crypto-IsStandard = record {
  decode_encode = decode-encode;
  encode_plain = plain-encode;
  scans = refl;
  key_length = λ s. refl;
}

unfoldable pub sum_hex : List ℕ → String
unfolding decimal
sum_hex bytes = decimal (length bytes)

abbrev pub ssh : Ssh
ssh = record {
  parse_authorized_key = λ s. some s;
  is_certificate = λ key. false;
  fingerprint = λ key. "SHA256:x";
  sign_cert = λ cert. some "cert";
}

-- 2000000000 seconds since the epoch.
abbrev pub clock : ℕ
clock = 2000000000000000000

abbrev pub secret : String
secret = "AAAAAAAAAAAAAAAAAAAAAAAAAAAAAAAAAAAAAAAAAAAAAAAAAAAB"

abbrev pub caller_id : String
caller_id = "AAAAAAAAAAAAAAAB"

abbrev pub agent_token_id : String
agent_token_id = "AAAAAAAAAAAAAABB"

abbrev pub join_id : String
join_id = "AAAAAAAAAAAAABBB"

unfoldable pub row_of : String → TokenKind → Option String → Db.Token
unfolding crypto hash_secret
row_of id kind agent = record {
  id = id;
  kind = kind;
  agent_id = agent;
  secret_hash = hash_secret crypto (1 ∷ []) secret;
  label = "";
  created_at = 1000;
  expires_at = none;
  used_at = none;
  revoked_at = none;
}

abbrev pub web : Agent
web = record {
  id = "ag_1";
  name = "web";
  created_at = 1000;
  last_seen_at = none;
  status = online;
  agent_version = "v1";
  fail_closed_after = none;
}

-- No grant yet.
unfoldable pub plain_db : Db
unfolding row_of
plain_db = record empty_db {
  tokens =
      row_of caller_id TokenKind.caller none
      ∷ row_of agent_token_id TokenKind.agent (some "ag_1")
      ∷ row_of join_id TokenKind.join none
      ∷ [];
  agents = web ∷ [];
}

abbrev pub grant : AclEntry
grant = record {
  id = "acl_1";
  caller_token_id = caller_id;
  agent_id = "ag_1";
  username = "root";
  created_at = 1000;
  created_by = none;
}

unfoldable pub granted_db : Db
unfolding plain_db
granted_db = record plain_db {
  acl = grant ∷ [];
  versions = record { agent_id = "ag_1"; version = 1; hash = "blake3:22" } ∷ [];
}

unfoldable pub quiet : Db → World Db
quiet db = record { state = db; faults = [] }
