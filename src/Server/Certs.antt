-- ===== src/Server/Certs.antt =====
-- internal/server/handlers_certs.go, with Sign and FormatKeyID of internal/ca/ca.go. The ssh
-- package is a parameter. The random request ids, the clock's reading and the next value of the
-- serial counter are arguments.
pub mod Steps
pub mod Audited
pub mod Window
use Prim.Native.String.{◌++◌ as concat}
use uncluster.Prelude.{
  ℕ, zero, suc, ◌+◌, ◌*◌, String, Bool, true, false, not, ◌&&◌, ◌||◌, Option, none, some, List, [],
  ◌∷◌, if◌then◌else◌, str_eq, any,
}
use uncluster.Prelude.Signed.{ℤ, pos, negsuc, ◌+ℤ◌, ltb_ℤ, to_uint64, to_int64, scale, floor_div}
use uncluster.Prelude.Exec.{Result, ok, err, World, pure, raise, ◌>>=◌, ◌>>◌}
use uncluster.Store.Db.{
  StoreError, AclEntry, Agent, Db, Sql, CertEvent, CertOutcome, signed, denied, unix,
}
use uncluster.Store.Acl.{ListAclFilter, list_acl}
use uncluster.Store.Audit.{write_cert_event}
use uncluster.Server.Http.{
  Status, bad_request, forbidden, not_found, internal, unavailable, Http, or_status, or_internal,
  some_or, ignore,
}
use uncluster.Server.Resolve.{resolve_agent}

-- ssh.Certificate, as Sign fills it; the two extensions are always the same.
pub record Certificate : Type 0 where
  pub key : String
  pub serial : ℕ
  pub key_id : String
  pub valid_principals : List String
  pub valid_after : ℕ
  pub valid_before : ℕ

-- golang.org/x/crypto/ssh: a public key by its wire form, and a certificate that is signed and
-- printed.
pub record Ssh : Type 0 where
  pub parse_authorized_key : String → Option String
  pub is_certificate : String → Bool
  pub fingerprint : String → String
  pub sign_cert : Certificate → Option String

pub record CertRequest : Type 0 where
  pub agent : String
  pub username : String
  pub pubkey : String
  pub ttl_seconds : ℤ

pub record CertResponse : Type 0 where
  pub certificate : String
  pub key_id : String
  pub principal : String
  pub serial : ℕ
  pub valid_after : ℤ
  pub valid_before : ℤ

pub record SignCertParams : Type 0 where
  pub user_public_key : String
  pub principals : List String
  pub key_id : String
  pub valid_after : ℤ
  pub valid_before : ℤ
  pub serial : ℕ

pub data SignError : Type 0 where
  invalid_input sign_failed : SignError

abbrev second : ℕ
second = 1000000000

-- time.Time.Unix of an instant in nanoseconds.
abbrev pub unix_of : ℤ → ℤ
unix_of t = floor_div t second

-- time.Duration(seconds) * time.Second, with its wrap-around at 64 bits
unfoldable pub duration : ℤ → ℤ
unfolding to_int64 to_uint64 scale
duration seconds = to_int64 (to_uint64 (scale seconds second))

abbrev minus_30_seconds : ℤ
minus_30_seconds = negsuc 29999999999

abbrev pub valid_after_of : ℕ → ℤ
valid_after_of now = pos now +ℤ minus_30_seconds

abbrev pub valid_before_of : ℕ → ℤ → ℤ
valid_before_of now ttl = pos now +ℤ duration ttl

abbrev pub cert_ttl_default : ℤ
cert_ttl_default = pos 300

abbrev pub cert_ttl_max : ℤ
cert_ttl_max = pos 900

abbrev pub effective_ttl : ℤ → ℤ
effective_ttl (pos zero) = cert_ttl_default
effective_ttl ttl = ttl

unfoldable pub format_key_id : String → String → String → String → String
format_key_id request caller agent user = concat "uncluster:" (
    concat request
      (concat ":caller=" (concat caller (concat ":agent=" (concat agent (concat ":user=" user))))))

abbrev is_empty : {A : Type 0} → List A → Bool
is_empty [] = true
is_empty (_ ∷ _) = false

abbrev or_sign_failed : Option String → Result SignError String
or_sign_failed none = err sign_failed
or_sign_failed (some text) = ok text

module _ (ssh : Ssh) where
  abbrev sign_key : SignCertParams → Option String → Result SignError String
  sign_key p none = err invalid_input
  sign_key p (some key) =
      if ssh.is_certificate key
      then err invalid_input
      else if not (ltb_ℤ p.valid_after p.valid_before)
      then err invalid_input
      else if is_empty p.principals
      then err invalid_input
      else if str_eq p.key_id ""
      then err invalid_input
      else or_sign_failed (
          ssh.sign_cert (record {
            key = key;
            serial = p.serial;
            key_id = p.key_id;
            valid_principals = p.principals;
            valid_after = to_uint64 (unix_of p.valid_after);
            valid_before = to_uint64 (unix_of p.valid_before);
          }))

  -- ca.Sign
  unfoldable pub sign : SignCertParams → Result SignError String
  unfolding str_eq ◌+ℤ◌ to_uint64 floor_div
  sign p = sign_key p (ssh.parse_authorized_key p.user_public_key)

  abbrev fingerprint_of : Option String → String
  fingerprint_of none = ""
  fingerprint_of (some key) = ssh.fingerprint key

  unfoldable pub pubkey_fingerprint : String → String
  unfolding str_eq
  pubkey_fingerprint raw =
      if str_eq raw "" then "" else fingerprint_of (ssh.parse_authorized_key raw)

  -- The row of writeDeniedEvent; `fresh` is its new request id.
  unfoldable pub denied_event : String → ℕ → String → String → String → String → String → CertEvent
  unfolding pubkey_fingerprint unix
  denied_event fresh now caller agent user raw reason = record {
    request_id = fresh;
    ts = unix now;
    caller_token_id = caller;
    target_agent_id = agent;
    username = user;
    cert_principal = "";
    pubkey_fp = pubkey_fingerprint raw;
    ttl_seconds = pos 0;
    serial = 0;
    key_id = "";
    outcome = denied;
    denial_reason = reason;
  }

  -- writeDeniedEvent, then writeError: a row that cannot be written is only logged.
  unfoldable pub deny : {A : Type 0} → CertEvent → Status → Http A
  unfolding write_cert_event
  deny e s = ignore (write_cert_event e) >> raise s

  abbrev pub check : Bool → CertEvent → Status → Http (Unit {0})
  check b e s = if b then pure tt else deny e s

  abbrev pub found_or_deny :
      {A : Type 0} → CertEvent → Result StoreError A × World Db → Result Status A × World Db
  found_or_deny e (ok a, w) = (ok a, w)
  found_or_deny e (err _, w) = deny e not_found w

  abbrev pub signed_or_deny : CertEvent → Result SignError String → Http String
  signed_or_deny e (ok text) = pure text
  signed_or_deny e (err invalid_input) = deny e bad_request
  signed_or_deny e (err sign_failed) = raise internal

  abbrev pub lists_user : String → List AclEntry → Bool
  lists_user user entries = any (λ e. str_eq e.username user) entries

  abbrev pub signed_event : String → ℕ → String → Agent → CertRequest → ℤ → ℕ → String → CertEvent
  signed_event request now caller g req ttl serial key_id = record {
    request_id = request;
    ts = unix now;
    caller_token_id = caller;
    target_agent_id = g.id;
    username = req.username;
    cert_principal = caller;
    pubkey_fp = pubkey_fingerprint req.pubkey;
    ttl_seconds = ttl;
    serial = serial;
    key_id = key_id;
    outcome = signed;
    denial_reason = "";
  }

  -- From the grant on: the certificate is signed, and handed out only behind its audit row.
  unfoldable pub mint :
      String → String → ℕ → ℕ → String → Agent → CertRequest → ℤ → Http CertResponse
  unfolding sign deny denied_event write_cert_event format_key_id duration ◌+ℤ◌ unix floor_div
  mint request fresh now serial caller g req ttl = do
    let key_id = format_key_id request caller g.id req.username
    text ← signed_or_deny (denied_event fresh now caller g.id req.username req.pubkey "bad_input") (
        sign (record {
          user_public_key = req.pubkey;
          principals = caller ∷ [];
          key_id = key_id;
          valid_after = valid_after_of now;
          valid_before = valid_before_of now ttl;
          serial = serial;
        }))
    or_status or_internal
        (write_cert_event (signed_event request now caller g req ttl serial key_id))
    pure (record {
      certificate = text;
      key_id = key_id;
      principal = caller;
      serial = serial;
      valid_after = unix_of (valid_after_of now);
      valid_before = unix_of (valid_before_of now ttl);
    })

  -- `body` is none where the JSON cannot be read, and `ready` says that the CA is configured.
  unfoldable pub handle_issue_cert :
      Bool → String → String → ℕ → ℕ → String → Option CertRequest → Http CertResponse
  unfolding mint deny denied_event resolve_agent list_acl str_eq any
  handle_issue_cert ready request fresh now serial caller body = do
    some_or unavailable (if ready then some tt else none)
    req ← some_or bad_request body
    check (not (str_eq req.agent "" || (str_eq req.username "" || str_eq req.pubkey "")))
        (denied_event fresh now caller "" req.username "" "bad_input") bad_request
    let ttl = effective_ttl req.ttl_seconds
    check (not (ltb_ℤ cert_ttl_max ttl))
        (denied_event fresh now caller "" req.username req.pubkey "bad_input") bad_request
    g ← (λ w.
        found_or_deny (denied_event fresh now caller "" req.username req.pubkey "agent_not_found")
          (resolve_agent req.agent w))
    entries ←
        or_status or_internal (list_acl (record { caller_token_id = caller; agent_id = g.id }))
    check (lists_user req.username entries)
        (denied_event fresh now caller g.id req.username req.pubkey "acl_miss") forbidden
    mint request fresh now serial caller g req ttl
