-- ===== src/Tests/CertRuns.antt =====
-- The certificate handler at concrete inputs.
use uncluster.Prelude.{◌≡◌, refl, true, false, none, some, str_eq, find}
use uncluster.Prelude.Signed.{pos, negsuc}
use uncluster.Prelude.Exec.{ok, err, attempt}
use uncluster.Server.Http.{forbidden}
use uncluster.Server.Certs.{CertRequest, CertResponse, handle_issue_cert}
use uncluster.Server.Certs.Steps.{Refused}
use uncluster.Server.Certs.Audited.{Issued, handle_issue_cert-Issued, handle_issue_cert-Refused}
use uncluster.Tests.Fixtures.{ssh, clock, caller_id, granted_db, quiet}

abbrev pub request : CertRequest
request = record {
  agent = "web";
  username = "root";
  pubkey = "ssh-ed25519 AAAA";
  ttl_seconds = pos 0;
}

abbrev pub response : CertResponse
response = record {
  certificate = "cert";
  key_id = "uncluster:r1:caller=AAAAAAAAAAAAAAAB:agent=ag_1:user=root";
  principal = caller_id;
  serial = 1;
  valid_after = pos 1999999970;
  valid_before = pos 2000000300;
}

issued_run :
    (handle_issue_cert ssh true "r1" "r2" clock 1 caller_id (some request) (quiet granted_db)).0
    ≡ ok response
unfolding handle_issue_cert granted_db quiet attempt
issued_run = refl

caller_named : str_eq caller_id "" ≡ false
unfolding str_eq
caller_named = refl

agents_named : find (λ g. str_eq g.id "") (quiet granted_db).state.agents ≡ none
unfolding granted_db quiet find str_eq
agents_named = refl

handle_issue_cert-Issued_example :
    Issued ssh granted_db "r1" clock 1 caller_id
      (some request)
      response
      (handle_issue_cert ssh true "r1" "r2" clock 1 caller_id
        (some request)
        (quiet granted_db)).1.state
unfolding quiet
handle_issue_cert-Issued_example =
    handle_issue_cert-Issued ssh true "r1" "r2" clock 1 caller_id (some request) (quiet granted_db)
      caller_named agents_named response issued_run

abbrev for_bob : CertRequest
for_bob = record request { username = "bob" }

refused_run :
    (handle_issue_cert ssh true "r1" "r2" clock 1 caller_id (some for_bob) (quiet granted_db)).0
    ≡ err forbidden
unfolding handle_issue_cert granted_db quiet attempt
refused_run = refl

handle_issue_cert-Refused_example :
    Refused granted_db
      (handle_issue_cert ssh true "r1" "r2" clock 1 caller_id
        (some for_bob)
        (quiet granted_db)).1.state
unfolding quiet
handle_issue_cert-Refused_example =
    handle_issue_cert-Refused ssh true "r1" "r2" clock 1 caller_id (some for_bob) (quiet granted_db)
      caller_named agents_named forbidden refused_run

abbrev long_request : CertRequest
long_request = record request { ttl_seconds = negsuc 9223372036 }

abbrev long_response : CertResponse
long_response = record response { valid_before = pos 11223372036 }
