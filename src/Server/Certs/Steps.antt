-- ===== src/Server/Certs/Steps.antt =====
-- The steps of handleIssueCert, on a database that is known.
use uncluster.Prelude.{String, ◌≡◌, refl, ap, Bool, true, ◌⊎◌, inl, inr}
use uncluster.Prelude.Exec.{Result, ok, err, World}
use uncluster.Prelude.Exec.Triple.{
  Triple, Outcome, Triple-attempt, Triple-bind, Triple-pure, Triple-raise, Triple-if,
}
use uncluster.Store.Db.{StoreError, Db, Sql, CertEvent, denied}
use uncluster.Store.Acl.{list_acl, selected_acl}
use uncluster.Store.Audit.{with_event, write_cert_event}
use uncluster.Server.Http.{Status, bad_request, not_found, internal, or_status, or_internal, ignore}
use uncluster.Server.Http.Rules.{Triple-or_status, Triple-ignore}
use uncluster.Server.Certs.{
  Ssh, SignError, invalid_input, sign_failed, deny, check, found_or_deny, signed_or_deny,
}

-- The database is as before, but for at most one row on a refusal.
abbrev pub Refused : Db → Db → Type 0
Refused old s = (s ≡ old) ⊎ ((e : CertEvent) × (e.outcome ≡ denied) × (s ≡ with_event e old))

module _ (ssh : Ssh) where
  module _ (old : Db) {P : Db → Type 0} (known : (s : Db) → P s → s ≡ old) where
    pub deny-Triple :
        {A : Type 0} {Q : A → Db → Type 0} (e : CertEvent) (s : Status)
        → e.outcome ≡ denied
        → Triple P (deny ssh e s) Q (λ _. Refused old)
    unfolding deny write_cert_event
    deny-Triple e s is_denied =
        Triple-bind (λ _. Refused old) (ignore (write_cert_event e)) _
          (Triple-ignore _ (
            Triple-attempt _ _ (λ t p. inl (known t p))
              (λ t p. inr (e, is_denied, ap (with_event e) (known t p)))))
          (λ _. Triple-raise s (λ t p. p))

    pub check-Triple :
        (b : Bool) (e : CertEvent) (s : Status)
        → e.outcome ≡ denied
        → Triple P (check ssh b e s) (λ _ t. (b ≡ true) × P t) (λ _. Refused old)
    check-Triple b e s is_denied =
        Triple-if b _ _ (λ h. Triple-pure tt (λ t p. (h, p))) (λ _. deny-Triple e s is_denied)

    pub found_or_deny-Triple :
        {A : Type 0} {G : A → Type 0} (e : CertEvent) (m : Sql A)
        → e.outcome ≡ denied
        → Triple P m (λ a t. G a × P t) (λ _. P)
        → Triple P (λ w. found_or_deny ssh e (m w)) (λ a t. G a × P t) (λ _. Refused old)
    found_or_deny-Triple {A} {G} e m is_denied t = record { at = λ w p. after (m w) (t.at w p) }
      where
        after :
            (r : Result StoreError A × World Db)
            → Outcome (λ a t. G a × P t) (λ _. P) r.0 r.1.state
            → Outcome
                (λ a t. G a × P t)
                (λ _. Refused old)
                (found_or_deny ssh e r).0
                (found_or_deny ssh e r).1.state
        after (ok a, w) h = h
        after (err x, w) h = (deny-Triple {Q = λ a t. G a × P t} e not_found is_denied).at w h

    pub signed_or_deny-Triple :
        (e : CertEvent) (r : Result SignError String)
        → e.outcome ≡ denied
        → Triple P (signed_or_deny ssh e r) (λ text t. (r ≡ ok text) × P t) (λ _. Refused old)
    signed_or_deny-Triple e (ok text) is_denied = Triple-pure text (λ t p. (refl, p))
    signed_or_deny-Triple e (err invalid_input) is_denied = deny-Triple e bad_request is_denied
    signed_or_deny-Triple e (err sign_failed) is_denied =
        Triple-raise internal (λ t p. inl (known t p))

    pub list_acl-Triple :
        (caller agent : String)
        → Triple P
            (or_status or_internal
              (list_acl (record { caller_token_id = caller; agent_id = agent })))
            (λ es t.
              (es ≡ selected_acl (record { caller_token_id = caller; agent_id = agent }) old) × P t)
            (λ _. Refused old)
    unfolding list_acl
    list_acl-Triple caller agent =
        Triple-or_status _ _ (
          Triple-attempt _ _ (λ t p. inl (known t p)) (λ t p. (ap (selected_acl _) (known t p), p)))

    pub write-Triple :
        (e : CertEvent)
        → Triple P
            (or_status or_internal (write_cert_event e))
            (λ _ t. t ≡ with_event e old)
            (λ _. Refused old)
    unfolding write_cert_event
    write-Triple e =
        Triple-or_status _ _
          (Triple-attempt _ _ (λ t p. inl (known t p)) (λ t p. ap (with_event e) (known t p)))
