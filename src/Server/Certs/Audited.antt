-- ===== src/Server/Certs/Audited.antt =====
-- handleIssueCert: what stands behind a certificate, and behind a refusal.
use uncluster.Prelude.{
  ℕ, String, ◌≡◌, refl, ap, sym, ◌∙◌, Bool, true, false, not, Option, none, some, List, [], ◌∷◌,
  inl, inr, str_eq, find, find-none, any, if◌then◌else◌, ◌++◌, Bool-cases, str_eq_refl, arith,
}
use uncluster.Prelude.Signed.{ℤ, ltb_ℤ}
use uncluster.Prelude.Exec.{ok, err, World}
use uncluster.Prelude.Exec.Triple.{
  Triple, Outcome-ok, Outcome-err, Triple-bind, Triple-pure, Triple-frame, Triple-given,
}
use uncluster.Store.Db.{Agent, AclEntry, CertEvent, Db}
use uncluster.Store.Acl.{is_triple, selected_acl}
use uncluster.Store.Acl.Listing.{any-selected_acl}
use uncluster.Store.Audit.{with_event}
use uncluster.Server.Http.{Status}
use uncluster.Server.Http.Rules.{Triple-some_or}
use uncluster.Server.Resolve.Found.{Resolved, resolve_agent-Triple}
use uncluster.Server.Certs.Steps.{
  Refused, check-Triple, found_or_deny-Triple, signed_or_deny-Triple, list_acl-Triple, write-Triple,
}
use uncluster.Server.Certs.{
  Ssh, CertRequest, CertResponse, SignCertParams, sign, format_key_id, valid_after_of,
  valid_before_of, effective_ttl, cert_ttl_max, unix_of, signed_event, lists_user, mint,
  handle_issue_cert,
}

any-snoc :
    (p : CertEvent → Bool) (xs : List CertEvent) (x : CertEvent)
    → p x ≡ true
    → any p (xs ++ x ∷ []) ≡ true
unfolding any
any-snoc p [] x h = ground arith
any-snoc p (y ∷ xs) x h = ground (arith, any-snoc p xs x h)

-- Behind the write of an event of a named caller, a row with its request id is there.
with_event-audited :
    (e : CertEvent) (db : Db)
    → str_eq e.caller_token_id "" ≡ false
    → any (λ x. str_eq x.request_id e.request_id) (with_event e db).cert_events ≡ true
unfolding with_event
with_event-audited e db named =
    elim (Bool-cases (any (λ x. str_eq x.request_id e.request_id) db.cert_events)) [
      | inl h ↦ rw h h
      | inr h ↦ rw (h, named) (any-snoc _ db.cert_events e (str_eq_refl e.request_id))
    ]

module _ (ssh : Ssh) where
  abbrev pub params_of : String → ℕ → ℕ → String → Agent → CertRequest → ℤ → SignCertParams
  params_of request now serial caller g req ttl = record {
    user_public_key = req.pubkey;
    principals = caller ∷ [];
    key_id = format_key_id request caller g.id req.username;
    valid_after = valid_after_of now;
    valid_before = valid_before_of now ttl;
    serial = serial;
  }

  -- The agent that the request names exists, the table grants the caller this user on it, the
  -- requested seconds are not above the maximum (what becomes of them in 64 bits is in Certs/Window),
  -- the certificate is for the caller alone and names the request
  -- in its key id, and the audit table, with the signing's row inserted or ignored, has a row with
  -- the request's id.
  pub record Issued (old : Db) (request : String) (now serial : ℕ) (caller : String)
      (body : Option CertRequest) (resp : CertResponse) (s : Db) : Type 0 where
    pub req : CertRequest
    pub reads : body ≡ some req
    pub in_bound : ltb_ℤ cert_ttl_max (effective_ttl req.ttl_seconds) ≡ false
    pub agent : Agent
    pub resolved : Resolved old req.agent agent
    pub granted : any (is_triple caller agent.id req.username) old.acl ≡ true
    pub signs :
        sign ssh (params_of request now serial caller agent req (effective_ttl req.ttl_seconds))
        ≡ ok resp.certificate
    pub principal : resp.principal ≡ caller
    pub until : resp.valid_before ≡ unix_of (valid_before_of now (effective_ttl req.ttl_seconds))
    pub recorded :
        s
        ≡ with_event
            (signed_event ssh request now caller agent req
              (effective_ttl req.ttl_seconds)
              serial
              (format_key_id request caller agent.id req.username))
            old
    pub audited : any (λ e. str_eq e.request_id request) s.cert_events ≡ true

  lists_user-granted :
      (old : Db) (caller agent user : String) (es : List AclEntry)
      → str_eq caller "" ≡ false
      → str_eq agent "" ≡ false
      → es ≡ selected_acl (record { caller_token_id = caller; agent_id = agent }) old
      → lists_user ssh user es ≡ true
      → any (is_triple caller agent user) old.acl ≡ true
  lists_user-granted old caller agent user es h k e l =
      sym (any-selected_acl caller agent user old h k) ∙ ap (lists_user ssh user) (sym e) ∙ l

  module _ (old : Db) (request : String) (now serial : ℕ) (caller : String)
      (named : str_eq caller "" ≡ false)
      (agents_named : find (λ g. str_eq g.id "") old.agents ≡ none) where
    mint-Triple :
        (body : Option CertRequest) (fresh : String) (req : CertRequest) (g : Agent)
        → body ≡ some req
        → ltb_ℤ cert_ttl_max (effective_ttl req.ttl_seconds) ≡ false
        → Resolved old req.agent g
        → any (is_triple caller g.id req.username) old.acl ≡ true
        → Triple
            (λ s. s ≡ old)
            (mint ssh request fresh now serial caller g req (effective_ttl req.ttl_seconds))
            (λ resp s. Issued old request now serial caller body resp s)
            (λ _. Refused old)
    unfolding mint
    mint-Triple body fresh req g reads bound resolved granted =
        Triple-bind _ _ _
          (signed_or_deny-Triple ssh old (λ s p. p) _
            (sign ssh (params_of request now serial caller g req (effective_ttl req.ttl_seconds)))
            refl)
          (λ text. Triple-bind _ _ _ (Triple-frame _ (write-Triple ssh old (λ s p. p) _)) (λ _.
            Triple-pure _ (λ s p. record {
              req = req;
              reads = reads;
              in_bound = bound;
              agent = g;
              resolved = resolved;
              granted = granted;
              signs = p.0;
              principal = refl;
              until = refl;
              recorded = p.1;
              audited = rw p.1 (with_event-audited _ old named);
            })))

    named_agent : (s : String) (g : Agent) → Resolved old s g → str_eq g.id "" ≡ false
    named_agent s g (inl h) = find-none _ (λ x. str_eq x.id "") old.agents g agents_named h
    named_agent s g (inr h) = find-none _ (λ x. str_eq x.id "") old.agents g agents_named h

    not-true : (b : Bool) → not b ≡ true → b ≡ false
    not-true true h = cc
    not-true false h = refl

    handle_issue_cert-Triple :
        (ready : Bool) (body : Option CertRequest) (fresh : String)
        → Triple
            (λ s. s ≡ old)
            (handle_issue_cert ssh ready request fresh now serial caller body)
            (λ resp s. Issued old request now serial caller body resp s)
            (λ _. Refused old)
    unfolding handle_issue_cert
    handle_issue_cert-Triple ready body fresh =
        Triple-bind _ _ _ (Triple-some_or (λ s p. inl p) _ (if ready then some tt else none)) (λ _.
          Triple-bind _ _ _ (Triple-some_or (λ s p. inl p.1) _ body) (λ req.
            Triple-bind _ _ _ (check-Triple ssh old (λ s p. p.1.1) _ _ _ refl) (λ _.
              Triple-bind _ _ _ (check-Triple ssh old (λ s p. p.1.1.1) _ _ _ refl) (λ _.
                Triple-bind _ _ _
                  (found_or_deny-Triple ssh old (λ s p. p.1.1.1.1) _ _ refl
                    (resolve_agent-Triple old _ req.agent (λ s p. p.1.1.1.1)))
                  (λ g.
                    Triple-bind _ _ _ (list_acl-Triple ssh old (λ s p. p.1.1.1.1.1) caller g.id)
                      (λ es.
                        Triple-bind _ _ _ (check-Triple ssh old (λ s p. p.1.1.1.1.1.1) _ _ _ refl)
                          (λ _.
                            Triple-given
                              ((body ≡ some req)
                                × (ltb_ℤ cert_ttl_max (effective_ttl req.ttl_seconds) ≡ false)
                                × Resolved old req.agent g
                                × (any (is_triple caller g.id req.username) old.acl ≡ true))
                              (λ s. s ≡ old)
                              (λ s p. (
                                (
                                  p.1.1.1.1.1.0,
                                  not-true _ p.1.1.1.0,
                                  p.1.1.0,
                                  lists_user-granted old caller g.id req.username es named
                                      (named_agent req.agent g p.1.1.0) p.1.0 p.0,
                                ),
                                p.1.1.1.1.1.1.1,
                              ))
                              (λ k. mint-Triple body fresh req g k.0 k.1 k.2 k.3))))))))

  module _ (ready : Bool) (request fresh : String) (now serial : ℕ) (caller : String)
      (body : Option CertRequest) (w : World Db) (named : str_eq caller "" ≡ false)
      (agents_named : find (λ g. str_eq g.id "") w.state.agents ≡ none) where
    -- A certificate is handed out only to a named caller that the table grants this user on this
    -- agent, for the caller alone, for requested seconds that are not above the maximum, and with a row
    -- of its request id in the audit table, whatever statements the database refuses. All agents have
    -- an id that is not empty.
    pub handle_issue_cert-Issued :
        (resp : CertResponse)
        → (handle_issue_cert ssh ready request fresh now serial caller body w).0 ≡ ok resp
        → Issued w.state request now serial caller body resp
            (handle_issue_cert ssh ready request fresh now serial caller body w).1.state
    handle_issue_cert-Issued resp h =
        Outcome-ok (λ r s. Issued w.state request now serial caller body r s) (λ _. Refused w.state)
          _ _ resp h
          ((handle_issue_cert-Triple w.state request now serial caller named agents_named ready body
              fresh).at
            w refl)

    -- A refusal leaves the database as it was, but for at most one row, which says "denied". All
    -- agents have an id that is not empty, and so has the caller.
    pub handle_issue_cert-Refused :
        (e : Status)
        → (handle_issue_cert ssh ready request fresh now serial caller body w).0 ≡ err e
        → Refused w.state
            (handle_issue_cert ssh ready request fresh now serial caller body w).1.state
    handle_issue_cert-Refused e h =
        Outcome-err (λ r s. Issued w.state request now serial caller body r s)
          (λ _. Refused w.state) _ _ e h
          ((handle_issue_cert-Triple w.state request now serial caller named agents_named ready body
              fresh).at
            w refl)
