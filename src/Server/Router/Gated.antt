-- ===== src/Server/Router/Gated.antt =====
-- The whole path of a request: the middleware, then the handler.
use mathlib.Core.Path.{subst}
use uncluster.Prelude.{
  String, sym, ◌≡◌, refl, ◌∙◌, ap, ◌⊎◌, inl, inr, Option, none, some, ℕ, str_eq, find, find-none,
}
use uncluster.Prelude.Exec.{Result, ok, err, World, continue, pure}
use uncluster.Prelude.Exec.Triple.{Outcome}
use uncluster.Store.Db.{Db, Token, TokenKind, Agent}
use uncluster.Server.Http.{Status}
use uncluster.Server.Auth.{require_auth}
use uncluster.Server.Auth.Sound.{Authentic, require_auth-Triple}
use uncluster.Server.Certs.{CertRequest, CertResponse, handle_issue_cert}
use uncluster.Server.Certs.Audited.{Issued, handle_issue_cert-Issued}
use uncluster.Server.Heartbeat.{
  V2HeartbeatRequest, V2HeartbeatResponse, PolicyPayload, handle_v2_heartbeat,
}
use uncluster.Server.Heartbeat.Answer.{Answers, handle_v2_heartbeat-Answers}
use uncluster.Server.Router.{
  Server, Request, Answer, issue_cert, agent_heartbeat, certificate, beaten, required_kind, handle,
  serve,
}

module _ (s : Server) (header : String) (w : World Db) where
  abbrev auth : TokenKind → Result Status (Token × Option Agent) × World Db
  auth k = require_auth s.crypto s.now k header w

  runs :
      (req : Request) (k : TokenKind)
      → required_kind req ≡ some k
      → serve s header req w ≡ continue (λ found. handle s found.0 found.1 req) (auth k)
  unfolding serve
  runs req k e = rw e

  -- A protected route goes on to its handler with an authentic token of its kind on the database as
  -- it was, or answers an error and leaves the database as it was.
  pub serve_gated :
      (req : Request) (k : TokenKind)
      → required_kind req ≡ some k
      → ((row : Token) × (g : Option Agent) × (v : World Db) × Authentic s.crypto s.now w.state k
            header row g
          × (v.state ≡ w.state)
          × (serve s header req w ≡ handle s row g req v))
        ⊎ ((e : Status) × ((serve s header req w).0 ≡ err e)
            × ((serve s header req w).1.state ≡ w.state))
  serve_gated req k e =
      split (auth k).0 (auth k).1 (runs req k e)
        ((require_auth-Triple s.crypto s.now w.state k header).at w refl)
    where
      split :
          (r : Result Status (Token × Option Agent)) (v : World Db)
          → serve s header req w ≡ continue (λ found. handle s found.0 found.1 req) (r, v)
          → Outcome
              (λ a t. Authentic s.crypto s.now w.state k header a.0 a.1 × (t ≡ w.state))
              (λ _ t. t ≡ w.state)
              r
              v.state
          → ((row : Token) × (g : Option Agent) × (u : World Db) × Authentic s.crypto s.now w.state
                k header row g
              × (u.state ≡ w.state)
              × (serve s header req w ≡ handle s row g req u))
            ⊎ ((x : Status) × ((serve s header req w).0 ≡ err x)
                × ((serve s header req w).1.state ≡ w.state))
      split (ok (row, g)) v q o = inl (row, g, v, o.0, o.1, q)
      split (err x) v q o = inr (x, ap (λ p. p.0) q, ap (λ p. p.1.state) q ∙ o)

-- What an answer says of the handler's result.
answered :
    {A : Type 0} (f : A → Answer)
    → ((a b : A) → f a ≡ f b → a ≡ b)
    → (r : Result Status A) (u : World Db) (b : A)
    → (continue (λ a. pure (f a)) (r, u)).0 ≡ ok (f b)
    → (r ≡ ok b) × ((continue (λ a. pure (f a)) (r, u)).1 ≡ u)
answered f inj (ok a) u b h = (ap ok (inj a b (ok_injective h)), refl)
  where
    ok_injective : {x y : Answer} → ◌≡◌ {A = Result Status Answer} (ok x) (ok y) → x ≡ y
    ok_injective p = cc
answered f inj (err e) u b h = cc

err_ne_ok : {e : Status} {x : Answer} → ◌≡◌ {A = Result Status Answer} (err e) (ok x) → ⊥
err_ne_ok h = cc

certificate_injective : (a b : CertResponse) → certificate a ≡ certificate b → a ≡ b
certificate_injective a b h = cc

beaten_injective : (a b : V2HeartbeatResponse) → beaten a ≡ beaten b → a ≡ b
beaten_injective a b h = cc

module _ (s : Server) (header : String) (w : World Db)
    (tokens_named : find (λ t. str_eq t.id "") w.state.tokens ≡ none)
    (agents_named : find (λ g. str_eq g.id "") w.state.agents ≡ none) where
  certified :
      (request fresh : String) (serial : ℕ) (body : Option CertRequest) (resp : CertResponse)
      (row : Token) (g : Option Agent) (v : World Db)
      → Authentic s.crypto s.now w.state TokenKind.caller header row g
      → v.state ≡ w.state
      → serve s header (issue_cert request fresh serial body) w
        ≡ handle s row g (issue_cert request fresh serial body) v
      → (serve s header (issue_cert request fresh serial body) w).0 ≡ ok (certificate resp)
      → Issued s.ssh w.state request s.now serial row.id body resp
          (serve s header (issue_cert request fresh serial body) w).1.state
  unfolding handle
  certified request fresh serial body resp row g v a same q h =
      let m = handle_issue_cert s.ssh s.ready request fresh s.now serial row.id body v in
      let p = answered certificate certificate_injective m.0 m.1 resp (sym (ap (λ r. r.0) q) ∙ h) in
      let i =
        handle_issue_cert-Issued s.ssh s.ready request fresh s.now serial row.id body v
          (find-none _ (λ t. str_eq t.id "") w.state.tokens row tokens_named a.found)
          (subst (λ (d : Db). find (λ x. str_eq x.id "") d.agents ≡ none) (sym same) agents_named)
          resp p.0 in
      subst
        (λ (d : Db).
          Issued s.ssh d request s.now serial row.id body resp
            (serve s header (issue_cert request fresh serial body) w).1.state)
        same
        (subst (λ (x : Db). Issued s.ssh v.state request s.now serial row.id body resp x)
          (sym (ap (λ r. r.1.state) q ∙ ap (λ u. u.state) p.1)) i)

  -- The whole path of a certificate: it is answered only to a request with an authentic caller
  -- token, and stands for that token's grant, whatever statements the database refuses. Tokens and
  -- agents have ids that are not empty.
  pub serve-issue_cert :
      (request fresh : String) (serial : ℕ) (body : Option CertRequest) (resp : CertResponse)
      → (serve s header (issue_cert request fresh serial body) w).0 ≡ ok (certificate resp)
      → (row : Token) × (g : Option Agent) × Authentic s.crypto s.now w.state TokenKind.caller
          header row g
        × Issued s.ssh w.state request s.now serial row.id body resp
            (serve s header (issue_cert request fresh serial body) w).1.state
  serve-issue_cert request fresh serial body resp h =
      passed (serve_gated s header w (issue_cert request fresh serial body) TokenKind.caller refl)
    where
      passed :
          ((row : Token) × (g : Option Agent) × (v : World Db) × Authentic s.crypto s.now w.state
                TokenKind.caller header row g
              × (v.state ≡ w.state)
              × (serve s header (issue_cert request fresh serial body) w
                  ≡ handle s row g (issue_cert request fresh serial body) v))
            ⊎ ((x : Status) × ((serve s header (issue_cert request fresh serial body) w).0 ≡ err x)
                × ((serve s header (issue_cert request fresh serial body) w).1.state ≡ w.state))
          → (row : Token) × (g : Option Agent) × Authentic s.crypto s.now w.state TokenKind.caller
              header row g
            × Issued s.ssh w.state request s.now serial row.id body resp
                (serve s header (issue_cert request fresh serial body) w).1.state
      passed (inl (row, g, v, a, same, q)) =
          (row, g, a, certified request fresh serial body resp row g v a same q h)
      passed (inr (x, failed, same)) = absurd (err_ne_ok (sym failed ∙ h))

module _ (s : Server) (header : String) (w : World Db) (req : V2HeartbeatRequest)
    (resp : V2HeartbeatResponse) (p : PolicyPayload) (sent : resp.policy ≡ some p) where
  own_policy :
      (row : Token) (g : Option Agent) (v : World Db)
      → Authentic s.crypto s.now w.state TokenKind.agent header row g
      → v.state ≡ w.state
      → serve s header (agent_heartbeat (some req)) w
        ≡ handle s row g (agent_heartbeat (some req)) v
      → (serve s header (agent_heartbeat (some req)) w).0 ≡ ok (beaten resp)
      → (row : Token) × (a : Agent) × Authentic s.crypto s.now w.state TokenKind.agent header row
          (some a)
        × Answers w.state a.id req p
  unfolding handle
  own_policy row none v a same q h = absurd (err_ne_ok (sym (ap (λ x. x.0) q) ∙ h))
  own_policy row (some g) v a same q h =
      let m = handle_v2_heartbeat s.now g (some req) v in
      let r = answered beaten beaten_injective m.0 m.1 resp (sym (ap (λ x. x.0) q) ∙ h) in
      (
        row,
        g,
        a,
        subst (λ (d : Db). Answers d g.id req p) same
            (handle_v2_heartbeat-Answers s.now g v.state req v.faults resp p r.0 sent).0,
      )

  -- The whole path of a policy: it is answered only to a heartbeat with an authentic agent token,
  -- and is that of the token's own agent, whatever statements the database refuses.
  pub serve-agent_heartbeat :
      (serve s header (agent_heartbeat (some req)) w).0 ≡ ok (beaten resp)
      → (row : Token) × (a : Agent) × Authentic s.crypto s.now w.state TokenKind.agent header row
          (some a)
        × Answers w.state a.id req p
  serve-agent_heartbeat h =
      passed (serve_gated s header w (agent_heartbeat (some req)) TokenKind.agent refl)
    where
      passed :
          ((row : Token) × (g : Option Agent) × (v : World Db) × Authentic s.crypto s.now w.state
                TokenKind.agent header row g
              × (v.state ≡ w.state)
              × (serve s header (agent_heartbeat (some req)) w
                  ≡ handle s row g (agent_heartbeat (some req)) v))
            ⊎ ((x : Status) × ((serve s header (agent_heartbeat (some req)) w).0 ≡ err x)
                × ((serve s header (agent_heartbeat (some req)) w).1.state ≡ w.state))
          → (row : Token) × (a : Agent) × Authentic s.crypto s.now w.state TokenKind.agent header
              row
              (some a)
            × Answers w.state a.id req p
      passed (inl (row, g, v, a, same, q)) = own_policy row g v a same q h
      passed (inr (x, failed, same)) = absurd (err_ne_ok (sym failed ∙ h))
