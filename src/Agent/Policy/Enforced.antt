-- ===== src/Agent/Policy/Enforced.antt =====
-- renderPrincipalsDir: the directory behind a success lets in whom the policy allows, and with the
-- policy of a heartbeat's answer, whom the table of grants names.
use uncluster.Prelude.{
  String, ◌≡◌, refl, ap, sym, ◌∙◌, true, false, not, ◌&&◌, some, List, [], ◌∷◌, if◌then◌else◌, any,
  map, Bool-cases, inl, inr, arith,
}
use uncluster.Prelude.Exec.{ok, World, pure, raise}
use uncluster.Prelude.Exec.Triple.{
  Triple, Outcome-ok, Triple-attempt, Triple-bind, Triple-any, Triple-given,
}
use uncluster.Store.Db.{PolicyPrincipal, Db}
use uncluster.Store.Acl.{is_triple}
use uncluster.Store.Acl.Snapshot.{allows, has_user, lists_caller, Once, WellGrouped-Once}
use uncluster.Server.Heartbeat.{V2HeartbeatRequest, PolicyPayload}
use uncluster.Server.Heartbeat.Answer.{Answers}
use uncluster.Agent.Dir.{file, Dir, AgentError, invalid, settle, read_dir}
use uncluster.Agent.Policy.{policy_payload_ok, is_wanted, render_principals_dir}
use uncluster.Agent.Policy.Steps.{Holds}
use uncluster.Agent.Policy.Rendered.{
  lets_in, listed, has_tmp, callers_of, allows-callers_of, is_nil, emptied, no_callers,
  some_callers, wanted_iff, write_all-wants, write_all-writes, prune-keeps, prune-Left, no_file,
  names_file, Left,
}

abbrev names : List PolicyPrincipal → List String
names ps = map (λ p. p.username) ps

module _ (u c : String) (ps : List PolicyPrincipal) (grouped : Once ps) where
  checked :
      Triple {E = AgentError} {S = Dir}
        (λ _. Unit)
        (if policy_payload_ok ps then pure tt else raise invalid)
        (λ _ _. Unit)
        (λ _ _. Unit)
  checked = Triple-any _

  read_known : {P : Dir → Type 0} → Triple P read_dir (λ es d. (es ≡ d) × P d) (λ _ _. Unit)
  unfolding read_dir
  read_known = Triple-attempt _ _ (λ _ _. tt) (λ d p. (refl, p))

  render_known :
      is_nil (callers_of u ps) ≡ false
      → has_tmp u ps ≡ false
      → Triple
          (λ _. Unit)
          (render_principals_dir ps)
          (λ _. Holds u (some (file (callers_of u ps))))
          (λ _ _. Unit)
  unfolding render_principals_dir
  render_known known free =
      Triple-bind (λ _ _. Unit) _ _ (Triple-any settle)
        (λ _.
          Triple-bind (λ _ _. Unit) _ _ checked
            (λ _. Triple-bind _ _ _ (write_all-writes u ps (names ps) grouped known free) (λ want.
              Triple-bind _ _ _ read_known (λ es.
                Triple-given (is_wanted want u ≡ is_wanted (names ps) u)
                  (Holds u (some (file (callers_of u ps)))) (λ d p. (p.1.0, p.1.1))
                  (λ e. prune-keeps u _ want es (e ∙ wanted_iff ps u ∙ some_callers u ps known))))))

  render_unknown :
      is_nil (callers_of u ps) ≡ true
      → Triple (λ _. Unit) (render_principals_dir ps) (λ _. Left u []) (λ _ _. Unit)
  unfolding render_principals_dir
  render_unknown unknown =
      Triple-bind (λ _ _. Unit) _ _ (Triple-any settle)
        (λ _.
          Triple-bind (λ _ _. Unit) _ _ checked
            (λ _.
              Triple-bind _ _ _
                (write_all-wants u ps (names ps)
                  (ap (λ y. y && not (emptied u ps)) (wanted_iff ps u) ∙ no_callers u ps unknown))
                (λ want. Triple-bind _ _ _ read_known (λ es.
                  Triple-given (is_wanted want u ≡ false) (Left u es)
                    (λ d p. (p.1, all_left es d p.0)) (λ e. prune-Left u want es e)))))
    where
      all_left : (es d : Dir) → es ≡ d → Left u es d
      all_left es d e = rw e (ground arith)

  -- A rendering that succeeds lets a caller in as a user exactly if the policy allows it, whatever
  -- was in the directory and whatever calls the system refuses on the way; each user stands once in
  -- the policy, with callers or without, and the user in question is not both in the policy and
  -- called like the temporary file of one of its users.
  pub render_principals_dir_enforces :
      (w : World Dir)
      → (has_user u ps && has_tmp u ps) ≡ false
      → (render_principals_dir ps w).0 ≡ ok tt
      → lets_in (render_principals_dir ps w).1.state u c ≡ allows ps u c
  unfolding lets_in
  render_principals_dir_enforces w free h = elim (Bool-cases (is_nil (callers_of u ps))) [
    | inr known ↦
        ap (listed c) (
          Outcome-ok (λ _. Holds u (some (file (callers_of u ps)))) (λ _ _. Unit) _ _ tt h
            ((render_known known (ground (arith, some_callers u ps known, free))).at w tt))
        ∙ sym (allows-callers_of ps u c grouped)
    | inl unknown ↦
        no_file u c _ (
          nothing_left _
            (Outcome-ok (λ _. Left u []) (λ _ _. Unit) _ _ tt h ((render_unknown unknown).at w tt)))
        ∙ sym (nobody_listed (callers_of u ps) unknown)
        ∙ sym (allows-callers_of ps u c grouped)
  ]
    where
      nobody_listed : (cs : List String) → is_nil cs ≡ true → lists_caller c cs ≡ false
      nobody_listed [] e = refl
      nobody_listed (x ∷ xs) e = cc

      nothing_left : (d : Dir) → Left u [] d → any (names_file u) d ≡ false
      nothing_left d h = ground (arith, h)

-- With the policy that a heartbeat was answered, the Agent lets in exactly the pairs that the table
-- of grants had for it.
pub render_principals_dir-Answers :
    (old : Db) (agent u c : String) (req : V2HeartbeatRequest) (p : PolicyPayload) (w : World Dir)
    → Answers old agent req p
    → (has_user u p.principals && has_tmp u p.principals) ≡ false
    → (render_principals_dir p.principals w).0 ≡ ok tt
    → lets_in (render_principals_dir p.principals w).1.state u c ≡ any (is_triple c agent u) old.acl
render_principals_dir-Answers old agent u c req p w a free h =
    render_principals_dir_enforces u c p.principals (WellGrouped-Once p.principals a.grouped) w free
      h
    ∙ a.rows_are u c
