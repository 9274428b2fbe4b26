-- ===== src/Agent/Spool/Applied.antt =====
-- applyDesiredStateBytes on a desired state that is read: a success stands for a rendered policy.
use uncluster.Prelude.{String, ◌≡◌, refl, true, false, ◌&&◌, some, str_eq}
use uncluster.Prelude.Exec.{Result, ok, err}
use uncluster.Prelude.Exec.Triple.{
  Triple, Outcome, Triple-bind, Triple-pure, Triple-recover, Triple-if,
}
use uncluster.Store.Acl.Snapshot.{allows, has_user, Once}
use uncluster.Agent.Dir.{Dir, AgentError}
use uncluster.Agent.Policy.{policy_payload_ok, render_principals_dir}
use uncluster.Agent.Policy.Rendered.{lets_in, has_tmp}
use uncluster.Agent.Policy.Enforced.{render_principals_dir_enforces}
use uncluster.Agent.Spool.{
  DesiredState, Codec, Spool, SpoolError, apply_desired, failure, apply_failed, refused,
  unserialised, interrupted, timed_out, writer_failed, ok_status,
}
use uncluster.Agent.Spool.Rules.{Triple-on_dir}

outcome :
    {A : Type 0} (Q : A → Dir → Type 0) (r : Result AgentError A) (s : Dir)
    → ((a : A) → r ≡ ok a → Q a s)
    → Outcome Q (λ _ _. Unit) r s
outcome Q (ok a) s h = h a refl
outcome Q (err e) s h = tt

module _ (c : Codec) (d : DesiredState) (u x : String) (grouped : Once d.principals)
    (free : (has_user u d.principals && has_tmp u d.principals) ≡ false) where
  render :
      Triple
        (λ _. Unit)
        (render_principals_dir d.principals)
        (λ _ t. lets_in t u x ≡ allows d.principals u x)
        (λ _ _. Unit)
  render = record {
    at = λ w p.
        outcome _ (render_principals_dir d.principals w).0
          (render_principals_dir d.principals w).1.state
          (λ a h. render_principals_dir_enforces u x d.principals grouped w free h);
  }

  not_ok : str_eq "failed" "ok" ≡ true → ⊥
  unfolding str_eq
  not_ok h = cc

  failing : (e : SpoolError) → str_eq (failure c d e).status "ok" ≡ true → ⊥
  unfolding str_eq
  failing (apply_failed e) h = cc
  failing refused h = cc
  failing unserialised h = cc
  failing interrupted h = cc
  failing timed_out h = cc
  failing writer_failed h = cc

  pub applies_known :
      (R : Spool → Type 0)
      → ((s : Spool) (t : Dir) → R s → R (record s { dir = t }))
      → Triple R
          (apply_desired c (some d))
          (λ st s.
            R s × (str_eq st.status "ok" ≡ true → lets_in s.dir u x ≡ allows d.principals u x))
          (λ _ _. ⊥)
  applies_known R keep =
      Triple-if (policy_payload_ok d.principals) _ _
        (λ _.
          Triple-recover (λ _. R) _ _
            (Triple-bind (λ _ s. R s × (lets_in s.dir u x ≡ allows d.principals u x)) _ _
              (Triple-on_dir _ R _ keep render)
              (λ _. Triple-pure (ok_status c d) (λ s p. (p.0, λ _. p.1))))
            (λ e. Triple-pure _ (λ s p. (p, λ h. absurd (failing e h)))))
        (λ _. Triple-pure _ (λ s p. (p, λ h. absurd (not_ok h))))
