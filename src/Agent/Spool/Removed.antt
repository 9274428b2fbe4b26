-- ===== src/Agent/Spool/Removed.antt =====
-- The principals writer removes its own service only behind a wipe.
use mathlib.Core.Path.{subst}
use uncluster.Prelude.{
  String, ◌≡◌, refl, sym, ap, ◌∙◌, Bool, true, false, ◌&&◌, Option, none, some, str_eq, arith,
}
use uncluster.Prelude.Exec.{ok, World}
use uncluster.Prelude.Exec.Triple.{
  Triple, Outcome-ok, Triple-bind, Triple-pure, Triple-recover, Triple-if, Triple-from,
  Triple-weaken,
}
use uncluster.Store.Acl.Snapshot.{allows, has_user, Once}
use uncluster.Agent.Policy.Rendered.{lets_in, has_tmp}
use uncluster.Agent.Spool.{
  DesiredState, AppliedStatus, Codec, Spool, apply_desired, apply_desired_state_bytes, write_status,
  write_applied, acted, act, tick_on, tick, should_self_remove_on_apply, requests,
  desired_state_requests_deprovision,
}
use uncluster.Agent.Spool.Applied.{applies_known}
use uncluster.Agent.Spool.Rules.{
  Triple-current, Triple-modify, Triple-write, Triple-self_remove, Triple-tick,
}

module _ (c : Codec) (d : DesiredState) (b : String) (parsed : c.unmarshal_desired b ≡ some d)
    (u x : String) (grouped : Once d.principals)
    (free : (has_user u d.principals && has_tmp u d.principals) ≡ false) where
  abbrev Judged : AppliedStatus → Spool → Type 0
  Judged st s = str_eq st.status "ok" ≡ true → lets_in s.dir u x ≡ allows d.principals u x

  abbrev Ended : Bool → Spool → Type 0
  Ended y s = y ≡ true → (d.deprovision ≡ true) × (lets_in s.dir u x ≡ allows d.principals u x)

  going_on : (s : Spool) → Ended false s
  going_on s h = cc

  applies : Triple (λ _. Unit) (apply_desired_state_bytes c b) Judged (λ _ _. ⊥)
  unfolding apply_desired_state_bytes
  applies =
      subst (λ o. Triple (λ _. Unit) (apply_desired c o) Judged (λ _ _. ⊥)) (sym parsed)
        (Triple-weaken _ (λ _ _. ⊥) (λ _ _ q. q.1) (λ _ _ h. h)
          (applies_known c d u x grouped free (λ _. Unit) (λ _ _ _. tt)))

  writes_file :
      (st : AppliedStatus) (o : Option String)
      → Triple (Judged st) (write_status c o) (λ _. Judged st) (λ _ _. ⊥)
  writes_file st none = Triple-pure tt (λ _ p. p)
  writes_file st (some file) =
      Triple-recover (λ _. Judged st) _ _ (Triple-write _ (λ _ p. p))
        (λ _. Triple-pure tt (λ _ p. p))

  asked : (st : AppliedStatus) → should_self_remove_on_apply c b st ≡ true → d.deprovision ≡ true
  unfolding should_self_remove_on_apply desired_state_requests_deprovision
  asked st h = sym (ap requests parsed) ∙ ground (arith, h)

  acts_on : (st : AppliedStatus) → Triple (Judged st) (acted c b st) Ended (λ _ _. ⊥)
  acts_on st =
      Triple-if (str_eq st.status "ok") _ _
        (λ k.
          Triple-bind (λ _ s. lets_in s.dir u x ≡ allows d.principals u x) _ _
            (Triple-modify _ (λ s p. p k))
            (λ _.
              Triple-if (should_self_remove_on_apply c b st) _ _
                (λ r.
                  Triple-bind (λ _ s. lets_in s.dir u x ≡ allows d.principals u x) _ _
                    (Triple-self_remove (λ _ p. p))
                    (λ _. Triple-pure true (λ s p _. (asked st r, p))))
                (λ _. Triple-pure false (λ s _. going_on s))))
        (λ _. Triple-pure false (λ s _. going_on s))

  acts : Triple (λ _. Unit) (act c b) Ended (λ _ _. ⊥)
  unfolding write_applied
  acts = Triple-bind Judged _ _ applies (λ st.
      Triple-bind (λ _. Judged st) _ _ (writes_file st (c.marshal_applied st)) (λ _. acts_on st))

  ticks_on : Triple (λ s. s.policy ≡ some b) (tick_on c (some b)) Ended (λ _ _. ⊥)
  ticks_on =
      Triple-bind (λ t s. (t ≡ s) × (s.policy ≡ some b)) _ _ Triple-current
        (λ t.
          Triple-if (str_eq (c.sum b) t.last_digest) _ _
            (λ _. Triple-pure false (λ s _. going_on s))
            (λ _. Triple-from (λ _. Unit) (λ _ _. tt) acts))

  -- The round in which the writer ends has read a request of deprovision, and the directory lets in
  -- exactly the pairs of that request, whatever calls are refused; each user stands
  -- once in the request, and the user in question is not called like the temporary file of another.
  pub tick_ends :
      (w : World Spool)
      → w.state.policy ≡ some b
      → (tick c w).0 ≡ ok true
      → (d.deprovision ≡ true) × (lets_in (tick c w).1.state.dir u x ≡ allows d.principals u x)
  tick_ends w there done =
      Outcome-ok Ended (λ _ _. ⊥) _ _ true done
        ((Triple-tick c b (λ _ p. p) (λ s _. going_on s) ticks_on).at w there) refl
