-- ===== src/Agent/Spool/Invariant.antt =====
-- What a round of the principals writer keeps, while the file of the policy holds one desired state.
use mathlib.Core.Path.{subst}
use uncluster.Prelude.{
  String, ◌≡◌, refl, sym, ap, ◌∙◌, Bool, true, false, ◌&&◌, Option, none, some, List, if◌then◌else◌,
  str_eq, str_eq_iff,
}
use uncluster.Prelude.Exec.Triple.{
  Triple, Triple-bind, Triple-pure, Triple-from, Triple-recover, Triple-if,
}
use uncluster.Store.Acl.Snapshot.{allows, has_user, Once}
use uncluster.Agent.Policy.Rendered.{lets_in, has_tmp}
use uncluster.Agent.Spool.{
  DesiredState, AppliedStatus, Codec, IsCodec, Spool, matching, matches_desired, if_matching,
  apply_desired, apply_desired_state_bytes, write_applied, acted, act, tick_on, writer_rounds,
  write_status, should_self_remove_on_apply,
}
use uncluster.Agent.Spool.Applied.{applies_known}
use uncluster.Agent.Spool.Rules.{
  Triple-current, Triple-modify, Triple-write, Triple-self_remove, Triple-tick, rounds_keep,
}

module _ (c : Codec) (law : IsCodec c) (d : DesiredState) (b : String)
    (coded : c.marshal_desired d ≡ some b) (u x : String) (grouped : Once d.principals)
    (free : (has_user u d.principals && has_tmp u d.principals) ≡ false) where
  abbrev pub Enforced : Spool → Type 0
  Enforced s = lets_in s.dir u x ≡ allows d.principals u x

  -- Where the writer's answer fits and is a success, `G` holds.
  abbrev pub Says : Option String → Type 0 → Type 0
  Says file G =
      (st : AppliedStatus) → matching c d file ≡ some st → str_eq st.status "ok" ≡ true → G

  abbrev pub Inv : Spool → Type 0
  Inv s = (s.policy ≡ some b) × Says s.applied (Enforced s × (s.last_digest ≡ c.sum b))

  abbrev Fresh : Spool → Type 0
  Fresh s = (s.policy ≡ some b) × Says s.applied ⊥

  abbrev Judged : AppliedStatus → Spool → Type 0
  Judged st s = Fresh s × (str_eq st.status "ok" ≡ true → Enforced s)

  applies : Triple Fresh (apply_desired_state_bytes c b) Judged (λ _ _. ⊥)
  unfolding apply_desired_state_bytes
  applies =
      subst (λ o. Triple Fresh (apply_desired c o) Judged (λ _ _. ⊥))
        (sym (law.reads_desired d b coded)) (applies_known c d u x grouped free Fresh (λ s t p. p))

  abbrev Written : AppliedStatus → Spool → Type 0
  Written st s =
      (s.policy ≡ some b)
      × Says s.applied (Enforced s × (str_eq st.status "ok" ≡ true))
      × (str_eq st.status "ok" ≡ true → Enforced s)

  read_back :
      (st t : AppliedStatus) (file : String)
      → c.unmarshal_applied file ≡ some st
      → matching c d (some file) ≡ some t
      → t ≡ st
  unfolding matching
  read_back st t file e h = chosen (matches_desired st d) (sym (ap (if_matching d) e) ∙ h)
    where
      chosen : (y : Bool) → (if y then some st else none) ≡ some t → t ≡ st
      chosen true k = cc
      chosen false k = cc

  unwritten : (st : AppliedStatus) (s : Spool) → Judged st s → Written st s
  unwritten st s p = (p.0.0, (λ t h k. absurd (p.0.1 t h k)), p.1)

  writes_file :
      (st : AppliedStatus) (o : Option String)
      → c.marshal_applied st ≡ o
      → Triple (Judged st) (write_status c o) (λ _. Written st) (λ _ _. ⊥)
  writes_file st none e = Triple-pure tt (unwritten st)
  writes_file st (some file) e =
      Triple-recover (λ _. Judged st) _ _
        (Triple-write _ (λ s p. (
          p.0.0,
          (λ t h k.
              let same =
                subst (λ (y : AppliedStatus). str_eq y.status "ok" ≡ true)
                  (read_back st t file (law.reads_applied st file e) h) k in
              (p.1 same, same)),
          p.1,
        )))
        (λ _. Triple-pure tt (unwritten st))

  writes :
      (st : AppliedStatus) → Triple (Judged st) (write_applied c st) (λ _. Written st) (λ _ _. ⊥)
  unfolding write_applied
  writes st = writes_file st (c.marshal_applied st) refl

  acts_on : (st : AppliedStatus) → Triple (Written st) (acted c b st) (λ _. Inv) (λ _ _. ⊥)
  acts_on st =
      Triple-if (str_eq st.status "ok") _ _
        (λ k.
          Triple-bind (λ _. Inv) _ _
            (Triple-modify _ (λ s p. (p.0, (λ t h o. ((p.1 t h o).0, refl)))))
            (λ _.
              Triple-if (should_self_remove_on_apply c b st) _ _
                (λ _.
                  Triple-bind (λ _. Inv) _ _ (Triple-self_remove (λ _ p. p))
                    (λ _. Triple-pure true (λ _ p. p)))
                (λ _. Triple-pure false (λ _ p. p))))
        (λ k. Triple-pure false (λ s p. (p.0, (λ t h o. absurd (differ (sym k ∙ (p.1 t h o).1))))))
    where
      differ : false ≡ true → ⊥
      differ h = cc

  shut : (t s : Spool) → t ≡ s → str_eq (c.sum b) t.last_digest ≡ false → Inv s → Fresh s
  shut t s same other p = (
    p.0,
    (λ st h k.
        let e = ap (λ y. y.last_digest) same ∙ (p.1 st h k).1 in
        differ (sym other ∙ (str_eq_iff (c.sum b) t.last_digest).1 (sym e))),
  )
    where
      differ : false ≡ true → ⊥
      differ h = cc

  acts : Triple Fresh (act c b) (λ _. Inv) (λ _ _. ⊥)
  acts =
      Triple-bind Judged _ _ applies
        (λ st. Triple-bind (λ _. Written st) _ _ (writes st) (λ _. acts_on st))

  ticks_on : Triple Inv (tick_on c (some b)) (λ _. Inv) (λ _ _. ⊥)
  ticks_on =
      Triple-bind (λ t s. (t ≡ s) × Inv s) _ _ Triple-current
        (λ t.
          Triple-if (str_eq (c.sum b) t.last_digest) _ _ (λ _. Triple-pure false (λ _ p. p.1))
            (λ other. Triple-from Fresh (λ s p. shut t s p.0 other p.1) acts))

  pub rounds-Inv : (fs : List (List Bool)) (s : Spool) → Inv s → Inv (writer_rounds c fs s)
  rounds-Inv fs s p =
      rounds_keep c (Triple-tick c b (λ _ p. p.0) (λ _ p. p) ticks_on) (λ _ p. p) fs s p
