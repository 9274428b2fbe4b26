-- ===== src/PolicyHash/Order.antt =====
-- The canonical bytes and the hash do not depend on the order of the grants.
use mathlib.Core.HLevel.{hedberg}
use mathlib.Core.List.{Perm, Permᴰ}
use mathlib.Core.Logic.{∥∥₁_elim}
use native.Mathlib.Decide.{ℕ_discrete}
use uncluster.Prelude.{
  ℕ, String, ◌≡◌, refl, ap, true, List, [], ◌∷◌, ◌⊎◌, arith, str_eq_iff, codes, leb_codes_total,
  leb_codes_trans, leb_codes_antisymm, codes_injective, sort_order_free,
}
use uncluster.PolicyHash.{Grant, not_after, sort_grants, lines, canonical, hash}

not_after_total : (a b : Grant) → (not_after a b ≡ true) ⊎ (not_after b a ≡ true)
unfolding not_after
not_after_total a b = ground (
  arith,
  str_eq_iff a.username b.username,
  str_eq_iff b.username a.username,
  leb_codes_total (codes a.username) (codes b.username),
  leb_codes_total (codes a.caller_token_id) (codes b.caller_token_id),
)

not_after_trans :
    (a b c : Grant) → not_after a b ≡ true → not_after b c ≡ true → not_after a c ≡ true
unfolding not_after
not_after_trans a b c h k = ground (
  arith,
  str_eq_iff a.username b.username,
  str_eq_iff b.username c.username,
  str_eq_iff a.username c.username,
  leb_codes_trans (codes a.username) (codes b.username) (codes c.username),
  leb_codes_antisymm (codes a.username) (codes b.username),
  codes_injective a.username b.username,
  leb_codes_trans (codes a.caller_token_id) (codes b.caller_token_id) (codes c.caller_token_id),
)

not_after_antisymm : (a b : Grant) → not_after a b ≡ true → not_after b a ≡ true → a ≡ b
unfolding not_after
not_after_antisymm a b h k = ground (
  arith,
  str_eq_iff a.username b.username,
  str_eq_iff b.username a.username,
  leb_codes_antisymm (codes a.username) (codes b.username),
  codes_injective a.username b.username,
  leb_codes_antisymm (codes a.caller_token_id) (codes b.caller_token_id),
  codes_injective a.caller_token_id b.caller_token_id,
)

pub sort_grants_order_free : {xs ys : List Grant} → Permᴰ xs ys → sort_grants xs ≡ sort_grants ys
unfolding sort_grants
sort_grants_order_free p =
    sort_order_free not_after not_after_total not_after_trans not_after_antisymm p

pub canonical-lines : (xs : List Grant) → canonical xs ≡ lines (sort_grants xs)
unfolding canonical sort_grants
canonical-lines [] = refl
canonical-lines (g ∷ gs) = refl

-- Two orders of the same grants have the same canonical bytes.
pub canonical-perm : (xs ys : List Grant) → Perm xs ys → canonical xs ≡ canonical ys
canonical-perm xs ys p =
    rw (canonical-lines xs, canonical-lines ys)
      (∥∥₁_elim p (hedberg (hlevel ℕ_discrete) _ _) λ d. ap lines (sort_grants_order_free d))

-- Two orders of the same grants have the same hash.
pub hash-perm :
    (sum_hex : List ℕ → String) (xs ys : List Grant)
    → Perm xs ys
    → hash sum_hex xs ≡ hash sum_hex ys
unfolding hash
hash-perm sum_hex xs ys p = rw (canonical-perm xs ys p)
