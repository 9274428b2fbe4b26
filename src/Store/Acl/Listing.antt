-- ===== src/Store/Acl/Listing.antt =====
-- ListACL: which rows it returns.
use uncluster.Prelude.{
  String, ◌≡◌, refl, ◌∙◌, Bool, false, ◌&&◌, ◌||◌, List, [], ◌∷◌, arith, str_eq, filter, any,
  insert, sort,
}
use uncluster.Store.Db.{Db}
use uncluster.Store.Acl.{is_triple, selected_acl}

module _ {A : Type 0} where
  any-insert :
      (le : A → A → Bool) (p : A → Bool) (a : A) (xs : List A)
      → any p (insert le a xs) ≡ (p a || any p xs)
  unfolding any insert
  any-insert le p a [] = ground arith
  any-insert le p a (x ∷ xs) = ground (arith, any-insert le p a xs)

  any-sort : (le : A → A → Bool) (p : A → Bool) (xs : List A) → any p (sort le xs) ≡ any p xs
  unfolding any sort
  any-sort le p [] = refl
  any-sort le p (x ∷ xs) = ground (arith, any-insert le p x (sort le xs), any-sort le p xs)

  any-filter : (p q : A → Bool) (xs : List A) → any p (filter q xs) ≡ any (λ x. q x && p x) xs
  unfolding any filter
  any-filter p q [] = refl
  any-filter p q (x ∷ xs) = ground (arith, any-filter p q xs)

  pub any-ext : (p q : A → Bool) (xs : List A) → ((x : A) → p x ≡ q x) → any p xs ≡ any q xs
  unfolding any
  any-ext p q [] h = refl
  any-ext p q (x ∷ xs) h = ground (arith, h x, any-ext p q xs h)

-- Filtered by a caller and an agent, both given, some row is for this user exactly if the table
-- has the grant.
pub any-selected_acl :
    (caller agent user : String) (db : Db)
    → str_eq caller "" ≡ false
    → str_eq agent "" ≡ false
    → any
        (λ e. str_eq e.username user)
        (selected_acl (record { caller_token_id = caller; agent_id = agent }) db)
      ≡ any (is_triple caller agent user) db.acl
unfolding selected_acl
any-selected_acl caller agent user db h k =
    any-sort _ (λ e. str_eq e.username user) _
    ∙ any-filter (λ e. str_eq e.username user) _ db.acl
    ∙ any-ext _ (is_triple caller agent user) db.acl (λ e. ground (arith, h, k))
