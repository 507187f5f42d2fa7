-- ===== src/Access/Isolation.antt =====
-- What a scoped query can return: never another person's document to a driver, never another
-- company's to its staff (backend/src/utils/companyScope.ts, backend/src/utils/ownerScope.ts).
use ev_charger_management_pl.Prelude.{ℕ, ◌≡◌, ◌≢◌, ◌↔◌, Option, some, none, Bool, true, arith}
use ev_charger_management_pl.Prelude.Result.{ok}
use ev_charger_management_pl.Prelude.Table.{
  Table, IsTable, find_one, find_by_id, find_one_sound, find_one_complete,
}
use ev_charger_management_pl.Access.{
  Role, super_admin, cpo_admin, operator, driver, AuthUser, Owned, Filter, plain, satisfies,
  apply_read_scope,
}

-- Whose documents a role may see: a driver their own, company staff their company's, and the
-- platform administrator all.
abbrev pub MaySee : Role → (actor : AuthUser) (owner : ℕ) (company : Option ℕ) → Type 0
MaySee driver actor owner company = owner ≡ actor.id
MaySee super_admin actor owner company = Unit
MaySee cpo_admin actor owner company = (company ≡ actor.company_id) × (company ≢ none)
MaySee operator actor owner company = (company ≡ actor.company_id) × (company ≢ none)

module _ {A : Type 0} ⦃o : Owned A⦄ where
  pub scoped_document :
      (actor : AuthUser) (p : A → Bool) (scope : Filter A) (a : A)
      → apply_read_scope actor (plain p) ≡ ok scope
      → (satisfies scope a ≡ true)
        ↔ (MaySee actor.role actor (o.user_of a) (o.company_of a) × (p a ≡ true))
  unfolding apply_read_scope satisfies
  scoped_document actor p scope a e = (λ h. ground arith, λ h. ground arith)

  -- A query through the read scope finds only a stored document that the caller may see.
  pub scoped_query_found :
      (actor : AuthUser) (p : A → Bool) (scope : Filter A) (t : Table A) (k : ℕ) (a : A)
      → IsTable t
      → apply_read_scope actor (plain p) ≡ ok scope
      → find_one (satisfies scope) t ≡ some (k, a)
      → (find_by_id k t ≡ some a)
        × (p a ≡ true)
        × MaySee actor.role actor (o.user_of a) (o.company_of a)
  scoped_query_found actor p scope t k a h e found =
      let (stored, fits) = find_one_sound (satisfies scope) t k a h found in
      let (may, test) = (scoped_document actor p scope a e).0 fits in (stored, test, may)

  -- If a query through the read scope finds nothing, then no stored document that the query asks
  -- for is one that the caller may see.
  pub scoped_query_nothing :
      (actor : AuthUser) (p : A → Bool) (scope : Filter A) (t : Table A) (k : ℕ) (a : A)
      → apply_read_scope actor (plain p) ≡ ok scope
      → find_one (satisfies scope) t ≡ none
      → find_by_id k t ≡ some a
      → p a ≡ true
      → ¬ MaySee actor.role actor (o.user_of a) (o.company_of a)
  scoped_query_nothing actor p scope t k a e nothing stored test may = cc (
    find_one_complete (satisfies scope) t k a nothing stored,
    (scoped_document actor p scope a e).1 (may, test),
  )
