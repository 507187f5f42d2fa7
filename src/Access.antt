-- ===== src/Access.antt =====
-- Who may see what: the roles (backend/src/constants/roles.ts), the company scope
-- (backend/src/utils/companyScope.ts) and the owner scope (backend/src/utils/ownerScope.ts).
--
-- A query filter is a record: the keys that the scopes set, which a later scope overwrites as
-- `{ ...filter, companyId }` does, and a test for everything else.
pub mod Isolation
use ev_charger_management_pl.Prelude.{
  ℕ, Option, none, some, Bool, true, false, ◌&&◌, ◌==◌, is_ref, if◌then◌else◌,
}
use ev_charger_management_pl.Prelude.Result.{Result, ok, err}

pub data Role : Type 0 where
  super_admin cpo_admin operator driver : Role

pub record AuthUser : Type 0 where
  pub id : ℕ
  pub role : Role
  pub company_id : Option ℕ

-- `actor.role === ROLES.DRIVER`, and so on.
abbrev pub is_driver : Role → Bool
is_driver driver = true
is_driver _ = false

abbrev pub is_operator : Role → Bool
is_operator operator = true
is_operator _ = false

abbrev pub is_super_admin : Role → Bool
is_super_admin super_admin = true
is_super_admin _ = false

-- The one way in which scoping itself fails: a company role without a company.
pub data ScopeError : Type 0 where
  no_company : ScopeError

pub record CompanyScope : Type 0 where
  pub is_platform_wide : Bool
  pub company_id : Option ℕ

pub resolve_company_scope : AuthUser → Result ScopeError CompanyScope
resolve_company_scope user =
    if is_super_admin user.role
    then ok (record { is_platform_wide = true; company_id = none })
    else elim user.company_id [
      | none ↦ err no_company
      | some c ↦ ok (record { is_platform_wide = false; company_id = some c })
    ]

-- The documents that a scope can filter: who owns them, and which company they belong to.
pub record Owned (A : Type 0) : Type 0 where
  pub user_of : A → ℕ
  pub company_of : A → Option ℕ

pub record Filter (A : Type 0) : Type 0 where
  pub user_id : Option ℕ
  pub company_id : Option ℕ
  pub others : A → Bool

-- A filter that says nothing of the owner or the company.
abbrev pub plain : {A : Type 0} → (A → Bool) → Filter A
plain p = record { user_id = none; company_id = none; others = p }

abbrev wants_user : Option ℕ → ℕ → Bool
wants_user none _ = true
wants_user (some u) owner = owner == u

abbrev wants_company : Option ℕ → Option ℕ → Bool
wants_company none _ = true
wants_company (some c) company = is_ref company c

module _ {A : Type 0} ⦃o : Owned A⦄ where
  -- Does a document match the filter?
  unfoldable pub satisfies : Filter A → A → Bool
  satisfies f a =
      wants_user f.user_id (o.user_of a)
      && wants_company f.company_id (o.company_of a)
      && f.others a

unfoldable pub apply_company_scope :
    {A : Type 0} → AuthUser → Filter A → Result ScopeError (Filter A)
unfolding resolve_company_scope
apply_company_scope user filter = elim (resolve_company_scope user) [
  | err e ↦ err e
  | ok scope ↦
      if scope.is_platform_wide
      then ok filter
      else ok (record filter { company_id = scope.company_id })
]

unfoldable pub apply_owner_scope : {A : Type 0} → AuthUser → Filter A → Filter A
apply_owner_scope user filter = record filter { user_id = some user.id }

-- `applyPaymentScope`, `applySessionReadScope` and `applyReadScope`: the role picks the scope.
unfoldable pub apply_read_scope : {A : Type 0} → AuthUser → Filter A → Result ScopeError (Filter A)
unfolding apply_company_scope apply_owner_scope
apply_read_scope actor filter =
    if is_driver actor.role
    then ok (apply_owner_scope actor filter)
    else apply_company_scope actor filter
