-- ===== src/Api/Roles.antt =====
-- apps/api/src/common/role.guard.ts and packages/domain/src/roles.ts.
use mergecrew.Base.{ℕ, Option, none, some, Bool, not, leb}
use mergecrew.Exec.{Exec, pure, raise, forbidden, ◌>>◌}
use mergecrew.Api.{OrgRole, owner, admin, operator, viewer, TenantContext, ApiDb, refuse_if}

abbrev pub role_rank : OrgRole → ℕ
role_rank owner = 4
role_rank admin = 3
role_rank operator = 2
role_rank viewer = 1

abbrev pub role_at_least : OrgRole → OrgRole → Bool
role_at_least have need = leb (role_rank need) (role_rank have)

-- A handler with no required role is open; the guard throws where there is no tenant or its role is too low.
unfoldable pub can_activate : Option OrgRole → Option TenantContext → Exec ApiDb Unit
can_activate none t = pure tt
can_activate (some need) none = raise (forbidden "forbidden")
can_activate (some need) (some t) =
    refuse_if (not (role_at_least t.role need)) (forbidden "requires role")

-- `@RequireRole('operator')` on a handler of a controller.
unfoldable pub as_operator : {A : Type 0} → TenantContext → Exec ApiDb A → Exec ApiDb A
as_operator t act = can_activate (some operator) (some t) >> act
