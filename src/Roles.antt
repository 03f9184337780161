-- ===== src/Roles.antt =====
-- Roles and permissions: src/security/roles/assets/enum and assets/config, and the questions of
-- src/security/roles/roles.service.ts that are answered from that table.
pub mod Ability
mod Tests
pub mod Access
pub mod Texts
pub mod Guard
use Prim.Native.String.{String}
use text.Mathlib.Text.{◌==◌ as str_eq}
use enix_backend.Base.{Bool, List, [], ◌∷◌, any, all}

-- `enum ROLE`
pub data Role : Type 0 where
  administrator founder chief_executive operations_manager staff member developer : Role

-- `enum Permission`
pub data Permission : Type 0 where
  user_read user_create user_update user_delete : Permission
  user_manage profile_read profile_update profile_delete : Permission
  role_read role_assign role_manage auth_manage : Permission
  security_view security_manage moderate_users moderate_content : Permission
  ban_users timeout_users system_admin system_config : Permission
  system_logs content_read content_create content_update : Permission
  content_delete content_manage analytics_view reports_view : Permission
  reports_generate : Permission

-- the text that the enum gives each permission
unfoldable pub permission_text : Permission → String
permission_text user_read = "user:read"
permission_text user_create = "user:create"
permission_text user_update = "user:update"
permission_text user_delete = "user:delete"
permission_text user_manage = "user:manage"
permission_text profile_read = "profile:read"
permission_text profile_update = "profile:update"
permission_text profile_delete = "profile:delete"
permission_text role_read = "role:read"
permission_text role_assign = "role:assign"
permission_text role_manage = "role:manage"
permission_text auth_manage = "auth:manage"
permission_text security_view = "security:view"
permission_text security_manage = "security:manage"
permission_text moderate_users = "moderate:users"
permission_text moderate_content = "moderate:content"
permission_text ban_users = "moderate:ban"
permission_text timeout_users = "moderate:timeout"
permission_text system_admin = "system:admin"
permission_text system_config = "system:config"
permission_text system_logs = "system:logs"
permission_text content_read = "content:read"
permission_text content_create = "content:create"
permission_text content_update = "content:update"
permission_text content_delete = "content:delete"
permission_text content_manage = "content:manage"
permission_text analytics_view = "analytics:view"
permission_text reports_view = "reports:view"
permission_text reports_generate = "reports:generate"

-- the text that the enum gives each role
unfoldable pub role_text : Role → String
role_text administrator = "Administrator"
role_text founder = "Founder"
role_text chief_executive = "Chief Executive"
role_text operations_manager = "Operations Manager"
role_text staff = "Staff"
role_text member = "Member"
role_text developer = "Developer"

-- `Object.values(ROLE)`
unfoldable pub get_all_roles : List Role
get_all_roles =
    administrator ∷ founder ∷ chief_executive ∷ operations_manager ∷ staff ∷ member ∷ developer ∷ []

-- `Object.values(Permission)`
unfoldable pub get_all_permissions : List Permission
get_all_permissions =
    user_read ∷ user_create ∷ user_update ∷ user_delete ∷ user_manage ∷ profile_read
    ∷ profile_update ∷ profile_delete ∷ role_read ∷ role_assign ∷ role_manage ∷ auth_manage
    ∷ security_view ∷ security_manage ∷ moderate_users ∷ moderate_content ∷ ban_users
    ∷ timeout_users ∷ system_admin ∷ system_config ∷ system_logs ∷ content_read ∷ content_create
    ∷ content_update ∷ content_delete ∷ content_manage ∷ analytics_view ∷ reports_view
    ∷ reports_generate ∷ []

-- `ROLE_PERMISSIONS`, read by `getRolePermissions`
unfoldable pub get_role_permissions : Role → List Permission
get_role_permissions administrator =
    user_manage ∷ profile_update ∷ profile_delete ∷ role_manage ∷ auth_manage ∷ security_manage
    ∷ moderate_users ∷ moderate_content ∷ ban_users ∷ timeout_users ∷ system_admin ∷ system_config
    ∷ system_logs ∷ content_manage ∷ analytics_view ∷ reports_generate ∷ []
get_role_permissions founder =
    user_manage ∷ profile_update ∷ profile_delete ∷ role_manage ∷ auth_manage ∷ security_manage
    ∷ moderate_users ∷ moderate_content ∷ ban_users ∷ timeout_users ∷ system_admin ∷ system_config
    ∷ system_logs ∷ content_manage ∷ analytics_view ∷ reports_generate ∷ []
get_role_permissions chief_executive =
    user_read ∷ user_update ∷ profile_read ∷ profile_update ∷ role_read ∷ role_assign
    ∷ security_view ∷ moderate_users ∷ moderate_content ∷ ban_users ∷ timeout_users ∷ content_manage
    ∷ analytics_view ∷ reports_view ∷ reports_generate ∷ []
get_role_permissions operations_manager =
    user_read ∷ user_update ∷ profile_read ∷ profile_update ∷ moderate_users ∷ moderate_content
    ∷ ban_users ∷ timeout_users ∷ content_read ∷ content_update ∷ content_delete ∷ analytics_view
    ∷ reports_view ∷ []
get_role_permissions staff =
    user_read ∷ profile_read ∷ moderate_content ∷ content_read ∷ content_update ∷ reports_view ∷ []
get_role_permissions member = profile_read ∷ profile_update ∷ content_read ∷ content_create ∷ []
get_role_permissions developer =
    user_read ∷ profile_read ∷ system_logs ∷ content_read ∷ content_create ∷ content_update
    ∷ analytics_view ∷ []

-- `===` of two values of an enum compares their texts, which are all different.
unfoldable pub role_eq : Role → Role → Bool
role_eq r s = str_eq (role_text r) (role_text s)

unfoldable pub permission_eq : Permission → Permission → Bool
permission_eq p q = str_eq (permission_text p) (permission_text q)

-- `Array.prototype.includes`
unfoldable pub includes : List Permission → Permission → Bool
unfolding permission_eq
includes ps p = any (λ q. permission_eq q p) ps

-- `Array.prototype.includes` on roles
unfoldable pub includes_role : List Role → Role → Bool
unfolding role_eq
includes_role rs r = any (λ s. role_eq s r) rs

unfoldable pub role_has_permission : Role → Permission → Bool
unfolding get_role_permissions includes
role_has_permission role p = includes (get_role_permissions role) p

unfoldable pub role_has_any_permission : Role → List Permission → Bool
unfolding get_role_permissions includes
role_has_any_permission role ps =
    let granted = get_role_permissions role in any (λ p. includes granted p) ps

unfoldable pub role_has_all_permissions : Role → List Permission → Bool
unfolding get_role_permissions includes
role_has_all_permissions role ps =
    let granted = get_role_permissions role in all (λ p. includes granted p) ps
