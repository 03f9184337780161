-- ===== src/Roles/Ability.antt =====
-- src/security/roles/assets/factories/ability.factory.ts, and `can` of roles.service.ts.
use Prim.Native.Char.{code}
use Prim.Native.String
use Prim.Native.String.{String}
use mathlib.Core.List.{filter_map}
use text.Mathlib.Text.{◌==◌ as str_eq}
use enix_backend.Base.{
  ◌≡◌, refl, Bool, true, ◌&&◌, ◌||◌, Option, none, some, List, [], ◌∷◌, any, all, not, ◌==◌, ◌∙◌,
  arith, if◌then◌else◌,
}
use enix_backend.Roles.{
  Role, administrator, founder, chief_executive, operations_manager, staff, member, developer,
  Permission, user_read, permission_text, get_role_permissions,
}

-- `text.split(':')`
push_head : String → List String → List String
push_head c [] = c ∷ []
push_head c (s ∷ ss) = String.◌++◌ c s ∷ ss

split_colon : String → List String
split_colon String.[] = "" ∷ []
split_colon (String.◌∷◌ c s) =
    let rest = split_colon s in
    if code c == b':' then "" ∷ rest else push_head (String.◌∷◌ c String.[]) rest

-- An entry that the builder's `can(action, subject)` adds.
pub record Rule : Type 0 where
  pub action : String
  pub subject : String

abbrev rule : String → String → Option Rule
rule a s = some (record { action = a; subject = s })

-- The `switch` on the resource; a resource without a case adds nothing.
rule_for : String → String → Option Rule
rule_for resource action =
    if str_eq resource "user"
    then (if str_eq action "manage" then rule "manage" "User" else rule action "User")
    else if str_eq resource "profile"
    then rule action "Profile"
    else if str_eq resource "role"
    then rule action "Role"
    else if str_eq resource "content"
    then (if str_eq action "manage" then rule "manage" "Content" else rule action "Content")
    else if str_eq resource "system"
    then (if str_eq action "admin" then rule "manage" "all" else rule action "System")
    else if str_eq resource "moderate"
    then rule action "User"
    else if str_eq resource "security"
    then rule action "User"
    else if str_eq resource "auth"
    then rule "manage" "User"
    else if str_eq resource "analytics" || str_eq resource "reports"
    then rule "read" "System"
    else none

rule_of_parts : List String → Option Rule
rule_of_parts (resource ∷ action ∷ _) = rule_for resource action
rule_of_parts _ = none

permission_rule : Permission → Option Rule
unfolding split_colon push_head rule_of_parts rule_for permission_text
permission_rule p = rule_of_parts (split_colon (permission_text p))

-- `AbilityFactory.createForUser`: the rules of the ability, in the order of the permissions.
unfoldable pub create_for_user : Role → List Rule
unfolding permission_rule get_role_permissions
create_for_user role = filter_map permission_rule (get_role_permissions role)

-- A rule without conditions covers its action, or every action if it is "manage", on its
-- subject, or on every subject if it is "all".
abbrev pub covers : String → String → Rule → Bool
covers action subject r =
    (str_eq r.action "manage" || str_eq r.action action)
    && (str_eq r.subject "all" || str_eq r.subject subject)

-- The library CASL, as far as it is used here: its documented answer on rules that only allow.
pub record Casl : Type 0 where
  pub allows : List Rule → String → String → Bool
  pub allows_lem :
      (rules : List Rule) (action subject : String)
      → allows rules action subject ≡ any (covers action subject) rules

-- `RolesService.can`
pub can : Casl → Role → Permission → String → Bool
can casl role action subject = casl.allows (create_for_user role) (permission_text action) subject

-- A rule for every action on the subject.
abbrev pub manages : String → Rule → Bool
manages subject r = str_eq r.action "manage" && (str_eq r.subject "all" || str_eq r.subject subject)

-- No rule's action is the whole text of a permission, such as "user:read".
abbrev differs : String → Rule → Bool
differs action r = not (str_eq r.action action)

short_actions :
    (role : Role) (p : Permission) → all (differs (permission_text p)) (create_for_user role) ≡ true
unfolding create_for_user filter_map
short_actions administrator user_read = refl
short_actions administrator _ = refl
short_actions founder user_read = refl
short_actions founder _ = refl
short_actions chief_executive user_read = refl
short_actions chief_executive _ = refl
short_actions operations_manager user_read = refl
short_actions operations_manager _ = refl
short_actions staff user_read = refl
short_actions staff _ = refl
short_actions member user_read = refl
short_actions member _ = refl
short_actions developer user_read = refl
short_actions developer _ = refl

any-covers :
    (action subject : String) (rules : List Rule)
    → all (differs action) rules ≡ true
    → any (covers action subject) rules ≡ any (manages subject) rules
any-covers action subject [] h = refl
any-covers action subject (r ∷ rules) h = ground (arith, any-covers action subject rules)

-- RolesService.can looks for the whole text of a permission among actions that are cut at the colon:
-- with a rule engine that answers as documented, it answers by the "manage" rules alone, whatever
-- permission is asked for.
pub can-eq-manages :
    (casl : Casl) (role : Role) (p : Permission) (subject : String)
    → can casl role p subject ≡ any (manages subject) (create_for_user role)
unfolding can
can-eq-manages casl role p subject =
    casl.allows_lem (create_for_user role) (permission_text p) subject
    ∙ any-covers (permission_text p) subject (create_for_user role) (short_actions role p)
