-- ===== src/Arp/Scope.antt =====
-- arp/server/scope.go: scopes and their narrowing, and what a principal may reach.
pub mod Narrowing
use spec_torture.Base.{
  String, Bool, true, false, ◌||◌, Option, none, some, List, [], ◌∷◌, contains, all, if◌then◌else◌,
}
use spec_torture.Base.Int.{ltb_ℤ}
use spec_torture.Arp.Messages.{Scope, Permission, permission_number}

-- `GetGlobal` and `GetProjects` answer on a nil scope too.
abbrev pub get_global : Option Scope → Bool
get_global none = false
get_global (some s) = s.global

abbrev pub get_projects : Option Scope → List String
get_projects none = []
get_projects (some s) = s.projects

-- the map of the parent's projects is asked only for membership
child_subset : Scope → Scope → Bool
child_subset child parent =
    if child.global then false else all (contains parent.projects) child.projects

unfoldable pub scope_subset : Option Scope → Option Scope → Bool
unfolding child_subset
scope_subset child none = true
scope_subset none (some parent) = true
scope_subset (some child) (some parent) = if parent.global then true else child_subset child parent

-- a copy that shares nothing with its argument, which values never do
unfoldable pub clone_scope : Option Scope → Option Scope
clone_scope none = none
clone_scope (some s) = some (record { global = s.global; projects = s.projects })

-- `requested > parent`, on the enum's numbers
abbrev pub exceeds : Permission → Permission → Bool
exceeds requested parent = ltb_ℤ (permission_number parent) (permission_number requested)

-- `isGlobal` and `canAccessProject`, of the scope of a principal
unfoldable pub is_global : Option Scope → Bool
is_global none = true
is_global (some s) = s.global

unfoldable pub can_access_project : Option Scope → String → Bool
unfolding is_global
can_access_project scope name = if is_global scope then true else contains (get_projects scope) name

-- comparisons of an enum value with a constant
abbrev pub is_unspecified : Permission → Bool
is_unspecified Permission.unspecified = true
is_unspecified _ = false

abbrev pub is_session : Permission → Bool
is_session Permission.session = true
is_session _ = false

abbrev pub is_admin : Permission → Bool
is_admin Permission.admin = true
is_admin _ = false
