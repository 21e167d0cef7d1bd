-- ===== src/Arp/Scope/Narrowing.antt =====
-- What a scope lets its holder reach, and that a subset reaches no more.
use spec_torture.Base.{
  ◌≡◌, refl, String, true, false, Option, none, some, List, [], ◌∷◌, ◌↔◌, ◌⊎◌, inl, inr, arith,
  contains, all, eq_iff, eq_refl, Bool-cases,
}
use spec_torture.Arp.Messages.{Scope}
use spec_torture.Arp.Scope.{get_projects, scope_subset, is_global, can_access_project}

all-contains :
    (names projects : List String) (name : String)
    → all (contains projects) names ≡ true
    → contains names name ≡ true
    → contains projects name ≡ true
all-contains [] projects name h k = cc
all-contains (x ∷ xs) projects name h k =
    ground (arith, all-contains xs projects name, eq_iff x name)

all_of_contains :
    (names projects : List String)
    → ((name : String) → contains names name ≡ true → contains projects name ≡ true)
    → all (contains projects) names ≡ true
all_of_contains [] projects h = refl
all_of_contains (x ∷ xs) projects h =
    let here : contains projects x ≡ true = h x (rw (eq_refl x)) in
    rw here (all_of_contains xs projects (λ name k. h name (ground arith)))

-- A scope that `scopeSubset` accepts reaches no project that the parent scope does not reach.
pub scope_subset_sound :
    (child : Scope) (parent : Option Scope) (name : String)
    → scope_subset (some child) parent ≡ true
    → can_access_project (some child) name ≡ true
    → can_access_project parent name ≡ true
unfolding scope_subset can_access_project
scope_subset_sound child none name h k = refl
scope_subset_sound child (some parent) name h k =
    ground (arith, all-contains child.projects parent.projects name)

-- `scopeSubset` accepts a requested scope exactly when the parent scope is global, or the request is
-- not global and names only projects that the parent names.
pub scope_subset_iff :
    (child : Scope) (parent : Option Scope)
    → (scope_subset (some child) parent ≡ true) ↔ (
        (is_global parent ≡ true)
        ⊎ ((child.global ≡ false)
            × ((name : String)
                → contains child.projects name ≡ true
                → contains (get_projects parent) name ≡ true)))
unfolding scope_subset is_global
scope_subset_iff child none = (λ _. inl refl, λ _. refl)
scope_subset_iff child (some parent) = elim (Bool-cases parent.global) [
  | inl open_parent ↦ (λ _. inl open_parent, λ _. rw open_parent)
  | inr closed ↦ elim (Bool-cases child.global) [
    | inl wide ↦ (λ h. ground arith, λ h. ground arith)
    | inr narrow ↦ (
      λ h. inr (narrow, λ name. all-contains child.projects parent.projects name (ground arith)),
      λ h. elim h [
        | inl open_parent ↦ cc
        | inr bounded ↦
            rw (closed, narrow) (all_of_contains child.projects parent.projects bounded.1)
      ],
    )
  ]
]
