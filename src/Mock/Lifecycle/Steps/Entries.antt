-- ===== src/Mock/Lifecycle/Steps/Entries.antt =====
-- What holds of the entries of a map, and ports that are distinct.
use spec_torture.Base.{
  ℕ, ◌≡◌, ◌≢◌, String, Bool, true, false, none, some, [], ◌∷◌, ◌==◌, All, arith, Bool-cases,
  if_holds, sym, subst, ◌∙◌, inl, inr,
}
use spec_torture.Base.Dict.{Dict, lookup, insert, delete}
use spec_torture.Mock.Lifecycle.{MockAgent, values}
use spec_torture.Mock.Lifecycle.Workspaces.{drop_agents}

module _ {V : Type 0} where
  abbrev pub Holds : (V → Type 0) → Dict V → Type 0
  Holds P m = All P (values m)

  pub Holds-imply : (P Q : V → Type 0) (m : Dict V) → ((v : V) → P v → Q v) → Holds P m → Holds Q m
  Holds-imply P Q [] f h = tt
  Holds-imply P Q ((k, v) ∷ m) f (p, h) = (f v p, Holds-imply P Q m f h)

  pub Holds-insert :
      (P : V → Type 0) (name : String) (v : V) (m : Dict V)
      → Holds P m
      → P v
      → Holds P (insert name v m)
  unfolding insert
  Holds-insert P name v [] h p = (p, tt)
  Holds-insert P name v ((k, old) ∷ m) (q, h) p =
      if_holds (Holds P) (k == name) _ _ (p, h) (q, Holds-insert P name v m h p)

  pub Holds-delete :
      (P : V → Type 0) (name : String) (m : Dict V) → Holds P m → Holds P (delete name m)
  unfolding delete
  Holds-delete P name [] h = tt
  Holds-delete P name ((k, v) ∷ m) (p, h) =
      let rest = Holds-delete P name m h in if_holds (Holds P) (k == name) _ _ rest (p, rest)

  pub Holds-lookup :
      (P : V → Type 0) (name : String) (v : V) (m : Dict V)
      → Holds P m
      → lookup name m ≡ some v
      → P v
  unfolding lookup
  Holds-lookup P name v [] h e = absurd (ground arith)
  Holds-lookup P name v ((k, x) ∷ m) (p, h) e = elim (Bool-cases (k == name)) [
    | inl here ↦ let same : x ≡ v = ground arith in rw (← same) p
    | inr there ↦ Holds-lookup P name v m h (ground arith)
  ]

  -- the map has the key
  abbrev pub has_key : String → Dict V → Bool
  has_key k m = elim (lookup k m) [ none ↦ false | some v ↦ true ]

-- The agents that are left are those of other workspaces.
pub Holds-drop_agents :
    (P : MockAgent → Type 0) (name : String) (m : Dict MockAgent)
    → Holds P m
    → Holds (λ a. P a × ((a.workspace == name) ≡ false)) (drop_agents name m)
unfolding drop_agents
Holds-drop_agents P name [] h = tt
Holds-drop_agents P name ((k, a) ∷ m) (p, h) = elim (Bool-cases (a.workspace == name)) [
  | inl e ↦ rw e (Holds-drop_agents P name m h)
  | inr e ↦ rw e ((p, e), Holds-drop_agents P name m h)
]

abbrev pub HasOtherPort : ℕ → MockAgent → Type 0
HasOtherPort p a = a.port ≢ p

-- no two agents have the same port
abbrev pub HaveOwnPorts : Dict MockAgent → Type 0
HaveOwnPorts [] = Unit
HaveOwnPorts ((k, a) ∷ m) = Holds (HasOtherPort a.port) m × HaveOwnPorts m

pub HaveOwnPorts-fresh :
    (name : String) (a : MockAgent) (m : Dict MockAgent)
    → Holds (HasOtherPort a.port) m
    → HaveOwnPorts m
    → HaveOwnPorts (insert name a m)
unfolding insert
HaveOwnPorts-fresh name a [] h o = (tt, tt)
HaveOwnPorts-fresh name a ((k, b) ∷ m) (p, h) (q, o) =
    if_holds HaveOwnPorts (k == name) _ _ (h, o)
      (Holds-insert _ name a m q (λ e. p (sym e)), HaveOwnPorts-fresh name a m h o)

-- an agent that keeps its port
pub HaveOwnPorts-same :
    (name : String) (a b : MockAgent) (m : Dict MockAgent)
    → lookup name m ≡ some a
    → b.port ≡ a.port
    → HaveOwnPorts m
    → HaveOwnPorts (insert name b m)
unfolding insert lookup
HaveOwnPorts-same name a b [] e p o = (tt, tt)
HaveOwnPorts-same name a b ((k, x) ∷ m) e p (q, o) = elim (Bool-cases (k == name)) [
  | inl here ↦
      let same : x.port ≡ b.port = ground arith in
      rw here (subst (λ n. Holds (HasOtherPort n) m) same q, o)
  | inr there ↦
      let later : lookup name m ≡ some a = ground arith in
      let apart : a.port ≢ x.port = Holds-lookup (HasOtherPort x.port) name a m q later in
      rw there (
        Holds-insert (HasOtherPort x.port) name b m q (λ f. apart (sym p ∙ f)),
        HaveOwnPorts-same name a b m later p o,
      )
]

pub HaveOwnPorts-drop :
    (name : String) (m : Dict MockAgent) → HaveOwnPorts m → HaveOwnPorts (drop_agents name m)
unfolding drop_agents
HaveOwnPorts-drop name [] o = tt
HaveOwnPorts-drop name ((k, a) ∷ m) (q, o) =
    let rest = HaveOwnPorts-drop name m o in
    if_holds HaveOwnPorts (a.workspace == name) _ _ rest
      (Holds-imply _ _ _ (λ x p. p.0) (Holds-drop_agents (HasOtherPort a.port) name m q), rest)
