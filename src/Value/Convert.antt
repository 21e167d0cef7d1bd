-- ===== src/Value/Convert.antt =====
-- The data type, and the passage between its object fields and a dictionary.
use spec_torture.Base.{ℕ, String, Bool, List, [], ◌∷◌}
use spec_torture.Base.Int.{ℤ}
use spec_torture.Base.Dict.{Dict}

mutual
  pub data Value : Type 0 where
    null : Value
    boolean : Bool → Value
    text : String → Value
    int : ℤ → Value
    float : ℕ → Value
    number : String → Value
    arr : Items → Value
    obj : Fields → Value

  pub data Items : Type 0 where
    no_items : Items
    item : Value → Items → Items

  pub data Fields : Type 0 where
    no_fields : Fields
    field : String → Value → Fields → Fields

abbrev pub items : Items → List Value
items no_items = []
items (item v vs) = v ∷ items vs

abbrev pub of_items : List Value → Items
of_items [] = no_items
of_items (v ∷ vs) = item v (of_items vs)

abbrev pub fields : Fields → Dict Value
fields no_fields = []
fields (field k v fs) = (k, v) ∷ fields fs

abbrev pub of_fields : Dict Value → Fields
of_fields [] = no_fields
of_fields ((k, v) ∷ m) = field k v (of_fields m)
