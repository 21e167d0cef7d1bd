-- ===== src/Schema/Spec/Valid.antt =====
-- The specs that validation accepts, described without the loops.
use spec_torture.Base.{
  ℕ, suc, ◌≡◌, ◌≢◌, refl, ◌↔◌, ◌⊎◌, String, Bool, true, false, not, ◌&&◌, List, [], ◌∷◌, ◌++◌,
  arith, ◌==◌, eq_iff, contains, All, subst,
}
use spec_torture.Schema.Spec.{
  Step, TestCase, Spec, ValidationError, check, severities, actions, transports, is_empty,
  validate_steps, validate_case, validate_cases, validate,
}

abbrev pub IsKnown : List String → String → Type 0
IsKnown known s = contains known s ≡ true

pub record IsValidCase (tc : TestCase) : Type 0 where
  pub has_id : tc.id ≢ ""
  pub has_name : tc.name ≢ ""
  pub severity_known : (tc.severity ≡ "") ⊎ IsKnown severities tc.severity
  pub has_steps : tc.steps ≢ []
  pub actions_known : All (λ s. IsKnown actions s.action) tc.steps

-- no id is that of an earlier test case, nor one of `seen`
abbrev pub AreDistinct : List String → List TestCase → Type 0
AreDistinct seen [] = Unit
AreDistinct seen (tc ∷ tcs) = (contains seen tc.id ≡ false) × AreDistinct (tc.id ∷ seen) tcs

pub record IsValid (s : Spec) : Type 0 where
  pub has_id : s.id ≢ ""
  pub has_name : s.name ≢ ""
  pub has_version : s.version ≢ ""
  pub transport_known : IsKnown transports s.transport
  pub has_cases : s.test_cases ≢ []
  pub distinct : AreDistinct [] s.test_cases
  pub cases_valid : All IsValidCase s.test_cases

check_append :
    (b : Bool) (f m : String) (rest : List ValidationError)
    → (check b f m ++ rest ≡ []) ↔ ((b ≡ true) × (rest ≡ []))
unfolding check
check_append true f m rest = ground arith
check_append false f m rest = ground arith

append-eq-nil : (xs ys : List ValidationError) → (xs ++ ys ≡ []) ↔ ((xs ≡ []) × (ys ≡ []))
append-eq-nil [] ys = ground arith
append-eq-nil (x ∷ xs) ys = ground arith

nonempty_iff : (s : String) → (not (s == "") ≡ true) ↔ (s ≢ "")
nonempty_iff s = ground (arith, eq_iff s "")

steps_iff :
    (id : String) (i : ℕ) (ss : List Step)
    → (validate_steps id i ss ≡ []) ↔ All (λ s. IsKnown actions s.action) ss
unfolding validate_steps
steps_iff id i [] = (λ _. tt, λ _. refl)
steps_iff id i (s ∷ ss) =
    let later = steps_iff id (suc i) ss in
    (
      λ h. let (here, rest) = (check_append _ _ _ _).0 h in (here, later.0 rest),
      λ h. (check_append _ _ _ _).1 (h.0, later.1 h.1),
    )

severity_iff :
    (known : List String) (s : String)
    → (not (not (s == "") && not (contains known s)) ≡ true) ↔ ((s ≡ "") ⊎ IsKnown known s)
severity_iff known s = ground (arith, eq_iff s "")

steps_there : {A : Type 0} (xs : List A) → (not (is_empty xs) ≡ true) ↔ (xs ≢ [])
steps_there [] = ground arith
steps_there (x ∷ xs) = ground arith

case_sound : (tc : TestCase) → validate_case tc ≡ [] → IsValidCase tc
unfolding validate_case
case_sound tc h =
    let (id, h1) = (check_append _ _ _ _).0 h in
    let (name, h2) = (check_append _ _ _ _).0 h1 in
    let (severity, h3) = (check_append _ _ _ _).0 h2 in
    let (steps, h4) = (check_append _ _ _ _).0 h3 in
    record {
      has_id = (nonempty_iff _).0 id;
      has_name = (nonempty_iff _).0 name;
      severity_known = (severity_iff severities _).0 severity;
      has_steps = (steps_there _).0 steps;
      actions_known = (steps_iff tc.id 0 tc.steps).0 h4;
    }

case_complete : (tc : TestCase) → IsValidCase tc → validate_case tc ≡ []
unfolding validate_case
case_complete tc v = (check_append _ _ _ _).1 (
  (nonempty_iff _).1 v.has_id,
  (check_append _ _ _ _).1 (
    (nonempty_iff _).1 v.has_name,
    (check_append _ _ _ _).1 (
      (severity_iff severities _).1 v.severity_known,
      (check_append _ _ _ _).1
          ((steps_there _).1 v.has_steps, (steps_iff tc.id 0 tc.steps).1 v.actions_known),
    ),
  ),
)

not-false : (b : Bool) → (not b ≡ true) ↔ (b ≡ false)
not-false b = ground arith

cases_iff :
    (seen : List String) (tcs : List TestCase)
    → (validate_cases seen tcs ≡ []) ↔ (AreDistinct seen tcs × All IsValidCase tcs)
unfolding validate_cases
cases_iff seen [] = (λ _. (tt, tt), λ _. refl)
cases_iff seen (tc ∷ tcs) =
    let later = cases_iff (tc.id ∷ seen) tcs in
    (
      λ h.
          let (new, h1) = (check_append _ _ _ _).0 h in
          let (here, h2) = (append-eq-nil (validate_case tc) _).0 h1 in
          let (distinct, valid) = later.0 h2 in
          (((not-false _).0 new, distinct), (case_sound tc here, valid)),
      λ ((new, distinct), (here, valid)). (check_append _ _ _ _).1 (
        (not-false _).1 new,
        (append-eq-nil (validate_case tc) _).1 (case_complete tc here, later.1 (distinct, valid)),
      ),
    )

-- a known text is not the empty one, if that is not known
known-ne-empty :
    (known : List String) (s : String) → contains known "" ≡ false → IsKnown known s → s ≢ ""
known-ne-empty known s h k e = cc (subst (λ t. contains known t ≡ true) e k)

known_passes : (b : Bool) → not (not b && false) ≡ true
known_passes true = refl
known_passes false = refl

transport_iff :
    (known : List String) (s : String)
    → contains known "" ≡ false
    → ((not (s == "") ≡ true) × (not (not (s == "") && not (contains known s)) ≡ true))
      ↔ IsKnown known s
transport_iff known s h = (
  λ p. ground arith,
  λ k. ((nonempty_iff s).1 (known-ne-empty known s h k), rw k (known_passes (s == ""))),
)

validate_sound : (s : Spec) → validate s ≡ [] → IsValid s
unfolding validate
validate_sound s h =
    let (id, h1) = (check_append _ _ _ _).0 h in
    let (name, h2) = (check_append _ _ _ _).0 h1 in
    let (version, h3) = (check_append _ _ _ _).0 h2 in
    let (there, h4) = (check_append _ _ _ _).0 h3 in
    let (known, h5) = (check_append _ _ _ _).0 h4 in
    let (cases, h6) = (check_append _ _ _ _).0 h5 in
    let (distinct, valid) = (cases_iff [] s.test_cases).0 h6 in
    record {
      has_id = (nonempty_iff _).0 id;
      has_name = (nonempty_iff _).0 name;
      has_version = (nonempty_iff _).0 version;
      transport_known = (transport_iff transports s.transport refl).0 (there, known);
      has_cases = (steps_there _).0 cases;
      distinct = distinct;
      cases_valid = valid;
    }

validate_complete : (s : Spec) → IsValid s → validate s ≡ []
unfolding validate
validate_complete s v =
    let (there, known) = (transport_iff transports s.transport refl).1 v.transport_known in
    (check_append _ _ _ _).1 (
      (nonempty_iff _).1 v.has_id,
      (check_append _ _ _ _).1 (
        (nonempty_iff _).1 v.has_name,
        (check_append _ _ _ _).1 (
          (nonempty_iff _).1 v.has_version,
          (check_append _ _ _ _).1 (
            there,
            (check_append _ _ _ _).1 (
              known,
              (check_append _ _ _ _).1 (
                (steps_there _).1 v.has_cases,
                (cases_iff [] s.test_cases).1 (v.distinct, v.cases_valid),
              ),
            ),
          ),
        ),
      ),
    )

-- `Validate` finds no error exactly when the spec has an id, a name, a version, a known transport and
-- at least one test case, no two test cases share an id, and each test case has an id, a name, no
-- severity or a known one, and at least one step, each with a known action.
pub validate_iff : (s : Spec) → (validate s ≡ []) ↔ IsValid s
validate_iff s = (validate_sound s, validate_complete s)
