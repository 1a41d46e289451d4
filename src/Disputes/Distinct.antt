-- ===== src/Disputes/Distinct.antt =====
-- The seeds of a flow, and the claim of a proof that they are unique.
use protocol_c.Prelude.{
  ◌≡◌, ◌↔◌, refl, sym, ap, ◌∙◌, Bool, true, false, ◌&&◌, Bool-cases, Option, none, some, inl, inr,
  List, [], ◌∷◌, String, text_eq, codes, All, if◌then◌else◌,
}
use protocol_c.Py.Result.{ok, >>=-eq-ok}
use protocol_c.Py.Value.{Value, str, obj, Dict, end, field, dict_get, get_or}
use protocol_c.Py.Compare.{truthy, py_eq}
use protocol_c.Settlement.{is_hashable}
use protocol_c.Flow.{Entry, Flow}
use protocol_c.Disputes.{with_field, seeds_of, seed_values, is_new, all_unique}

ok-inj : {a b : Bool} → ok a ≡ ok b → a ≡ b
ok-inj h = cc

-- The text "MISSING" is no seed.
abbrev found_seed : Option Value → Option Value
found_seed none = none
found_seed (some v) = if py_eq v (str (codes "MISSING")) then none else some v

-- The seed that the data of a phase names under a key.
abbrev named_seed : Dict → String → Option Value
named_seed d key = found_seed (dict_get d key)

abbrev phase_seed : Option Entry → String → Option Value
phase_seed none key = none
phase_seed (some k) key = named_seed k.payload key

abbrev with_seed : Option Value → List Value → List Value
with_seed none vs = vs
with_seed (some v) vs = v ∷ vs

-- The seeds that the phases of a flow name.
abbrev pub flow_seeds : Flow → List Value
flow_seeds flow = with_seed (phase_seed flow.commitment "quantum_seed_commitment") (
    with_seed (phase_seed flow.execution "execution_quantum_seed_commitment")
      (with_seed (phase_seed flow.settlement "settlement_quantum_seed_commitment") []))

-- Values that differ pairwise.
abbrev pub AreDistinct : List Value → Type 0
AreDistinct [] = Unit
AreDistinct (v ∷ vs) = All (λ w. py_eq v w ≡ false) vs × AreDistinct vs

missing_itself : py_eq (str (codes "MISSING")) (str (codes "MISSING")) ≡ true
unfolding py_eq text_eq
missing_itself = refl

seed_values-found :
    (found : Option Value) (name : String) (rest : Dict)
    → seed_values (field name (elim found [ none ↦ str (codes "MISSING") | some w ↦ w ]) rest)
      ≡ with_seed (found_seed found) (seed_values rest)
unfolding seed_values
seed_values-found none name rest =
    ap (λ (b : Bool). if b then seed_values rest else str (codes "MISSING") ∷ seed_values rest)
      missing_itself
seed_values-found (some v) name rest = elim (Bool-cases (py_eq v (str (codes "MISSING")))) [
  | inl unnamed ↦ rw (seed_values, unnamed) refl
  | inr named ↦ rw (seed_values, named) refl
]

seed_values-named :
    (d : Dict) (name key : String) (rest : Dict)
    → seed_values (elim (if truthy (obj d) then some d else none) [
      | none ↦ rest
      | some x ↦ field name (get_or x key (str (codes "MISSING"))) rest
    ])
      ≡ with_seed (named_seed d key) (seed_values rest)
unfolding truthy get_or dict_get
seed_values-named end name key rest = refl
seed_values-named (field j w d) name key rest =
    seed_values-found (dict_get (field j w d) key) name rest

seed_values-with_field :
    (phase : Option Entry) (name key : String) (rest : Dict)
    → seed_values (with_field phase name key (str (codes "MISSING")) rest)
      ≡ with_seed (phase_seed phase key) (seed_values rest)
seed_values-with_field none name key rest = refl
seed_values-with_field (some k) name key rest = seed_values-named k.payload name key rest

seed_values-seeds_of : (flow : Flow) → seed_values (seeds_of flow) ≡ flow_seeds flow
unfolding seeds_of seed_values
seed_values-seeds_of flow =
    seed_values-with_field flow.commitment "commitment_seed" "quantum_seed_commitment" _
    ∙ ap (with_seed (phase_seed flow.commitment "quantum_seed_commitment")) (
        seed_values-with_field flow.execution "execution_seed" "execution_quantum_seed_commitment" _
        ∙ ap (with_seed (phase_seed flow.execution "execution_quantum_seed_commitment")) (
            seed_values-with_field flow.settlement "settlement_seed"
              "settlement_quantum_seed_commitment" end))

is_new-All : (v : Value) (vs : List Value) → (is_new v vs ≡ true) ↔ All (λ w. py_eq v w ≡ false) vs
unfolding is_new
is_new-All v [] = (λ _. tt, λ _. refl)
is_new-All v (w ∷ ws) =
    let (to, from) = is_new-All v ws in
    elim (Bool-cases (py_eq v w)) [
      | inl same ↦ (λ h. cc (rw same at h), λ (differs, _). cc (same, differs))
      | inr differs ↦ (λ h. (differs, to (rw differs at h)), λ (_, rest). rw differs (from rest))
    ]

all_unique-cons :
    (v : Value) (vs : List Value) (unique : Bool)
    → all_unique (v ∷ vs) ≡ ok unique
    → (rest : Bool) × (all_unique vs ≡ ok rest) × ((is_new v vs && rest) ≡ unique)
unfolding all_unique
all_unique-cons v vs unique h = elim (Bool-cases (is_hashable v)) [
  | inr unhashable ↦ cc (rw (all_unique, unhashable) at h)
  | inl hashable ↦
      let (rest, tested, both) = >>=-eq-ok (all_unique vs) _ (rw (all_unique, hashable) at h) in
      (rest, tested, ok-inj both)
]

both-true : (a b : Bool) → ((a && b) ≡ true) ↔ ((a ≡ true) × (b ≡ true))
both-true true b = (λ h. (refl, h), λ (_, h). h)
both-true false b = (λ h. cc h, λ (h, _). cc h)

-- A test of values that returns is true if and only if they differ pairwise.
all_unique-AreDistinct :
    (vs : List Value) (unique : Bool) → all_unique vs ≡ ok unique → (unique ≡ true) ↔ AreDistinct vs
unfolding all_unique
all_unique-AreDistinct [] unique h = (λ _. tt, λ _. cc h)
all_unique-AreDistinct (v ∷ vs) unique h =
    let (rest, tested, both) = all_unique-cons v vs unique h in
    let (to, from) = all_unique-AreDistinct vs rest tested in
    let (new_to, new_from) = is_new-All v vs in
    let (split, join) = both-true (is_new v vs) rest in
    (
      λ h'. let (new, distinct) = split (both ∙ h') in (new_to new, to distinct),
      λ (differs, distinct). sym both ∙ join (new_from differs, from distinct),
    )

-- The claim on the seeds of a flow.
pub all_unique-seeds_of :
    (flow : Flow) (unique : Bool)
    → all_unique (seed_values (seeds_of flow)) ≡ ok unique
    → (unique ≡ true) ↔ AreDistinct (flow_seeds flow)
all_unique-seeds_of flow unique h =
    all_unique-AreDistinct (flow_seeds flow) unique
      (ap all_unique (sym (seed_values-seeds_of flow)) ∙ h)
