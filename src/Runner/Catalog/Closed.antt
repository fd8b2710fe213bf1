-- ===== src/Runner/Catalog/Closed.antt =====
-- The catalogue is closed: what it resolves to is one of its own plans, under its own identifier.
use cross_patch.Prelude.{
  String, ◌≡◌, refl, Bool, true, false, some, List, [], ◌∷◌, ok, arith, map, str_eq, eq_iff,
  Bool-cases, inl, inr, ◌⊎◌,
}
use cross_patch.Runner.Catalog.{
  ExecutionPlan, plans, approved_plan_ids, find_plan, resolve_in, resolve, is_candidate_plan_id,
  runner_python, candidate_service,
}

-- The identifiers of the plans are those of APPROVED_PLAN_IDS, in order.
pub plan_ids-plans : map (λ (p : ExecutionPlan). p.plan_id) plans ≡ approved_plan_ids
unfolding plans approved_plan_ids
plan_ids-plans = refl

abbrev pub Member : {A : Type 0} → A → List A → Type 0
Member a [] = ⊥
Member a (x ∷ xs) = (a ≡ x) ⊎ Member a xs

find_plan-Member :
    (i : String) (p : ExecutionPlan) (ps : List ExecutionPlan)
    → find_plan i ps ≡ some p
    → (p.plan_id ≡ i) × Member p ps
unfolding find_plan
find_plan-Member i p [] h = cc
find_plan-Member i p (q ∷ qs) h = elim (Bool-cases (str_eq q.plan_id i)) [
  | inl e ↦
      let same : q ≡ p = cc (rw e at h) in (rw (← same) ((eq_iff q.plan_id i).0 e), inl (rw same))
  | inr e ↦ let (named, member) = find_plan-Member i p qs (rw e at h) in (named, inr member)
]

resolve_in-found :
    (i : String) (supplied : Bool) (p : ExecutionPlan) (ps : List ExecutionPlan)
    → resolve_in ps i supplied ≡ ok p
    → (supplied ≡ false) × (find_plan i ps ≡ some p)
unfolding resolve_in
resolve_in-found i supplied p ps h = ground arith

-- A resolution that succeeds was given no command material, and its plan is the catalogue's own
-- plan of that identifier.
pub resolve_closed :
    (i : String) (supplied : Bool) (p : ExecutionPlan)
    → resolve i supplied ≡ ok p
    → (supplied ≡ false) × (p.plan_id ≡ i) × Member p plans
unfolding resolve
resolve_closed i supplied p h =
    let (bare, found) = resolve_in-found i supplied p plans h in
    let (named, member) = find_plan-Member i p plans found in (bare, named, member)

candidate_found :
    (i : String)
    → is_candidate_plan_id i ≡ true
    → (i ≡ "victim.duplicate-race.candidate") ⊎ (i ≡ "victim.payload-equivalence.candidate")
unfolding is_candidate_plan_id
candidate_found i h = ground (
  arith,
  eq_iff i "victim.duplicate-race.candidate",
  eq_iff i "victim.payload-equivalence.candidate",
)

abbrev pub service_argv : List String
service_argv = runner_python ∷ candidate_service ∷ []

race_resolves :
    (p : ExecutionPlan) × (resolve "victim.duplicate-race.candidate" false ≡ ok p)
    × (p.argv ≡ service_argv)
unfolding resolve
race_resolves = (_, refl, refl)

equivalence_resolves :
    (p : ExecutionPlan) × (resolve "victim.payload-equivalence.candidate" false ≡ ok p)
    × (p.argv ≡ service_argv)
unfolding resolve
equivalence_resolves = (_, refl, refl)

-- Each plan that the broker may execute resolves, and runs the trusted candidate service and
-- nothing else.
pub candidate_plans_run_service :
    (i : String)
    → is_candidate_plan_id i ≡ true
    → (p : ExecutionPlan) × (resolve i false ≡ ok p) × (p.argv ≡ service_argv)
candidate_plans_run_service i h = elim (candidate_found i h) [
  | inl e ↦ rw e race_resolves
  | inr e ↦ rw e equivalence_resolves
]
