-- ===== src/Model/Admitted.antt =====
-- What the checks of a work order and of the routes guarantee to the rest of the program.
use mathlib.Core.Path.{subst}
use idol_id_agents.Prelude.{
  not-false, or_false, ℕ, ◌≤◌, Text, Bool, true, false, ◌≡◌, ◌≢◌, refl, sym, List, [], ◌∷◌, ◌++◌,
  map, ◌&&◌, ◌||◌, not, all, is_empty, arith, ok, refuse_if-ok, first_refusal-ok, first_refusal-ok,
  >>-ok, eq_iff, All, Pairwise, ltb,
}
use idol_id_agents.Model.{WorkOrder, Route}
use idol_id_agents.Model.Atoms.{member, distinct, is_sha}
use idol_id_agents.Model.Paths.{relative_path_ok, semantic_target_ok, branch_ok}
use idol_id_agents.Model.Orders.{check_order, order_refusals, risks, evidence_roles}
use idol_id_agents.Model.Routes.{check_each, check_route, load_routes}

-- A work order that its constructor accepts.
pub record IsAdmitted (o : WorkOrder) : Type 0 where
  pub base_ok : is_sha o.base_sha ≡ true
  pub branch : branch_ok o.branch ≡ true
  pub has_paths : o.path_claims ≢ []
  pub has_semantics : o.semantic_claims ≢ []
  pub paths_ok : all relative_path_ok (o.path_claims ++ o.authority_files) ≡ true
  pub targets_ok : all semantic_target_ok o.semantic_claims ≡ true
  pub has_routes : o.route_ids ≢ []
  pub known_risk : member o.risk risks ≡ true
  pub priority : (1 ≤ o.priority) × (o.priority ≤ 100)
  pub seconds : (1 ≤ o.estimated_seconds) × (o.estimated_seconds ≤ 172800)
  pub tokens : 1 ≤ o.estimated_tokens
  pub no_change : o.allow_no_change ≡ true → member o.role evidence_roles ≡ true

claimless {ℓ} : {A : Type ℓ} (xs : List A) → xs ≡ [] → is_empty xs ≡ false → ⊥
claimless [] e h = cc
claimless (x ∷ xs) e h = cc

in_bounds : (lo hi n : ℕ) → (ltb n lo || ltb hi n) ≡ false → (lo ≤ n) × (n ≤ hi)
in_bounds lo hi n h = (ground arith, ground arith)

at_least : (lo n : ℕ) → ltb n lo ≡ false → lo ≤ n
at_least lo n h = ground arith

excused : (a b : Bool) → a ≡ true → (a && not b) ≡ false → b ≡ true
excused true true e h = refl
excused true false e h = cc
excused false b e h = cc

passed-IsAdmitted : (o : WorkOrder) → All (λ row. row.0 ≡ false) (order_refusals o) → IsAdmitted o
unfolding order_refusals
passed-IsAdmitted o
      (
        id,
        (
          task,
          (
            role,
            (
              base,
              (
                branch,
                (
                  outcome,
                  (
                    claims,
                    (
                      paths,
                      (
                        targets,
                        (
                          stops,
                          (
                            witnesses,
                            (routes, (risk, (priority, (seconds, (tokens, (change, end)))))),
                          ),
                        ),
                      ),
                    ),
                  ),
                ),
              ),
            ),
          ),
        ),
      ) =
    record {
      base_ok = not-false _ base;
      branch = not-false _ branch;
      has_paths = λ e. claimless o.path_claims e (or_false _ _ claims).0;
      has_semantics = λ e. claimless o.semantic_claims e (or_false _ _ claims).1;
      paths_ok = not-false _ paths;
      targets_ok = not-false _ targets;
      has_routes = λ e. claimless o.route_ids e routes;
      known_risk = not-false _ risk;
      priority = in_bounds 1 100 o.priority priority;
      seconds = in_bounds 1 172800 o.estimated_seconds seconds;
      tokens = at_least 1 o.estimated_tokens tokens;
      no_change = λ e. excused o.allow_no_change _ e change;
    }

-- A work order that passes the checks has its exact base, its valid claims and its bounds.
pub check_order-IsAdmitted : (o : WorkOrder) → check_order o ≡ ok tt → IsAdmitted o
unfolding check_order
check_order-IsAdmitted o h = passed-IsAdmitted o ((first_refusal-ok (order_refusals o)).0 h)

-- The ids of accepted routes differ pairwise.
member-All :
    (v : Text) (xs : List Route) → member v (map (λ r. r.id) xs) ≡ false → All (λ s. v ≢ s.id) xs
unfolding member
member-All v [] h = tt
member-All v (s ∷ xs) h = (ground (arith, eq_iff v s.id), member-All v xs (ground arith))

distinct-Pairwise :
    (xs : List Route) → distinct (map (λ r. r.id) xs) ≡ true → Pairwise (λ r s. r.id ≢ s.id) xs
unfolding distinct
distinct-Pairwise [] h = tt
distinct-Pairwise (r ∷ xs) h =
    (member-All r.id xs (ground arith), distinct-Pairwise xs (ground arith))

check_each-All : (xs : List Route) → check_each xs ≡ ok tt → All (λ r. check_route r ≡ ok tt) xs
unfolding check_each
check_each-All [] h = tt
check_each-All (r ∷ xs) h =
    let (one, rest) = >>-ok (check_route r) (check_each xs) h in (one, check_each-All xs rest)

-- Routes that load are the given ones, each passes its constructor's checks, and their ids differ.
pub load_routes-distinct :
    (given loaded : List Route)
    → load_routes given ≡ ok loaded
    → (loaded ≡ given)
      × All (λ r. check_route r ≡ ok tt) loaded
      × Pairwise (λ r s. r.id ≢ s.id) loaded
unfolding load_routes
load_routes-distinct given loaded h =
    let (each, rest) = >>-ok (check_each given) _ h in
    let (unique, same) = refuse_if-ok _ _ (ok given) rest in
    let e : given ≡ loaded = ground arith in
    (
      sym e,
      subst (All (λ r. check_route r ≡ ok tt)) e (check_each-All given each),
      subst (Pairwise (λ r s. r.id ≢ s.id)) e (distinct-Pairwise given (ground arith)),
    )
