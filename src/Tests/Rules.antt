-- ===== src/Tests/Rules.antt =====
-- The policy, the checks of the model and the overlaps on small inputs.
use idol_id_agents.Prelude.{◌*◌, text, true, false, ◌≡◌, ◌≢◌, refl, ◌↔◌, [], ◌∷◌, some, ok}
use idol_id_agents.Overlap.{parts, path_overlap, semantic_overlap}
use idol_id_agents.Overlap.Claims.{Related, overlap-iff-Related}
use idol_id_agents.Model.{Route, second}
use idol_id_agents.Model.Atoms.{member}
use idol_id_agents.Model.Paths.{dot, relative_path_ok}
use idol_id_agents.Model.Orders.{check_order}
use idol_id_agents.Model.Routes.{load_routes}
use idol_id_agents.Model.DotPaths.{under_dot, path_overlap-under_dot}
use idol_id_agents.Policy.{assert_order_route, assert_zero_paygo, reviews_own_family}
use idol_id_agents.Policy.Trust.{IsTrusted, assert_order_route_iff, assert_zero_paygo_total}
use idol_id_agents.Tests.Samples.{subject, route, metered_route, order}

assert_order_route_iff_example :
    (assert_order_route subject order route (1000 * second) ≡ ok tt) ↔ (
      IsTrusted subject route (1000 * second)
      × (member route.id order.route_ids ≡ true)
      × (member order.role route.roles ≡ true)
      × (reviews_own_family order route ≡ false))
assert_order_route_iff_example = assert_order_route_iff subject route (1000 * second) order

assert_zero_paygo_total_example :
    assert_zero_paygo subject (route ∷ metered_route ∷ []) (1000 * second) ≡ some tt
assert_zero_paygo_total_example =
    assert_zero_paygo_total subject (route ∷ metered_route ∷ []) (1000 * second)

order_checked : check_order order ≡ ok tt
unfolding check_order idol_id_agents.Model.Atoms.is_atom idol_id_agents.Model.Atoms.is_sha
    relative_path_ok idol_id_agents.Model.Paths.semantic_target_ok
order_checked = refl

routes_loaded : load_routes (route ∷ metered_route ∷ []) ≡ ok (route ∷ metered_route ∷ [])
unfolding load_routes idol_id_agents.Model.Atoms.is_atom
routes_loaded = refl

overlap-iff-Related_example :
    ((path_overlap (text "src") (text "src/a") ≡ true) ↔ Related (text "src") (text "src/a"))
    × ((semantic_overlap (text "src") (text "src/a") ≡ true) ↔ Related (text "src") (text "src/a"))
overlap-iff-Related_example = overlap-iff-Related (text "src") (text "src/a")

src_ok : relative_path_ok (text "src") ≡ true
unfolding relative_path_ok
src_ok = refl

src_parts : parts (text "src") ≡ text "src" ∷ []
unfolding parts
src_parts = refl

src_not_dot : text "src" ≢ dot
src_not_dot h = cc

path_overlap-under_dot_example :
    (relative_path_ok (under_dot (text "src")) ≡ true)
    × (path_overlap (under_dot (text "src")) (text "src") ≡ false)
path_overlap-under_dot_example =
    path_overlap-under_dot (text "src") (text "src") [] src_ok src_parts src_not_dot
