-- ===== src/Health/Circuits.antt =====
-- `apply_circuits` disables exactly the routes whose breaker is open.
use idol_id_agents.Prelude.{
  ℕ, Text, false, ◌≡◌, ◌≢◌, refl, List, [], ◌∷◌, map, eq_iff, All, All-map, Pairwise, none, some,
  arith, if◌then◌else◌,
}
use mathlib.Core.Path.{ap₂}
use idol_id_agents.Model.{Route}
use idol_id_agents.Journal.{Row}
use idol_id_agents.Health.{CircuitState, is_open, circuit_state, state_by_id, gate, apply_circuits}

module _ (subject_hash : Route → Text) (rows : List Row) where
  abbrev own : Route → CircuitState
  own = circuit_state subject_hash rows

  own-id : (route : Route) → (own route).route_id ≡ route.id
  unfolding circuit_state
  own-id route = refl

  absent :
      (id : Text) (routes : List Route)
      → All (λ r. id ≢ r.id) routes
      → state_by_id subject_hash (map own routes) id ≡ none
  unfolding state_by_id
  absent id [] h = refl
  absent id (r ∷ rest) h =
      ground (arith, absent id rest h.1, own-id r, h.0, eq_iff (own r).route_id id)

  here_found :
      (r : Route) (rest : List Route)
      → All (λ s. r.id ≢ s.id) rest
      → state_by_id subject_hash (map own (r ∷ rest)) r.id ≡ some (own r)
  unfolding state_by_id
  here_found r rest h = ground (arith, absent r.id rest h, own-id r, eq_iff (own r).route_id r.id)

  there_found :
      (r s : Route) (rest : List Route)
      → state_by_id subject_hash (map own rest) s.id ≡ some (own s)
      → state_by_id subject_hash (map own (r ∷ rest)) s.id ≡ some (own s)
  unfolding state_by_id
  there_found r s rest h = rw h refl

  All-found :
      (routes : List Route)
      → Pairwise (λ r s. r.id ≢ s.id) routes
      → All (λ r. state_by_id subject_hash (map own routes) r.id ≡ some (own r)) routes
  All-found [] h = tt
  All-found (r ∷ rest) h =
      (here_found r rest h.0, All-map (λ s e. there_found r s rest e) rest (All-found rest h.1))

  -- The route, disabled while its own breaker is open.
  abbrev pub gated : ℕ → Route → Route
  gated now r = if is_open (own r) now then record r { enabled = false } else r

  gate-found :
      (states : List CircuitState) (now : ℕ) (r : Route)
      → state_by_id subject_hash states r.id ≡ some (own r)
      → gate subject_hash states now r ≡ gated now r
  unfolding gate
  gate-found states now r h = rw (h, gate) refl

  map_eq :
      {B : Type 0} (f g : Route → B) (routes : List Route)
      → All (λ r. f r ≡ g r) routes
      → map f routes ≡ map g routes
  map_eq f g [] h = refl
  map_eq f g (r ∷ rest) h = ap₂ (λ x xs. x ∷ xs) h.0 (map_eq f g rest h.1)

  -- Over routes with different ids, each route comes back in its place, disabled exactly while its
  -- own breaker is open, and otherwise as it was.
  pub apply_circuits-gates :
      (routes : List Route) (now : ℕ)
      → Pairwise (λ r s. r.id ≢ s.id) routes
      → (apply_circuits subject_hash routes rows now).0 ≡ map (gated now) routes
  unfolding apply_circuits
  apply_circuits-gates routes now h =
      map_eq (gate subject_hash (map own routes) now) (gated now) routes
        (All-map (λ r e. gate-found (map own routes) now r e) routes (All-found routes h))
