-- ===== src/Tests/Leases.antt =====
-- The store of claims on small inputs.
use idol_id_agents.Prelude.{◌*◌, Text, text, true, ◌≡◌, refl, ◌↔◌, List, [], ◌∷◌, ◌++◌, some, ok}
use idol_id_agents.Model.{second}
use idol_id_agents.Model.Atoms.{distinct}
use idol_id_agents.Claims.{Store, live, check_ttl, validate, read, acquire, renew, after}
use idol_id_agents.Claims.Disjoint.{IsDisjoint}
use idol_id_agents.Claims.Exclusion.{Reach, here, next, acquires, renews, Reach-exclusive}
use idol_id_agents.Claims.Leases.{AllFree, granted, created, acquire-iff-free}
use idol_id_agents.Tests.Samples.{valid, claims}

abbrev graph : List Text
graph = text "graph" ∷ []

ttl_fits : check_ttl 60 ≡ ok tt
unfolding check_ttl
ttl_fits = refl

graph-distinct : distinct graph ≡ true
unfolding distinct
graph-distinct = refl

claims-read : read valid (some claims) ≡ ok claims
unfolding read
claims-read = refl

graph_written :
    validate valid (live claims 1 ++ created (text "p") (text "u") valid graph 60 1 claims)
    ≡ ok (live claims 1 ++ created (text "p") (text "u") valid graph 60 1 claims)
unfolding validate
graph_written = refl

acquire-iff-free_example :
    (acquire valid (text "p") (text "u") graph 60 1 (some claims)
      ≡ granted (text "p") (text "u") valid graph 60 1 claims)
    ↔ AllFree (text "p") (text "u") valid graph 60 1 claims
acquire-iff-free_example =
    acquire-iff-free (text "p") (text "u") valid graph 60 1 claims ttl_fits refl graph-distinct
      claims-read graph_written

-- A first holder takes `world`, a second one tries a target inside it and then renews, and the first
-- one leaves.
abbrev first : Store
first = after (some []) (acquire valid (text "o") (text "t") (text "world" ∷ []) 60 0 (some []))

abbrev second_try : Store
second_try = after first (acquire valid (text "p") (text "u") (text "world/a" ∷ graph) 60 1 first)

abbrev third : Store
third = after second_try (renew valid (text "o") (text "t") 90 2 second_try)

first_run :
    first
    ≡ some (
        record {
          owner = text "o";
          task_id = text "t";
          target = text "world";
          acquired_at = 0;
          expires_at = 60 * second;
        }
        ∷ [])
unfolding acquire
first_run = refl

path_to_third : Reach valid (some []) third
path_to_third =
    next
      (next (next here (acquires (text "o") (text "t") (text "world" ∷ []) 60 0))
        (acquires (text "p") (text "u") (text "world/a" ∷ graph) 60 1))
      (renews (text "o") (text "t") 90 2)

Reach-exclusive_example : IsDisjoint third
Reach-exclusive_example = Reach-exclusive valid path_to_third tt
