-- ===== src/Tests/Samples.antt =====
-- The inputs of the tests: routes, work orders, a request, a journal, a store of claims.
use idol_id_agents.Prelude.{
  ℕ, ◌+◌, ◌-◌, ◌*◌, Text, text, Bool, true, false, ◌≡◌, List, [], ◌∷◌, none, some, ltb, arith,
  Fields, obj, str, end, field,
}
use Prim.Native.Nat.{◌/◌}
use idol_id_agents.Model.{BillingClass, local, BillingProof, Route, WorkOrder, second}
use idol_id_agents.Scheduler.Floats.{Floats}
use idol_id_agents.Scheduler.Eligible.{Request}
use idol_id_agents.Journal.{Row, Codec, File, Journal, genesis}
use idol_id_agents.Claims.{Claim}

pub lt_asym : (a b : ℕ) → ltb a b ≡ true → ltb b a ≡ false
lt_asym a b h = ground arith

pub not_lt_trans : (a b c : ℕ) → ltb b a ≡ false → ltb c b ≡ false → ltb c a ≡ false
not_lt_trans a b c h k = ground arith

-- Scores in thousandths, with roots and logarithms left out.
abbrev pub floats : Floats
floats = record {
  Float = ℕ;
  lt = ltb;
  of_ratio = λ a b. a * 1000 / b;
  add = λ a b. a + b;
  sub = λ a b. a - b;
  mul = λ a b. a * b / 1000;
  div = λ a b. a * 1000 / b;
  sqrt = λ a. a;
  log10 = λ a. a;
  lt_asym = lt_asym;
  not_lt_trans = not_lt_trans;
}

abbrev pub subject : Route → Text
subject route = text "subject"

abbrev pub proof : BillingProof
proof = record {
  kind = text "local-process";
  subject_hash = text "subject";
  observed_at = 0;
  expires_at = 9000 * second;
  evidence_hash = text "evidence";
  trusted = true;
  subject_files = [];
}

abbrev pub route : Route
route = record {
  id = text "r1";
  provider = text "p";
  model = text "m";
  provider_family = text "fam";
  runtime = text "run";
  command = text "cmd" ∷ [];
  parser = text "plain-json";
  billing = local;
  proof = proof;
  roles = text "implementer" ∷ [];
  auth_env = [];
  timeout_seconds = 900;
  max_parallel = 2;
  premium = false;
  enabled = true;
  allowance =
      record { label = text "w"; remaining_fraction = 500000; resets_at = 5000 * second } ∷ [];
  proof_command = [];
  proof_expect = [];
  proof_subject_files = [];
  usage_command = [];
  usage_auth_env = [];
  usage_timeout_seconds = 30;
  usage_max_age_seconds = 300;
  usage_required = false;
}

abbrev pub metered_route : Route
metered_route = record route { id = text "r2"; billing = BillingClass.paygo }

abbrev pub sha : Text
sha = text "0123456789abcdef0123456789abcdef01234567"

abbrev pub order : WorkOrder
order = record {
  id = text "a";
  task_id = text "t1";
  repository = text "/repo";
  base_sha = sha;
  branch = text "work/a";
  role = text "implementer";
  required_outcome = text "done";
  path_claims = text "src/a" ∷ [];
  semantic_claims = text "world/a" ∷ [];
  stop_conditions = text "stop" ∷ [];
  witnesses = (text "true" ∷ []) ∷ [];
  route_ids = text "r1" ∷ text "r2" ∷ [];
  authority_files = [];
  risk = text "low";
  priority = 50;
  estimated_seconds = 600;
  estimated_tokens = 1000;
  reviewer_family = none;
  issue = none;
  publish_branch = true;
  create_draft_pr = true;
  follow_remote_main = false;
  allow_no_change = false;
  coordination = none;
}

-- It conflicts with `order`, and is less urgent.
abbrev pub inner_order : WorkOrder
inner_order = record order { id = text "b"; path_claims = text "src/a/b" ∷ []; priority = 10 }

abbrev pub other_order : WorkOrder
other_order = record order {
  id = text "c";
  path_claims = text "lib" ∷ [];
  semantic_claims = text "graph" ∷ [];
  priority = 30;
}

abbrev pub request : Request floats
request = record {
  base_sha = sha;
  orders = inner_order ∷ other_order ∷ order ∷ [];
  routes = route ∷ metered_route ∷ [];
  active_orders = [];
  route_active = λ id. 0;
  route_performance = λ id. none;
  acknowledged_routes = λ id. none;
  max_assignments = 3;
  now = 1000 * second;
}

abbrev pub failed_fact : Fields
failed_fact =
    field (text "route_id") (str (text "r1"))
      (field (text "route_subject") (str (text "subject")) end)

abbrev pub row : Row
row = record {
  sequence = 1;
  at = 5;
  kind = text "route.failed";
  previous = genesis;
  fact = obj failed_fact;
  hash = text "d";
}

abbrev pub codec : Codec
codec = record {
  digest = λ n at kind previous fact. text "d";
  decode = λ line. some row;
  encode = λ r. text "x";
}

abbrev pub empty_file : File
empty_file = record { lines = []; terminated = true; stamp = 0 }

abbrev pub fresh_journal : Journal
fresh_journal = record { rows = []; signature = none }

abbrev pub valid : Text → Bool
valid target = true

abbrev pub claims : List Claim
claims =
    record {
      owner = text "o";
      task_id = text "t";
      target = text "world";
      acquired_at = 0;
      expires_at = 100 * second;
    }
    ∷ []
