-- ===== src/Model/Reread.antt =====
-- A work order that was loaded reads back from its mapping: the constructor of a work order, and
-- `WorkOrder.from_mapping` and `order_mapping` together.
use mathlib.Core.Path.{subst}
use idol_id_agents.Prelude.{
  ℕ, ◌+◌, Text, text, Bool, true, false, ◌≡◌, ◌≢◌, refl, sym, ap, ◌∙◌, ◌&&◌, not, not-false, List,
  [], ◌∷◌, map, is_empty, All, ◌==◌, leb, Option, none, some, Json, Items, Fields, null, bool, num,
  str, arr, obj, nil, cons, end, field, get, is_falsy, Result, ok, err, refuse_if, refuse_if-ok,
  >>=-ok, >>-ok, ok-injective, ◌>>=◌, ◌>>◌, Bool-cases, inl, inr, if◌then◌else◌, arith, false≢true,
}
use idol_id_agents.Strings.{strip, strip_of, lstrip, rstrip, is_space}
use idol_id_agents.Model.{WorkOrder, Coordination}
use idol_id_agents.Model.Atoms.{member}
use idol_id_agents.Model.Orders.{OrderError, CoordinationError, check_order, check_coordination}
use idol_id_agents.Model.Decode.{
  DecodeError, Readers, lower_char, lower, is_true_at, or_order, or_coordination,
}
use idol_id_agents.Model.Decode.Declared.{
  text_field, number_field, texts_of, prerequisites_of, names_known, checked_coordination,
  later_coordination, coordination_of,
}
use idol_id_agents.Model.Decode.Loaded.{
  checked_order, later_order, str_json, text_at, strings_of, string_tuple, commands_of,
  witnesses_of, int_at, filled_at, risk_at, repository_at, coordination_at, order_of,
}
use idol_id_agents.Model.Encode.{
  text_items, command_items, optional_text, coordination_fields, coordination_json, order_mapping,
}
use idol_id_agents.Model.Reread.Declarations.{IsChecked}
use idol_id_agents.Model.Reread.Kept.{
  IsItem, IsOptional, text_at-strip, string_tuple-IsItem, witnesses_of-IsItem, risk_at-lower,
  filled_at-IsOptional, coordination_at-IsChecked, strings_of-text_items, commands_of-command_items,
  filled_at-optional_text, coordination_at-json,
}
mod Texts
mod Declarations
mod Kept

or_order-passes : (x : Result OrderError (Unit {0})) → or_order x ≡ ok tt → x ≡ ok tt
unfolding or_order
or_order-passes (ok u) h = refl
or_order-passes (err e) h = cc

checked_order-passes :
    (r : Readers) (d : WorkOrder) {o : WorkOrder}
    → checked_order r d ≡ ok o
    → (check_order d ≡ ok tt) × (d ≡ o)
unfolding checked_order
checked_order-passes r d h =
    let (passed, same) = >>-ok (or_order (check_order d)) _ h in
    (or_order-passes (check_order d) passed, ok-injective same)

module _ (r : Readers) where
  -- What a work order keeps from having been loaded.
  record IsLoaded (o : WorkOrder) : Type 0 where
    resolved : r.path_of o.repository ≡ o.repository
    absolute : r.is_absolute o.repository ≡ true
    witnesses : All (All IsItem) o.witnesses
    paths : All IsItem o.path_claims
    semantics : All IsItem o.semantic_claims
    stops : All IsItem o.stop_conditions
    routes : All IsItem o.route_ids
    files : All IsItem o.authority_files
    id : strip o.id ≡ o.id
    task_id : strip o.task_id ≡ o.task_id
    base_sha : strip o.base_sha ≡ o.base_sha
    branch : strip o.branch ≡ o.branch
    role : strip o.role ≡ o.role
    outcome : strip o.required_outcome ≡ o.required_outcome
    risk : lower o.risk ≡ o.risk
    reviewer : o.reviewer_family ≢ some [] → IsOptional o.reviewer_family
    issue : o.issue ≢ some [] → IsOptional o.issue
    coordination : IsChecked o.coordination
    checked : check_order o ≡ ok tt

  order_of-IsLoaded_mapping :
      (o : WorkOrder)
      → IsLoaded o
      → o.reviewer_family ≢ some []
      → o.issue ≢ some []
      → order_of r (order_mapping o) ≡ ok o
  unfolding order_of order_mapping later_order checked_order repository_at witnesses_of string_tuple
      text_at str_json risk_at int_at get ◌==◌ or_order
  order_of-IsLoaded_mapping o h reviewed filed =
      rw
        (
          h.resolved,
          h.absolute,
          commands_of-command_items r o.witnesses h.witnesses,
          strings_of-text_items r (text "path_claims") o.path_claims h.paths,
          strings_of-text_items r (text "semantic_claims") o.semantic_claims h.semantics,
          strings_of-text_items r (text "stop_conditions") o.stop_conditions h.stops,
          strings_of-text_items r (text "route_ids") o.route_ids h.routes,
          strings_of-text_items r (text "authority_files") o.authority_files h.files,
          coordination_at-json r o.coordination h.coordination,
          h.id,
          h.task_id,
          h.base_sha,
          h.branch,
          h.role,
          h.outcome,
          h.risk,
          filled_at-optional_text r o.reviewer_family (h.reviewer reviewed),
          filled_at-optional_text r o.issue (h.issue filed),
          h.checked,
        )
        refl

  later_order-IsLoaded :
      (raw : Fields) (repository : Text) (ws : List (List Text)) (ps ss ts : List Text)
      {o : WorkOrder}
      → r.path_of repository ≡ repository
      → r.is_absolute repository ≡ true
      → All (All IsItem) ws
      → All IsItem ps
      → All IsItem ss
      → All IsItem ts
      → later_order r raw repository ws ps ss ts ≡ ok o
      → IsLoaded o
  unfolding later_order
  later_order-IsLoaded raw repository ws ps ss ts resolved absolute hw hp hs ht h =
      let (rs, e₁, h₁) =
        >>=-ok (string_tuple r (text "route_ids") (get raw (text "route_ids"))) _ h in
      let (fs, e₂, h₂) =
        >>=-ok (string_tuple r (text "authority_files") (get raw (text "authority_files"))) _ h₁ in
      let (n, e₃, h₃) = >>=-ok (int_at r (text "priority") 50 (get raw (text "priority"))) _ h₂ in
      let (m, e₄, h₄) =
        >>=-ok (int_at r (text "estimated_seconds") 900 (get raw (text "estimated_seconds"))) _
          h₃ in
      let (k, e₅, h₅) =
        >>=-ok (int_at r (text "estimated_tokens") 10000 (get raw (text "estimated_tokens"))) _
          h₄ in
      let (c, e₆, h₆) = >>=-ok (coordination_at r (get raw (text "coordination"))) _ h₅ in
      let loaded : WorkOrder = record {
        id = text_at r (get raw (text "id"));
        task_id = text_at r (get raw (text "task_id"));
        repository = repository;
        base_sha = text_at r (get raw (text "base_sha"));
        branch = text_at r (get raw (text "branch"));
        role = text_at r (get raw (text "role"));
        required_outcome = text_at r (get raw (text "required_outcome"));
        path_claims = ps;
        semantic_claims = ss;
        stop_conditions = ts;
        witnesses = ws;
        route_ids = rs;
        authority_files = fs;
        risk = risk_at r (get raw (text "risk"));
        priority = n;
        estimated_seconds = m;
        estimated_tokens = k;
        reviewer_family = filled_at r (get raw (text "reviewer_family"));
        issue = filled_at r (get raw (text "issue"));
        publish_branch = is_true_at (get raw (text "publish_branch")) true;
        create_draft_pr = is_true_at (get raw (text "create_draft_pr")) true;
        follow_remote_main = is_true_at (get raw (text "follow_remote_main")) false;
        allow_no_change = is_true_at (get raw (text "allow_no_change")) false;
        coordination = c;
      } in
      let (passed, same) = checked_order-passes r loaded h₆ in
      subst IsLoaded same (record {
        resolved = resolved;
        absolute = absolute;
        witnesses = hw;
        paths = hp;
        semantics = hs;
        stops = ht;
        routes = string_tuple-IsItem r _ (get raw (text "route_ids")) e₁;
        files = string_tuple-IsItem r _ (get raw (text "authority_files")) e₂;
        id = text_at-strip r (get raw (text "id"));
        task_id = text_at-strip r (get raw (text "task_id"));
        base_sha = text_at-strip r (get raw (text "base_sha"));
        branch = text_at-strip r (get raw (text "branch"));
        role = text_at-strip r (get raw (text "role"));
        outcome = text_at-strip r (get raw (text "required_outcome"));
        risk = risk_at-lower r (get raw (text "risk"));
        reviewer = filled_at-IsOptional r (get raw (text "reviewer_family"));
        issue = filled_at-IsOptional r (get raw (text "issue"));
        coordination = coordination_at-IsChecked r (get raw (text "coordination")) e₆;
        checked = passed;
      })

  repository_at-path_of :
      (v : Option Json)
      → ((s : Text) → r.path_of (r.path_of s) ≡ r.path_of s)
      → r.path_of (repository_at r v) ≡ repository_at r v
  unfolding repository_at
  repository_at-path_of none resolves = resolves []
  repository_at-path_of (some v) resolves = resolves (str_json r v)

  order_of-IsLoaded :
      (raw : Fields) {o : WorkOrder}
      → ((s : Text) → r.path_of (r.path_of s) ≡ r.path_of s)
      → order_of r raw ≡ ok o
      → IsLoaded o
  unfolding order_of
  order_of-IsLoaded raw resolves h =
      let repository = repository_at r (get raw (text "repository")) in
      let (absolute, h₁) = refuse_if-ok (not (r.is_absolute repository)) _ _ h in
      let (ws, e₂, h₂) = >>=-ok (witnesses_of r (get raw (text "witnesses"))) _ h₁ in
      let (ps, e₃, h₃) =
        >>=-ok (string_tuple r (text "path_claims") (get raw (text "path_claims"))) _ h₂ in
      let (ss, e₄, h₄) =
        >>=-ok (string_tuple r (text "semantic_claims") (get raw (text "semantic_claims"))) _ h₃ in
      let (ts, e₅, h₅) =
        >>=-ok (string_tuple r (text "stop_conditions") (get raw (text "stop_conditions"))) _ h₄ in
      later_order-IsLoaded raw repository ws ps ss ts
        (repository_at-path_of (get raw (text "repository")) resolves)
        (not-false (r.is_absolute repository) absolute)
        (witnesses_of-IsItem r (get raw (text "witnesses")) e₂)
        (string_tuple-IsItem r _ (get raw (text "path_claims")) e₃)
        (string_tuple-IsItem r _ (get raw (text "semantic_claims")) e₄)
        (string_tuple-IsItem r _ (get raw (text "stop_conditions")) e₅) h₅

  -- A work order that was loaded from a mapping, and names no blank reviewer family and no blank
  -- issue, is loaded again from its own mapping, unchanged. Resolving a path twice is resolving it
  -- once.
  pub order_of-order_mapping :
      (raw : Fields) {o : WorkOrder}
      → ((s : Text) → r.path_of (r.path_of s) ≡ r.path_of s)
      → order_of r raw ≡ ok o
      → o.reviewer_family ≢ some []
      → o.issue ≢ some []
      → order_of r (order_mapping o) ≡ ok o
  order_of-order_mapping raw {o} resolves h =
      order_of-IsLoaded_mapping o (order_of-IsLoaded raw resolves h)
