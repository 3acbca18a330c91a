-- ===== src/Tests/Readbacks.antt =====
-- A work order that is loaded from the mapping of the sample order.
use idol_id_agents.Prelude.{Text, text, true, ◌≡◌, ◌≢◌, refl, none, some, ok, Option, []}
use idol_id_agents.Model.Atoms.{is_atom, is_sha}
use idol_id_agents.Model.Paths.{relative_path_ok, semantic_target_ok}
use idol_id_agents.Model.Decode.{Readers}
use idol_id_agents.Model.Decode.Loaded.{order_of}
use idol_id_agents.Model.Encode.{order_mapping}
use idol_id_agents.Model.Reread.{order_of-order_mapping}
use idol_id_agents.Tests.Samples.{order}

abbrev pub readers : Readers
readers = record {
  str_of = λ v. text "None";
  int_of = λ v. none;
  path_of = λ s. s;
  is_absolute = λ s. true;
}

order_loads : order_of readers (order_mapping order) ≡ ok order
unfolding order_of order_mapping is_atom is_sha relative_path_ok semantic_target_ok
order_loads = refl

no_text : ◌≢◌ {A = Option Text} none (some [])
no_text h = cc

order_of-order_mapping_example : order_of readers (order_mapping order) ≡ ok order
order_of-order_mapping_example =
    order_of-order_mapping readers (order_mapping order) (λ s. refl) order_loads no_text no_text
