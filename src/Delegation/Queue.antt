-- ===== src/Delegation/Queue.antt =====
-- `_publish_queue`: the file of a delegated work order, which is published once. A file with the bytes
-- of a work order is taken to be within the bound of `read_regular`, 1 MiB.
use idol_id_agents.Prelude.{
  Text, text, Bool, false, [], ◌∷◌, ◌++◌, not, ◌==◌, Option, none, some, Json, Fields, obj, get,
  is_text, Result, ok, err, ◌>>◌, refuse_if, if◌then◌else◌,
}
use idol_id_agents.Model.{WorkOrder}
use idol_id_agents.Model.Decode.{DecodeError}
use idol_id_agents.Model.Decode.Loaded.{order_of}
use idol_id_agents.Model.Encode.{order_mapping}
use idol_id_agents.Delegation.{
  Outside, CoordinationRefusal, malformed, no_mapping, bytes_differ, occupied, irregular,
  concurrent, fact_of,
}

-- What stands under a name of the directory; `irregular_file` is what `read_regular` refuses (a link, a
-- directory, a file over its bound).
pub data Slot : Type 0 where
  missing irregular_file : Slot
  regular : Text → Slot

abbrev pub Queue : Type 0
Queue = Text → Slot

abbrev pub put_slot : Text → Slot → Queue → Queue
put_slot name slot queue n = if n == name then slot else queue n

-- `order_dir / f"{order.id}.json"`.
abbrev pub queue_path : Outside → WorkOrder → Text
queue_path w o = w.queue_dir ++ text "/" ++ o.id ++ text ".json"

-- `canonical(order_mapping(order)) + b"\n"`.
unfoldable pub queue_content : Outside → WorkOrder → Text
unfolding order_mapping
queue_content w o = w.canonical (obj (order_mapping o)) ++ 10 ∷ []

-- `read_regular(target) != content` of a file that exists.
unfoldable pub same_content :
    CoordinationRefusal → Text → Slot → Result CoordinationRefusal (Unit {0})
unfolding ◌==◌
same_content refusal content (regular found) = refuse_if (not (found == content)) refusal
same_content refusal content missing = err irregular
same_content refusal content irregular_file = err irregular

-- The link of the temporary file. `race` is what another process has put under the name since the
-- test that it is missing.
unfoldable pub link : Text → Text → Slot → Queue → Result CoordinationRefusal (Unit {0}) × Queue
unfolding same_content ◌==◌
link target content missing queue = (ok tt, put_slot target (regular content) queue)
link target content (regular found) queue =
    (same_content concurrent content (regular found), put_slot target (regular found) queue)
link target content irregular_file queue = (err irregular, put_slot target irregular_file queue)

-- The part behind `target.exists() or target.is_symlink()`.
unfoldable pub place :
    Text → Text → Slot → Slot → Queue → Result CoordinationRefusal (Unit {0}) × Queue
unfolding same_content link
place target content race missing queue = link target content race queue
place target content race (regular found) queue =
    (same_content occupied content (regular found), queue)
place target content race irregular_file queue = (err irregular, queue)

abbrev pub or_malformed : Result DecodeError WorkOrder → Result CoordinationRefusal WorkOrder
or_malformed (ok o) = ok o
or_malformed (err e) = err (malformed e)

abbrev pub decoded_value : Outside → Option Json → Result CoordinationRefusal WorkOrder
decoded_value w (some (obj raw)) = or_malformed (order_of w.readers raw)
decoded_value w none = err no_mapping
decoded_value w (some value) = err no_mapping

-- `WorkOrder.from_mapping(mapping(fact.get("work_order"), …))`.
unfoldable pub decoded : Outside → Option Fields → Result CoordinationRefusal WorkOrder
unfolding get order_of
decoded w none = err no_mapping
decoded w (some fact) = decoded_value w (get fact (text "work_order"))

abbrev pub names_hash : Option Fields → Text → Bool
names_hash none hash = false
names_hash (some fact) hash = is_text (get fact (text "queue_sha256")) hash

-- The part of `_publish_queue` behind the decoding.
unfoldable pub publish_order :
    Outside → Option Fields → Slot → WorkOrder → Queue → Result CoordinationRefusal Text × Queue
unfolding ◌==◌ get queue_content place
publish_order w fact race o queue =
    let target = queue_path w o in
    let content = queue_content w o in
    let (placed, left) = place target content race (queue target) queue in
    if not (names_hash fact (w.sha256 content))
    then (err bytes_differ, queue)
    else (placed >> ok target, left)

unfoldable pub publish_decoded :
    Outside
    → Option Fields
    → Slot
    → Queue
    → Result CoordinationRefusal WorkOrder
    → Result CoordinationRefusal Text × Queue
unfolding publish_order
publish_decoded w fact race queue (err e) = (err e, queue)
publish_decoded w fact race queue (ok o) = publish_order w fact race o queue

-- `_publish_queue`: the path of the file, and the directory that it leaves.
unfoldable pub publish : Outside → Json → Slot → Queue → Result CoordinationRefusal Text × Queue
unfolding decoded publish_decoded
publish w fact race queue = publish_decoded w (fact_of fact) race queue (decoded w (fact_of fact))
