-- ===== src/Model/Decode.antt =====
-- `WorkOrder.from_mapping` and `Coordination.from_mapping`, on JSON with natural numbers. Which refusal
-- a mapping with several faults gets is the source's choice within each step; a field of a coordination
-- that has another type is refused here before its bounds are tested.
use idol_id_agents.Prelude.{
  ℕ, ◌+◌, Text, text, Bool, true, false, ◌&&◌, ◌||◌, not, List, [], ◌∷◌, map, any, all, is_empty,
  ◌==◌, leb, Option, none, some, or_else, Json, Items, Fields, null, bool, num, str, arr, obj, nil,
  cons, end, field, get, is_falsy, Result, ok, err, refuse_if, ◌>>=◌, ◌>>◌, if◌then◌else◌,
}
use idol_id_agents.Strings.{strip}
use idol_id_agents.Model.{WorkOrder, Coordination}
use idol_id_agents.Model.Atoms.{member}
use idol_id_agents.Model.Orders.{OrderError, CoordinationError, check_order, check_coordination}
pub mod Declared
pub mod Loaded

pub data DecodeError : Type 0 where
  repository_not_absolute : DecodeError
  not_an_object not_an_array empty_item not_a_number : Text → DecodeError
  unknown_fields : DecodeError
  field_type : Text → DecodeError
  order_refused : OrderError → DecodeError
  coordination_refused : CoordinationError → DecodeError

-- What the decoding takes from Python: `str` at a value that is no text, `int` at one that is no
-- number (where it does not raise), and `str(Path(…).expanduser())` with its test `is_absolute`.
pub record Readers : Type 0 where
  pub str_of : Json → Text
  pub int_of : Json → Option ℕ
  pub path_of : Text → Text
  pub is_absolute : Text → Bool

-- `value.lower()`. Letters beyond ASCII play no part: no risk that is accepted has one.
abbrev pub lower_char : ℕ → ℕ
lower_char c = if leb b'A' c && leb c b'Z' then c + 32 else c

abbrev pub lower : Text → Text
lower s = map lower_char s

-- `raw.get(key, False) is True`, and the same with True.
abbrev pub is_true_at : Option Json → Bool → Bool
is_true_at none default = default
is_true_at (some (bool b)) default = b
is_true_at (some other) default = false

unfoldable pub or_order : Result OrderError (Unit {0}) → Result DecodeError (Unit {0})
or_order (ok u) = ok u
or_order (err e) = err (order_refused e)

unfoldable pub or_coordination : Result CoordinationError (Unit {0}) → Result DecodeError (Unit {0})
or_coordination (ok u) = ok u
or_coordination (err e) = err (coordination_refused e)
