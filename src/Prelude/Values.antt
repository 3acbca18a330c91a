-- ===== src/Prelude/Values.antt =====
-- JSON values as `json.loads` gives them, with the numbers restricted to the natural ones, and the
-- mapping operations that the program uses: `get`, `in`, and a test against a text.
use Prim.Native.Nat.{ℕ, zero, suc}
use mathlib.Core.Bool.{Bool, true, false, not}
use mathlib.Core.Option.{Option, none, some}
use idol_id_agents.Prelude.Tests.{if◌then◌else◌}
use idol_id_agents.Prelude.Lists.{is_empty}
use idol_id_agents.Prelude.Texts.{Text, ◌==◌}

mutual
  pub data Json : Type 0 where
    null : Json
    bool : Bool → Json
    num : ℕ → Json
    str : Text → Json
    arr : Items → Json
    obj : Fields → Json

  pub data Items : Type 0 where
    nil : Items
    cons : Json → Items → Items

  pub data Fields : Type 0 where
    end : Fields
    field : Text → Json → Fields → Fields

-- `mapping.get(key)`; a key stands once in a mapping.
unfoldable pub get : Fields → Text → Option Json
get end k = none
get (field j v fs) k = if j == k then some v else get fs k

-- `value == text` at a value that may be absent.
abbrev pub is_text : Option Json → Text → Bool
is_text (some (str s)) t = s == t
is_text _ t = false

-- A value that Python takes for false.
unfoldable pub is_falsy : Json → Bool
is_falsy null = true
is_falsy (bool b) = not b
is_falsy (num zero) = true
is_falsy (num (suc n)) = false
is_falsy (str t) = is_empty t
is_falsy (arr nil) = true
is_falsy (arr (cons x xs)) = false
is_falsy (obj end) = true
is_falsy (obj (field k v fs)) = false
