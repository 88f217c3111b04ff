-- ===== src/Base/Json.antt =====
-- Decoded JSON: Python's None, bool, int, float, str, list and dict. An object has each key once.
use mathlib.Core.Bool.{Bool}
use mathlib.Core.Option.{Option, none, some}
use Prim.Native.Nat.{ℕ}
use Prim.Native.String.{String}
use text.Mathlib.Text.{◌==◌}
use oci_iot_samples.Base.Tests.{if◌then◌else◌}

-- `negsuc n` is -(n + 1).
pub data ℤ : Type 0 where
  pos : ℕ → ℤ
  negsuc : ℕ → ℤ

-- `real m k` is a float, m / 10 ^ k.
mutual
  pub data Value : Type 0 where
    null : Value
    bool : Bool → Value
    num : ℤ → Value
    real : ℤ → ℕ → Value
    str : String → Value
    arr : Items → Value
    obj : Fields → Value

  -- Keys with their values, and then the elements of a list.
  pub data Fields : Type 0 where
    field : String → Value → Fields → Fields
    end : Fields

  pub data Items : Type 0 where
    cons : Value → Items → Items
    nil : Items

-- d.get(key) on the fields of an object
unfoldable pub get : String → Fields → Option Value
get k end = none
get k (field j v fs) = let rest = get k fs in if j == k then some v else rest

-- d[k] = v on the fields of an object
unfoldable pub set : String → Value → Fields → Fields
set k v end = field k v end
set k v (field j u fs) = let rest = set k v fs in if j == k then field k v fs else field j u rest

-- isinstance(value, str)
unfoldable pub as_text : Value → Option String
as_text (str s) = some s
as_text _ = none

-- isinstance(value, dict)
unfoldable pub as_fields : Value → Option Fields
as_fields (obj fs) = some fs
as_fields _ = none
