-- ===== src/ArchiveDomain/Retention.antt =====
-- iot_domain.py: retention days, from the IoT domain and from the configuration. A response object
-- and a mapping are both fields; a missing attribute is a missing key.
use oci_iot_samples.Base.{
  String, ◌<>◌, Bool, true, false, Option, none, some, List, [], ◌∷◌, code, eqb, select, lookup,
  insert, if◌then◌else◌,
}
use oci_iot_samples.Base.Exec.{Outcome, ok, raised, pending, value_error}
use oci_iot_samples.Base.Json.{ℤ, Value, null, obj, Fields, get}
use oci_iot_samples.Base.Outcomes.{◌>>=◌}
use oci_iot_samples.ArchiveDomain.Planner.{join_commas}

-- key.replace("-", "_")
underscored : String → String
underscored String.[] = String.[]
underscored (String.◌∷◌ c s) = String.◌∷◌ (if eqb (code c) b'-' then "_" else c) (underscored s)

-- The loop of _read_value, over the fields of the source.
read_fields : List String → Fields → Option Value
unfolding underscored get
read_fields [] fs = none
read_fields (key ∷ keys) fs =
    let rest = read_fields keys fs in
    elim (get key fs) [
      | some v ↦ some v
      | none ↦ elim (get (underscored key) fs) [ some v ↦ some v | none ↦ rest ]
    ]

-- `value is not None`
abbrev pub present : Option Value → Option Value
present none = none
present (some v) = elim v [ null ↦ none | other ↦ some other ]

-- _read_value. What has neither keys nor attributes gives None.
unfoldable pub read_value : Value → List String → Option Value
unfolding read_fields
read_value (obj fs) keys = present (read_fields keys fs)
read_value _ keys = none

abbrev pub key_map : List (String × List String)
key_map =
    ("raw", "raw" ∷ "rawData" ∷ "raw_data" ∷ "raw-data" ∷ [])
    ∷ ("historized", "historized" ∷ "historizedData" ∷ "historized_data" ∷ "historized-data" ∷ [])
    ∷ ("rejected", "rejected" ∷ "rejectedData" ∷ "rejected_data" ∷ "rejected-data" ∷ [])
    ∷ []

-- Python's `int` of a value is the parameter `int_of`; it may raise.
module _ (int_of : Value → Outcome ℤ) where
  -- resolved[dataset] = int(value), if there is a value
  unfoldable pub set_int : String → Option Value → List (String × ℤ) → Outcome (List (String × ℤ))
  set_int dataset none resolved = ok resolved
  set_int dataset (some v) resolved = do days ← int_of v; ok (insert dataset days resolved)

  extract_from :
      Value → List (String × List String) → List (String × ℤ) → Outcome (List (String × ℤ))
  extract_from source [] resolved = ok resolved
  extract_from source ((dataset, keys) ∷ rest) resolved = do
    resolved' ← set_int dataset (read_value source keys) resolved
    extract_from source rest resolved'

  unfoldable pub extract_retention_days : Value → Outcome (List (String × ℤ))
  unfolding extract_from set_int
  extract_retention_days domain =
      elim (read_value domain
        ("data-retention-periods-in-days" ∷ "data_retention_periods_in_days" ∷ [])) [
          | none ↦ ok []
          | some source ↦ extract_from source key_map []
        ]

  -- The overrides of the configuration, for the required datasets.
  unfoldable pub apply_overrides :
      Fields → List String → List (String × ℤ) → Outcome (List (String × ℤ))
  apply_overrides overrides [] resolved = ok resolved
  apply_overrides overrides (dataset ∷ rest) resolved = do
    resolved' ← set_int dataset (present (get dataset overrides)) resolved
    apply_overrides overrides rest resolved'

  -- dataset not in resolved
  abbrev pub is_missing : List (String × ℤ) → String → Bool
  is_missing resolved dataset = elim (lookup dataset resolved) [ none ↦ true | some _ ↦ false ]

  unfoldable pub check_missing : List String → List (String × ℤ) → Outcome (List (String × ℤ))
  unfolding select join_commas
  check_missing required resolved = elim (select (is_missing resolved) required) [
    | [] ↦ ok resolved
    | d ∷ ds ↦
        raised (value_error ("Missing retention values for datasets: " <> join_commas (d ∷ ds)))
  ]

  -- resolved.update(live) of an empty dict; a lookup that raises gives nothing.
  abbrev pub live_or_empty : Outcome (List (String × ℤ)) → Outcome (List (String × ℤ))
  live_or_empty (ok live) = ok live
  live_or_empty (raised e) = ok []
  live_or_empty pending = pending

  -- `live` is what the lookup client's get_retention_days did.
  unfoldable pub resolve_retention_days :
      Outcome (List (String × ℤ)) → Fields → List String → Outcome (List (String × ℤ))
  unfolding check_missing
  resolve_retention_days live overrides required = do
    resolved ← live_or_empty live
    resolved' ← apply_overrides overrides required resolved
    check_missing required resolved'
