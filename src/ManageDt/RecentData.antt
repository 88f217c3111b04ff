-- ===== src/ManageDt/RecentData.antt =====
-- mdt_iot_data.py: the queries of recent data, over the data API.
pub mod Records
use oci_iot_samples.Base.{
  ℕ, String, ◌<>◌, Bool, true, false, Option, none, some, List, [], ◌∷◌, ◌++◌, map, eqb, ◌==◌,
  if◌then◌else◌,
}
use oci_iot_samples.Base.Exec.{
  Exec, Exn, Outcome, ok, raised, pending, key_error, after, ◌>>=◌, ◌>>◌, pure, raise, lift,
}
use oci_iot_samples.Base.Json.{
  set, Value, null, str, arr, obj, Items, nil, cons, Fields, end, field, get,
}
use oci_iot_samples.ManageDt.DataAccess.{DataAccess}

-- The data API behind `requests.get`, given a URL, a token and a query. A response is a status and
-- its decoded body (the "items" of a list), which is read only when the status is good.
-- `recent_time` is the text of the time so many minutes ago, and `text_of` is Python's `str`.
pub record DataApi (W : Type 0) : Type 0 where
  pub get_items : String → String → Value → Exec W (ℕ × Outcome (List Fields))
  pub get_record : String → String → Exec W (ℕ × Outcome Fields)
  pub recent_time : ℕ → Exec W String
  pub text_of : Value → String

-- d.get(k) as a value
abbrev pub get_or_null : String → Fields → Value
get_or_null k fs = elim (get k fs) [ none ↦ null | some v ↦ v ]

-- d[k]
abbrev pub item : {W : Type 0} → String → Fields → Exec W Value
item k fs = elim (get k fs) [ none ↦ raise (key_error k) | some v ↦ pure v ]

-- What is not None and holds an entry.
abbrev pub present : Option Fields → Option Fields
present (some (field k v fs)) = some (field k v fs)
present _ = none

unfoldable pub recent_query : String → String → String → String → Value
recent_query instance_id time_field since order_field = obj (
    field "$and"
      (arr (
        cons (obj (field "digital_twin_instance_id" (str instance_id) end)) (
          cons
            (obj
              (field time_field (obj (field "$gte" (obj (field "$date" (str since) end)) end)) end))
            nil)))
      (field "$orderby" (obj (field order_field (str "desc") end)) end))

-- The body, if the status is good.
abbrev pub answer : {W A : Type 0} → ℕ × Outcome A → Exec W (Option A)
answer (status, body) = if eqb status 200 then lift body >>= (λ a. pure (some a)) else pure none

module _ {W : Type 0} (api : DataApi W) (access : DataAccess) where
  unfoldable pub get_recent_data :
      ℕ → String → String → String → String → Exec W (Option (List Fields))
  unfolding recent_query
  get_recent_data last_minutes instance_id endpoint time_field order_field = do
    since ← api.recent_time last_minutes
    r ←
        api.get_items (access.iot_data_endpoint <> ("/" <> endpoint)) access.token
          (recent_query instance_id time_field since order_field)
    answer r

  unfoldable pub get_raw_data_by_id : Value → Exec W (Option Fields)
  get_raw_data_by_id raw_data_id = do
    r ←
        api.get_record (access.iot_data_endpoint <> ("/rawData/" <> api.text_of raw_data_id))
          access.token
    answer r

  -- The value for the key "payload" of a raw data record.
  abbrev pub payload_of : Option Fields → Value
  payload_of details = elim (present details) [ none ↦ null | some d ↦ get_or_null "content" d ]

  unfoldable pub with_payload : Fields → Exec W Fields
  with_payload r = do
    id ← item "id" r
    details ← get_raw_data_by_id id
    pure (set "payload" (payload_of details) r)

  unfoldable pub with_payloads : List Fields → Exec W (List Fields)
  with_payloads [] = pure []
  with_payloads (r ∷ rs) = do s ← with_payload r; ss ← with_payloads rs; pure (s ∷ ss)

  abbrev pub detail_found : Option (List Fields) → Exec W (Option (List Fields))
  detail_found none = pure none
  detail_found (some rows) = with_payloads rows >>= (λ out. pure (some out))

  unfoldable pub get_recent_raw_data : String → ℕ → Exec W (Option (List Fields))
  get_recent_raw_data instance_id last_minutes =
      get_recent_data last_minutes instance_id "rawData" "time_received" "id" >>= detail_found

  unfoldable pub get_recent_historized_data : String → ℕ → Exec W (Option (List Fields))
  get_recent_historized_data instance_id last_minutes =
      get_recent_data last_minutes instance_id "historizedData" "time_observed" "id"

  unfoldable pub get_recent_rejected_data : String → ℕ → Exec W (Option (List Fields))
  get_recent_rejected_data instance_id last_minutes =
      get_recent_data last_minutes instance_id "rejectedData" "time_received" "id"

  unfoldable pub get_raw_command_data_by_id : Value → Exec W (Option Fields)
  get_raw_command_data_by_id raw_command_data_id = do
    r ←
        api.get_record
          (access.iot_data_endpoint <> ("/rawCommandData/" <> api.text_of raw_command_data_id))
          access.token
    answer r

  abbrev times_from : Fields → Fields
  times_from r = field "time_created" (get_or_null "time_created" r) (
      field "time_updated" (get_or_null "time_updated" r) (
        field "time_finished" (get_or_null "time_finished" r)
          (field "delivery_status" (get_or_null "delivery_status" r) end)))

  abbrev command_record : Value → Value → Value → Value → Value → Fields → Fields
  command_record id request_endpoint request_data response_endpoint response_data rest =
      field "id" id (
        field "request_endpoint" request_endpoint (
          field "request_data" request_data (
            field "response_endpoint" response_endpoint
              (field "response_data" response_data rest))))

  -- The entry for a record of the list, with its details if there are any.
  unfoldable pub enriched : Value → Fields → Option Fields → Fields
  enriched id r details = elim (present details) [
    | none ↦ command_record id null null null null (times_from r)
    | some d ↦
        command_record (elim (get "id" d) [ none ↦ id | some v ↦ v ])
          (get_or_null "request_endpoint" d) (get_or_null "request_data" d)
          (get_or_null "response_endpoint" d) (get_or_null "response_data" d) (times_from d)
  ]

  unfoldable pub enrich_all : List Fields → Exec W (List Fields)
  unfolding enriched
  enrich_all [] = pure []
  enrich_all (r ∷ rs) = do
    id ← item "id" r
    details ← get_raw_command_data_by_id id
    ss ← enrich_all rs
    pure (enriched id r details ∷ ss)

  unfoldable pub get_recent_raw_command_data : String → ℕ → Exec W (Option (List Fields))
  get_recent_raw_command_data instance_id last_minutes = do
    records ←
        get_recent_data last_minutes instance_id "rawCommandData" "time_created" "time_created"
    elim records [ none ↦ pure none | some rows ↦ enrich_all rows >>= (λ out. pure (some out)) ]
