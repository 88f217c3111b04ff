-- ===== src/ManageDt/Query/Queried.antt =====
-- The requests that a query of a twin is made of, said without the code that sends them.
use oci_iot_samples.Base.{
  ℕ, suc, String, ◌<>◌, ◌≡◌, ◌≢◌, ap, ◌∙◌, Option, none, some, List, [], ◌∷◌, length, arith,
}
use oci_iot_samples.Base.Exec.{Exec, Outcome, ok, raised, pending, ◌>>=◌, pure, >>=-eq-ok}
use oci_iot_samples.Base.Json.{str, arr, obj, cons, nil, Fields, field, end}
use oci_iot_samples.ManageDt.DataAccess.{DataAccess}
use oci_iot_samples.ManageDt.RecentData.{
  DataApi, recent_query, answer, item, get_recent_data, detail_found, get_recent_raw_data,
  get_recent_historized_data, get_recent_raw_command_data, get_recent_rejected_data,
  get_raw_command_data_by_id, enrich_all, enriched,
}
use oci_iot_samples.ManageDt.RecentData.Records.{AllDetailed, with_payloads-AllDetailed}
use oci_iot_samples.ManageDt.Query.Printing.{Gave}

module _ {W : Type 0} (api : DataApi W) (access : DataAccess) (id : String) (last_minutes : ℕ) where
  -- The records are those of a response with the status 200; there are none with another status.
  abbrev pub Answered : ℕ × Outcome (List Fields) → Option (List Fields) → Type 0
  Answered r none = r.0 ≢ 200
  Answered r (some records) = r ≡ (200, ok records)

  -- The endpoint was asked, at the access's base URL and with its token, for the records of the instance from that
  -- many minutes ago on, by the field of their time and in the descending order of a field.
  abbrev pub Queried : String → String → String → Option (List Fields) → Type 0
  Queried endpoint time_field order_field records =
      (since : String) × (r : ℕ × Outcome (List Fields)) × Gave (api.recent_time last_minutes) since
      × Gave
          (api.get_items (access.iot_data_endpoint <> ("/" <> endpoint)) access.token (
            obj (
              field "$and"
                (arr (
                  cons (obj (field "digital_twin_instance_id" (str id) end)) (
                    cons
                      (obj (
                        field time_field
                          (obj (field "$gte" (obj (field "$date" (str since) end)) end)) end))
                      nil)))
                (field "$orderby" (obj (field order_field (str "desc") end)) end))))
          r
      × Answered r records

  answer-Answered :
      (r : ℕ × Outcome (List Fields)) (records : Option (List Fields)) (w w' : W)
      → answer r w ≡ (ok records, w')
      → Answered r records
  answer-Answered (status, ok rows) none w w' h = ground (arith, h)
  answer-Answered (status, ok rows) (some records) w w' h = ground (arith, h)
  answer-Answered (status, raised e) none w w' h = ground (arith, h)
  answer-Answered (status, raised e) (some records) w w' h = ground (arith, h)
  answer-Answered (status, pending) none w w' h = ground (arith, h)
  answer-Answered (status, pending) (some records) w w' h = ground (arith, h)

  get_recent_data-Queried :
      (endpoint time_field order_field : String) (records : Option (List Fields))
      → Gave (get_recent_data api access last_minutes id endpoint time_field order_field) records
      → Queried endpoint time_field order_field records
  unfolding get_recent_data recent_query
  get_recent_data-Queried endpoint time_field order_field records (w, w', h) =
      let (since, w1, e1, h1) = >>=-eq-ok (api.recent_time last_minutes) _ {s = w} h in
      let (r, w2, e2, h2) =
        >>=-eq-ok
          (api.get_items (access.iot_data_endpoint <> ("/" <> endpoint)) access.token
            (recent_query id time_field since order_field))
          _ {s = w1} h1 in
      (since, r, (w, w1, e1), (w1, w2, e2), answer-Answered r records w2 w' h2)

  -- Each record of the query with a payload, and else as it was.
  abbrev pub Detailed : Option (List Fields) → Option (List Fields) → Type 0
  Detailed none found = found ≡ none
  Detailed (some rows) found = (out : List Fields) × (found ≡ some out) × AllDetailed rows out

  -- As many records as the query gave.
  abbrev pub AsMany : Option (List Fields) → Option (List Fields) → Type 0
  AsMany none found = found ≡ none
  AsMany (some rows) found = (out : List Fields) × (found ≡ some out) × (length out ≡ length rows)

  detail_found-Detailed :
      (rows found : Option (List Fields)) (w w' : W)
      → detail_found api access rows w ≡ (ok found, w')
      → Detailed rows found
  detail_found-Detailed none found w w' h = cc (h)
  detail_found-Detailed (some rows) found w w' h =
      let (out, w1, e, h1) =
        >>=-eq-ok (oci_iot_samples.ManageDt.RecentData.with_payloads api access rows) _ {s = w} h in
      (out, cc (h1), with_payloads-AllDetailed api access rows out w w1 e)

  pub raw-Queried :
      (found : Option (List Fields))
      → Gave (get_recent_raw_data api access id last_minutes) found
      → (rows : Option (List Fields)) × Queried "rawData" "time_received" "id" rows
        × Detailed rows found
  unfolding get_recent_raw_data
  raw-Queried found (w, w', h) =
      let (rows, w1, e, h1) =
        >>=-eq-ok (get_recent_data api access last_minutes id "rawData" "time_received" "id")
          (detail_found api access) {s = w} h in
      (
        rows,
        get_recent_data-Queried "rawData" "time_received" "id" rows (w, w1, e),
        detail_found-Detailed rows found w1 w' h1,
      )

  pub historized-Queried :
      (found : Option (List Fields))
      → Gave (get_recent_historized_data api access id last_minutes) found
      → Queried "historizedData" "time_observed" "id" found
  unfolding get_recent_historized_data
  historized-Queried found gave =
      get_recent_data-Queried "historizedData" "time_observed" "id" found gave

  pub rejected-Queried :
      (found : Option (List Fields))
      → Gave (get_recent_rejected_data api access id last_minutes) found
      → Queried "rejectedData" "time_received" "id" found
  unfolding get_recent_rejected_data
  rejected-Queried found gave =
      get_recent_data-Queried "rejectedData" "time_received" "id" found gave

  enrich_all-length :
      (rows out : List Fields) (w w' : W)
      → enrich_all api access rows w ≡ (ok out, w')
      → length out ≡ length rows
  unfolding enrich_all
  enrich_all-length [] out w w' h = let e : out ≡ [] = cc in ap length e
  enrich_all-length (r ∷ rows) out w w' h =
      let (v, w1, e1, h1) = >>=-eq-ok (item "id" r) _ {s = w} h in
      let (details, w2, e2, h2) =
        >>=-eq-ok (get_raw_command_data_by_id api access v) _ {s = w1} h1 in
      let (rest, w3, e3, h3) = >>=-eq-ok (enrich_all api access rows) _ {s = w2} h2 in
      let e : out ≡ enriched api access v r details ∷ rest = cc (h3) in
      ap length e ∙ ap suc (enrich_all-length rows rest w2 w3 e3)

  abbrev commands_of : Option (List Fields) → Exec W (Option (List Fields))
  commands_of none = pure none
  commands_of (some rows) = enrich_all api access rows >>= (λ out. pure (some out))

  commands_of-AsMany :
      (rows found : Option (List Fields)) (w w' : W)
      → commands_of rows w ≡ (ok found, w')
      → AsMany rows found
  commands_of-AsMany none found w w' h = cc (h)
  commands_of-AsMany (some rows) found w w' h =
      let (out, w1, e, h1) = >>=-eq-ok (enrich_all api access rows) _ {s = w} h in
      (out, cc (h1), enrich_all-length rows out w w1 e)

  pub commands-Queried :
      (found : Option (List Fields))
      → Gave (get_recent_raw_command_data api access id last_minutes) found
      → (rows : Option (List Fields)) × Queried "rawCommandData" "time_created" "time_created" rows
        × AsMany rows found
  unfolding get_recent_raw_command_data
  commands-Queried found (w, w', h) =
      let (rows, w1, e, h1) =
        >>=-eq-ok
          (get_recent_data api access last_minutes id "rawCommandData" "time_created"
            "time_created")
          _ {s = w} h in
      of_rows rows w1 e h1
    where
      of_rows :
          (rows : Option (List Fields)) (w1 : W)
          → get_recent_data api access last_minutes id "rawCommandData" "time_created"
              "time_created" w
            ≡ (ok rows, w1)
          → (elim rows as (λ o. Exec W (Option (List Fields))) [
            | none ↦ pure none
            | some rows ↦ enrich_all api access rows >>= (λ out. pure (some out))
          ])
              w1
            ≡ (ok found, w')
          → (rows : Option (List Fields)) × Queried "rawCommandData" "time_created" "time_created"
              rows
            × AsMany rows found
      of_rows none w1 e h = (
        none,
        get_recent_data-Queried "rawCommandData" "time_created" "time_created" none (w, w1, e),
        commands_of-AsMany none found w1 w' h,
      )
      of_rows (some rows) w1 e h = (
        some rows,
        get_recent_data-Queried "rawCommandData" "time_created" "time_created" (some rows)
            (w, w1, e),
        commands_of-AsMany (some rows) found w1 w' h,
      )
