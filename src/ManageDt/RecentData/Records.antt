-- ===== src/ManageDt/RecentData/Records.antt =====
-- What the enriched lists of records keep.
use oci_iot_samples.Base.{
  ℕ, String, ◌≡◌, refl, sym, subst, Option, none, some, List, [], ◌∷◌, arith, ◌==◌, eq_iff,
  if◌then◌else◌,
}
use oci_iot_samples.Base.Exec.{ok, >>=-eq-ok}
use oci_iot_samples.Base.Json.{set, Value, Fields, end, field, get}
use oci_iot_samples.ManageDt.DataAccess.{DataAccess}
use oci_iot_samples.ManageDt.RecentData.{
  DataApi, item, payload_of, with_payload, with_payloads, get_raw_data_by_id, get_recent_data,
  get_recent_raw_data, detail_found,
}

pub get-set :
    (k j : String) (v : Value) (fs : Fields)
    → get j (set k v fs) ≡ (if k == j then some v else get j fs)
unfolding get set
get-set k j v end = refl
get-set k j v (field i u fs) = ground (arith, eq_iff k j, eq_iff i k, eq_iff i j, get-set k j v fs)

-- The record that was made of a row is that row with a payload.
abbrev pub IsDetailed : Fields → Fields → Type 0
IsDetailed row out =
    (v : Value) × ((k : String) → get k out ≡ (if "payload" == k then some v else get k row))

-- Each row of a list with what was made of it, in order.
abbrev pub AllDetailed : List Fields → List Fields → Type 0
AllDetailed [] [] = Unit
AllDetailed (r ∷ rs) (s ∷ ss) = IsDetailed r s × AllDetailed rs ss
AllDetailed _ _ = ⊥

module _ {W : Type 0} (api : DataApi W) (access : DataAccess) where
  with_payload-IsDetailed :
      (row out : Fields) (w w' : W)
      → with_payload api access row w ≡ (ok out, w')
      → IsDetailed row out
  unfolding with_payload
  with_payload-IsDetailed row out w w' h =
      let (id, w1, _, h1) = >>=-eq-ok (item "id" row) _ {s = w} h in
      let (details, w2, _, h2) = >>=-eq-ok (get_raw_data_by_id api access id) _ {s = w1} h1 in
      let v = payload_of api access details in
      let e : set "payload" v row ≡ out = cc in (v, λ k. rw (← e) (get-set "payload" k v row))

  pub with_payloads-AllDetailed :
      (rows out : List Fields) (w w' : W)
      → with_payloads api access rows w ≡ (ok out, w')
      → AllDetailed rows out
  unfolding with_payloads
  with_payloads-AllDetailed [] out w w' h =
      let e : out ≡ [] = cc in subst (AllDetailed []) (sym e) tt
  with_payloads-AllDetailed (r ∷ rs) out w w' h =
      let (s, w1, first, h1) = >>=-eq-ok (with_payload api access r) _ {s = w} h in
      let (ss, w2, rest, h2) = >>=-eq-ok (with_payloads api access rs) _ {s = w1} h1 in
      let e : (s ∷ ss) ≡ out = cc in
      subst (AllDetailed (r ∷ rs)) e
        (with_payload-IsDetailed r s w w1 first, with_payloads-AllDetailed rs ss w1 w2 rest)

  -- When raw data is given, the query for it gave as many records, and in order each given record
  -- is that record with some value for its payload and all other keys as they were.
  get_recent_raw_data-AllDetailed :
      (instance_id : String) (last_minutes : ℕ) (out : List Fields) (w w' : W)
      → get_recent_raw_data api access instance_id last_minutes w ≡ (ok (some out), w')
      → (rows : List Fields) × (w1 : W) × (get_recent_data api access last_minutes instance_id
            "rawData" "time_received" "id" w
          ≡ (ok (some rows), w1))
        × AllDetailed rows out
  unfolding get_recent_raw_data
  get_recent_raw_data-AllDetailed instance_id last_minutes out w w' h =
      let (found, w1, query, h1) =
        >>=-eq-ok
          (get_recent_data api access last_minutes instance_id "rawData" "time_received" "id")
          (detail_found api access) {s = w} h in
      of_found found w1 query h1
    where
      of_found :
          (found : Option (List Fields)) (w1 : W)
          → get_recent_data api access last_minutes instance_id "rawData" "time_received" "id" w
            ≡ (ok found, w1)
          → detail_found api access found w1 ≡ (ok (some out), w')
          → (rows : List Fields) × (w1 : W) × (get_recent_data api access last_minutes instance_id
                "rawData" "time_received" "id" w
              ≡ (ok (some rows), w1))
            × AllDetailed rows out
      of_found none w1 query h1 = cc
      of_found (some rows) w1 query h1 =
          let (res, w2, made, h2) = >>=-eq-ok (with_payloads api access rows) _ {s = w1} h1 in
          let e : res ≡ out = cc in
          (
            rows,
            w1,
            query,
            subst (AllDetailed rows) e (with_payloads-AllDetailed rows res w1 w2 made),
          )
