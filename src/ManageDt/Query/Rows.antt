-- ===== src/ManageDt/Query/Rows.antt =====
-- What is printed for records, said without the code that prints them.
use oci_iot_samples.Base.{String, ◌<>◌, ◌≡◌, inl, inr, some, List, [], ◌∷◌}
use oci_iot_samples.Base.Exec.{Outcome, ok}
use oci_iot_samples.Base.Options.{Option-cases}
use oci_iot_samples.Base.Outcomes
use oci_iot_samples.Base.Json.{Value, Fields, get}
use oci_iot_samples.ManageDt.RecentData.{get_or_null}
use oci_iot_samples.ManageDt.Query.Reports.{AllMade}
use oci_iot_samples.ManageDt.Query.{
  Cell, text, value, Printed, command_panel, Texts, item_of, raw_cells, historized_cells,
  rejected_cells, command_panel_of,
}

-- The first items of each, the second, and so on, are related, and there are as many.
abbrev pub Related : {A B : Type 0} → (A → B → Type 0) → List A → List B → Type 0
Related R [] [] = Unit
Related R (x ∷ xs) (y ∷ ys) = R x y × Related R xs ys
Related R _ _ = ⊥

pub made-Related :
    {A : Type 0} (make : Fields → Outcome A) (R : Fields → A → Type 0) (rs : List Fields)
    (xs : List A)
    → ((r : Fields) (x : A) → make r ≡ ok x → R r x)
    → AllMade make rs xs
    → Related R rs xs
made-Related make R [] [] h m = tt
made-Related make R [] (x ∷ xs) h m = absurd m
made-Related make R (r ∷ rs) [] h m = absurd m
made-Related make R (r ∷ rs) (x ∷ xs) h (e, m) = (h r x e, made-Related make R rs xs h m)

item_of-eq : (key : String) (r : Fields) (v : Value) → item_of key r ≡ ok v → get key r ≡ some v
item_of-eq key r v h = elim (Option-cases (get key r)) [
  | inl e ↦ let missing = rw (e, item_of) at h in cc (missing)
  | inr (u, e) ↦ let found = rw (e, item_of) at h in cc (found, e)
]

module _ (texts : Texts) where
  abbrev pub IsRawRow : Fields → List Cell → Type 0
  IsRawRow r row =
      (id : Value) × (time : Value) × (endpoint : Value) × (get "id" r ≡ some id)
      × (get "time_received" r ≡ some time)
      × (get "endpoint" r ≡ some endpoint)
      × (row
          ≡ text (texts.text_of id)
            ∷ value time
            ∷ value endpoint
            ∷ text (texts.dumps (get_or_null "payload" r))
            ∷ [])

  abbrev pub IsHistorizedRow : Fields → List Cell → Type 0
  IsHistorizedRow r row =
      (id : Value) × (time : Value) × (path : Value) × (v : Value) × (get "id" r ≡ some id)
      × (get "time_observed" r ≡ some time)
      × (get "content_path" r ≡ some path)
      × (get "value" r ≡ some v)
      × (row ≡ text (texts.text_of id) ∷ value time ∷ value path ∷ text (texts.text_of v) ∷ [])

  abbrev pub IsRejectedRow : Fields → List Cell → Type 0
  IsRejectedRow r row =
      (id : Value) × (time : Value) × (endpoint : Value) × (reason : Value) × (message : Value)
      × (get "id" r ≡ some id)
      × (get "time_received" r ≡ some time)
      × (get "endpoint" r ≡ some endpoint)
      × (get "reason_code" r ≡ some reason)
      × (get "reason_message" r ≡ some message)
      × (row
          ≡ text (texts.text_of id)
            ∷ value time
            ∷ value endpoint
            ∷ text (texts.text_of reason)
            ∷ value message
            ∷ [])

  -- The panel of a command: its id and its six attributes in a row, and its data on two lines.
  abbrev pub IsPanel : {Content : Type 0} → Fields → Printed Content → Type 0
  IsPanel r panel =
      (id : Value) × (get "id" r ≡ some id)
      × (panel
          ≡ command_panel ("Raw command data #" <> texts.text_of id)
              (text (texts.text_of id)
                ∷ text (texts.text_of (get_or_null "request_endpoint" r))
                ∷ text (texts.text_of (get_or_null "response_endpoint" r))
                ∷ text (texts.text_of (get_or_null "time_created" r))
                ∷ text (texts.text_of (get_or_null "time_updated" r))
                ∷ text (texts.text_of (get_or_null "time_finished" r))
                ∷ text (texts.text_of (get_or_null "delivery_status" r))
                ∷ [])
              (("Request data: " <> texts.dumps (get_or_null "request_data" r))
                ∷ ("Response data: " <> texts.dumps (get_or_null "response_data" r))
                ∷ []))

  pub raw_cells-IsRawRow :
      (r : Fields) (row : List Cell) → raw_cells texts r ≡ ok row → IsRawRow r row
  unfolding raw_cells
  raw_cells-IsRawRow r row h =
      let (id, e1, h1) = Outcomes.>>=-eq-ok (item_of "id" r) _ h in
      let (time, e2, h2) = Outcomes.>>=-eq-ok (item_of "time_received" r) _ h1 in
      let (endpoint, e3, h3) = Outcomes.>>=-eq-ok (item_of "endpoint" r) _ h2 in
      (
        id,
        time,
        endpoint,
        item_of-eq "id" r id e1,
        item_of-eq "time_received" r time e2,
        item_of-eq "endpoint" r endpoint e3,
        cc (h3),
      )

  pub historized_cells-IsHistorizedRow :
      (r : Fields) (row : List Cell) → historized_cells texts r ≡ ok row → IsHistorizedRow r row
  unfolding historized_cells
  historized_cells-IsHistorizedRow r row h =
      let (id, e1, h1) = Outcomes.>>=-eq-ok (item_of "id" r) _ h in
      let (time, e2, h2) = Outcomes.>>=-eq-ok (item_of "time_observed" r) _ h1 in
      let (path, e3, h3) = Outcomes.>>=-eq-ok (item_of "content_path" r) _ h2 in
      let (v, e4, h4) = Outcomes.>>=-eq-ok (item_of "value" r) _ h3 in
      (
        id,
        time,
        path,
        v,
        item_of-eq "id" r id e1,
        item_of-eq "time_observed" r time e2,
        item_of-eq "content_path" r path e3,
        item_of-eq "value" r v e4,
        cc (h4),
      )

  pub rejected_cells-IsRejectedRow :
      (r : Fields) (row : List Cell) → rejected_cells texts r ≡ ok row → IsRejectedRow r row
  unfolding rejected_cells
  rejected_cells-IsRejectedRow r row h =
      let (id, e1, h1) = Outcomes.>>=-eq-ok (item_of "id" r) _ h in
      let (time, e2, h2) = Outcomes.>>=-eq-ok (item_of "time_received" r) _ h1 in
      let (endpoint, e3, h3) = Outcomes.>>=-eq-ok (item_of "endpoint" r) _ h2 in
      let (reason, e4, h4) = Outcomes.>>=-eq-ok (item_of "reason_code" r) _ h3 in
      let (message, e5, h5) = Outcomes.>>=-eq-ok (item_of "reason_message" r) _ h4 in
      (
        id,
        time,
        endpoint,
        reason,
        message,
        item_of-eq "id" r id e1,
        item_of-eq "time_received" r time e2,
        item_of-eq "endpoint" r endpoint e3,
        item_of-eq "reason_code" r reason e4,
        item_of-eq "reason_message" r message e5,
        cc (h5),
      )

  pub command_panel_of-IsPanel :
      {Content : Type 0} (r : Fields) (panel : Printed Content)
      → command_panel_of texts r ≡ ok panel
      → IsPanel r panel
  unfolding command_panel_of
  command_panel_of-IsPanel r panel h =
      let (id, e1, h1) = Outcomes.>>=-eq-ok (item_of "id" r) _ h in
      (id, item_of-eq "id" r id e1, cc (h1))
