-- ===== src/ManageDt/Query.antt =====
-- mdt_iot_oci.py: `query_digital_twin`. The console is what was printed on it, beside the world of the
-- services, and `rich` keeps what it is given.
pub mod Printing
mod Reports
mod Queried
pub mod Found
mod Rows
mod Tables
mod Instance
pub mod Complete
use oci_iot_samples.Base.{
  ℕ, String, ◌<>◌, Bool, true, false, Option, none, some, List, [], ◌∷◌, ◌++◌, length,
}
use oci_iot_samples.Base.Exec.{
  Exec, Exn, Outcome, ok, raised, pending, key_error, after, ◌>>=◌, ◌>>◌, pure, lift,
}
use oci_iot_samples.Base.Outcomes
use oci_iot_samples.Base.Json.{Value, Fields, get}
use oci_iot_samples.ManageDt.DataAccess.{DataAccess, Platform, get_data_access_parameters}
use oci_iot_samples.ManageDt.RecentData.{
  DataApi, get_or_null, get_recent_raw_data, get_recent_historized_data,
  get_recent_raw_command_data, get_recent_rejected_data,
}
use oci_iot_samples.ManageDt.Resources.{
  TwinClient, TwinConfig, get_digital_twin_instance_by_name, get_digital_twin_instance_content,
}

-- A cell is a text that was made of a value, or the value as it is.
pub data Cell : Type 0 where
  text : String → Cell
  value : Value → Cell

-- A panel of content, a table, a line, or the panel of a command: its title, the cells of its one row
-- and its lines of details.
pub data Printed (Content : Type 0) : Type 0 where
  content_panel : Option Content → Printed Content
  table : String → List String → List (List Cell) → Printed Content
  line : String → Printed Content
  command_panel : String → List Cell → List String → Printed Content

-- `text_of` is `str`, `count_text` is that of a number, and `dumps` is json.dumps.
pub record Texts : Type 0 where
  pub text_of : Value → String
  pub count_text : ℕ → String
  pub dumps : Value → String

-- record[key]
abbrev pub item_of : String → Fields → Outcome Value
item_of key fs = elim (get key fs) [ none ↦ raised (key_error key) | some v ↦ ok v ]

module _ (texts : Texts) where
  -- What a loop makes of the records, by the cells of each.
  unfoldable pub rows_of : (Fields → Outcome (List Cell)) → List Fields → Outcome (List (List Cell))
  rows_of cells [] = ok []
  rows_of cells (r ∷ rs) =
      Outcomes.◌>>=◌ (cells r) (λ row. Outcomes.◌>>=◌ (rows_of cells rs) (λ rows. ok (row ∷ rows)))

  unfoldable pub raw_cells : Fields → Outcome (List Cell)
  unfolding get
  raw_cells r = Outcomes.◌>>=◌ (item_of "id" r) (λ id.
      Outcomes.◌>>=◌ (item_of "time_received" r) (λ time.
        Outcomes.◌>>=◌ (item_of "endpoint" r) (λ endpoint. ok (
          text (texts.text_of id)
          ∷ value time
          ∷ value endpoint
          ∷ text (texts.dumps (get_or_null "payload" r))
          ∷ []))))

  unfoldable pub historized_cells : Fields → Outcome (List Cell)
  unfolding get
  historized_cells r = Outcomes.◌>>=◌ (item_of "id" r) (λ id.
      Outcomes.◌>>=◌ (item_of "time_observed" r) (λ time.
        Outcomes.◌>>=◌ (item_of "content_path" r) (λ path. Outcomes.◌>>=◌ (item_of "value" r) (λ v.
          ok (text (texts.text_of id) ∷ value time ∷ value path ∷ text (texts.text_of v) ∷ [])))))

  unfoldable pub rejected_cells : Fields → Outcome (List Cell)
  unfolding get
  rejected_cells r = Outcomes.◌>>=◌ (item_of "id" r) (λ id.
      Outcomes.◌>>=◌ (item_of "time_received" r) (λ time.
        Outcomes.◌>>=◌ (item_of "endpoint" r) (λ endpoint.
          Outcomes.◌>>=◌ (item_of "reason_code" r) (λ reason_code.
            Outcomes.◌>>=◌ (item_of "reason_message" r) (λ message. ok (
              text (texts.text_of id)
              ∷ value time
              ∷ value endpoint
              ∷ text (texts.text_of reason_code)
              ∷ value message
              ∷ []))))))

  abbrev shown_item : String → Fields → Cell
  shown_item key r = text (texts.text_of (get_or_null key r))

  abbrev command_cells : Value → Fields → List Cell
  command_cells id r =
      text (texts.text_of id)
      ∷ shown_item "request_endpoint" r
      ∷ shown_item "response_endpoint" r
      ∷ shown_item "time_created" r
      ∷ shown_item "time_updated" r
      ∷ shown_item "time_finished" r
      ∷ shown_item "delivery_status" r
      ∷ []

  abbrev detail_lines : Fields → List String
  detail_lines r =
      ("Request data: " <> texts.dumps (get_or_null "request_data" r))
      ∷ ("Response data: " <> texts.dumps (get_or_null "response_data" r))
      ∷ []

  abbrev titled : String → List Fields → String
  titled kind records =
      "Recent " <> (kind <> (" - " <> (texts.count_text (length records) <> " record(s)")))

  unfoldable pub command_panel_of : {Content : Type 0} → Fields → Outcome (Printed Content)
  unfolding get
  command_panel_of r = Outcomes.◌>>=◌ (item_of "id" r) (λ id. ok (
      command_panel ("Raw command data #" <> texts.text_of id) (command_cells id r)
        (detail_lines r)))

  module _ {W Content : Type 0} where
    -- A step of the services.
    abbrev pub on_services : {A : Type 0} → Exec W A → Exec (W × List (Printed Content)) A
    on_services m (w, t) = let r = m w in (r.0, (r.1, t))

    -- console.print
    abbrev pub print : Printed Content → Exec (W × List (Printed Content)) (Unit {0})
    print x (w, t) = (ok tt, (w, t ++ (x ∷ [])))

    unfoldable pub print_table :
        String
        → List String
        → (Fields → Outcome (List Cell))
        → Option (List Fields)
        → Exec (W × List (Printed Content)) (Unit {0})
    unfolding rows_of
    print_table kind columns cells none = pure tt
    print_table kind columns cells (some records) = do
      rows ← lift (rows_of cells records)
      print (table (titled kind records) columns rows)

    -- The loop over the commands.
    unfoldable pub print_panels : List Fields → Exec (W × List (Printed Content)) (Unit {0})
    unfolding command_panel_of
    print_panels [] = pure tt
    print_panels (r ∷ rs) = do panel ← lift (command_panel_of r); print panel; print_panels rs

    unfoldable pub print_commands :
        Option (List Fields) → Exec (W × List (Printed Content)) (Unit {0})
    unfolding print_panels
    print_commands none = pure tt
    print_commands (some records) = do
      print (line (titled "raw command data" records))
      print_panels records

abbrev pub raw_columns : List String
raw_columns = "Id" ∷ "Time received (UTC)" ∷ "Endpoint" ∷ "Payload" ∷ []

abbrev pub historized_columns : List String
historized_columns = "Id" ∷ "Time observed (UTC)" ∷ "Content path" ∷ "Value" ∷ []

abbrev pub rejected_columns : List String
rejected_columns = "Id" ∷ "Time received (UTC)" ∷ "Endpoint" ∷ "Reason code" ∷ "Reason message" ∷ []

-- `id_of` is an instance's id, and `now` the time.
module _ {W Content : Type 0} (texts : Texts) (client : TwinClient W Content)
    (platform : Platform W) (api : DataApi W) (iot_domain_id : String) (config : TwinConfig)
    (id_of : Content → String) (now last_minutes : ℕ) where
  unfoldable pub print_recent : String → DataAccess → Exec (W × List (Printed Content)) (Unit {0})
  unfolding print_table print_commands raw_cells historized_cells rejected_cells
  print_recent instance_id access = do
    raw_data ← on_services texts (get_recent_raw_data api access instance_id last_minutes)
    print_table texts "raw data" raw_columns (raw_cells texts) raw_data
    historized_data ←
        on_services texts (get_recent_historized_data api access instance_id last_minutes)
    print_table texts "historized data" historized_columns (historized_cells texts) historized_data
    raw_command_data ←
        on_services texts (get_recent_raw_command_data api access instance_id last_minutes)
    print_commands texts raw_command_data
    rejected_data ← on_services texts (get_recent_rejected_data api access instance_id last_minutes)
    print_table texts "rejected data" rejected_columns (rejected_cells texts) rejected_data

  abbrev pub recent_with : String → Option DataAccess → Exec (W × List (Printed Content)) (Unit {0})
  recent_with instance_id none = pure tt
  recent_with instance_id (some access) = print_recent instance_id access

  -- if "model_dtdl" in digital_twin_config
  abbrev pub print_content : String → Bool → Exec (W × List (Printed Content)) (Unit {0})
  print_content instance_id false = pure tt
  print_content instance_id true = do
    content ← on_services texts (get_digital_twin_instance_content client iot_domain_id instance_id)
    print texts (content_panel content)

  abbrev is_structured : Bool
  is_structured = elim config.model [ none ↦ false | some m ↦ true ]

  abbrev pub query_instance : Option Content → Exec (W × List (Printed Content)) (Unit {0})
  query_instance none = pure tt
  query_instance (some digital_twin_instance) = do
    print_content (id_of digital_twin_instance) is_structured
    data_access ← on_services texts (get_data_access_parameters platform iot_domain_id now)
    recent_with (id_of digital_twin_instance) data_access

  unfoldable pub query_digital_twin : Exec (W × List (Printed Content)) (Unit {0})
  unfolding print_recent
  query_digital_twin = do
    digital_twin_instance ←
        on_services texts
          (get_digital_twin_instance_by_name client iot_domain_id config.device_name)
    query_instance digital_twin_instance
