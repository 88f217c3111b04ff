-- ===== src/ManageDt/Query/Tables.antt =====
-- The tables and the panels of lists of records, by the relation of a record to what is printed.
use oci_iot_samples.Base.{String, ◌<>◌, ◌≡◌, Option, none, some, List, [], ◌∷◌, length}
use oci_iot_samples.Base.Exec.{Outcome, ok}
use oci_iot_samples.Base.Json.{Fields}
use oci_iot_samples.ManageDt.Query.Reports.{IsTable, IsCommands}
use oci_iot_samples.ManageDt.Query.{
  Cell, Printed, table, line, Texts, raw_cells, historized_cells, rejected_cells, command_panel_of,
}
use oci_iot_samples.ManageDt.Query.Rows.{
  Related, made-Related, IsRawRow, IsHistorizedRow, IsRejectedRow, IsPanel, raw_cells-IsRawRow,
  historized_cells-IsHistorizedRow, rejected_cells-IsRejectedRow, command_panel_of-IsPanel,
}

module _ (texts : Texts) where
  abbrev pub title : String → List Fields → String
  title kind records =
      "Recent " <> (kind <> (" - " <> (texts.count_text (length records) <> " record(s)")))

  module _ {Content : Type 0} where
    -- One table with the rows, in order, or nothing where there is no list of records.
    abbrev pub IsTableOf :
        String
        → List String
        → (Fields → List Cell → Type 0)
        → Option (List Fields)
        → List (Printed Content)
        → Type 0
    IsTableOf kind columns IsRow none u = u ≡ []
    IsTableOf kind columns IsRow (some records) u =
        (rows : List (List Cell)) × Related IsRow records rows
        × (u ≡ table (title kind records) columns rows ∷ [])

    abbrev pub IsPanelsOf : Option (List Fields) → List (Printed Content) → Type 0
    IsPanelsOf none u = u ≡ []
    IsPanelsOf (some records) u =
        (panels : List (Printed Content)) × Related (IsPanel texts) records panels
        × (u ≡ line (title "raw command data" records) ∷ panels)

    table-of :
        (kind : String) (columns : List String) (cells : Fields → Outcome (List Cell))
        (IsRow : Fields → List Cell → Type 0) (records : Option (List Fields))
        (u : List (Printed Content))
        → ((r : Fields) (row : List Cell) → cells r ≡ ok row → IsRow r row)
        → IsTable texts kind columns cells records u
        → IsTableOf kind columns IsRow records u
    table-of kind columns cells IsRow none u h t = t
    table-of kind columns cells IsRow (some records) u h (rows, made, e) =
        (rows, made-Related cells IsRow records rows h made, e)

    pub raw_table :
        (records : Option (List Fields)) (u : List (Printed Content))
        → IsTable texts "raw data"
            ("Id" ∷ "Time received (UTC)" ∷ "Endpoint" ∷ "Payload" ∷ [])
            (raw_cells texts)
            records
            u
        → IsTableOf "raw data"
            ("Id" ∷ "Time received (UTC)" ∷ "Endpoint" ∷ "Payload" ∷ [])
            (IsRawRow texts)
            records
            u
    raw_table records u =
        table-of "raw data" _ (raw_cells texts) (IsRawRow texts) records u
          (raw_cells-IsRawRow texts)

    pub historized_table :
        (records : Option (List Fields)) (u : List (Printed Content))
        → IsTable texts "historized data"
            ("Id" ∷ "Time observed (UTC)" ∷ "Content path" ∷ "Value" ∷ [])
            (historized_cells texts)
            records
            u
        → IsTableOf "historized data"
            ("Id" ∷ "Time observed (UTC)" ∷ "Content path" ∷ "Value" ∷ [])
            (IsHistorizedRow texts)
            records
            u
    historized_table records u =
        table-of "historized data" _ (historized_cells texts) (IsHistorizedRow texts) records u
          (historized_cells-IsHistorizedRow texts)

    pub rejected_table :
        (records : Option (List Fields)) (u : List (Printed Content))
        → IsTable texts "rejected data"
            ("Id" ∷ "Time received (UTC)" ∷ "Endpoint" ∷ "Reason code" ∷ "Reason message" ∷ [])
            (rejected_cells texts)
            records
            u
        → IsTableOf "rejected data"
            ("Id" ∷ "Time received (UTC)" ∷ "Endpoint" ∷ "Reason code" ∷ "Reason message" ∷ [])
            (IsRejectedRow texts)
            records
            u
    rejected_table records u =
        table-of "rejected data" _ (rejected_cells texts) (IsRejectedRow texts) records u
          (rejected_cells-IsRejectedRow texts)

    pub command_panels :
        (records : Option (List Fields)) (u : List (Printed Content))
        → IsCommands texts records u
        → IsPanelsOf records u
    command_panels none u h = h
    command_panels (some records) u (panels, made, e) = (
      panels,
      made-Related (command_panel_of texts) (IsPanel texts) records panels
          (command_panel_of-IsPanel texts) made,
      e,
    )
