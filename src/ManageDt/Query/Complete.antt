-- ===== src/ManageDt/Query/Complete.antt =====
-- The whole of what `query_digital_twin` has printed when it returns.
use oci_iot_samples.Base.{
  ℕ, String, ◌≡◌, sym, subst, Bool, true, false, Option, none, some, List, [], ◌∷◌, ◌++◌,
}
use oci_iot_samples.Base.Exec.{ok}
use oci_iot_samples.ManageDt.DataAccess.{DataAccess, Platform, get_data_access_parameters}
use oci_iot_samples.ManageDt.RecentData.{DataApi}
use oci_iot_samples.ManageDt.Resources.{
  TwinClient, TwinConfig, ModelConfig, get_digital_twin_instance_by_name,
}
use oci_iot_samples.ManageDt.Query.Printing.{Gave, Says-next, Says-weaken, services-Says}
use oci_iot_samples.ManageDt.Query.Queried.{
  Queried, Detailed, AsMany, raw-Queried, historized-Queried, commands-Queried, rejected-Queried,
}
use oci_iot_samples.ManageDt.Query.Found.{
  IsContentOf, content-IsContentOf, IsInstanceOf, instance-IsInstanceOf,
}
use oci_iot_samples.ManageDt.Query.Rows.{IsRawRow, IsHistorizedRow, IsRejectedRow}
use oci_iot_samples.ManageDt.Query.Tables.{
  IsTableOf, IsPanelsOf, raw_table, historized_table, rejected_table, command_panels,
}
use oci_iot_samples.Base.Json.{Fields}
use oci_iot_samples.ManageDt.Query.Instance.{IsContent, IsRecentWith, IsReport, query_instance-Says}
use oci_iot_samples.ManageDt.Query.Reports.{IsRecent}
use oci_iot_samples.ManageDt.Query.{
  Printed, content_panel, Texts, on_services, query_instance, query_digital_twin,
}

module _ {W Content : Type 0} (texts : Texts) (client : TwinClient W Content)
    (platform : Platform W) (api : DataApi W) (iot_domain_id : String) (config : TwinConfig)
    (id_of : Content → String) (now last_minutes : ℕ) where
  -- The requests of recent data and what is printed of them, one after the other.
  abbrev pub IsRecentOf : String → DataAccess → List (Printed Content) → Type 0
  IsRecentOf id access u =
      (raw_rows : Option (List Fields)) × (raw : Option (List Fields)) × (historized : Option
        (List Fields))
      × (command_rows : Option (List Fields)) × (commands : Option (List Fields))
      × (rejected : Option (List Fields)) × (u1 : List (Printed Content)) × (u2 : List
          (Printed Content))
      × (u3 : List (Printed Content)) × (u4 : List (Printed Content)) × Queried api access id
          last_minutes "rawData" "time_received" "id" raw_rows
      × Detailed api access id last_minutes raw_rows raw
      × IsTableOf texts "raw data" ("Id" ∷ "Time received (UTC)" ∷ "Endpoint" ∷ "Payload" ∷ [])
          (IsRawRow texts) raw u1
      × Queried api access id last_minutes "historizedData" "time_observed" "id" historized
      × IsTableOf texts "historized data"
          ("Id" ∷ "Time observed (UTC)" ∷ "Content path" ∷ "Value" ∷ []) (IsHistorizedRow texts)
          historized u2
      × Queried api access id last_minutes "rawCommandData" "time_created" "time_created"
          command_rows
      × AsMany api access id last_minutes command_rows commands
      × IsPanelsOf texts commands u3
      × Queried api access id last_minutes "rejectedData" "time_received" "id" rejected
      × IsTableOf texts "rejected data"
          ("Id" ∷ "Time received (UTC)" ∷ "Endpoint" ∷ "Reason code" ∷ "Reason message" ∷ [])
          (IsRejectedRow texts) rejected u4
      × (u ≡ u1 ++ (u2 ++ (u3 ++ u4)))

  -- A panel of the content for a twin with a model.
  abbrev IsContentPanel : String → Option ModelConfig → List (Printed Content) → Type 0
  IsContentPanel id none u = u ≡ []
  IsContentPanel id (some m) u =
      (content : Option Content) × IsContentOf client iot_domain_id id content
      × (u ≡ content_panel content ∷ [])

  abbrev IsRecentOfGiven : String → Option DataAccess → List (Printed Content) → Type 0
  IsRecentOfGiven id none u = u ≡ []
  IsRecentOfGiven id (some access) u = IsRecentOf id access u

  abbrev pub IsReportOf : Option Content → List (Printed Content) → Type 0
  IsReportOf none u = u ≡ []
  IsReportOf (some digital_twin_instance) u =
      (access : Option DataAccess) × (c : List (Printed Content)) × (d : List (Printed Content))
      × Gave (get_data_access_parameters platform iot_domain_id now) access
      × IsContentPanel (id_of digital_twin_instance) config.model c
      × IsRecentOfGiven (id_of digital_twin_instance) access d
      × (u ≡ c ++ d)

  recent-IsRecentOf :
      (id : String) (access : DataAccess) (u : List (Printed Content))
      → IsRecent texts client platform api iot_domain_id config id_of now last_minutes id access u
      → IsRecentOf id access u
  recent-IsRecentOf id access u
        (raw, historized, commands, rejected, u1, u2, u3, u4, g1, g2, g3, g4, t1, t2, t3, t4, e) =
      let (raw_rows, q1, detailed) = raw-Queried api access id last_minutes raw g1 in
      let (command_rows, q3, as_many) = commands-Queried api access id last_minutes commands g3 in
      (
        raw_rows,
        raw,
        historized,
        command_rows,
        commands,
        rejected,
        u1,
        u2,
        u3,
        u4,
        q1,
        detailed,
        raw_table texts raw u1 t1,
        historized-Queried api access id last_minutes historized g2,
        historized_table texts historized u2 t2,
        q3,
        as_many,
        command_panels texts commands u3 t3,
        rejected-Queried api access id last_minutes rejected g4,
        rejected_table texts rejected u4 t4,
        e,
      )

  content-IsContentPanel :
      (id : String) (model : Option ModelConfig) (u : List (Printed Content))
      → IsContent texts client platform api iot_domain_id config id_of now last_minutes id
          (elim model as (λ _. Bool) [ none ↦ false | some m ↦ true ])
          u
      → IsContentPanel id model u
  content-IsContentPanel id none u e = e
  content-IsContentPanel id (some m) u (content, gave, e) =
      (content, content-IsContentOf client iot_domain_id id content gave, e)

  given-IsRecentOfGiven :
      (id : String) (access : Option DataAccess) (u : List (Printed Content))
      → IsRecentWith texts client platform api iot_domain_id config id_of now last_minutes id access
          u
      → IsRecentOfGiven id access u
  given-IsRecentOfGiven id none u e = e
  given-IsRecentOfGiven id (some access) u r = recent-IsRecentOf id access u r

  report-IsReportOf :
      (found : Option Content) (u : List (Printed Content))
      → IsReport texts client platform api iot_domain_id config id_of now last_minutes found u
      → IsReportOf found u
  report-IsReportOf none u e = e
  report-IsReportOf (some digital_twin_instance) u (access, c, d, gave, content, recent, e) = (
    access,
    c,
    d,
    gave,
    content-IsContentPanel (id_of digital_twin_instance) config.model c content,
    given-IsRecentOfGiven (id_of digital_twin_instance) access d recent,
    e,
  )

  -- When the query of a twin returns, started with nothing printed: the look-up by the twin's device name
  -- gave an instance, which was got by the id of the only one that is listed under that name; or it gave none,
  -- and then not just one was listed, or getting it failed (by a ServiceError or a status other than 200).
  -- For none nothing is printed. For an instance the console has, in this order: if the twin has a model, a panel of
  -- the instance's content, or of None where getting it failed; then, where there is access to the data API, what comes
  -- of four requests for the records of the instance from the last minutes on, sent to the endpoints rawData, historizedData,
  -- rawCommandData and rejectedData: a table of raw data, a table of historized data, a line with a panel for each command,
  -- and a table of rejected data. Each is left out where the response's status is not 200, and has a row, or a
  -- panel, for each record of the response: of that record for the second and the last, of that record with some
  -- payload for the first, and for the third of one record for each.
  pub query_digital_twin-reports :
      (w w' : W) (printed : List (Printed Content))
      → query_digital_twin texts client platform api iot_domain_id config id_of now last_minutes
          (w, [])
        ≡ (ok tt, (w', printed))
      → (found : Option Content) × IsInstanceOf client iot_domain_id config.device_name found
        × IsReportOf found printed
  unfolding query_digital_twin
  query_digital_twin-reports w w' printed h =
      let whole =
        Says-next
          (on_services texts
            (get_digital_twin_instance_by_name client iot_domain_id config.device_name))
          (query_instance texts client platform api iot_domain_id config id_of now last_minutes) _
          (λ _ u.
            (found : Option Content) × Gave
              (get_digital_twin_instance_by_name client iot_domain_id config.device_name) found
            × IsReport texts client platform api iot_domain_id config id_of now last_minutes found
                u)
          (services-Says texts _)
          (λ found gave.
            Says-weaken
              (query_instance texts client platform api iot_domain_id config id_of now last_minutes
                found)
              _ _
              (query_instance-Says texts client platform api iot_domain_id config id_of now
                last_minutes found)
              (λ _ u is_report. (found, gave, is_report))) in
      let (u, e, (found, gave, is_report)) = whole w w' [] printed tt h in
      (
        found,
        instance-IsInstanceOf client iot_domain_id config.device_name found gave,
        report-IsReportOf found printed (
            subst
              (IsReport texts client platform api iot_domain_id config id_of now last_minutes found)
              (sym e) is_report),
      )
