-- ===== src/ManageDt/Query/Reports.antt =====
-- What `query_digital_twin` has printed when it returns.
use oci_iot_samples.Base.{
  ℕ, String, ◌≡◌, refl, sym, ap, subst, Option, none, some, List, [], ◌∷◌, ◌++◌,
}
use oci_iot_samples.Base.Exec.{Outcome, ok, ◌>>◌, pure, lift}
use oci_iot_samples.Base.Outcomes
use oci_iot_samples.Base.Json.{Fields}
use oci_iot_samples.ManageDt.DataAccess.{DataAccess, Platform}
use oci_iot_samples.ManageDt.RecentData.{
  DataApi, get_recent_raw_data, get_recent_historized_data, get_recent_raw_command_data,
  get_recent_rejected_data,
}
use oci_iot_samples.ManageDt.Resources.{TwinClient, TwinConfig}
use oci_iot_samples.ManageDt.Query.Printing.{
  Gave, Says, Says-bind, Says-next, Says-weaken, services-Says, print-Says, pure-Says, lift-Says,
}
use oci_iot_samples.ManageDt.Query.{
  Cell, Printed, table, line, Texts, rows_of, raw_cells, historized_cells, rejected_cells, titled,
  on_services, print, print_table, command_panel_of, print_panels, print_commands, raw_columns,
  historized_columns, rejected_columns, print_recent,
}

-- Each of the records with what was made of it, in order.
abbrev pub AllMade : {A : Type 0} → (Fields → Outcome A) → List Fields → List A → Type 0
AllMade make [] [] = Unit
AllMade make (r ∷ rs) (x ∷ xs) = (make r ≡ ok x) × AllMade make rs xs
AllMade make _ _ = ⊥

made-AllMade :
    (texts : Texts) (cells : Fields → Outcome (List Cell)) (rs : List Fields)
    (rows : List (List Cell))
    → rows_of texts cells rs ≡ ok rows
    → AllMade cells rs rows
unfolding rows_of
made-AllMade texts cells [] rows h = let e : [] ≡ rows = cc (h) in subst (AllMade cells []) e tt
made-AllMade texts cells (r ∷ rs) rows h =
    let (row, e, h1) =
      Outcomes.>>=-eq-ok (cells r)
        (λ row. Outcomes.◌>>=◌ (rows_of texts cells rs) (λ rows. ok (row ∷ rows))) h in
    let (rest, e1, h2) = Outcomes.>>=-eq-ok (rows_of texts cells rs) (λ rows. ok (row ∷ rows)) h1 in
    let made : (row ∷ rest) ≡ rows = cc (h2) in
    subst (AllMade cells (r ∷ rs)) made (e, made-AllMade texts cells rs rest e1)

module _ {Content : Type 0} (texts : Texts) where
  -- What is printed for the records that a query gave: nothing for none, and else one table, whose title has their
  -- number, with a row for each of them.
  abbrev pub IsTable :
      String
      → List String
      → (Fields → Outcome (List Cell))
      → Option (List Fields)
      → List (Printed Content)
      → Type 0
  IsTable kind columns cells none u = u ≡ []
  IsTable kind columns cells (some records) u =
      (rows : List (List Cell)) × AllMade cells records rows
      × (u ≡ table (titled texts kind records) columns rows ∷ [])

  -- The same for commands, with a panel for each.
  abbrev pub IsCommands : Option (List Fields) → List (Printed Content) → Type 0
  IsCommands none u = u ≡ []
  IsCommands (some records) u =
      (panels : List (Printed Content)) × AllMade (command_panel_of texts) records panels
      × (u ≡ line (titled texts "raw command data" records) ∷ panels)

module _ {W Content : Type 0} (texts : Texts) where
  print_table-Says :
      (kind : String) (columns : List String) (cells : Fields → Outcome (List Cell))
      (records : Option (List Fields))
      → Says {W = W} {Content = Content}
          (print_table texts kind columns cells records)
          (λ _ u. IsTable texts kind columns cells records u)
  unfolding print_table
  print_table-Says kind columns cells none = pure-Says tt
  print_table-Says kind columns cells (some records) =
      Says-next (lift (rows_of texts cells records))
        (λ rows. print texts (table (titled texts kind records) columns rows))
        (λ rows. rows_of texts cells records ≡ ok rows) _ (lift-Says (rows_of texts cells records))
        (λ rows made.
          Says-weaken (print texts (table (titled texts kind records) columns rows))
            (λ _ u. u ≡ table (titled texts kind records) columns rows ∷ []) _
            (print-Says texts (table (titled texts kind records) columns rows))
            (λ _ u e. (rows, made-AllMade texts cells records rows made, e)))

  print_panels-Says :
      (records : List Fields)
      → Says {W = W} {Content = Content}
          (print_panels texts records)
          (λ _ u. AllMade (command_panel_of texts) records u)
  unfolding print_panels
  print_panels-Says [] =
      Says-weaken {W = W} (pure tt) (λ _ u. u ≡ []) _ (pure-Says tt)
        (λ _ u e. subst (AllMade (command_panel_of texts) []) (sym e) tt)
  print_panels-Says (r ∷ rs) =
      Says-next (lift (command_panel_of texts r))
        (λ panel. print texts panel >> print_panels texts rs)
        (λ panel. command_panel_of texts r ≡ ok panel) _ (lift-Says (command_panel_of texts r))
        (λ panel made.
          Says-bind (print texts panel) (λ _. print_panels texts rs) (λ _ u. u ≡ panel ∷ []) _
            (print-Says texts panel)
            (λ _ u e.
              Says-weaken (print_panels texts rs) (λ _ v. AllMade (command_panel_of texts) rs v) _
                (print_panels-Says rs)
                (λ _ v rest.
                  subst (λ u. AllMade (command_panel_of texts) (r ∷ rs) (u ++ v)) (sym e)
                    (made, rest))))

  print_commands-Says :
      (records : Option (List Fields))
      → Says {W = W} {Content = Content}
          (print_commands texts records)
          (λ _ u. IsCommands texts records u)
  unfolding print_commands
  print_commands-Says none = pure-Says tt
  print_commands-Says (some records) =
      Says-bind (print texts (line (titled texts "raw command data" records)))
        (λ _. print_panels texts records)
        (λ _ u. u ≡ line (titled texts "raw command data" records) ∷ []) _
        (print-Says texts (line (titled texts "raw command data" records)))
        (λ _ u e.
          Says-weaken (print_panels texts records)
            (λ _ v. AllMade (command_panel_of texts) records v) _ (print_panels-Says records)
            (λ _ v made. (v, made, ap (λ x. x ++ v) e)))

module _ {W Content : Type 0} (texts : Texts) (client : TwinClient W Content)
    (platform : Platform W) (api : DataApi W) (iot_domain_id : String) (config : TwinConfig)
    (id_of : Content → String) (now last_minutes : ℕ) where
  -- The tables and the panels for what the four queries gave.
  abbrev pub IsRecent : String → DataAccess → List (Printed Content) → Type 0
  IsRecent id access u =
      (raw : Option (List Fields)) × (historized : Option (List Fields)) × (commands : Option
        (List Fields))
      × (rejected : Option (List Fields)) × (u1 : List (Printed Content)) × (u2 : List
          (Printed Content))
      × (u3 : List (Printed Content)) × (u4 : List (Printed Content)) × Gave
          (get_recent_raw_data api access id last_minutes) raw
      × Gave (get_recent_historized_data api access id last_minutes) historized
      × Gave (get_recent_raw_command_data api access id last_minutes) commands
      × Gave (get_recent_rejected_data api access id last_minutes) rejected
      × IsTable texts "raw data" raw_columns (raw_cells texts) raw u1
      × IsTable texts "historized data" historized_columns (historized_cells texts) historized u2
      × IsCommands texts commands u3
      × IsTable texts "rejected data" rejected_columns (rejected_cells texts) rejected u4
      × (u ≡ u1 ++ (u2 ++ (u3 ++ u4)))

  pub print_recent-Says :
      (id : String) (access : DataAccess)
      → Says
          (print_recent texts client platform api iot_domain_id config id_of now last_minutes id
            access)
          (λ _ u. IsRecent id access u)
  unfolding print_recent
  print_recent-Says id access =
      Says-next (on_services texts (get_recent_raw_data api access id last_minutes)) _ _ _
        (services-Says texts _)
        (λ raw gave1.
          Says-bind (print_table texts "raw data" raw_columns (raw_cells texts) raw) _ _ _
            (print_table-Says texts _ _ _ raw)
            (λ _ u1 t1.
              Says-next (on_services texts (get_recent_historized_data api access id last_minutes))
                _ _ _ (services-Says texts _)
                (λ historized gave2.
                  Says-bind
                    (print_table texts "historized data" historized_columns (historized_cells texts)
                      historized)
                    _ _ _ (print_table-Says texts _ _ _ historized)
                    (λ _ u2 t2.
                      Says-next
                        (on_services texts (get_recent_raw_command_data api access id last_minutes))
                        _ _ _ (services-Says texts _)
                        (λ commands gave3.
                          Says-bind (print_commands texts commands) _ _ _
                            (print_commands-Says texts commands)
                            (λ _ u3 t3.
                              Says-next
                                (on_services texts
                                  (get_recent_rejected_data api access id last_minutes))
                                _ _ _ (services-Says texts _)
                                (λ rejected gave4.
                                  Says-weaken
                                    (print_table texts "rejected data" rejected_columns
                                      (rejected_cells texts) rejected)
                                    _ _ (print_table-Says texts _ _ _ rejected)
                                    (λ _ u4 t4. (
                                      raw, historized, commands, rejected, u1, u2, u3, u4, gave1,
                                      gave2, gave3, gave4, t1, t2, t3, t4, refl,
                                    )))))))))
