-- ===== src/ArchiveDomain/Executor/Values.antt =====
-- executor.py: the values of a row, as they are written.
use oci_iot_samples.Base.{ℕ, String, replace, List, [], ◌∷◌}
use oci_iot_samples.Base.Exec.{Exec, ◌>>=◌, pure}
use oci_iot_samples.Base.Json.{Value, ℤ, str, arr, obj, Fields, field, end, set, Items, cons, nil}
use oci_iot_samples.Base.Time.{Datetime}

-- What the database gives. A LOB is read by its handle, a `plain` value is one of JSON already, and
-- `decimal m k` is m / 10 ^ k.
mutual
  pub data DbValue : Type 0 where
    lob : ℕ → DbValue
    bytes : List ℕ → DbValue
    timestamp : Datetime → DbValue
    date : ℕ → DbValue
    decimal : ℤ → ℕ → DbValue
    dict : DbFields → DbValue
    list : DbItems → DbValue
    plain : Value → DbValue

  pub data DbFields : Type 0 where
    db_field : String → DbValue → DbFields → DbFields
    db_end : DbFields

  pub data DbItems : Type 0 where
    db_cons : DbValue → DbItems → DbItems
    db_nil : DbItems

-- What `read` gives of a LOB.
pub data LobData : Type 0 where
  text_data : String → LobData
  bytes_data : List ℕ → LobData

-- Python's texts of values: base64, astimezone(timezone.utc).isoformat() of a datetime, isoformat() of
-- a date, and `str` of a Decimal. `dumps` writes JSON with sorted keys. Times in a query have
-- their microseconds.
pub record Formats : Type 0 where
  pub b64encode : List ℕ → String
  pub utc_isoformat : Datetime → String
  pub utc_micros : Datetime → String
  pub date_isoformat : ℕ → String
  pub decimal_text : ℤ → ℕ → String
  pub dumps : Fields → String
  pub quote : String → String → String

module _ {D : Type 0} (formats : Formats) (read : ℕ → Exec D LobData) where
  abbrev encoded : List ℕ → Value
  encoded b = obj (field "encoding" (str "base64") (field "data" (str (formats.b64encode b)) end))

  abbrev lob_value : LobData → Value
  lob_value (text_data s) = str s
  lob_value (bytes_data b) = encoded b

  -- A dict keeps its keys, each once.
  unfoldable mutual
    unfolding replace

    pub normalize_value : DbValue → Exec D Value
    normalize_value (lob handle) = do content ← read handle; pure (lob_value content)
    normalize_value (bytes b) = pure (encoded b)
    normalize_value (timestamp t) = pure (str (replace "+00:00" "Z" (formats.utc_isoformat t)))
    normalize_value (date d) = pure (str (formats.date_isoformat d))
    normalize_value (decimal m k) = pure (str (formats.decimal_text m k))
    normalize_value (dict fields) = do fs ← normalize_fields fields; pure (obj fs)
    normalize_value (list items) = do vs ← normalize_items items; pure (arr vs)
    normalize_value (plain v) = pure v

    pub normalize_fields : DbFields → Exec D Fields
    normalize_fields db_end = pure end
    normalize_fields (db_field k v fields) = do
      u ← normalize_value v
      fs ← normalize_fields fields
      pure (field k u fs)

    pub normalize_items : DbItems → Exec D Items
    normalize_items db_nil = pure nil
    normalize_items (db_cons v items) = do
      u ← normalize_value v
      vs ← normalize_items items
      pure (cons u vs)

  -- {column: _normalize_value(value) for column, value in zip(columns, row)}, added to those of the columns before
  unfoldable pub record_from : Fields → List String → List DbValue → Exec D Fields
  unfolding normalize_value set
  record_from written [] row = pure written
  record_from written (column ∷ columns) [] = pure written
  record_from written (column ∷ columns) (v ∷ row) = do
    u ← normalize_value v
    record_from (set column u written) columns row
