-- ===== src/FileAgent/Models.antt =====
-- models.py: the messages of a file upload transaction, and their validation. A model of pydantic
-- is a record; its `model_validate` gives `none` where pydantic raises ValidationError. How pydantic
-- reads an int in a JSON value is the parameter `lax_int`.
pub mod Laws
use oci_iot_samples.Base.{
  ℕ, suc, String, Bool, true, false, ◌&&◌, ◌||◌, Option, none, some, List, [], ◌∷◌, ltb, leb, eqb,
  if◌then◌else◌, ◌==◌, text_length, all_chars, contains, Char, code,
}
use oci_iot_samples.Base.Exec.{Outcome, ok, raised, value_error}
use oci_iot_samples.Base.Json.{ℤ, pos, Value, null, num, str, obj, Fields, end, field}
use oci_iot_samples.Base.Json.{get, as_text, as_fields}
use oci_iot_samples.Base.Options.{◌>>=◌, ◌>>◌, guard}

pub data Operation : Type 0 where
  prepare_upload complete_upload : Operation

unfoldable pub operation_text : Operation → String
operation_text prepare_upload = "prepare-upload"
operation_text complete_upload = "complete-upload"

abbrev pub transaction_id_max_length : ℕ
transaction_id_max_length = 128

-- [A-Za-z0-9]
is_alphanumeric : ℕ → Bool
is_alphanumeric c = leb b'A' c && leb c b'Z' || leb b'a' c && leb c b'z' || leb b'0' c && leb c b'9'

-- [A-Za-z0-9._-]
pub is_id_char : ℕ → Bool
unfolding is_alphanumeric
is_id_char c = is_alphanumeric c || eqb c b'.' || eqb c b'_' || eqb c b'-'

-- TRANSACTION_ID_PATTERN.fullmatch(value)
matches_transaction_id_pattern : String → Bool
unfolding is_alphanumeric is_id_char
matches_transaction_id_pattern String.[] = false
matches_transaction_id_pattern (String.◌∷◌ c s) = is_alphanumeric (code c) && all_chars is_id_char s

abbrev pub invalid_transaction_id : String
invalid_transaction_id =
    "Transaction id must be 1-128 characters of A-Z, a-z, 0-9, '.', '_', or '-', and must start with a letter or digit"

unfoldable pub validate_transaction_id : String → Outcome String
unfolding matches_transaction_id_pattern text_length all_chars is_id_char
validate_transaction_id value =
    if ltb (text_length value) 1
      || ltb transaction_id_max_length (text_length value)
      || (if matches_transaction_id_pattern value then false else true)
    then raised (value_error invalid_transaction_id)
    else ok value

-- extra="forbid"
only_keys : List String → Fields → Bool
unfolding contains
only_keys keys end = true
only_keys keys (field k v fs) = contains k keys && only_keys keys fs

required_text : String → Fields → Option String
unfolding get as_text
required_text k fs = do v ← get k fs; as_text v

-- A field with a default: it may be left out, and must fit its type where it is given.
text_or : String → String → Fields → Option String
unfolding get as_text
text_or k default fs = elim (get k fs) [ none ↦ some default | some v ↦ as_text v ]

fields_or_empty : String → Fields → Option Fields
unfolding get as_fields
fields_or_empty k fs = elim (get k fs) [ none ↦ some end | some v ↦ as_fields v ]

-- Optional[str] = None
optional_value : Value → Option (Option String)
optional_value null = some none
optional_value (str s) = some (some s)
optional_value _ = none

optional_text : String → Fields → Option (Option String)
unfolding get optional_value
optional_text k fs = elim (get k fs) [ none ↦ some none | some v ↦ optional_value v ]

pub record ParRequestData : Type 0 where
  pub ttl : ℕ

module _ (lax_int : Value → Option ℤ) where
  -- PositiveInt
  positive_int : Value → Option ℕ
  positive_int v = elim (lax_int v) [ some (pos (suc n)) ↦ some (suc n) | _ ↦ none ]

  ttl_or_default : Option Value → Option ℕ
  unfolding positive_int
  ttl_or_default none = some 60
  ttl_or_default (some v) = positive_int v

  unfoldable pub par_request_data : Fields → Option ParRequestData
  unfolding only_keys ttl_or_default get
  par_request_data fs = do
    guard (only_keys ("ttl" ∷ []) fs)
    ttl ← ttl_or_default (get "ttl" fs)
    some (record { ttl = ttl })

pub record UploadRequestData : Type 0 where
  pub command : Option String
  pub parameters : Fields

unfoldable pub upload_request_data : Fields → Option UploadRequestData
unfolding only_keys optional_text fields_or_empty
upload_request_data fs = do
  guard (only_keys ("command" ∷ "parameters" ∷ []) fs)
  command ← optional_text "command" fs
  parameters ← fields_or_empty "parameters" fs
  some (record { command = command; parameters = parameters })

-- The field `data`.
pub record ProtocolRequest : Type 0 where
  pub op : Operation
  pub id : String
  pub request_data : Fields

operation : String → Option Operation
operation s =
    if s == "prepare-upload"
    then some prepare_upload
    else if s == "complete-upload"
    then some complete_upload
    else none

-- The limits of `Field`, and then the validator, whose ValueError is a ValidationError outside.
request_id : String → Option String
unfolding validate_transaction_id
request_id value = elim (validate_transaction_id value) [ ok v ↦ some v | _ ↦ none ]

unfoldable pub protocol_request : Value → Option ProtocolRequest
unfolding only_keys required_text operation request_id fields_or_empty as_fields
protocol_request v = do
  fs ← as_fields v
  guard (only_keys ("op" ∷ "id" ∷ "data" ∷ []) fs)
  op_name ← required_text "op" fs
  op ← operation op_name
  id_value ← required_text "id" fs
  id ← request_id id_value
  payload ← fields_or_empty "data" fs
  some (record { op = op; id = id; request_data = payload })

pub record ProtocolResponse : Type 0 where
  pub op : Operation
  pub id : String
  pub response_data : Fields
  pub status : ℕ
  pub message : String

-- ProtocolResponse.to_payload
unfoldable pub to_payload : ProtocolResponse → Fields
unfolding operation_text
to_payload r = field "op" (str (operation_text r.op)) (
    field "id" (str r.id) (
      field "data" (obj r.response_data)
        (field "code" (num (pos r.status)) (field "message" (str r.message) end))))

pub record InboundMessage : Type 0 where
  pub message_id : String
  pub digital_twin_instance_id : String
  pub digital_twin_display_name : String
  pub time_observed : String
  pub content_path : String
  pub request : ProtocolRequest

unfoldable pub inbound_message : Value → Option InboundMessage
unfolding text_or required_text protocol_request get as_fields
inbound_message v = do
  fs ← as_fields v
  message_id ← text_or "message_id" "" fs
  instance_id ← required_text "digitalTwinInstanceId" fs
  display_name ← text_or "digital_twin_display_name" "unknown" fs
  time_observed ← required_text "timeObserved" fs
  content_path ← required_text "contentPath" fs
  value ← get "value" fs
  request ← protocol_request value
  some (record {
    message_id = message_id;
    digital_twin_instance_id = instance_id;
    digital_twin_display_name = display_name;
    time_observed = time_observed;
    content_path = content_path;
    request = request;
  })
