-- ===== src/FileAgent/DeviceDemo/Demo.antt =====
-- device_demo.py: `run_demo`, from the connection to the cleanup.
use oci_iot_samples.Base.{
  ℕ, zero, String, ◌<>◌, Bool, true, false, ◌||◌, not, Option, none, some, truthy, ends_with,
  starts_with, ltb, leb, if◌then◌else◌,
}
use oci_iot_samples.Base.Exec.{
  Exec, Exn, Outcome, ok, raised, pending, runtime_error, timeout_error, file_not_found,
  other_error, ◌>>=◌, ◌>>◌, pure, raise, lift, try_finally, run_cleanup,
}
use oci_iot_samples.Base.Json.{
  pos, Value, null, bool, num, real, str, arr, obj, nil, Fields, end, get, as_fields, as_text,
}
use oci_iot_samples.FileAgent.DeviceDemo.{
  Mailbox, prepare_upload_payload, complete_upload_payload, wait_for_response,
  wait_for_terminal_response, require_response_code,
}

-- A URL that urlsplit has taken apart.
pub record SplitUrl : Type 0 where
  pub path : String
  pub hostname : Option String
  pub with_path : String → String

-- urllib and pathlib
pub record Urls : Type 0 where
  pub urlsplit : String → Outcome SplitUrl
  pub quote : String → String
  pub file_name : String → String

-- The MQTT client, files, HTTP and the clock. `put_file` sends a file's bytes and gives the status.
pub record Device (W : Type 0) : Type 0 where
  pub mailbox : W → Mailbox
  pub with_mailbox : Mailbox → W → W
  pub temporary_directory : Exec W String
  pub cleanup : String → Exec W (Unit {0})
  pub create_default_test_file : String → Exec W String
  pub is_file : String → Exec W Bool
  pub connect : String → Exec W (Unit {0})
  pub loop_start : Exec W (Unit {0})
  pub connected : ℕ → Exec W Bool
  pub subscribe : String → Exec W (Unit {0})
  pub subscribed : ℕ → Exec W Bool
  pub publish : String → Fields → Exec W (Unit {0})
  pub put_file : String → String → ℕ → Exec W ℕ
  pub disconnect : Exec W (Unit {0})
  pub loop_stop : Exec W (Unit {0})

pub record DeviceDemoConfig : Type 0 where
  pub endpoint : String
  pub transaction_id : String
  pub command : String
  pub file_path : Option String
  pub ttl_minutes : ℕ
  pub timeout_seconds : ℕ
  pub command_topic : String
  pub response_topic : String

-- not value
is_falsy : Value → Bool
is_falsy null = true
is_falsy (bool b) = not b
is_falsy (num (pos zero)) = true
is_falsy (real (pos zero) k) = true
is_falsy (str s) = not (truthy s)
is_falsy (arr nil) = true
is_falsy (obj end) = true
is_falsy _ = false

-- needle in text
has_part : String → String → Bool
has_part needle String.[] = not (truthy needle)
has_part needle (String.◌∷◌ c s) =
    let rest = has_part needle s in if starts_with (String.◌∷◌ c s) needle then true else rest

abbrev pub slashed : String → String
slashed path = if ends_with path "/" then path else path <> "/"

module _ (urls : Urls) where
  abbrev object_url_of : String → Outcome SplitUrl → Outcome String
  object_url_of file_name (ok parts) =
      ok (parts.with_path (slashed parts.path <> urls.quote file_name))
  object_url_of file_name (raised e) = raised e
  object_url_of file_name pending = pending

  unfoldable pub object_upload_url : String → String → Outcome String
  object_upload_url upload_url file_name = object_url_of file_name (urls.urlsplit upload_url)

  -- parsed.hostname or endpoint
  abbrev host_of : String → Outcome SplitUrl → Outcome String
  host_of endpoint (ok parsed) = ok (elim parsed.hostname [
    | none ↦ endpoint
    | some host ↦ if truthy host then host else endpoint
  ])
  host_of endpoint (raised e) = raised e
  host_of endpoint pending = pending

  unfoldable pub mqtt_host : String → Outcome String
  unfolding has_part
  mqtt_host endpoint =
      host_of endpoint
        (urls.urlsplit (if has_part "://" endpoint then endpoint else "//" <> endpoint))

  module _ {W : Type 0} (device : Device W) (config : DeviceDemoConfig) where
    unfoldable pub upload_file : String → String → Exec W String
    upload_file upload_url file_path = do
      object_url ← lift (object_upload_url upload_url (urls.file_name file_path))
      status ← device.put_file object_url file_path config.timeout_seconds
      if ltb status 200 || leb 300 status
          then raise (runtime_error "Upload failed")
          else pure object_url

    -- The queue of responses is a part of the world.
    abbrev receive : {A : Type 0} → Exec Mailbox A → Exec W A
    receive m w = let r = m (device.mailbox w) in (r.0, device.with_mailbox r.1 w)

    abbrev unless_raise : Bool → Exn → Exec W (Unit {0})
    unless_raise true e = pure tt
    unless_raise false e = raise e

    -- response.get("data", {}).get("upload_url"). Where "data" is no object there is an AttributeError,
    -- and so there is where a URL that is no text is taken apart.
    unfoldable pub upload_url_of : Fields → Outcome String
    unfolding get as_fields as_text is_falsy
    upload_url_of response = elim (get "data" response) [
      | none ↦ raised no_url
      | some v ↦ elim (as_fields v) [
        | none ↦ raised (other_error "AttributeError")
        | some data_fields ↦ elim (get "upload_url" data_fields) [
          | none ↦ raised no_url
          | some u ↦ if is_falsy u then raised no_url else elim (as_text u) [
            | none ↦ raised (other_error "AttributeError")
            | some url ↦ ok url
          ]
        ]
      ]
    ]
      where
        no_url : Exn
        no_url = runtime_error "prepare-upload response did not include upload_url"

    unfoldable pub connect_and_subscribe : Exec W (Unit {0})
    connect_and_subscribe = do
      host ← lift (mqtt_host config.endpoint)
      device.connect host
      device.loop_start
      is_connected ← device.connected config.timeout_seconds
      unless_raise is_connected (timeout_error "Timed out waiting for MQTT connection")
      device.subscribe config.response_topic
      is_subscribed ← device.subscribed config.timeout_seconds
      unless_raise is_subscribed (timeout_error "Timed out waiting for response topic subscription")

    unfoldable pub prepare : Exec W String
    unfolding upload_url_of
    prepare = do
      device.publish config.command_topic
          (prepare_upload_payload config.transaction_id config.ttl_minutes)
      response ←
          receive (wait_for_response config.transaction_id "prepare-upload" config.timeout_seconds)
      lift (require_response_code response 200)
      lift (upload_url_of response)

    unfoldable pub complete : String → Exec W (Unit {0})
    complete file_path = do
      device.publish config.command_topic
          (complete_upload_payload config.transaction_id config.command (urls.file_name file_path))
      response ← receive (
          wait_for_terminal_response config.transaction_id "complete-upload" config.timeout_seconds)
      lift (require_response_code response 200)

    -- The body of the `try`, from the test of the file on.
    unfoldable pub session : String → Exec W (Unit {0})
    session file_path = do
      there ← device.is_file file_path
      unless_raise there (file_not_found ("Upload file not found: " <> file_path))
      connect_and_subscribe
      upload_url ← prepare
      _object_url ← upload_file upload_url file_path
      complete file_path

    abbrev stop : Exec W (Unit {0})
    stop = device.disconnect >> device.loop_stop

    -- With a directory of its own, or without one when it could not be made.
    abbrev in_directory : Outcome String × W → Outcome (Unit {0}) × W
    in_directory (ok directory, w) =
        try_finally (device.create_default_test_file directory >>= session)
          (stop >> device.cleanup directory) w
    in_directory (raised e, w) = run_cleanup (raised e) w stop
    in_directory (pending, w) = (pending, w)

    unfoldable pub run_demo : Exec W ℕ
    run_demo =
        elim config.file_path [
          | some file_path ↦ try_finally (session file_path) stop
          | none ↦ λ w. in_directory (device.temporary_directory w)
        ]
        >> pure 0
