-- ===== src/Lib.antt =====
-- OCI IoT samples: the Python programs that have logic of their own.
--
-- FileAgent (samples/python/file-agent/file-agent/file_agent/): a device asks over MQTT for a place
-- to upload a file, uploads it, and asks for a command on it. The backend dequeues the messages
-- (iot_db.py, Database), parses them (models.py, Models), and handles them (processor.py,
-- Processor): `handle_message` stages a pre-authenticated request (object_storage.py, ObjectStorage:
-- `stage_upload`, `complete_upload`, `prune`), or deletes it and runs a configured command, at once
-- or through a queue that `command_worker` works off. device_demo.py is the device's side
-- (DeviceDemo; `run_demo` in Demo). Clients has iot_context.py and iot_raw.py, Cli the commands of
-- cli.py (its janitor's in Cli/Janitor). Monitor has the two threads of `monitor` as a step
-- relation: the message loop, the worker, and the queue with its count of tasks. Agreement is about
-- both sides at once.
--
-- ArchiveDomain (samples/python/archive-domain/archive_domain/): plans windows of telemetry by
-- dataset (planner.py, Planner; iot_domain.py, Retention), runs them through an executor, and keeps
-- a manifest and a checkpoint in Object Storage (object_storage.py, State; manifest.py, Manifest;
-- service.py, Service: `plan`, `run`). executor.py (Executor) is such an executor: it exports the
-- rows of a query of sql.py (Sql) as lines of JSON into one object, or has the database export them.
-- Exporters has the small choices of exporters.py and db.py, Cli the commands of cli.py (`run`).
--
-- ManageDt (samples/python/manage-dt/manage_dt/): mdt_iot_data.py, which caches the access to the
-- data API in a file (DataAccess: `get_data_access_parameters`) and queries recent data
-- (RecentData). mdt_iot_oci.py creates, looks up and deletes the model, the adapter and the instance
-- of a twin (Resources: `create_digital_twin`, `delete_digital_twin` and what they call) and prints
-- what the services have of it (Query: `query_digital_twin`). cli.py loads the configuration, with
-- the placeholders of its twins replaced (Cli: `load_config`; Templates: `safe_substitute` of
-- Python's string.Template), and runs one command on one of its twins (`main`).
--
-- QueueSamples (samples/python/queues/sub-raw.py) registers a subscriber of raw messages, streams
-- until an exception or an interrupt, and removes the subscriber (`main`). Normalized has sub-norm.py,
-- whose commands register, stream and remove a durable subscriber (`subscribe`, `stream`).
--
-- RepositoryPolicy (pre_commit_hooks/repository_policy.py) has the check of the repository's own
-- files: their content (`content_violations`), their names (Paths: `case_conflict_violations`), and
-- the program, from what Git prints to the exit code (Index: `main`).
--
-- DownloadCertificates (samples/terraform/iot-from-scratch/download-certs/) fetches certificates and
-- writes them, their chains and their keys to files (`main`).
--
-- Base holds what the parts share: Exec (code over a state that may raise; the state of a call that
-- raised is kept), Json (decoded JSON), Time (datetimes as microseconds, with Python's range),
-- Texts, Lists, Options and Outcomes, and Dsn, the parse of a connect string that the samples share.
--
-- A method is a function into `Exec`; `self` is its state or a section's parameter, and every client
-- (Object Storage, the database, HTTP, the clock) is a record of functions, about which a theorem
-- assumes what it names. Loops over a service's pages, messages or rows take fuel: one unit for each
-- page, one more than the limit of messages, and one more than the rows; an exhausted loop is
-- `pending`, which the theorems rule out or name (the loop over a sample's messages has no other end
-- than an exception). The two waits of the device take one round more than there are arrivals. Not
-- modelled: logging, the OCI, MQTT and database clients themselves, command line parsing, the
-- decoding of YAML and the configuration of OCI, the samples that only call a client (publish-*,
-- query-db, command-response), nor the code in other languages.
pub mod Base
pub mod FileAgent
pub mod ArchiveDomain
pub mod ManageDt
pub mod RepositoryPolicy
pub mod QueueSamples
pub mod DownloadCertificates
