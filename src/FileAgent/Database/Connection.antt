-- ===== src/FileAgent/Database/Connection.antt =====
-- `db_connect` and `db_disconnect`.
use oci_iot_samples.Base.{String, Bool, Option, none, some, given, contains, if◌then◌else◌}
use oci_iot_samples.Base.Dsn.{Oracle, build_dsn, profile_types, init_thick}
use oci_iot_samples.Base.Exec.{Exec, ◌>>=◌, ◌>>◌, lift}

-- The arguments of db_connect.
pub record ConnectOptions : Type 0 where
  pub db_connect_string : String
  pub db_token_scope : String
  pub thick_mode : Bool
  pub lib_dir : Option String
  pub oci_auth_type : String
  pub oci_profile : Option String

-- oci_profile or "DEFAULT"
abbrev profile_or_default : Option String → String
profile_or_default oci_profile = elim (given oci_profile) [
  | none ↦ "DEFAULT"
  | some profile ↦ profile
]

unfoldable token_based_profile : ConnectOptions → Option String
unfolding contains
token_based_profile options =
    if contains options.oci_auth_type profile_types
    then some (profile_or_default options.oci_profile)
    else none

unfoldable db_connect : {W : Type 0} → Oracle W → ConnectOptions → Exec W (Unit {0})
unfolding build_dsn token_based_profile
db_connect oracle options = do
  dsn ← lift (build_dsn options.db_connect_string)
  init_thick oracle options.thick_mode options.lib_dir
  oracle.connect (record {
    dsn = dsn;
    auth_type = options.oci_auth_type;
    scope = options.db_token_scope;
    profile = token_based_profile options;
    externalauth = options.thick_mode;
  })
