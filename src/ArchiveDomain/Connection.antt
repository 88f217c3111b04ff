-- ===== src/ArchiveDomain/Connection.antt =====
-- db.py: `connect`. The library oracledb is installed.
use oci_iot_samples.Base.{String, Bool, Option, none, some, contains, if◌then◌else◌}
use oci_iot_samples.Base.Dsn.{Oracle, build_dsn, profile_types, init_thick}
use oci_iot_samples.Base.Exec.{Exec, ◌>>=◌, ◌>>◌, lift}

-- What of the configuration a connection is made from.
pub record DatabaseConfig : Type 0 where
  pub connect_string : String
  pub token_scope : String
  pub auth_type : String
  pub profile : String
  pub thick_mode : Bool
  pub lib_dir : Option String

unfoldable extra_profile : DatabaseConfig → Option String
unfolding contains
extra_profile config = if contains config.auth_type profile_types then some config.profile else none

-- The DSN is built after the client was initialised.
unfoldable connect : {W : Type 0} → Oracle W → DatabaseConfig → Exec W (Unit {0})
unfolding build_dsn extra_profile
connect oracle config = do
  init_thick oracle config.thick_mode config.lib_dir
  dsn ← lift (build_dsn config.connect_string)
  oracle.connect (record {
    dsn = dsn;
    auth_type = config.auth_type;
    scope = config.token_scope;
    profile = extra_profile config;
    externalauth = config.thick_mode;
  })
