-- ===== src/Ingestion/SystemProperties.antt =====
-- packages/ingestion/domain/src/system-properties.ts: what is kept of the machine.
use counted.Base.{Option, none, some, String, leb, is_empty, trim, if◌then◌else◌}
use counted.Base.Units.{units, slice}
use counted.Ingestion.Batch.{Value, text, object, Fields, no_fields, Platform, get}
use counted.Ingestion.OsName.{OsValue, canonical_os_name}

pub record SystemProperties : Type 0 where
  pub os_name : OsValue
  pub os_name_raw : Option String
  pub os_version : Option String
  pub locale : Option String
  pub app_version : Option String
  pub device_model : Option String
  pub sdk_version : Option String
  pub country : Option String

-- The limit is `MAX_SYSTEM_VALUE_LENGTH`.
unfoldable pub bounded : Platform → String → Option String
bounded p trimmed =
    if is_empty trimmed
    then none
    else if leb (units trimmed) 128
    then some trimmed
    else some (slice p.lead 128 trimmed)

unfoldable pub as_bounded_string : Platform → Value → Option String
unfolding bounded
as_bounded_string p (text raw) = bounded p (trim raw)
as_bounded_string p raw = none

-- The object that the fields are read from.
abbrev pub source_of : Value → Fields
source_of (object fields) = fields
source_of raw = no_fields

unfoldable pub normalise_system_properties : Platform → Value → Option String → SystemProperties
unfolding as_bounded_string canonical_os_name
normalise_system_properties p raw country =
    let entry : String → Option String = λ name. as_bounded_string p (get (source_of raw) name) in
    let os = canonical_os_name p (entry "os_name") in
    record {
      os_name = os.os_name;
      os_name_raw = os.os_name_raw;
      os_version = entry "os_version";
      locale = entry "locale";
      app_version = entry "app_version";
      device_model = entry "device_model";
      sdk_version = entry "sdk_version";
      country = country;
    }
