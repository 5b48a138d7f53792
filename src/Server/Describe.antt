-- ===== src/Server/Describe.antt =====
-- src/server.cpp: the texts of the log lines about databases and the socket.
pub mod Mode
use nshgeoip.Prelude.{Bytes, codes, streamed, ℕ, ◌+◌, ◌/◌, ◌%◌, Option, none, some, [], ◌∷◌}
use nshgeoip.External.{External}
use nshgeoip.Geoip.{GeoIpDbMetadata}

-- `snprintf(buf, 8, "%04o", mode & 07777)`.
unfoldable pub mode_octal : ℕ → Bytes
mode_octal mode =
    (b'0' + mode / 512 % 8)
    ∷ (b'0' + mode / 64 % 8)
    ∷ (b'0' + mode / 8 % 8)
    ∷ (b'0' + mode % 8)
    ∷ []

module _ (ext : External) where
  open ext use {Double, fixed}

  unfoldable pub describe_db : Bytes → Option (GeoIpDbMetadata Double) → Bytes
  describe_db path none = path
  describe_db path (some meta) = streamed (
      path
      ∷ codes " ("
      ∷ meta.database_type
      ∷ codes ", built "
      ∷ meta.build_time
      ∷ codes ", "
      ∷ fixed 1 meta.age_days
      ∷ codes " days old)"
      ∷ [])
