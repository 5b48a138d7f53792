-- ===== src/Server/Bodies.antt =====
-- src/server.cpp: the representations of a lookup result.
use nshgeoip.Prelude.{Bytes, codes, to_string, ℕ, Option, none, some, List, [], ◌∷◌, ◌++◌}
use nshgeoip.External.{External}
use nshgeoip.Text.{json_escape, sanitize_header_value}
use nshgeoip.Geoip.{GeoIpResult}
use nshgeoip.Http.Request.{ResponseFormat, json}
use nshgeoip.Http.Response.{HttpResponse}

-- `"\"" + json_escape(*v) + "\""`, or `null`.
abbrev json_string : Option Bytes → Bytes
json_string none = codes "null"
json_string (some s) = b'"' ∷ (json_escape s ++ codes "\"")

abbrev json_number : Option ℕ → Bytes
json_number none = codes "null"
json_number (some n) = to_string n

-- `<< name << "=" << value << "\n"` if there is a value.
abbrev ini_line : Bytes → Option Bytes → Bytes → Bytes
ini_line name none rest = rest
ini_line name (some v) rest = name ++ (b'=' ∷ (v ++ 10 ∷ rest))

abbrev pub header : Bytes → Option Bytes → List (Bytes × Bytes) → List (Bytes × Bytes)
header name none rest = rest
header name (some v) rest = (name, v) ∷ rest

abbrev pub map_option : {A B : Type 0} → (A → B) → Option A → Option B
map_option f none = none
map_option f (some a) = some (f a)

module _ (ext : External) where
  open ext use {Double}

  unfoldable pub format_double : Double → Bytes
  format_double v = ext.general 9 v

  abbrev json_double : Option Double → Bytes
  json_double none = codes "null"
  json_double (some x) = format_double x

  unfoldable pub build_json_body : Bytes → GeoIpResult Double → Bytes
  build_json_body ip_text r =
      codes "{\"ip\":\""
      ++ (json_escape ip_text
          ++ (codes "\",\"country_code\":"
              ++ (json_string r.country_code
                  ++ (codes ",\"country_name\":"
                      ++ (json_string r.country_name
                          ++ (codes ",\"continent_code\":"
                              ++ (json_string r.continent_code
                                  ++ (codes ",\"asn\":"
                                      ++ (json_number r.asn
                                          ++ (codes ",\"as_org\":"
                                              ++ (json_string r.as_org
                                                  ++ (codes ",\"city_name\":"
                                                      ++ (json_string r.city_name
                                                          ++ (codes ",\"postal_code\":"
                                                            ++ (json_string r.postal_code
                                                            ++ (codes ",\"latitude\":"
                                                            ++ (json_double r.latitude
                                                            ++ (codes ",\"longitude\":"
                                                            ++ (json_double r.longitude
                                                            ++ (codes ",\"accuracy_radius\":"
                                                            ++ (json_number r.accuracy_radius
                                                            ++ codes "}")))))))))))))))))))))

  unfoldable pub build_ini_body : Bytes → GeoIpResult Double → Bytes
  build_ini_body ip_text r =
      let clean = map_option sanitize_header_value in
      ini_line (codes "ip") (some (sanitize_header_value ip_text)) (
        ini_line (codes "country_code") (clean r.country_code) (
          ini_line (codes "country_name") (clean r.country_name) (
            ini_line (codes "continent_code") (clean r.continent_code) (
              ini_line (codes "asn") (map_option to_string r.asn) (
                ini_line (codes "as_org") (clean r.as_org) (
                  ini_line (codes "city_name") (clean r.city_name) (
                    ini_line (codes "postal_code") (clean r.postal_code) (
                      ini_line (codes "latitude") (map_option format_double r.latitude) (
                        ini_line (codes "longitude") (map_option format_double r.longitude) (
                          ini_line (codes "accuracy_radius")
                            (map_option to_string r.accuracy_radius) []))))))))))

  unfoldable pub geoip_headers : GeoIpResult Double → List (Bytes × Bytes)
  geoip_headers r =
      let clean = map_option sanitize_header_value in
      header (codes "X-GeoIP-Country") (clean r.country_code) (
        header (codes "X-GeoIP-Continent") (clean r.continent_code) (
          header (codes "X-GeoIP-ASN") (map_option to_string r.asn) (
            header (codes "X-GeoIP-AS-Org") (clean r.as_org) (
              header (codes "X-GeoIP-City") (clean r.city_name) (
                header (codes "X-GeoIP-Postal-Code") (clean r.postal_code) (
                  header (codes "X-GeoIP-Latitude") (map_option format_double r.latitude) (
                    header (codes "X-GeoIP-Longitude") (map_option format_double r.longitude) (
                      header (codes "X-GeoIP-Accuracy-Radius")
                        (map_option to_string r.accuracy_radius) []))))))))

  abbrev success_body : Bytes → GeoIpResult Double → ResponseFormat → Bytes
  success_body ip_text r json = build_json_body ip_text r
  success_body ip_text r _ = build_ini_body ip_text r

  unfoldable pub build_success_response : Bytes → GeoIpResult Double → ResponseFormat → HttpResponse
  unfolding geoip_headers
  build_success_response ip_text r format = record {
    status = 200;
    format = format;
    headers = geoip_headers r;
    body = success_body ip_text r format;
  }
