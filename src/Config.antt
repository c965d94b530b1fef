-- ===== src/Config.antt =====
-- `validate` of src/config.rs, over the settings that it reads, and whether a printer is enabled.
pub mod Valid
pub mod Identity
use zebra_tamer.Prelude.{
  ℕ, Bool, true, false, not, ◌&&◌, ◌||◌, Option, none, some, List, [], ◌∷◌, leb, ltb, ◌==◌, is_some,
  is_empty, all, any,
}
use zebra_tamer.Prelude.Int.{ℤ, pos, leb_ℤ}
use zebra_tamer.Prelude.Text.{Text, text_len, codes, is_blank, is_ascii_alphanumeric, text_eq}
use zebra_tamer.Prelude.Result.{Result, ok, ensure, ◌>>=◌, ◌>>◌}
use zebra_tamer.Driver.{DeviceProfile}

pub record PrinterConfig : Type 0 where
  pub id : Text
  pub enabled : Bool
  pub driver : Text
  pub transport : Text
  pub device : Text
  pub usb_vendor_id : Option ℕ
  pub usb_product_id : Option ℕ
  pub tcp_host : Option Text
  pub tcp_port : ℕ
  pub connect_timeout_ms : ℕ
  pub first_byte_timeout_ms : ℕ
  pub idle_timeout_ms : ℕ
  pub write_timeout_ms : ℕ
  pub max_response_bytes : ℕ
  pub device_profile : DeviceProfile

pub record Config : Type 0 where
  pub agent_id : Option Text
  pub webui_enabled : Bool
  pub read_token : Option Text
  pub print_token : Option Text
  pub admin_token : Option Text
  pub max_job_bytes : ℕ
  pub max_active_jobs_per_printer : ℕ
  pub printers : List PrinterConfig

abbrev pub is_long : Text → Bool
is_long token = leb 24 (text_len token)

abbrev pub is_none_or : (Text → Bool) → Option Text → Bool
is_none_or p none = true
is_none_or p (some t) = p t

abbrev pub is_some_and : (Text → Bool) → Option Text → Bool
is_some_and p none = false
is_some_and p (some t) = p t

abbrev pub is_safe : Text → Bool
is_safe id = all (λ c. is_ascii_alphanumeric c || c == b'-' || c == b'_') id

abbrev in_range : ℕ → ℕ → ℕ → Bool
in_range lo hi n = leb lo n && leb n hi

abbrev is_resolution : Option ℕ → Bool
is_resolution none = true
is_resolution (some dpi) = in_range 100 1200 dpi

unfoldable pub check_profile : DeviceProfile → Result (Unit {0})
check_profile profile =
    ensure
      (ltb 0 profile.max_width_dots
        && ltb 0 profile.max_length_dots
        && in_range 1 14 profile.max_speed_ips
        && leb_ℤ (pos 0) profile.max_offset_dots
        && leb_ℤ profile.max_offset_dots (pos 9999)
        && is_resolution profile.resolution_dpi)
      "Invalid device_profile limits"

unfoldable pub check_tcp : PrinterConfig → Result (Unit {0})
unfolding is_blank
check_tcp printer = do
  ensure (is_some_and (λ host. not (is_blank host)) printer.tcp_host)
      "tcp transport requires tcp_host"
  ensure (ltb 0 printer.tcp_port) "tcp_port must be positive"
  ensure (ltb 0 printer.connect_timeout_ms) "connect_timeout_ms must be positive"

unfoldable pub check_transport : PrinterConfig → Result (Unit {0})
unfolding check_tcp
check_transport printer = elim (text_eq printer.transport (codes "char_device")) [
  | true ↦ ensure (not (is_empty printer.device)) "char_device transport requires device"
  | false ↦ elim (text_eq printer.transport (codes "usb_bulk")) [
    | true ↦
        ensure (is_some printer.usb_vendor_id && is_some printer.usb_product_id)
          "usb_bulk transport requires usb_vendor_id and usb_product_id"
    | false ↦ elim (text_eq printer.transport (codes "tcp")) [
      | true ↦ check_tcp printer
      | false ↦ ensure false "unsupported transport"
    ]
  ]
]

-- The only driver is "zpl", and it is available.
unfoldable pub check_rest : PrinterConfig → Result (Unit {0})
unfolding check_transport
check_rest printer = do
  check_transport printer
  ensure
      (ltb 0 printer.first_byte_timeout_ms
        && ltb 0 printer.idle_timeout_ms
        && ltb 0 printer.write_timeout_ms
        && ltb 0 printer.max_response_bytes)
      "printer timeouts and max_response_bytes must be positive"
  ensure (text_eq printer.driver (codes "zpl")) "unsupported driver"

-- `ids` are those of the printers before.
unfoldable pub check_printers : List Text → List PrinterConfig → Result (Unit {0})
unfolding check_profile check_rest
check_printers ids [] = ok tt
check_printers ids (printer ∷ printers) = do
  check_profile printer.device_profile
  ensure (not (is_empty printer.id)) "printer id must not be empty"
  ensure (is_safe printer.id) "printer id contains unsafe characters"
  ensure (not (any (λ id. text_eq id printer.id) ids)) "duplicate printer id"
  check_rest printer
  check_printers (printer.id ∷ ids) printers

abbrev pub is_agent_id : Option Text → Bool
is_agent_id none = true
is_agent_id (some id) = not (is_empty id) && is_safe id

unfoldable pub validate_config : Config → Result (Unit {0})
unfolding check_printers
validate_config config = do
  ensure (is_none_or is_long config.read_token) "read_token must have at least 24 characters"
  ensure (is_none_or is_long config.print_token) "print_token must have at least 24 characters"
  ensure (is_none_or is_long config.admin_token) "admin_token must have at least 24 characters"
  ensure (not config.webui_enabled || is_some_and is_long config.admin_token)
      "webui_enabled requires an admin_token of at least 24 characters"
  ensure (ltb 0 config.max_job_bytes && leb config.max_job_bytes 8388608)
      "max_job_bytes must be between 1 and its limit"
  ensure (ltb 0 config.max_active_jobs_per_printer) "max_active_jobs_per_printer must be positive"
  ensure (is_agent_id config.agent_id)
      "agent_id must contain only letters, digits, hyphens and underscores"
  check_printers [] config.printers
