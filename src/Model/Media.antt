-- ===== src/Model/Media.antt =====
-- src/model.rs: the loaded media, its accounting and its ledger.
use zebra_tamer.Prelude.{ℕ, String, Bool, Option, List}
use zebra_tamer.Prelude.Int.{ℤ}
use zebra_tamer.Prelude.Float.{Float}
use zebra_tamer.Prelude.Text.{Text}
use zebra_tamer.Model.Job.{DateTime, Uuid}

pub data AccountingConfidence : Type 0 where
  exact estimated degraded unknown : AccountingConfidence

pub data TrackingType : Type 0 where
  gap black_mark continuous notch hole unknown : TrackingType

pub data PrintTechnology : Type 0 where
  direct_thermal thermal_transfer unknown : PrintTechnology

pub record MediaColor : Type 0 where
  pub name : Text
  pub hex : Option Text
  pub description : Option Text

pub record Ribbon : Type 0 where
  pub name : Text
  pub width_mm : Option Float
  pub material : Option Text

pub record PreferredSettings : Type 0 where
  pub darkness : Option Float
  pub speed : Option Float
  pub x_offset : Option ℤ
  pub y_offset : Option ℤ
  pub print_mode : Option Text

pub record MediaDefinition : Type 0 where
  pub display_name : Text
  pub product_number : Option Text
  pub manufacturer : Option Text
  pub description : Option Text
  pub width_mm : Float
  pub height_mm : Float
  pub gap_mm : Option Float
  pub corner_radius_mm : Option Float
  pub black_mark_width_mm : Option Float
  pub black_mark_height_mm : Option Float
  pub core_diameter_mm : Option Float
  pub outer_diameter_mm : Option Float
  pub shape : Text
  pub tracking : TrackingType
  pub print_technology : PrintTechnology
  pub color : MediaColor
  pub material : Option Text
  pub surface : Option Text
  pub transparent : Option Bool
  pub thermal_coating : Option Text
  pub thickness_micrometers : Option Float
  pub adhesive : Option Text
  pub liner : Option Text
  pub ribbon : Option Ribbon
  pub preferred_settings : PreferredSettings
  pub labels_available_at_load : ℕ
  pub nominal_full_roll_labels : Option ℕ
  pub low_warning_threshold : ℕ
  pub custom : List (String × String)  -- keys, and the JSON texts of their values

pub record MediaState : Type 0 where
  pub media : MediaDefinition
  pub loaded_at : DateTime
  pub initial_labels : ℕ
  pub remaining_labels : ℕ
  pub consumed_labels_total : ℕ
  pub accounting_deficit_labels : ℕ
  pub accounting_confidence : AccountingConfidence
  pub last_accounting_event_at : Option DateTime
  pub ledger_sequence : ℕ

pub record MediaAdjustment : Type 0 where
  pub delta : ℤ
  pub reason : String
  pub source : String
  pub job_id : Option Uuid
  pub hardware_counter_before : Option ℕ
  pub hardware_counter_after : Option ℕ

pub record MediaLedgerEvent : Type 0 where
  pub sequence : ℕ
  pub at : DateTime
  pub delta : ℤ
  pub reason : String
  pub source : String
  pub job_id : Option Uuid
  pub before : ℕ
  pub after : ℕ
  pub deficit_after : ℕ
  pub hardware_counter_before : Option ℕ
  pub hardware_counter_after : Option ℕ
