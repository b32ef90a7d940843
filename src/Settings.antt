-- ===== src/Settings.antt =====
-- src/settings.rs: the settings of a connection and their defaults.
use hcnet.Base.{ℕ, Bool, false, List, Option, none}

pub record Settings : Type 0 where
  pub max_connections : ℕ
  pub queue_size : ℕ
  pub in_buffer_max : ℕ
  pub out_buffer_max : ℕ
  pub onemsg_max_size : ℕ
  pub closing_time : ℕ
  pub connect_timeout : ℕ
  pub shake_timeout : ℕ
  pub read_timeout : ℕ
  pub is_raw : Bool
  pub domain : Option (List ℕ)
  pub cert : Option (List ℕ)
  pub key : Option (List ℕ)

abbrev pub default : Settings
default = record {
  max_connections = 1024;
  queue_size = 10;
  in_buffer_max = 10485760;
  out_buffer_max = 10485760;
  onemsg_max_size = 65535;
  closing_time = 1000;
  connect_timeout = 30000;
  shake_timeout = 30000;
  read_timeout = 60000;
  is_raw = false;
  domain = none;
  cert = none;
  key = none;
}
