-- ===== src/Config.antt =====
-- src/config/settings.rs and src/config/defaults.rs: the settings that the daemon reads, their
-- defaults, and the policies that are made from them. A path is its text.
pub mod Loader
use mitos_session.Base.{Text, bytes, ℕ, Bool, true, false, Option, some}
use mitos_session.Power.Backends.{PowerBackendKind, mitos_power}
use mitos_session.Auth.{AuthPolicy}
use mitos_session.Lock.{LockPolicy}
use mitos_session.Idle.{IdlePolicy}
use mitos_session.Elevation.{ElevationPolicy}
use mitos_session.Session.{SessionSettings}

pub record SeatSettings : Type 0 where
  pub default_seat : Text

pub record LockSettings : Type 0 where
  pub enabled : Bool
  pub lock_on_idle : Bool
  pub lock_on_suspend : Bool
  pub grace_period_secs : ℕ
  pub max_auth_attempts : ℕ
  pub lockout_secs : ℕ

pub record IdleSettings : Type 0 where
  pub dim_after_secs : ℕ
  pub lock_after_secs : ℕ
  pub suspend_after_secs : ℕ

pub record AuthSettings : Type 0 where
  pub pam_service : Text
  pub allow_empty_password : Bool

pub record ElevationSettings : Type 0 where
  pub enabled : Bool
  pub service_user : Text
  pub pam_service : Text
  pub allow_empty_password : Bool
  pub max_attempts : ℕ
  pub lockout_secs : ℕ
  pub prompt_timeout_secs : ℕ
  pub max_pending_per_session : ℕ

pub record PowerSettings : Type 0 where
  pub allow_suspend : Bool
  pub allow_reboot : Bool
  pub allow_poweroff : Bool
  pub suspend_inhibit_grace_secs : ℕ
  pub backend : PowerBackendKind
  pub mitos_power_socket_path : Text

pub record IpcSettings : Type 0 where
  pub socket_path : Text
  pub socket_mode : ℕ

pub record LoggingSettings : Type 0 where
  pub level : Text
  pub json : Bool
  pub audit_log_path : Option Text

pub record Settings : Type 0 where
  pub session : SessionSettings
  pub seat : SeatSettings
  pub lock : LockSettings
  pub idle : IdleSettings
  pub authentication : AuthSettings
  pub elevation : ElevationSettings
  pub power : PowerSettings
  pub ipc : IpcSettings
  pub logging : LoggingSettings

-- `Settings::default()`.
abbrev pub default_settings : Settings
default_settings = record {
  session = record {
    runtime_dir = bytes "/run/mitos-session";
    max_sessions_per_user = 4;
    default_session_type = bytes "wayland";
    compositor_binary = bytes "/usr/bin/mitos-gui";
    max_compositor_restarts = 3;
  };
  seat = record { default_seat = bytes "seat0" };
  lock = record {
    enabled = true;
    lock_on_idle = true;
    lock_on_suspend = true;
    grace_period_secs = 5;
    max_auth_attempts = 3;
    lockout_secs = 30;
  };
  idle = record { dim_after_secs = 60; lock_after_secs = 300; suspend_after_secs = 600 };
  authentication = record { pam_service = bytes "mitos-session"; allow_empty_password = false };
  elevation = record {
    enabled = true;
    service_user = bytes "mitos-service";
    pam_service = bytes "mitos-elevate";
    allow_empty_password = false;
    max_attempts = 3;
    lockout_secs = 30;
    prompt_timeout_secs = 120;
    max_pending_per_session = 3;
  };
  power = record {
    allow_suspend = true;
    allow_reboot = true;
    allow_poweroff = true;
    suspend_inhibit_grace_secs = 2;
    backend = mitos_power;
    mitos_power_socket_path = bytes "/run/mitos/power.sock";
  };
  ipc = record { socket_path = bytes "/run/mitos-session/session.sock"; socket_mode = 432 };
  logging = record {
    level = bytes "info";
    json = false;
    audit_log_path = some (bytes "/var/log/mitos/session-audit.log");
  };
}

-- `LockPolicy::from`.
abbrev pub lock_policy : LockSettings → LockPolicy
lock_policy s = record {
  enabled = s.enabled;
  lock_on_idle = s.lock_on_idle;
  lock_on_suspend = s.lock_on_suspend;
  grace_period = s.grace_period_secs;
}

-- `IdlePolicy::from`.
abbrev pub idle_policy : IdleSettings → IdlePolicy
idle_policy s = record {
  dim_after = s.dim_after_secs;
  lock_after = s.lock_after_secs;
  suspend_after = s.suspend_after_secs;
}

-- `ElevationPolicy::from`.
abbrev pub elevation_policy : ElevationSettings → ElevationPolicy
elevation_policy s = record {
  enabled = s.enabled;
  prompt_timeout = s.prompt_timeout_secs;
  max_pending_per_session = s.max_pending_per_session;
}

-- `AuthPolicy::new`, which `policy::auth_policy` calls.
abbrev pub auth_policy : AuthSettings → LockSettings → AuthPolicy
auth_policy auth l = record {
  pam_service = auth.pam_service;
  allow_empty_password = auth.allow_empty_password;
  max_attempts = l.max_auth_attempts;
  lockout = l.lockout_secs;
}

-- `policy::elevation_auth_policy`.
abbrev pub elevation_auth_policy : ElevationSettings → AuthPolicy
elevation_auth_policy e = record {
  pam_service = e.pam_service;
  allow_empty_password = e.allow_empty_password;
  max_attempts = e.max_attempts;
  lockout = e.lockout_secs;
}
