-- ===== src/Reaper/Config.antt =====
-- `RebootMethod`, `ReaperConfig` and the constants of s390x-qemu-zombie-reaper.py.
use os_autoinst_scripts.Prelude.{ℕ, Bool, true, false, Option, none, List, [], ◌∷◌, ◌++◌}
use os_autoinst_scripts.Py.Str.{Str, codes}
use os_autoinst_scripts.Py.Num.{decimal}
use os_autoinst_scripts.Py.Dict.{Dict}

pub data RebootMethod : Type 0 where
  sysrq reboot : RebootMethod

abbrev pub hypervisors : Dict (List Str)
hypervisors =
    (codes "s390zl12.oqa.prg2.suse.org", codes "worker31" ∷ codes "worker32" ∷ [])
    ∷ (codes "s390zl13.oqa.prg2.suse.org", codes "worker32" ∷ codes "worker33" ∷ [])
    ∷ (codes "s390zl19.oqa.prg2.suse.org", codes "worker31" ∷ [])
    ∷ []

abbrev pub ret_success : ℕ
ret_success = 0

abbrev pub ssh_err_connect : ℕ
ssh_err_connect = 255

abbrev pub hmc_default_port : ℕ
hmc_default_port = 6794

abbrev pub hmc_job_timeout : ℕ
hmc_job_timeout = 900

abbrev pub hmc_status_timeout : ℕ
hmc_status_timeout = 900

abbrev pub http_accepted : ℕ
http_accepted = 202

abbrev pub http_no_content : ℕ
http_no_content = 204

abbrev pub job_status_ok : ℕ
job_status_ok = 204

-- `verbose` only adds output, which is not modelled.
pub record ReaperConfig : Type 0 where
  pub dry_run : Bool
  pub reboot_method : RebootMethod
  pub max_wait_minutes : ℕ
  pub boot_wait_minutes : ℕ
  pub stability_delay_minutes : ℕ
  pub ssh_timeout : ℕ
  pub ssh_check_interval : ℕ
  pub cmd_timeout : ℕ
  pub hmc_fallback : Bool
  pub hmc_host : Option Str
  pub hmc_port : ℕ
  pub hmc_user : Option Str
  pub hmc_password : Option Str
  pub hmc_lpars : Dict Str
  pub hmc_verify_tls : Bool
  pub hmc_ca_file : Option Str
  pub state_file : Option Str

-- The values of the class body.
abbrev pub default_config : ReaperConfig
default_config = record {
  dry_run = false;
  reboot_method = sysrq;
  max_wait_minutes = 30;
  boot_wait_minutes = 30;
  stability_delay_minutes = 3;
  ssh_timeout = 10;
  ssh_check_interval = 15;
  cmd_timeout = 60;
  hmc_fallback = true;
  hmc_host = none;
  hmc_port = hmc_default_port;
  hmc_user = none;
  hmc_password = none;
  hmc_lpars = [];
  hmc_verify_tls = true;
  hmc_ca_file = none;
  state_file = none;
}

unfoldable pub ssh_options : ReaperConfig → Str
ssh_options config =
    codes "-o ConnectTimeout=" ++ (decimal config.ssh_timeout ++ codes " -o BatchMode=yes")

-- `f"ssh {config.ssh_options} {host} {remote_cmd}"`
unfoldable pub ssh_line : ReaperConfig → Str → Str → Str
ssh_line config host remote_cmd =
    codes "ssh " ++ (ssh_options config ++ (codes " " ++ (host ++ (codes " " ++ remote_cmd))))
