-- ===== src/Cli/System.antt =====
-- The state that the commands work on, and the code outside this repository that they call: the
-- flash store (microkvs), the key manager, the NTP client, the address parser, the network stack.
use Prim.Native.String.{String}
use latentred.Sensors.{Line}
use latentred.Prelude.{ℕ, ◌≡◌, Bool, List, [], ◌∷◌, ◌++◌, Option}
use latentred.Prelude.CString.{bytes}

-- g_ipConfig
pub record IpConfig : Type 0 where
  pub address : ℕ
  pub netmask : ℕ
  pub broadcast : ℕ
  pub gateway : ℕ

-- the library functions that print to the session
pub data Report : Type 0 where
  flash_summary ip_address default_route ntp_status ssh_keys ssh_host_key processor_info : Report
  bridge_fpga_info main_fpga_info : Report
  flash_details : List ℕ → Report
  removed_flash_key : List ℕ → Report
  set_ip : List ℕ → Report

-- one row of `show interface status`
pub record PortRow : Type 0 where
  pub ifname : List ℕ
  pub friendly_name : List ℕ
  pub link_up : Bool
  pub vlan : ℕ
  pub full_duplex : Bool
  pub speed : ℕ  -- printed by its name in g_linkSpeedNamesLong
  pub port_type : String

-- What a command writes: texts, calls of a printing function, rows, flushes and log lines.
pub data Output : Type 0 where
  printf : String → Output
  prompt : (username hostname : List ℕ) → Output
  report : Report → Output
  port_row : PortRow → Output
  sensor_line : Line → Output
  flush : Output
  log : String → Output
  log_error : String → Output

-- The operations of the code outside; `W` is all of its state.
pub record World (W : Type 0) : Type 0 where
  -- FindObject and MapObject: the bytes of an object, `m_len` of them
  pub find_object : W → List ℕ → Option (List ℕ)
  -- StoreStringObjectIfNecessary(key, value, default)
  pub store_string : List ℕ → List ℕ → List ℕ → W → Bool × W
  -- StoreObjectIfNecessary<IPv4Address>(value, default, key)
  pub store_address : ℕ → ℕ → List ℕ → W → Bool × W
  pub compact : W → Bool × W
  pub wipe_all : W → W
  pub remove_flash_key : List ℕ → W → W
  pub commit_keys : W → W
  pub load_keys : W → W
  pub add_public_key : List ℕ → List ℕ → List ℕ → W → W
  -- RemovePublicKey(slot): the sign and the magnitude of the slot
  pub remove_public_key : Bool × ℕ → W → W
  pub ntp_enable : W → W
  pub ntp_disable : W → W
  pub ntp_set_server : ℕ → W → W
  pub ntp_save : W → W
  pub ntp_load : W → W
  -- ParseIPAddress(text, out): whether it succeeds, and what `out` then holds
  pub parse_ip : List ℕ → ℕ → Bool × ℕ
  -- SetIPAddress and ConfigureIP write g_ipConfig
  pub set_ip_address : List ℕ → IpConfig → W → IpConfig × W
  pub configure_ip : IpConfig → W → IpConfig × W
  -- GracefulDisconnect(session, socket)
  pub disconnect : ℕ → W → W
  -- g_defaultIP and so on
  pub default_config : IpConfig

-- What a session works on: the outside, its own `m_hostname` (char[33]), the global `g_sshUsername`
-- (char[32]) and `g_ipConfig`, what was written, and whether `Reset` was called.
pub record System (W : Type 0) : Type 0 where
  pub world : W
  pub hostname : List ℕ
  pub ssh_username : List ℕ
  pub ip : IpConfig
  pub out : List Output
  pub reset_requested : Bool

-- Members of a session that commands only read.
pub record Session : Type 0 where
  pub root_mode : Bool  -- m_rootCommands == g_rootCommands
  pub over_ssh : Bool  -- m_stream == &m_sshstream
  pub id : ℕ
  pub username : List ℕ

module _ {W : Type 0} where
  abbrev pub say : Output → System W → System W
  say o s = record s { out = s.out ++ o ∷ [] }

  abbrev pub on_world : (W → W) → System W → System W
  on_world f s = record s { world = f s.world }

-- A step that may only print.
pub record OnlyPrints {W : Type 0} (f : System W → System W) : Type 0 where
  pub world_kept : (s : System W) → (f s).world ≡ s.world
  pub hostname_kept : (s : System W) → (f s).hostname ≡ s.hostname
  pub username_kept : (s : System W) → (f s).ssh_username ≡ s.ssh_username
  pub ip_kept : (s : System W) → (f s).ip ≡ s.ip
  pub reset_kept : (s : System W) → (f s).reset_requested ≡ s.reset_requested

abbrev pub hostname_objid : List ℕ
hostname_objid = bytes "hostname"

abbrev pub username_objid : List ℕ
username_objid = bytes "ssh.username"

abbrev pub default_hostname : List ℕ
default_hostname = bytes "switch"

abbrev pub default_ssh_username : List ℕ
default_ssh_username = bytes "admin"
