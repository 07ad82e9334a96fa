-- ===== src/Samples.antt =====
-- Concrete parts for the examples: constants, a flash store and the other services outside the
-- repository, each by a small function that keeps what it documents.
pub mod Boards
pub mod Lines
pub mod Quiet
pub mod Keys
use latentred.Prelude.{
  ℕ, ◌≡◌, ◌≢◌, inl, refl, ap, true, false, List, [], ◌∷◌, ◌++◌, Option, none, some, arith, length,
  if◌then◌else◌,
}
use latentred.Prelude.CString.{zeroed, bytes, c_str, list_eq, list_eq_iff}
use latentred.Platform.{Constants}
use latentred.Port.{InterfaceState}
use latentred.Cli.System.{IpConfig, World, System, Session}
use latentred.Cli.Addresses.{or_default, StoresAddresses}
use latentred.Cli.Buffers.{NamesOk}
use latentred.Cli.Store.{KeepsNames, IsStore, LeavesStrings}

abbrev pub constants : Constants
constants = record {
  reg_basic_control = 0;
  reg_basic_status = 1;
  reg_vsc8512_aux_ctrl_stat = 28;
  reg_vsc8512_led_mode = 29;
  link_speed_10m = 0;
  link_speed_1000m = 2;
  link_speed_10g = 3;
}

-- A port whose link is down.
abbrev pub port : InterfaceState
port = record {
  link_up = false;
  full_duplex = true;
  speed = 0;
  autoneg = true;
  ifname = bytes "g0/5" ++ zeroed 12;
  friendly_name = zeroed 32;
}

-- A flash store: the object under each name.
abbrev pub Flash : Type 0
Flash = List ℕ → Option (List ℕ)

abbrev pub put : List ℕ → List ℕ → Flash → Flash
put key value s other = if list_eq other key then some value else s other

abbrev pub lan : IpConfig
lan = record { address = 10; netmask = 255; broadcast = 63; gateway = 1 }

-- the address in an object
abbrev pub first : Option (List ℕ) → Option ℕ
first (some (a ∷ rest)) = some a
first _ = none

abbrev pub read_address : Flash → List ℕ → Option ℕ
read_address s key = first (s key)

-- ConfigureIP: each address from its object
abbrev pub load_ip : Flash → IpConfig
load_ip s = record {
  address = or_default lan.address (read_address s (bytes "ip.address"));
  netmask = or_default lan.netmask (read_address s (bytes "ip.netmask"));
  broadcast = or_default lan.broadcast (read_address s (bytes "ip.broadcast"));
  gateway = or_default lan.gateway (read_address s (bytes "ip.gateway"));
}

abbrev pub world : World Flash
world = record {
  find_object = λ s key. s key;
  store_string = λ key cur preset s. (true, put key cur s);
  store_address = λ cur preset key s. (true, put key (cur ∷ []) s);
  compact = λ s. (true, s);
  wipe_all = λ s key. none;
  remove_flash_key = λ key s other. if list_eq other (c_str key) then none else s other;
  commit_keys = λ s. s;
  load_keys = λ s. s;
  add_public_key = λ type' blob description s. s;
  remove_public_key = λ slot s. s;
  ntp_enable = λ s. s;
  ntp_disable = λ s. s;
  ntp_set_server = λ server s. s;
  ntp_save = λ s. s;
  ntp_load = λ s. s;
  parse_ip = λ text out. (true, length text);
  set_ip_address = λ text ip s. (ip, s);
  configure_ip = λ ip s. (load_ip s, s);
  disconnect = λ id s. s;
  default_config = lan;
}

pub put_same : (key value : List ℕ) (s : Flash) → put key value s key ≡ some value
put_same key value s = ground (arith, list_eq_iff key key)

pub put_other :
    (key value other : List ℕ) (s : Flash) → other ≢ key → put key value s other ≡ s other
put_other key value other s apart = ground (arith, list_eq_iff other key)

pub world-IsStore : IsStore world
world-IsStore = record {
  stored = λ key cur preset s done. inl (put_same key cur s);
  string_apart = λ key cur preset other s apart. put_other key cur other s apart;
  address_apart = λ cur preset key other s apart. put_other key (cur ∷ []) other s apart;
}

pub world-LeavesStrings : LeavesStrings world
world-LeavesStrings = record {
  commit_keys = λ key s own. refl;
  load_keys = λ key s own. refl;
  ntp_save = λ key s own. refl;
  ntp_load = λ key s own. refl;
  configure_ip = λ key c s own. refl;
}

pub world-StoresAddresses : StoresAddresses world read_address
world-StoresAddresses = record {
  stored = λ cur preset key s done. rw (put_same key (cur ∷ []) s) refl;
  apart = λ cur preset key other s ne. ap first (put_other key (cur ∷ []) other s ne);
  load_keys = λ key s own. refl;
  ntp_load = λ key s own. refl;
  configured = λ c s. refl;
}

pub world-KeepsNames : KeepsNames world
world-KeepsNames = record {
  removed = λ key s. ground (arith, list_eq_iff (c_str key) (c_str key));
  removed_apart = λ key other s apart. ground (arith, list_eq_iff other (c_str key));
  wiped = λ key s. refl;
  compacted = λ key s. refl;
  ssh_added = λ key type' blob description s own. refl;
  ssh_removed = λ key slot s own. refl;
  ntp_on = λ key s own. refl;
  ntp_off = λ key s own. refl;
  ntp_server = λ key a s own. refl;
  ip_set = λ key text ip s own. refl;
  disconnected = λ key id s own. refl;
}

-- A session in root mode on the serial port.
abbrev pub session : Session
session = record { root_mode = true; over_ssh = false; id = 0; username = bytes "admin" }

abbrev pub lab : System Flash
lab = record {
  world = λ key. none;
  hostname = bytes "lab" ++ zeroed 30;
  ssh_username = bytes "root" ++ zeroed 28;
  ip = lan;
  out = [];
  reset_requested = false;
}

pub lab-NamesOk : NamesOk lab
lab-NamesOk = record {
  hostname_ok = record { sized = refl; nul = refl };
  username_ok = record { sized = refl; nul = refl };
}
