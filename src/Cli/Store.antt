-- ===== src/Cli/Store.antt =====
-- What the command line relies on of the flash store (microkvs) and of the services that keep
-- objects there.
use latentred.Prelude.{ℕ, ◌≡◌, ◌≢◌, ◌⊎◌, Bool, true, List, none, some}
use latentred.Prelude.CString.{c_str}
use latentred.Cli.System.{IpConfig, World, hostname_objid, username_objid}

-- What the flash store and its neighbours document. A string store that succeeds leaves the value
-- readable, or leaves no object if the value is the default; other objects are never touched, nor are
-- these two by the services that keep objects of their own.
pub record IsStore {W : Type 0} (w : World W) : Type 0 where
  pub stored :
      (key cur preset : List ℕ) (s : W)
      → (w.store_string key cur preset s).0 ≡ true
      → (w.find_object (w.store_string key cur preset s).1 key ≡ some cur)
        ⊎ ((w.find_object (w.store_string key cur preset s).1 key ≡ none) × (cur ≡ preset))
  pub string_apart :
      (key cur preset other : List ℕ) (s : W)
      → other ≢ key
      → w.find_object (w.store_string key cur preset s).1 other ≡ w.find_object s other
  pub address_apart :
      (cur preset : ℕ) (key other : List ℕ) (s : W)
      → other ≢ key
      → w.find_object (w.store_address cur preset key s).1 other ≡ w.find_object s other

-- The names of the two string objects of this program: those that the services leave alone.
pub data OwnKey : List ℕ → Type 0 where
  hostname : OwnKey hostname_objid
  username : OwnKey username_objid

pub record LeavesStrings {W : Type 0} (w : World W) : Type 0 where
  pub commit_keys :
      (key : List ℕ) (s : W)
      → OwnKey key
      → w.find_object (w.commit_keys s) key ≡ w.find_object s key
  pub load_keys :
      (key : List ℕ) (s : W) → OwnKey key → w.find_object (w.load_keys s) key ≡ w.find_object s key
  pub ntp_save :
      (key : List ℕ) (s : W) → OwnKey key → w.find_object (w.ntp_save s) key ≡ w.find_object s key
  pub ntp_load :
      (key : List ℕ) (s : W) → OwnKey key → w.find_object (w.ntp_load s) key ≡ w.find_object s key
  pub configure_ip :
      (key : List ℕ) (c : IpConfig) (s : W)
      → OwnKey key
      → w.find_object (w.configure_ip c s).1 key ≡ w.find_object s key

-- RemoveFlashKey reports no failure to its caller, and a removal is taken to succeed: a removed
-- object is gone, a wiped store is empty, and no other operation touches the two strings.
pub record KeepsNames {W : Type 0} (w : World W) : Type 0 where
  pub removed : (key : List ℕ) (s : W) → w.find_object (w.remove_flash_key key s) (c_str key) ≡ none
  pub removed_apart :
      (key other : List ℕ) (s : W)
      → other ≢ c_str key
      → w.find_object (w.remove_flash_key key s) other ≡ w.find_object s other
  pub wiped : (key : List ℕ) (s : W) → w.find_object (w.wipe_all s) key ≡ none
  pub compacted : (key : List ℕ) (s : W) → w.find_object (w.compact s).1 key ≡ w.find_object s key
  pub ssh_added :
      (key type' blob description : List ℕ) (s : W)
      → OwnKey key
      → w.find_object (w.add_public_key type' blob description s) key ≡ w.find_object s key
  pub ssh_removed :
      (key : List ℕ) (slot : Bool × ℕ) (s : W)
      → OwnKey key
      → w.find_object (w.remove_public_key slot s) key ≡ w.find_object s key
  pub ntp_on :
      (key : List ℕ) (s : W) → OwnKey key → w.find_object (w.ntp_enable s) key ≡ w.find_object s key
  pub ntp_off :
      (key : List ℕ) (s : W)
      → OwnKey key
      → w.find_object (w.ntp_disable s) key ≡ w.find_object s key
  pub ntp_server :
      (key : List ℕ) (a : ℕ) (s : W)
      → OwnKey key
      → w.find_object (w.ntp_set_server a s) key ≡ w.find_object s key
  pub ip_set :
      (key text : List ℕ) (ip : IpConfig) (s : W)
      → OwnKey key
      → w.find_object (w.set_ip_address text ip s).1 key ≡ w.find_object s key
  pub disconnected :
      (key : List ℕ) (id : ℕ) (s : W)
      → OwnKey key
      → w.find_object (w.disconnect id s) key ≡ w.find_object s key
