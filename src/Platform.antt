-- ===== src/Platform.antt =====
-- What the firmware takes from code outside this repository: register numbers and speeds of the
-- network stack's headers, the cooperative mutex, and the MDIO transceiver's registers.
use latentred.Prelude.{ℕ, ◌≡◌, refl, Bool, true, false, arith}

-- Constants of the included headers, with the values left open.
pub record Constants : Type 0 where
  pub reg_basic_control : ℕ
  pub reg_basic_status : ℕ
  pub reg_vsc8512_aux_ctrl_stat : ℕ
  pub reg_vsc8512_led_mode : ℕ
  pub link_speed_10m : ℕ
  pub link_speed_1000m : ℕ
  pub link_speed_10g : ℕ

-- embedded-utils/CooperativeMutex.h: `TryLock` and `Unlock` of a mutex whose states are `M`.
pub record CooperativeMutex (M : Type 0) : Type 0 where
  pub try_lock : M → Bool × M
  pub unlock : M → M
  pub locked : M → Bool

-- What the class documents: a lock of a free mutex succeeds, a lock of a taken one fails and changes
-- nothing, and a release frees it.
pub record IsMutex {M : Type 0} (x : CooperativeMutex M) : Type 0 where
  pub lock_free :
      (m : M) → x.locked m ≡ false → ((x.try_lock m).0 ≡ true) × (x.locked (x.try_lock m).1 ≡ true)
  pub lock_taken : (m : M) → x.locked m ≡ true → ((x.try_lock m).0 ≡ false) × ((x.try_lock m).1 ≡ m)
  pub unlock_frees : (m : M) → x.locked (x.unlock m) ≡ false

-- What one pass over the task list reads from the transceiver's `status` and `data` registers.
pub record Mdio : Type 0 where
  pub status : ℕ
  pub value : ℕ

-- A mutex that is one flag, to show that the hypotheses can be met.
abbrev pub flag_mutex : CooperativeMutex Bool
flag_mutex = record {
  try_lock = λ m. elim m [ true ↦ (false, true) | false ↦ (true, true) ];
  unlock = λ m. false;
  locked = λ m. m;
}

flag_lock_free :
    (m : Bool)
    → flag_mutex.locked m ≡ false
    → ((flag_mutex.try_lock m).0 ≡ true) × (flag_mutex.locked (flag_mutex.try_lock m).1 ≡ true)
flag_lock_free m h = ground arith

flag_lock_taken :
    (m : Bool)
    → flag_mutex.locked m ≡ true
    → ((flag_mutex.try_lock m).0 ≡ false) × ((flag_mutex.try_lock m).1 ≡ m)
flag_lock_taken m h = ground arith

pub flag_mutex-IsMutex : IsMutex flag_mutex
flag_mutex-IsMutex = record {
  lock_free = flag_lock_free;
  lock_taken = flag_lock_taken;
  unlock_frees = λ m. refl;
}
