-- ===== src/Boot/Flash.antt =====
-- The address mode of the FPGA's configuration flash.
use latentred.Prelude.{ℕ, ◌≡◌, List, arith}
use latentred.Platform.{Constants}
use latentred.Boot.{Devices, Board}
use latentred.Boot.Bsp.{init_fpga_flash}

-- What the flash chip documents of its nonvolatile configuration register: a write is read back, a
-- read changes nothing, and neither does the check of the parameter table.
pub record IsConfigurable {B : Type 0} (d : Devices B) : Type 0 where
  pub written : (v : ℕ) (b : B) → (d.nvcr (d.write_nvcr v b)).0 ≡ v
  pub read_only : (b : B) → (d.nvcr b).1 ≡ b
  pub status_only : (b : B) → (d.status_register b).1 ≡ b
  pub test_only : (b : B) → d.sfdp_test b ≡ b

module _ {B M : Type 0} (d : Devices B) (k : Constants) (free : M)
    (printf : List ℕ → List ℕ → List ℕ) (chip : IsConfigurable d) where
  -- The setup leaves the register at 0xffff, which selects addresses of three bytes, and does not
  -- write to a chip that has this value already; a second setup leaves the chip as it is. The chip
  -- is one that reads back what is written and is not changed by reads or by the check of its table.
  pub init_fpga_flash_settles :
      (b : Board B M)
      → let once = init_fpga_flash d k free printf b in
        ((d.nvcr once.devices).0 ≡ 0xffff)
        × ((d.nvcr b.devices).0 ≡ 0xffff → once.devices ≡ b.devices)
        × ((init_fpga_flash d k free printf once).devices ≡ once.devices)
  unfolding init_fpga_flash
  init_fpga_flash_settles b =
      grind (arith, chip.written, chip.read_only, chip.status_only, chip.test_only)
