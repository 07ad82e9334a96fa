-- ===== src/Cli/Show.antt =====
-- LatentRedCLISessionContext.cpp: the "show" commands.
use latentred.Prelude.{ℕ, zero, suc, List, [], ◌∷◌, ◌++◌}
use latentred.Prelude.CString.{c_str}
use latentred.Port.{InterfaceState}
use latentred.Cli.Grammar.{
  CommandId, cmd_address, cmd_flash, cmd_ntp, cmd_ssh, cmd_ip, cmd_hardware, cmd_interface,
  cmd_status, cmd_route, cmd_authorized, cmd_fingerprint, cmd_version, optional_token, Token,
}
use latentred.Cli.System.{
  flash_summary, flash_details, ip_address, default_route, ntp_status, ssh_keys, ssh_host_key,
  processor_info, bridge_fpga_info, main_fpga_info, PortRow, Output, printf, report, port_row,
  System, say,
}

-- The row of one port; every port is printed in VLAN 1.
unfoldable pub row_of : InterfaceState → PortRow
row_of p = record {
  ifname = c_str p.ifname;
  friendly_name = c_str p.friendly_name;
  link_up = p.link_up;
  vlan = 1;
  full_duplex = p.full_duplex;
  speed = p.speed;
  port_type = "10/100/1000baseT";
}

-- the inner loop, from port `i` over the next `n`
abbrev pub card_rows : (ℕ → InterfaceState) → ℕ → ℕ → List PortRow
card_rows ports i zero = []
card_rows ports i (suc n) = row_of (ports i) ∷ card_rows ports (suc i) n

-- the outer loop, from card `c` over the next `n`
abbrev pub all_rows : (ℕ → ℕ → InterfaceState) → ℕ → ℕ → List PortRow
all_rows ports c zero = []
all_rows ports c (suc n) = card_rows (ports c) 0 24 ++ all_rows ports (suc c) n

abbrev pub rows_out : List PortRow → List Output
rows_out [] = []
rows_out (r ∷ rs) = port_row r ∷ rows_out rs

abbrev rule : Output
rule =
    printf
      "-----------------------------------------------------------------------------------------------------------\n"

module _ {W : Type 0} where
  abbrev pub say_all : List Output → System W → System W
  say_all os s = record s { out = s.out ++ os }

  unfoldable pub on_show_interface_status : (ℕ → ℕ → InterfaceState) → System W → System W
  unfolding row_of
  on_show_interface_status ports s =
      say_all
        (rule
          ∷ printf
              "Port     Name                             Status            Vlan     Duplex      Speed                 Type\n"
          ∷ rule
          ∷ rows_out (all_rows ports 0 2))
        s

  unfoldable pub on_show_flash : CommandId → List ℕ → System W → System W
  on_show_flash optional_token name s = say (report flash_summary) s
  on_show_flash _ name s = say (report (flash_details name)) s

  -- `line_card` is `PrintLineCardInfo(0, g_macI2C)`, which Sensors models.
  unfoldable pub on_show_hardware : (System W → System W) → System W → System W
  on_show_hardware line_card s = line_card (
      say_all
        (report processor_info
          ∷ printf "\n"
          ∷ printf "Bridge FPGA:\n"
          ∷ report bridge_fpga_info
          ∷ printf "\n"
          ∷ printf "Main FPGA:\n"
          ∷ report main_fpga_info
          ∷ printf "\n"
          ∷ [])
        s)

  -- What the compiler fills in, its version and the times, is left as the format.
  unfoldable pub on_show_version : System W → System W
  on_show_version s =
      say_all
        (printf "LATENTRED v0.1\n"
          ∷ printf "by Andrew D. Zonenberg\n"
          ∷ printf "\n"
          ∷ printf
              "This system is open hardware! Board design files and firmware/gateware source code are at:\n"
          ∷ printf "https://github.com/azonenberg/latentred\n"
          ∷ printf "\n"
          ∷ printf "Firmware compiled at %s on %s\n"
          ∷ printf "Compiler: g++ %s\n"
          ∷ printf "CLI source code last modified: %s\n"
          ∷ [])
        s

  abbrev show_interface : CommandId → (ℕ → ℕ → InterfaceState) → System W → System W
  show_interface cmd_status ports s = on_show_interface_status ports s
  show_interface _ ports s = s

  abbrev show_ip : CommandId → System W → System W
  show_ip cmd_address s = say (report ip_address) s
  show_ip cmd_route s = say (report default_route) s
  show_ip _ s = s

  abbrev show_ssh : CommandId → System W → System W
  show_ssh cmd_authorized s = say (report ssh_keys) s
  show_ssh cmd_fingerprint s = say (report ssh_host_key) s
  show_ssh _ s = s

  abbrev pub show :
      (ℕ → ℕ → InterfaceState)
      → (System W → System W)
      → CommandId
      → (ℕ → Token)
      → System W
      → System W
  show ports line_card cmd_flash m s = on_show_flash (m 2).command_id (m 3).text s
  show ports line_card cmd_hardware m s = on_show_hardware line_card s
  show ports line_card cmd_interface m s = show_interface (m 2).command_id ports s
  show ports line_card cmd_ip m s = show_ip (m 2).command_id s
  show ports line_card cmd_ntp m s = say (report ntp_status) s
  show ports line_card cmd_ssh m s = show_ssh (m 2).command_id s
  show ports line_card cmd_version m s = on_show_version s
  show ports line_card _ m s = say (printf "Unrecognized command\n") s

  unfoldable pub on_show_command :
      (ℕ → ℕ → InterfaceState) → (System W → System W) → (ℕ → Token) → System W → System W
  unfolding on_show_flash on_show_hardware on_show_interface_status on_show_version
  on_show_command ports line_card m s = show ports line_card (m 1).command_id m s
