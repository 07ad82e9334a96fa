-- ===== src/Cli/Grammar.antt =====
-- LatentRedCLISessionContext.cpp, lines 40-292: the command identifiers and the keyword tables. A row
-- holds its keyword, its identifier and the table of the keywords that may follow; the help texts are
-- left out.
use Prim.Native.String.{String}
use latentred.Prelude.{ℕ, ◌≡◌, ◌⊎◌, List, [], ◌∷◌}

-- enum cmdid_t, with the three identifiers that CLISessionContext.h reserves
pub data CommandId : Type 0 where
  cmd_address cmd_arp cmd_authorized cmd_cache cmd_commit cmd_compact cmd_detail cmd_exit :
      CommandId
  cmd_fingerprint cmd_flash cmd_gateway cmd_hardware cmd_hostname cmd_interface cmd_ip : CommandId
  cmd_key cmd_keys cmd_no cmd_ntp cmd_rescan cmd_reload cmd_rollback cmd_route cmd_server :
      CommandId
  cmd_show cmd_ssh cmd_ssh_ed25519 cmd_status cmd_username cmd_version cmd_zeroize : CommandId
  invalid_command freeform_token optional_token : CommandId

-- clikeyword_t arrays: `null` is the null pointer, `last` the row that ends an array.
pub data Table : Type 0 where
  null last : Table
  row : String → CommandId → Table → Table → Table

abbrev pub flash_commands : Table
flash_commands = row "compact" cmd_compact null last

abbrev pub hostname_commands : Table
hostname_commands = row "<string>" freeform_token null last

abbrev pub ip_address_commands : Table
ip_address_commands = row "<address>" freeform_token null last

abbrev pub ip_gateway_commands : Table
ip_gateway_commands = row "<address>" freeform_token null last

abbrev pub ip_commands : Table
ip_commands =
    row "address" cmd_address ip_address_commands
      (row "gateway" cmd_gateway ip_gateway_commands last)

abbrev pub no_ssh_key_commands : Table
no_ssh_key_commands = row "<slot>" freeform_token null last

abbrev pub no_ssh_commands : Table
no_ssh_commands = row "key" cmd_key no_ssh_key_commands last

abbrev pub no_flash_commands : Table
no_flash_commands = row "<key>" freeform_token null last

abbrev pub no_commands : Table
no_commands =
    row "flash" cmd_flash no_flash_commands
      (row "ntp" cmd_ntp null (row "ssh" cmd_ssh no_ssh_commands last))

-- no table names this one
abbrev pub show_arp_commands : Table
show_arp_commands = row "cache" cmd_cache null last

abbrev pub show_ip_commands : Table
show_ip_commands = row "address" cmd_address null (row "route" cmd_route null last)

abbrev pub show_ssh_authorized : Table
show_ssh_authorized = row "keys" cmd_keys null last

abbrev pub show_ssh_commands : Table
show_ssh_commands =
    row "authorized" cmd_authorized show_ssh_authorized
      (row "fingerprint" cmd_fingerprint null last)

abbrev pub show_flash_detail_commands : Table
show_flash_detail_commands = row "<objname>" freeform_token null last

abbrev pub show_flash_commands : Table
show_flash_commands =
    row "<cr>" optional_token null (row "detail" cmd_detail show_flash_detail_commands last)

abbrev pub show_interface_commands : Table
show_interface_commands = row "status" cmd_status null last

abbrev pub show_commands : Table
show_commands = row "flash" cmd_flash show_flash_commands (
    row "hardware" cmd_hardware null (
      row "interface" cmd_interface show_interface_commands (
        row "ip" cmd_ip show_ip_commands (
          row "ntp" cmd_ntp null
            (row "ssh" cmd_ssh show_ssh_commands (row "version" cmd_version null last))))))

abbrev pub ssh_commands_description : Table
ssh_commands_description = row "<description>" freeform_token null last

abbrev pub ssh_commands_blob : Table
ssh_commands_blob = row "<blob>" freeform_token ssh_commands_description last

abbrev pub ssh_commands_type : Table
ssh_commands_type = row "ssh-ed25519" cmd_ssh_ed25519 ssh_commands_blob last

abbrev pub ssh_commands_username : Table
ssh_commands_username = row "<username>" freeform_token null last

abbrev pub ssh_commands : Table
ssh_commands =
    row "key" cmd_key ssh_commands_type (row "username" cmd_username ssh_commands_username last)

abbrev pub ntp_server_commands : Table
ntp_server_commands = row "<ip>" freeform_token null last

abbrev pub ntp_commands : Table
ntp_commands = row "server" cmd_server ntp_server_commands last

abbrev pub zeroize_commands : Table
zeroize_commands = row "all" freeform_token null last

abbrev pub root_commands : Table
root_commands = row "commit" cmd_commit null (
    row "exit" cmd_exit null (
      row "flash" cmd_flash flash_commands (
        row "hostname" cmd_hostname hostname_commands (
          row "ip" cmd_ip ip_commands (
            row "no" cmd_no no_commands (
              row "ntp" cmd_ntp ntp_commands (
                row "reload" cmd_reload null (
                  row "rollback" cmd_rollback null (
                    row "show" cmd_show show_commands (
                      row "ssh" cmd_ssh ssh_commands
                        (row "zeroize" cmd_zeroize zeroize_commands last)))))))))))

-- one entry of `m_command`: the identifier and the text of a token
pub record Token : Type 0 where
  pub command_id : CommandId
  pub text : List ℕ

-- A command that the tables describe: its tokens take a row each, down to a row that nothing follows.
abbrev pub Follows : Table → List Token → Type 0
Follows null [] = Unit
Follows null (t ∷ ts) = ⊥
Follows last ts = ⊥
Follows (row word id below rest) [] = ⊥
Follows (row word id below rest) (t ∷ ts) =
    (t.command_id ≡ id) × Follows below ts ⊎ Follows rest (t ∷ ts)
