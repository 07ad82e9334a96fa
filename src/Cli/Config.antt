-- ===== src/Cli/Config.antt =====
-- LatentRedCLISessionContext.cpp: the commands that load, change, save and revert the configuration.
use latentred.Prelude.{ℕ, suc, Bool, true, List, Option, none, some, min, length, if◌then◌else◌}
use latentred.Prelude.CString.{bytes, c_str, strncpy, zeroed, atoi}
use latentred.Cli.Grammar.{
  CommandId, cmd_address, cmd_flash, cmd_gateway, cmd_key, cmd_ntp, cmd_ssh, cmd_username, Token,
}
use latentred.Cli.System.{
  removed_flash_key, set_ip, printf, report, log, World, System, say, on_world, hostname_objid,
  username_objid, default_hostname, default_ssh_username,
}

-- The array of `last + 1` bytes that a load leaves: zeroed, then a copy of the stored object or of the
-- preset that stands in for it.
abbrev pub stored_or : ℕ → List ℕ → Option (List ℕ) → List ℕ
stored_or last preset none = strncpy (zeroed (suc last)) preset last
stored_or last preset (some obj) = strncpy (zeroed (suc last)) obj (min (length obj) last)

module _ {W : Type 0} (w : World W) where
  unfoldable pub load_hostname : System W → System W
  load_hostname s = record s {
    hostname = stored_or 32 default_hostname (w.find_object s.world hostname_objid);
  }

  -- LatentRedSSHTransportServer::LoadUsername
  unfoldable pub load_username : System W → System W
  load_username s = record s {
    ssh_username = stored_or 31 default_ssh_username (w.find_object s.world username_objid);
  }

  -- `if(!store) Printf("KVS write error\n")`
  unfoldable pub checked : (W → Bool × W) → System W → System W
  checked store s =
      let (done, world) = store s.world in
      let t = record s { world = world } in if done then t else say (printf "KVS write error\n") t

  unfoldable pub on_commit : System W → System W
  on_commit s =
      let s1 = checked (w.store_string hostname_objid (c_str s.hostname) default_hostname) s in
      let s2 =
        checked (w.store_string username_objid (c_str s.ssh_username) default_ssh_username) s1 in
      let s3 = on_world w.ntp_save (on_world w.commit_keys s2) in
      let d = w.default_config in
      let s4 = checked (w.store_address s.ip.address d.address (bytes "ip.address")) s3 in
      let s5 = checked (w.store_address s.ip.netmask d.netmask (bytes "ip.netmask")) s4 in
      let s6 = checked (w.store_address s.ip.broadcast d.broadcast (bytes "ip.broadcast")) s5 in
      checked (w.store_address s.ip.gateway d.gateway (bytes "ip.gateway")) s6

  unfoldable pub configure_ip : System W → System W
  configure_ip s =
      let (ip, world) = w.configure_ip s.ip s.world in record s { ip = ip; world = world }

  unfoldable pub on_rollback : System W → System W
  unfolding load_hostname load_username configure_ip
  on_rollback s =
      load_username (load_hostname (configure_ip (on_world w.ntp_load (on_world w.load_keys s))))

  -- Reset() restarts the processor; here it is recorded, and ends no run
  unfoldable pub on_reload : System W → System W
  on_reload s = record (say (log "Reload requested\n") s) { reset_requested = true }

  -- "hostname"
  unfoldable pub set_hostname : List ℕ → System W → System W
  set_hostname name s = record s { hostname = strncpy (zeroed 33) name 32 }

  -- "ssh username": a long name is cut
  unfoldable pub set_ssh_username : List ℕ → System W → System W
  set_ssh_username name s = record s { ssh_username = strncpy s.ssh_username name 31 }

  -- "ip": `SetIPAddress` prints its own errors
  unfoldable pub on_ip_address : List ℕ → System W → System W
  on_ip_address addr s =
      let (ip, world) = w.set_ip_address addr s.ip s.world in
      say (report (set_ip addr)) (record s { ip = ip; world = world })

  -- `ParseIPAddress` writes into the configuration, also where it fails
  unfoldable pub on_ip_gateway : List ℕ → System W → System W
  on_ip_gateway gw s =
      let (done, gateway) = w.parse_ip gw s.ip.gateway in
      let t = record s { ip = record (s.ip) { gateway = gateway } } in
      if done then t else say (printf "Usage: ip gateway x.x.x.x\n") t

  unfoldable pub on_ip_command : CommandId → Token → System W → System W
  unfolding on_ip_address on_ip_gateway
  on_ip_command cmd_address t s = on_ip_address t.text s
  on_ip_command cmd_gateway t s = on_ip_gateway t.text s
  on_ip_command _ t s = say (printf "Unrecognized command\n") s

  -- "ntp server": `iaddr` is a local, here 0 before it is parsed
  unfoldable pub on_ntp_server : List ℕ → System W → System W
  on_ntp_server addr s =
      let (done, iaddr) = w.parse_ip addr 0 in
      if done
      then on_world (w.ntp_set_server iaddr) (on_world w.ntp_enable s)
      else say (printf "Usage: ntp server x.x.x.x\n") s

  -- "no"
  unfoldable pub on_no_ssh_command : CommandId → Token → System W → System W
  on_no_ssh_command cmd_key t s = on_world (w.remove_public_key (atoi t.text)) s
  on_no_ssh_command _ t s = s

  unfoldable pub on_no_command : CommandId → Token → Token → System W → System W
  unfolding on_no_ssh_command
  on_no_command cmd_flash t2 t3 s =
      say (report (removed_flash_key t2.text)) (on_world (w.remove_flash_key t2.text) s)
  on_no_command cmd_ntp t2 t3 s = on_world w.ntp_disable s
  on_no_command cmd_ssh t2 t3 s = on_no_ssh_command t2.command_id t3 s
  on_no_command _ t2 t3 s = s

  -- "ssh"
  unfoldable pub on_ssh_command : CommandId → Token → Token → Token → System W → System W
  unfolding set_ssh_username
  on_ssh_command cmd_key t2 t3 t4 s = on_world (w.add_public_key t2.text t3.text t4.text) s
  on_ssh_command cmd_username t2 t3 t4 s = set_ssh_username t2.text s
  on_ssh_command _ t2 t3 t4 s = say (printf "Unrecognized command\n") s
