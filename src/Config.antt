-- ===== src/Config.antt =====
-- firmware/lcbringup/staticnet-config.h: the sizes that the firmware gives to the network stack.
use latentred.Prelude.{ℕ, Bool, true, false}

pub record StackConfig : Type 0 where
  pub ethernet_payload_mtu : ℕ
  pub zeroize_buffers_before_use : Bool
  pub performance_counters : Bool
  pub arp_cache_ways : ℕ
  pub arp_cache_lines : ℕ
  pub tcp_table_ways : ℕ
  pub tcp_table_lines : ℕ
  pub ssh_table_size : ℕ
  pub ssh_rx_buffer_size : ℕ
  pub cli_tx_buffer_size : ℕ
  pub ssh_max_username : ℕ
  pub cli_username_max : ℕ
  pub ssh_max_password : ℕ
  pub max_scpi_conns : ℕ
  pub scpi_rx_buffer_size : ℕ
  pub apb_tx_bufcount : ℕ
  pub apb_rx_bufcount : ℕ
  pub sftp_max_requests : ℕ
  pub tcp_max_unacked : ℕ
  pub tcp_retransmit_timeout : ℕ  -- in ticks of 100 ms
  pub udp_v4_checksum_offload : Bool
  pub tcp_v4_checksum_offload : Bool
  pub apb64_tx : Bool

-- SSH_MAX_USERNAME and APB_TX_BUFCOUNT, which two other constants are defined by
abbrev ssh_max_username : ℕ
ssh_max_username = 32

abbrev apb_tx_bufcount : ℕ
apb_tx_bufcount = 24

-- a flag that is commented out is false
abbrev pub stack_config : StackConfig
stack_config = record {
  ethernet_payload_mtu = 1500;
  zeroize_buffers_before_use = false;
  performance_counters = true;
  arp_cache_ways = 4;
  arp_cache_lines = 256;
  tcp_table_ways = 2;
  tcp_table_lines = 16;
  ssh_table_size = 2;
  ssh_rx_buffer_size = 2048;
  cli_tx_buffer_size = 1024;
  ssh_max_username = ssh_max_username;
  cli_username_max = ssh_max_username;
  ssh_max_password = 128;
  max_scpi_conns = 2;
  scpi_rx_buffer_size = 2048;
  apb_tx_bufcount = apb_tx_bufcount;
  apb_rx_bufcount = 2;
  sftp_max_requests = 20;
  tcp_max_unacked = apb_tx_bufcount;
  tcp_retransmit_timeout = 2;
  udp_v4_checksum_offload = false;
  tcp_v4_checksum_offload = false;
  apb64_tx = false;
}
