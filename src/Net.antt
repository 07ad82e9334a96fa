-- ===== src/Net.antt =====
-- firmware/lcbringup/main/LatentRedTCPProtocol.cpp and LatentRedUDPProtocol.cpp: which service gets
-- the events of a port.
pub mod Services
use latentred.Prelude.{ℕ, ◌+◌, ◌*◌, Bool, true, false, List, [], ◌∷◌, ◌++◌, ◌==◌, if◌then◌else◌}

abbrev pub ssh_port : ℕ
ssh_port = 22

-- Ports of the included headers.
pub record Ports : Type 0 where
  pub iperf3_port : ℕ
  pub ntp_port : ℕ

-- What the stack hands on: calls of the base class, of the SSH server, of iperf3 and of the NTP
-- client, each with the socket or the peer's port, and the length of the payload.
pub data Call : Type 0 where
  base_closed base_aging_10x ssh_aging_10x ntp_aging : Call
  ssh_accepted ssh_closed iperf_accepted iperf_closed : (socket : ℕ) → Call
  ssh_rx iperf_rx : (socket : ℕ) → (payload : List ℕ) → Call
  iperf_udp_rx ntp_rx : (sport : ℕ) → (payload : List ℕ) → Call

-- A TCPTableEntry: the local port and which socket it is.
pub record Socket : Type 0 where
  pub local_port : ℕ  -- uint16_t
  pub id : ℕ

-- RegisterProtocolHandlers (Init.cpp) and the two constructors, as what they construct and set, in
-- order.
pub data Setup : Type 0 where
  construct_ntp construct_ssh construct_iperf set_iperf_server : Setup
  use_udp use_tcp set_udp set_tcp : Setup

abbrev pub new_udp_protocol : List Setup
new_udp_protocol = construct_ntp ∷ []

abbrev pub new_tcp_protocol : List Setup
new_tcp_protocol = construct_ssh ∷ construct_iperf ∷ set_iperf_server ∷ []

abbrev pub register_protocol_handlers : List Setup
register_protocol_handlers =
    new_udp_protocol ++ (new_tcp_protocol ++ use_udp ∷ use_tcp ∷ set_udp ∷ set_tcp ∷ [])

module _ (k : Ports) where
  unfoldable pub is_port_open : ℕ → Bool
  is_port_open port =
      if port == ssh_port then true else if port == k.iperf3_port then true else false

  unfoldable pub on_connection_accepted : Socket → List Call
  on_connection_accepted s =
      if s.local_port == ssh_port
      then ssh_accepted s.id ∷ []
      else if s.local_port == k.iperf3_port
      then iperf_accepted s.id ∷ []
      else []

  unfoldable pub on_connection_closed : Socket → List Call
  on_connection_closed s =
      base_closed
      ∷ (if s.local_port == ssh_port
          then ssh_closed s.id ∷ []
          else if s.local_port == k.iperf3_port
          then iperf_closed s.id ∷ []
          else [])

  unfoldable pub on_rx_data : Socket → List ℕ → List Call
  on_rx_data s payload =
      if s.local_port == ssh_port
      then ssh_rx s.id payload ∷ []
      else if s.local_port == k.iperf3_port
      then iperf_rx s.id payload ∷ []
      else []

  -- LatentRedUDPProtocol::OnRxData
  unfoldable pub on_rx_datagram : (sport dport : ℕ) → List ℕ → List Call
  on_rx_datagram sport dport payload =
      if dport == k.iperf3_port
      then iperf_udp_rx sport payload ∷ []
      else if dport == k.ntp_port
      then ntp_rx sport payload ∷ []
      else []

-- GenerateInitialSequenceNumber: the four random bytes, as a little-endian word
unfoldable pub generate_initial_sequence_number : (random : ℕ → ℕ) → ℕ
generate_initial_sequence_number random =
    random 0 + random 1 * 0x100 + random 2 * 0x10000 + random 3 * 0x1000000

-- OnAgingTick10x of the TCP stack and OnAgingTick of the UDP stack
unfoldable pub on_aging_tick_10x : List Call
on_aging_tick_10x = base_aging_10x ∷ ssh_aging_10x ∷ []

unfoldable pub on_aging_tick : List Call
on_aging_tick = ntp_aging ∷ []
