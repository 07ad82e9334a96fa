-- ===== src/Net/Services.antt =====
-- The switches of the TCP and UDP stacks agree with one another.
use latentred.Prelude.{
  ℕ, ◌<◌, ◌^◌, ◌≡◌, ◌≢◌, ◌⊎◌, ◌↔◌, true, false, List, [], ◌∷◌, arith, inl, inr, ℕ_discrete,
}
use latentred.Net.{
  Ports, ssh_port, Socket, Call, base_closed, ssh_accepted, iperf_accepted, ssh_closed,
  iperf_closed, ssh_rx, iperf_rx, iperf_udp_rx, ntp_rx, is_port_open, on_connection_accepted,
  on_connection_closed, on_rx_data, on_rx_datagram, generate_initial_sequence_number,
}

-- A service that gets TCP events.
pub data Service : Type 0 where
  ssh iperf : Service

abbrev pub accepted : Service → ℕ → Call
accepted ssh i = ssh_accepted i
accepted iperf i = iperf_accepted i

abbrev pub closed : Service → ℕ → Call
closed ssh i = ssh_closed i
closed iperf i = iperf_closed i

abbrev pub received : Service → ℕ → List ℕ → Call
received ssh i p = ssh_rx i p
received iperf i p = iperf_rx i p

module _ (k : Ports) where
  -- A port is open exactly if a service stands behind it, the same one for a connection that is
  -- accepted, for its data and for its end; on any other port these are dropped, and only the base
  -- class frees the closed socket. SSH has port 22 even if iperf3 were given the same.
  pub services_agree :
      (s : Socket) (payload : List ℕ)
      → ((is_port_open k s.local_port ≡ true)
          × ((v : Service) × (on_connection_accepted k s ≡ accepted v s.id ∷ [])
              × (on_rx_data k s payload ≡ received v s.id payload ∷ [])
              × (on_connection_closed k s ≡ base_closed ∷ closed v s.id ∷ [])
              × ((v ≡ ssh) ↔ (s.local_port ≡ ssh_port))))
        ⊎ ((is_port_open k s.local_port ≡ false)
            × (on_connection_accepted k s ≡ [])
            × (on_rx_data k s payload ≡ [])
            × (on_connection_closed k s ≡ base_closed ∷ [])
            × (s.local_port ≢ ssh_port)
            × (s.local_port ≢ k.iperf3_port))
  unfolding is_port_open on_connection_accepted on_rx_data on_connection_closed
  services_agree s payload = elim (ℕ_discrete s.local_port ssh_port) [
    | yes p ↦ inl (ground arith, (ssh, ground arith, ground arith, ground arith, ground arith))
    | no p ↦ elim (ℕ_discrete s.local_port k.iperf3_port) [
      | yes q ↦ inl (ground arith, (iperf, ground arith, ground arith, ground arith, ground arith))
      | no q ↦ inr (ground arith)
    ]
  ]

  -- Where iperf3 and NTP have different ports, a datagram reaches iperf3 exactly on the first, the NTP
  -- client exactly on the second, and is dropped on every other; it is delivered once at most.
  pub on_rx_datagram_service :
      (sport dport : ℕ) (payload : List ℕ)
      → k.iperf3_port ≢ k.ntp_port
      → ((on_rx_datagram k sport dport payload ≡ iperf_udp_rx sport payload ∷ [])
          ↔ (dport ≡ k.iperf3_port))
        × ((on_rx_datagram k sport dport payload ≡ ntp_rx sport payload ∷ [])
            ↔ (dport ≡ k.ntp_port))
        × ((on_rx_datagram k sport dport payload ≡ [])
            ↔ ((dport ≢ k.iperf3_port) × (dport ≢ k.ntp_port)))
  unfolding on_rx_datagram
  on_rx_datagram_service sport dport payload apart = ground arith

-- The initial sequence number of four bytes fits 32 bits, and different bytes give different numbers.
pub generate_initial_sequence_number_bytes :
    (f g : ℕ → ℕ)
    → ((i : ℕ) → f i < 256)
    → ((i : ℕ) → g i < 256)
    → (generate_initial_sequence_number f < 2 ^ 32)
      × (generate_initial_sequence_number f ≡ generate_initial_sequence_number g
          → (f 0 ≡ g 0) × (f 1 ≡ g 1) × (f 2 ≡ g 2) × (f 3 ≡ g 3))
unfolding generate_initial_sequence_number
generate_initial_sequence_number_bytes f g hf hg = (
  omega (arith, hf 0, hf 1, hf 2, hf 3),
  λ e. omega (arith, hf 0, hf 1, hf 2, hf 3, hg 0, hg 1, hg 2, hg 3),
)
