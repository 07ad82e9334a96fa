-- ===== src/Lib.antt =====
-- LATENTRED is an open-hardware Ethernet switch. This library models its firmware, the C++ under
-- firmware/: that of the management controller of the line card bring-up board (firmware/lcbringup)
-- and that of the supervisor of a line card (firmware/linecard/super).
--
-- The program's parts, and the file that models each:
--
--   Port      firmware/lcbringup/main/PortState.h and .cpp: the ports, the line cards with their mutex
--             and polling task, and the constructors that name the ports and register the task.
--   Tasks     the task lists of firmware/lcbringup/main/globals.cpp, which the main loop runs.
--   PhyPoll   firmware/lcbringup/main/LatentRedPhyPollTask.cpp: `iteration` is one pass of the main
--             loop. `poll_phys` is PollPHYs, with `start_poll`, `read_status`, `read_control` and
--             `read_extended` for the four cases of its switch. What it writes is a list of effects.
--             PhyPoll/Sharing has the steps of the task and of the command line on the shared mutex,
--             PhyPoll/Waiting the loop with which the command line waits for it, PhyPoll/Delay and
--             PhyPoll/Again runs with busy answers and of two rounds, PhyPoll/Chips the addresses on
--             the bus.
--   Cli       firmware/lcbringup/main/LatentRedCLISessionContext.cpp: Cli/Grammar has the keyword
--             tables, Cli/Config the commands that change state, Cli/Show the "show" commands and
--             Cli/Dispatch the switch over the first word (`on_execute` is OnExecute). Cli/System is
--             the state they share: the session's host name, the SSH user name, the IP configuration,
--             what was printed, and a record of the operations of the flash store and its neighbours.
--             Cli/Spec is what the commands promise of the two names, Cli/Refines relates the two;
--             Cli/Checked says when a commit stores everything, for Cli/Persist (the names) and
--             Cli/Addresses (the IP configuration); Cli/Sessions has several sessions, each with its
--             own `m_hostname`, Cli/Shared what they promise together, Cli/Stale what one sees of
--             another.
--   Sensors   PrintLineCardInfo and its helpers of the same file, and the setup of the sensors in
--             firmware/lcbringup/main/Init.cpp. "show hardware" of Cli takes its lines as a parameter,
--             which Switch fills. GetCurrent computes in float: Ieee has IEEE 754 numbers with
--             rounding to the nearest, Sensors/Current how far the result is from the exact one.
--   Ssh       firmware/lcbringup/main/LatentRedSSHTransportServer.cpp: host key, authenticators and
--             shells; Ssh/Contexts has the contexts of the command line in the shells, Ssh/Exec the
--             exec requests, Ssh/Started what the constructor leaves and Ssh/Restart a restart. The
--             user name is loaded by `load_username` of Cli/Config.
--   Net       firmware/lcbringup/main/LatentRedTCPProtocol.cpp and LatentRedUDPProtocol.cpp,
--             and RegisterProtocolHandlers of Init.cpp.
--   Mgmt      firmware/lcbringup/bsp/FPGATask.cpp: frames and link state of the management port.
--   Console   firmware/lcbringup/main/LocalConsoleTask.h: the command line on the serial port.
--   Super     firmware/linecard/super/main: button, LEDs and hooks, in Super/Machine the tasks
--             together, in Super/Powered from BSP_Init on; Super/Startup has the rails and resets,
--             their order, and App_Init (Init.cpp), Super/Wiring BSP_Init and what it calls as a
--             list of steps (firmware/linecard/super/bsp/hwinit.cpp), Super/Isr and Super/Traffic the
--             interrupt handlers of firmware/linecard/super/bsp/common-vectors.cpp and of
--             firmware/lcbringup/bsp/common-vectors.cpp.
--   Vectors   the three vectors.cpp: vector tables and fault handlers, as lists of actions.
--   Boot      App_Init and what it calls in firmware/lcbringup/main/Init.cpp; Boot/Bsp has BSP_Init with
--             InitFMC, InitI2C, InitITM and InitFPGAFlash of firmware/lcbringup/bsp/hwinit.cpp; Boot/Pins
--             has the pins of both processors, Boot/Clocks the divisors of their buses, Boot/Loader
--             the bootloader's hooks in firmware/lcbringup/bl/mainloop.cpp.
--   Switch    polling task, sensors and the sessions of the command line on one state: `happen` is a pass
--             of the task, a line of a session or the opening of a shell, in any order. "show hardware"
--             prints the lines of Sensors here. Switch/Names is what the sessions promise of
--             the names. What a pass writes and logs is in PhyPoll and not kept here.
--   Firmware  the tasks that App_Init and the ports register, on one state, from BSP_Init on: `turn` is
--             one call of a task. A frame may bring a segment to the shells by way of Net; its
--             payload, and what the transport and the tokenizer make of it, are inputs of the turn.
--             The main loop is in a library, so the turns come in any order. Firmware/Parts takes a
--             run apart; Firmware/Powered, Firmware/Polling and Firmware/Names start from BSP_Init,
--             and Firmware/Restart adds a reset after the run.
--   Config    firmware/lcbringup/staticnet-config.h: the sizes given to the network stack.
--   Platform  constants and parts of the libraries; Ieee: float numbers; Prelude: shared names, Boolean tests, C strings.
--   Samples   concrete parts for the examples, which stand in a file Examples beside each component.
--
-- Numbers are natural numbers. Where the code wraps around, the model writes the remainder: the 16-bit
-- PHY index and the 32-bit overflow counter. C strings are lists of bytes with `strncpy` and a reader
-- up to the first NUL. A mutable object is passed and returned; a function that writes to the
-- outside also returns what it writes, in order.
--
-- Loops: those with a constant bound recurse on the number of passes left. The loop that waits for the
-- mutex recurses on the list of what its passes meet, and gives `none` if that list ends first;
-- a list with as many ready passes as the poll in progress still needs, at most three, is enough. The
-- digits of a number `n` are taken with fuel `n + 1`, which is more than it has digits. A rounding of
-- Ieee doubles its number at most 128 times more than the scale of its denominator, which is enough
-- for a number other than 0 (`round_error` with `enough` of Sensors/Current).
--
-- A reset is only recorded (`reset_requested`), and a run may go on after it; the runs of the program
-- are those that end there, so what holds of all runs holds of them.
--
-- Code outside the repository is a parameter, with what it documents as named hypotheses: the
-- cooperative mutex (IsMutex), the flash store (IsStore, LeavesStrings, KeepsNames, StoresAddresses,
-- IsKeyStore, LeavesNames), the string formatter (Writes), the I2C bus (ReadsWords), the SPI driver
-- (IsFifo), the FPGA's flash (IsConfigurable), the power controller, the network stack's constants,
-- and the base class of the sessions with its tokenizer (RunsLines).
-- Samples and the Examples give a concrete part for each.
--
-- Not modelled: the base classes of the libraries (tokenizer, transport protocols, power sequencing),
-- declarations without code (headers, memory-mapped registers, and what is commented out, such as
-- most of the bootloader's main loop), the texts of the help, the rest of the register setup of
-- both processors, and all that is not firmware (gateware, boards, simulations).
pub mod Prelude
pub mod Platform
pub mod Ieee
pub mod Config
pub mod Tasks
pub mod Port
pub mod PhyPoll
pub mod Cli
pub mod Sensors
pub mod Ssh
pub mod Net
pub mod Mgmt
pub mod Console
pub mod Super
pub mod Vectors
pub mod Boot
pub mod Switch
pub mod Firmware
pub mod Samples
