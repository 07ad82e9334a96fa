-- ===== src/Boot/Loader.antt =====
-- The bootloader of the management controller: the hooks of firmware/lcbringup/bl/mainloop.cpp,
-- which the boot decision of a library calls.
use Prim.Native.String.{String}
use latentred.Prelude.{List, [], ◌∷◌}

pub data LoaderAction : Type 0 where
  flush_uart main_loop stay : LoaderAction
  log : String → LoaderAction

-- Bootloader_Init and Bootloader_ClearRxBuffer: all that their bodies hold is commented out.
abbrev pub bootloader_init : List LoaderAction
bootloader_init = []

abbrev pub bootloader_clear_rx_buffer : List LoaderAction
bootloader_clear_rx_buffer = []

abbrev pub bootloader_final_cleanup : List LoaderAction
bootloader_final_cleanup = flush_uart ∷ []

-- BSP_MainLoop hands on to the library's main loop.
abbrev pub bootloader_bsp_main_loop : List LoaderAction
bootloader_bsp_main_loop = main_loop ∷ []

-- Bootloader_FirmwareUpdateFlow: one line of the log, then an endless loop whose body is commented
-- out.
abbrev pub bootloader_firmware_update_flow : List LoaderAction
bootloader_firmware_update_flow = log "In DFU mode\n" ∷ stay ∷ []
