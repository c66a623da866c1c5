-- ===== src/Lib.antt =====
-- Kernel modules of FreeBSD for the Raspberry Pi 5: the fan, its sensor and its PWM, the Wi-Fi chip, the
-- Ethernet controller, and the pins.
--
-- The fan. bcm2712.c reads the AVS sensor from a callout into a cache, and drives the RP1's PWM1 block;
-- rpi5.c polls that cache once a second, chooses a fan state and programs PWM1 channel 3 by bcm2712's
-- two calls. rp1_pwm_driver.c is a pwmbus provider for another layout of PWM registers, and
-- rpi5_cooling_fan_integrated.c a fan control that drives such a provider.
--   * Bcm2712 (bcm2712.c, bcm2712_var.h): the softc with its two register windows, thermal_read_raw and
--     its readers, pwm_set_config, pwm_enable, the sysctls. Bcm2712/Load: bcm2712_modevent.
--     Bcm2712/Thermal and Bcm2712/Pwm hold the proofs.
--   * Fan (rpi5.c, rpi5_cooling_fan_integrated.c): `struct rpi5_cooling_fan` and the body that the sysctl
--     handlers share. Fan/Laws holds the proofs.
--   * Rpi5 (rpi5.c): rpi5_update_fan_state, rpi5_thermal_tick, rpi5_modevent and the tunables, on a board
--     that holds the fan's variables and bcm2712's global. Rpi5/State is about the choice of a state,
--     Rpi5/Output about the registers, Rpi5/Reach about both modules running together as a step relation.
--   * Rp1Pwm (rp1_pwm_driver.c): each pwmbus call and the attach. Rp1Pwm/Config, Rp1Pwm/Invariant.
--   * Integrated (rpi5_cooling_fan_integrated.c): the same control over a pwmbus provider, which is a
--     record of operations. Integrated/Levels is about the ladder of states, Integrated/Unloaded about the
--     device that is never found.
--
-- The Wi-Fi chip. A frame is received over SDIO, dispatched by channel, and ends as an answer to a
-- control request, a network frame, or an event that a registered handler gets; the handlers report
-- scan results and drive net80211's state.
--   * Cyw (cyw43455_var.h): the wire headers and the part of the softc that the files below use. Memory
--     is a function from offsets to bytes, so that a read beyond a frame is a read of some byte.
--   * Cyw/Recv (cyw43455_fwil.c): cyw_sdpcm_recv_one and the drain of cyw_rxfail over a record of the SDIO
--     operations. Cyw/Recv/Drain, Cyw/Recv/Bounds.
--   * Cyw/Sdpcm (cyw43455_sdpcm.c): cyw_sdpcm_deliver_ctrl, cyw_sdpcm_copy_data, the delivery of the task.
--     Cyw/Sdpcm/Control, Cyw/Sdpcm/Data.
--   * Cyw/Events (cyw43455_events.c): the event mask, the handler table, cyw_event_dispatch.
--     Cyw/Events/Table, Cyw/Events/Dispatch.
--   * Cyw/Chanspec (cyw43455_scan.c): the cache from BSSID to chanspec, cyw_chanspec_for_join and
--     cyw_chanspec_to_channel. Cyw/Chanspec/Cache, Cyw/Chanspec/Join, Cyw/Chanspec/Channel.
--   * Cyw/Scan (cyw43455_scan.c): cyw_parse_ies, cyw_escan_result_handler, cyw_do_escan, cyw_abort_escan.
--     Cyw/Scan/Elements, Cyw/Scan/Results, Cyw/Scan/Requests.
--   * Cyw/Security (cyw43455_security.c): the settings, the passphrase, the link and join events.
--     Cyw/Security/Link, Cyw/Security/Passphrase.
--   * Cyw/Fil (cyw43455_fwil.c): cyw_fil_txrx, the request and answer of a control command, while the
--     driver runs (the SDPCM task delivers the answer) and at boot (the request polls for it), and the
--     calls by name and by command. Cyw/Fil/Frame, Cyw/Fil/Credit, Cyw/Fil/Delivered, Cyw/Fil/Await,
--     Cyw/Fil/Agree, Cyw/Fil/Boot.
--   * Cyw/Transmit (cyw43455_cfg.c): cyw_vap_transmit, cyw_tx_task, cyw_tx_data_frame.
--     Cyw/Transmit/Frame, Cyw/Transmit/Queue.
--   * Cyw/Keys (cyw43455_cfg.c): cyw_key_alloc, cyw_key_set, cyw_key_delete. Cyw/Keys/Install.
--   * Cyw/Newstate (cyw43455_cfg.c): cyw_newstate, the commands of a join. Cyw/Newstate/Join.
--   * Cyw/Backplane (cyw43455_sdio.c): the window that cyw_set_backplane_window moves, cyw_bp_write_block,
--     the scan of the EROM, the size of the RAM, the waits. Cyw/Backplane/Block, Cyw/Backplane/Erom.
--   * Cyw/Firmware (cyw43455_fw.c): cyw_parse_nvram, cyw_fw_images_write, cyw_clm_load.
--     Cyw/Firmware/Nvram, Cyw/Firmware/Upload.
--
-- The Ethernet controller (rp1_eth.c, rp1_eth_hw.h). What the allocators give and what the controller
-- writes to the descriptors is an argument.
--   * Eth: the receive ring of descriptors, cgem_fill_rqueue and cgem_recv. Eth/Ring.
--   * Eth/Tx: the transmit ring, cgem_clean_tx, cgem_start_locked and cgem_stop's part. Eth/Tx/Frames
--     describes the ring as a queue of frames; Eth/Tx/Reclaim, Eth/Tx/Place and Eth/Tx/Start are about
--     the operations and Eth/Tx/Reach about all their runs.
--   * Eth/Filter: cgem_mac_hash, cgem_rx_filter. Eth/Filter/Hash, Eth/Filter/Admits.
--   * Eth/Regs: the registers and the softc of the interface's life.
--   * Eth/Mac: cgem_reset, cgem_config, cgem_init_locked, cgem_stop, cgem_ioctl, the interrupt handler, its
--     task and the poll, on the record of register writes; Eth/Mac/Link (with Eth/Mac/Link/Outcome): MDIO,
--     the speed, the statistics. Eth/Mac/Alive, Eth/Mac/Up.
--
-- The pins.
--   * Gpio (rp1_gpio.c, rp1_gpio_var.h): the pin methods over the three register windows, the line names.
--     Gpio/Levels, Gpio/Pins, Gpio/Names.
--
-- Base holds what all share: Boolean tests, lists, C's words of 8 to 64 bits with their wrap-around
-- written out, single bits, register windows, error numbers. Each part's Tests applies its theorems to
-- concrete data.
--
-- Rounds. The divider search of rp1_pwm_hw_config recurs on the dividers left. The tail of a frame has at
-- most 1984 bytes and is read in chunks of 448, so five rounds are enough. The drain of cyw_rxfail is
-- given its rounds as an argument, since a count that alternates would keep it going: it starts its
-- 65535 retries anew at each change. A chain of elements needs one round for each two bytes. The loops of
-- cyw_fil_txrx have the code's own limits of 200, 100 and 300 rounds. A block write has a round for each
-- byte and an upload one for each byte and one more, since no chunk is empty. The scan of the EROM has
-- the code's 512 entries; its inner loop has no limit in the code and runs on fuel. Receiving and
-- reclaiming have a round for each queued descriptor, filling one for each missing buffer.
--
-- Not modelled. Of the Ethernet driver attach, detach, the null queues and its configuration
-- (rp1_eth_cfg.c: device tree, sysctls, a second set of MDIO accesses), the PCIe bridges
-- (bcm2712_pcie.c, rp1_pcie2_recon.c), the device tree and bus part of rp1_gpio.c, and of the Wi-Fi driver
-- the device glue (cyw43455.c), the VAP's creation, cyw_parent and the channel lists (cyw43455_cfg.c),
-- the hand-shake after the download (cyw43455_fw.c), the halt and release of the ARM core and the attach
-- (cyw43455_sdio.c). Console output, locks and the kernel's own calls are left out; what the kernel or
-- the firmware answers is an argument. Each operation runs alone: the code holds a mutex where the
-- model has one step.
pub mod Base
pub mod Bcm2712
pub mod Fan
pub mod Rpi5
pub mod Rp1Pwm
pub mod Integrated
pub mod Cyw
pub mod Eth
pub mod Gpio
