-- ===== src/Cyw/Scan/Requests.antt =====
-- cyw_do_escan, cyw_abort_escan and the event that ends a scan.
use free_bsd15_rpi5_modules.Base.{
  ℕ, ◌+◌, ◌<◌, ◌≡◌, ◌≢◌, ◌⊎◌, inl, inr, refl, true, false, some, arith, ◌==◌, Bool-cases, u16,
}
use free_bsd15_rpi5_modules.Cyw.{Buf, Softc}
use free_bsd15_rpi5_modules.Cyw.Scan.{
  EscanParams, start_params, abort_params, do_escan, abort_escan, escan_result_handler, has_vap,
}

-- A start marks the scan as active if the firmware took the request and not if that failed; an abort
-- clears the mark, and so does an event with any status but a partial result, of which net80211 is
-- told where there is a VAP.
scan_active_lem :
    (iovar : EscanParams → ℕ) (sc : Softc) (ssid_len : ℕ) (ssid : Buf) (status : ℕ) (b : Buf)
    (datalen : ℕ)
    → status ≢ 8
    → let (err, started, params) = do_escan iovar sc ssid_len ssid in
      let ended = escan_result_handler sc status b datalen in
      ((err ≡ 0) × (started.scan_active ≡ true) ⊎ (err ≢ 0) × (started.scan_active ≡ false))
      × ((abort_escan sc).0.scan_active ≡ false)
      × (ended.softc ≡ record sc { scan_active = false })
      × (ended.done ≡ has_vap sc)
unfolding do_escan abort_escan escan_result_handler
scan_active_lem iovar sc ssid_len ssid status b datalen n = (
  elim (Bool-cases (iovar (start_params sc.escan_sync_id ssid_len ssid) == 0)) [
    | inl e ↦ rw e (inl (refl, refl))
    | inr e ↦ rw e (inr (ground (arith, e), refl))
  ],
  ground arith,
  ground arith,
  ground arith,
)

-- The abort of a scan that the firmware has just accepted is sent, and never carries the sync id
-- of that scan, a 16-bit word.
abort_other_sync_id :
    (iovar : EscanParams → ℕ) (sc : Softc) (ssid_len : ℕ) (ssid : Buf)
    → sc.escan_sync_id < 65536
    → (do_escan iovar sc ssid_len ssid).0 ≡ 0
    → (params : EscanParams) × ((abort_escan (do_escan iovar sc ssid_len ssid).1).1 ≡ some params)
      × (params.sync_id ≢ (do_escan iovar sc ssid_len ssid).2.sync_id)
unfolding do_escan abort_escan
abort_other_sync_id iovar sc ssid_len ssid l ok =
    elim (Bool-cases (iovar (start_params sc.escan_sync_id ssid_len ssid) == 0)) [
      | inl e ↦ rw e (abort_params (u16 (sc.escan_sync_id + 1)), refl, λ s. omega (arith, s))
      | inr e ↦ absurd (ground arith)
    ]
