-- ===== src/Cyw/Tests.antt =====
-- The theorems on the Wi-Fi driver at concrete frames, requests and chips.
use free_bsd15_rpi5_modules.Base.{
  ℕ, ◌%◌, ◌≡◌, ◌⊎◌, refl, true, none, some, List, [], ◌∷◌, arith, replicate, if◌then◌else◌, ◌==◌,
}
use free_bsd15_rpi5_modules.Cyw.{Buf, link, assoc, running}
use free_bsd15_rpi5_modules.Cyw.Recv.{recv_one}
use free_bsd15_rpi5_modules.Cyw.Recv.Bounds.{Sound, recv_one-Sound}
use free_bsd15_rpi5_modules.Cyw.Sdpcm.{Mbuf}
use free_bsd15_rpi5_modules.Cyw.Events.{Msg, Dispatched, event_dispatch}
use free_bsd15_rpi5_modules.Cyw.Events.Dispatch.{EventFrame, Called, event_dispatch_outcome}
use free_bsd15_rpi5_modules.Cyw.Chanspec.{cache_add}
use free_bsd15_rpi5_modules.Cyw.Chanspec.Cache.{IsCache}
use free_bsd15_rpi5_modules.Cyw.Chanspec.Join.{Added, cache_add-Added}
use free_bsd15_rpi5_modules.Cyw.Scan.{parse_ies, no_elements, EscanParams}
use free_bsd15_rpi5_modules.Cyw.Scan.Elements.{Parsed, chain-Parsed}
use free_bsd15_rpi5_modules.Cyw.Security.{Psk, Pmk, Request, security_event, event_attach}
use free_bsd15_rpi5_modules.Cyw.Security.Link.{
  IsJustified, security_event-IsJustified, link_frame_runs,
}
use free_bsd15_rpi5_modules.Cyw.Sample.{zeros, softc, event_frame, chip}

recv_one-Sound_example : Sound chip softc zeros (recv_one chip 5000000000 3 softc zeros)
recv_one-Sound_example =
    recv_one-Sound chip (λ c. omega arith) (λ c. omega arith) 5000000000 (omega arith) 3 softc zeros

abbrev two_mbufs : List Mbuf
two_mbufs = record { len = 60; bytes = zeros } ∷ record { len = 14; bytes = zeros } ∷ []

abbrev event_frame-EventFrame : EventFrame event_frame 88
event_frame-EventFrame = record {
  long = omega arith;
  headers = omega arith;
  marked = refl;
  code = omega arith;
}

event_dispatch_outcome_example :
    (EventFrame event_frame 88
      × ((d : Dispatched) × (event_dispatch softc event_frame 88 ≡ some d)
          × Called softc event_frame 88 d))
    ⊎ (event_dispatch softc event_frame 88 ≡ none)
      × (¬ EventFrame event_frame 88 ⊎ (softc.event_handlers 16 ≡ none))
event_dispatch_outcome_example = event_dispatch_outcome softc event_frame 88

abbrev softc-IsCache : IsCache softc
softc-IsCache = record { size = refl; head = omega arith; unique = λ b. omega arith }

cache_add-Added_example : Added softc 99 0xe32a (cache_add softc 99 0xe32a)
cache_add-Added_example = cache_add-Added softc 99 0xe32a softc-IsCache (λ e. omega (arith, e))

chain-Parsed_example : Parsed event_frame 12 (parse_ies 13 event_frame 12 0 no_elements)
chain-Parsed_example = chain-Parsed event_frame 12

-- A buffer that says 128 at each entry's length.
abbrev entries_of_128 : Buf
entries_of_128 i = if i % 128 == 16 then 128 else 0

abbrev takes : EscanParams → ℕ
takes p = 0

abbrev link_down : Msg
link_down = record {
  code = 16;
  status = 0;
  reason = 0;
  flags = 0;
  datalen = 0;
  ifidx = 0;
  bsscfgidx = 0;
  addr = zeros;
}

security_event-IsJustified_example :
    IsJustified softc link link_down (security_event link softc link_down).1
security_event-IsJustified_example = security_event-IsJustified link softc link_down

link_frame_runs_example :
    (d : Dispatched) × (event_dispatch (event_attach softc).1 event_frame 88 ≡ some d)
    × (((security_event d.handler (event_attach softc).1 d.msg).1 ≡ some running)
        × ((security_event d.handler (event_attach softc).1 d.msg).0.link_up ≡ true))
link_frame_runs_example =
    link_frame_runs softc event_frame 88 assoc event_frame-EventFrame refl refl refl

abbrev no_psk : Psk
no_psk = record { key = replicate 64 0; len = 0 }

abbrev write_psk : Request
write_psk = record { error = 0; text = replicate 8 65; newptr = true }

abbrev accepts : Pmk → ℕ
accepts p = 0
