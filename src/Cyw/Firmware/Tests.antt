-- ===== src/Cyw/Firmware/Tests.antt =====
-- An NVRAM text of three lines, a CLM blob of 600 bytes, and two images.
use free_bsd15_rpi5_modules.Base.{
  ℕ, ◌+◌, ◌*◌, ◌%◌, ◌≡◌, ◌≤◌, refl, true, some, List, [], ◌∷◌, length, get_or,
}
use free_bsd15_rpi5_modules.Cyw.Firmware.{
  parse_nvram, alloc_len, upload, clm_load, Image, take_bytes,
}
use free_bsd15_rpi5_modules.Cyw.Firmware.Nvram.{text, parse_nvram_fits}
use free_bsd15_rpi5_modules.Cyw.Firmware.Upload.{Sent, clm_load-Sent}

-- "#x", "a=1" with a carriage return, and an empty line.
abbrev lines : List (List ℕ)
lines = (35 ∷ 120 ∷ []) ∷ (97 ∷ 61 ∷ 49 ∷ 13 ∷ []) ∷ [] ∷ []

parse_nvram_fits_example :
    (length (parse_nvram (text lines)) ≤ alloc_len 9)
    × (length (parse_nvram (text lines)) % 4 ≡ 0)
    × (get_or (parse_nvram (text lines)) 3 0 + 256 * get_or (parse_nvram (text lines)) 2 0 ≡ 2)
    × (get_or (parse_nvram (text lines)) 1 0 + 256 * get_or (parse_nvram (text lines)) 0 0 ≡ 65533)
unfolding parse_nvram take_bytes
parse_nvram_fits_example = parse_nvram_fits (text lines)

clm_load-Sent_example :
    Sent 600 0 true (upload (λ c. 0) 601 600 0 true) × (clm_load (λ c. 0) (some 600) 0 0 ≡ 0)
clm_load-Sent_example = clm_load-Sent (λ c. 0) 600 0 (λ c. refl)

abbrev image : Image
image = record { contents = λ i. 0; datasize = 0x1000 }
