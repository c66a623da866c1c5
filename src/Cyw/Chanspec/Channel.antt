-- ===== src/Cyw/Chanspec/Channel.antt =====
-- cyw_chanspec_to_channel against the layout of a chanspec, and on the chanspecs that
-- cyw_chanspec_for_join makes of a channel number.
use free_bsd15_rpi5_modules.Base.{ℕ, ◌+◌, ◌*◌, ◌≤◌, ◌<◌, ◌≡◌, Bool, arith, if◌then◌else◌}
use free_bsd15_rpi5_modules.Base.Int.{ℤ, pos, sub_ℕ}
use free_bsd15_rpi5_modules.Cyw.{Softc}
use free_bsd15_rpi5_modules.Cyw.Chanspec.{lookup, chanspec_for_join, chanspec_to_channel}

-- A block of 20 MHz channels, with the place of the primary one in it, from below.
pub data Block : Type 0 where
  five_20 : Block
  five_40 : (upper : Bool) → Block
  five_80 : (place : ℕ) → Block
  two_20 : Block
  two_40 : (upper : Bool) → Block

abbrev pub IsBlock : Block → Type 0
IsBlock (five_80 place) = place < 4
IsBlock _ = 0 < 1

-- The chanspec of a block with a center channel: band, bandwidth, sideband.
abbrev pub encode : Block → ℕ → ℕ
encode five_20 center = 0xC000 + 0x1000 + center
encode (five_40 upper) center = 0xC000 + 0x1800 + (if upper then 0x0100 else 0x0000) + center
encode (five_80 place) center = 0xC000 + 0x2000 + place * 0x0100 + center
encode two_20 center = 0x0800 + 0x0300 + center
encode (two_40 upper) center = 0x0C00 + (if upper then 0x0200 else 0x0100) + center

-- The primary channel: the channels of a block are 4 apart and lie evenly around the center.
abbrev pub primary : Block → ℕ → ℤ
primary five_20 center = pos center
primary (five_40 upper) center = sub_ℕ (center + (if upper then 4 else 0)) 2
primary (five_80 place) center = sub_ℕ (center + 4 * place) 6
primary two_20 center = pos center
primary (two_40 upper) center = sub_ℕ (center + (if upper then 4 else 0)) 2

-- For a BSSID that is not in the cache, the chanspec made of a channel number from 1 to 255 stands for
-- that channel.
join_decodes :
    (sc : Softc) (b chan : ℕ)
    → lookup sc.bss_cs_cache b ≡ 0
    → 1 ≤ chan
    → chan ≤ 255
    → chanspec_to_channel (chanspec_for_join sc b (pos chan)) ≡ pos chan
unfolding chanspec_to_channel chanspec_for_join
join_decodes sc b chan none lo hi = ground arith
