-- ===== src/Cyw/Firmware/Upload.antt =====
-- The chunks of the CLM blob, and the places of the images.
use free_bsd15_rpi5_modules.Base.{
  ℕ, ◌∙◌, zero, suc, ◌+◌, ◌-◌, ◌≤◌, ◌<◌, ◌≡◌, inl, inr, refl, sym, Bool, true, false, some, List,
  [], ◌∷◌, arith, ltb, ◌==◌, if◌then◌else◌, Bool-cases, bit, eio,
}
use free_bsd15_rpi5_modules.Cyw.Firmware.{Chunk, flag_word, upload, clm_load}

abbrev is_nil : List Chunk → Bool
is_nil [] = true
is_nil (c ∷ cs) = false

-- The chunks lie one behind the other from a place to the end of the blob, each of at most 256 bytes; only
-- the first begins, and only the last ends.
abbrev pub Tiles : ℕ → ℕ → Bool → List Chunk → Type 0
Tiles datalen off begins [] = off ≡ datalen
Tiles datalen off begins (c ∷ cs) =
    (c.off ≡ off)
    × (c.len ≤ 256)
    × (bit c.flag 1 ≡ begins)
    × (bit c.flag 2 ≡ is_nil cs)
    × Tiles datalen (off + c.len) false cs

flag_begins : (b e : Bool) → bit (flag_word b e) 1 ≡ b
flag_begins true true = refl
flag_begins true false = refl
flag_begins false true = refl
flag_begins false false = refl

flag_ends : (b e : Bool) → bit (flag_word b e) 2 ≡ e
flag_ends true true = refl
flag_ends true false = refl
flag_ends false true = refl
flag_ends false false = refl

-- What an upload without an error has sent: at least one chunk, and these cover the rest of the blob.
pub record Sent (datalen off : ℕ) (begins : Bool) (out : List Chunk × ℕ) : Type 0 where
  pub ok : out.1 ≡ 0
  pub some_chunk : is_nil out.0 ≡ false
  pub tiles : Tiles datalen off begins out.0

upload-Sent :
    (set : Chunk → ℕ) (rounds datalen off : ℕ) (begins : Bool)
    → ((c : Chunk) → set c ≡ 0)
    → off ≤ datalen
    → datalen < off + rounds
    → Sent datalen off begins (upload set rounds datalen off begins)
unfolding upload
upload-Sent set zero datalen off begins ok l r = absurd (omega (arith, l, r))
upload-Sent set (suc rounds) datalen off begins ok l r =
    elim (Bool-cases (ltb 256 (datalen - off))) [
      | inl e ↦
          let more : ltb (off + 256) datalen ≡ true = ground (arith, e) in
          let s =
            upload-Sent set rounds datalen (off + 256) false ok (ground (arith, e))
              (omega (arith, r)) in
          rw (e, more, ok (record { flag = flag_word begins false; len = 256; off = off }))
            (record {
              ok = s.ok;
              some_chunk = refl;
              tiles = (
                refl,
                omega arith,
                flag_begins begins false,
                flag_ends begins false ∙ sym s.some_chunk,
                s.tiles,
              );
            })
      | inr e ↦
          let over : ltb (off + (datalen - off)) datalen ≡ false = ground (arith, l) in
          rw (e, over, ok (record { flag = flag_word begins true; len = datalen - off; off = off }))
            (record {
              ok = refl;
              some_chunk = refl;
              tiles = (
                refl,
                ground (arith, e),
                flag_begins begins true,
                flag_ends begins true,
                omega (arith, l),
              );
            })
    ]

-- Where the firmware takes every chunk, cyw_clm_load sends the blob whole: the chunks, one at least, lie
-- one behind the other from its start to its end, each of at most 256 bytes, the first alone marked as
-- the beginning and the last alone as the end; and it returns what clmload_status tells.
pub clm_load-Sent :
    (set : Chunk → ℕ) (datalen status : ℕ)
    → ((c : Chunk) → set c ≡ 0)
    → Sent datalen 0 true (upload set (datalen + 1) datalen 0 true)
      × (clm_load set (some datalen) 0 status ≡ (if status == 0 then 0 else eio))
unfolding clm_load
clm_load-Sent set datalen status ok =
    let s = upload-Sent set (datalen + 1) datalen 0 true ok (omega arith) (omega arith) in
    (s, rw s.ok refl)
