-- ===== src/Cyw/Firmware.antt =====
-- cyw43455_fw.c: the packing of the NVRAM text, the images that are written, and the upload of the CLM blob.
pub mod Nvram
pub mod Upload
mod Tests
use free_bsd15_rpi5_modules.Base.{
  ℕ, zero, suc, ◌+◌, ◌-◌, ◌*◌, ◌/◌, ◌%◌, ◌^◌, Bool, true, false, not, ◌&&◌, ◌||◌, Option, none,
  some, List, [], ◌∷◌, ltb, ◌==◌, if◌then◌else◌, sub32, u32, u16, eio, enoent, efbig, eftype,
  length, min, replicate,
}
use free_bsd15_rpi5_modules.Cyw.{Buf, le32}

-- The state of the loop of cyw_parse_nvram: the bytes that are in the buffer, the last one first.
pub record Pack : Type 0 where
  pub out : List ℕ
  pub in_comment : Bool
  pub at_bol : Bool

-- Whether the buffer has bytes and the last one is not NUL.
abbrev pub is_open : List ℕ → Bool
is_open [] = false
is_open (c ∷ cs) = not (c == 0)

abbrev pub close : List ℕ → List ℕ
close out = if is_open out then 0 ∷ out else out

-- A byte of the text: a carriage return is skipped, a newline ends a token, `#` at the beginning of a
-- line starts a comment.
abbrev pub take_byte : ℕ → Pack → Pack
take_byte c p =
    if c == 13
    then p
    else if c == 10
    then record {
      out = if not p.in_comment && not p.at_bol then close p.out else p.out;
      in_comment = false;
      at_bol = true;
    }
    else if p.at_bol && c == 35
    then record p { in_comment = true; at_bol = false }
    else record p { out = if p.in_comment then p.out else c ∷ p.out; at_bol = false }

unfoldable pub take_bytes : List ℕ → Pack → Pack
take_bytes [] p = p
take_bytes (c ∷ cs) p = take_bytes cs (take_byte c p)

abbrev pub start : Pack
start = record { out = []; in_comment = false; at_bol = true }

-- NULs up to a multiple of four.
abbrev pub zeros : ℕ → List ℕ → List ℕ
zeros zero out = out
zeros (suc n) out = 0 ∷ zeros n out

abbrev pub pad : List ℕ → List ℕ
pad out = zeros ((4 - length out % 4) % 4) out

-- The token: the number of words, and its complement in the upper half.
abbrev pub token : ℕ → ℕ
token len = let nwords = len / 4 in (65535 - nwords % 65536) * 65536 + nwords % 65536

-- le32enc behind the bytes.
abbrev pub put32 : ℕ → List ℕ → List ℕ
put32 w out = w / 2 ^ 24 % 256 ∷ w / 2 ^ 16 % 256 ∷ w / 2 ^ 8 % 256 ∷ w % 256 ∷ out

-- The packed text, the last byte first: the last token is ended, one more NUL is added, and it is padded.
abbrev pub packed : List ℕ → List ℕ
packed raw = pad (0 ∷ close (take_bytes raw start).out)

-- cyw_parse_nvram: the buffer, the last byte first.
unfoldable pub parse_nvram : List ℕ → List ℕ
parse_nvram raw = put32 (token (length (packed raw))) (packed raw)

-- What is allocated for it: `roundup(rawlen + 2, 4) + 4`.
abbrev pub alloc_len : ℕ → ℕ
alloc_len rawlen = (rawlen + 2 + 3) / 4 * 4 + 4

-- A firmware image.
pub record Image : Type 0 where
  pub contents : Buf
  pub datasize : ℕ

-- A block that is written to the chip.
pub record Block : Type 0 where
  pub addr : ℕ
  pub len : ℕ

-- What writing the images comes to: the error, the blocks that were to be written, and the reset vector.
pub record Loaded : Type 0 where
  pub err : ℕ
  pub blocks : List Block
  pub rstvec : ℕ

abbrev pub refused : ℕ → Loaded
refused err = record { err = err; blocks = []; rstvec = 0 }

-- The NVRAM's part of cyw_fw_images_write: the packed text goes to the top of the RAM. The text is a
-- list of its bytes; `write` is the error of a block's write.
abbrev pub nvram_write : (Block → ℕ) → ℕ → ℕ → Option (List ℕ) → Block → ℕ → Loaded
nvram_write write ram_base ram_size none fw rstvec = record {
  err = enoent;
  blocks = fw ∷ [];
  rstvec = rstvec;
}
nvram_write write ram_base ram_size (some []) fw rstvec = record {
  err = eftype;
  blocks = fw ∷ [];
  rstvec = rstvec;
}
nvram_write write ram_base ram_size (some (c ∷ raw)) fw rstvec =
    let nvlen = length (parse_nvram (c ∷ raw)) in
    let nv : Block = record { addr = sub32 (u32 (ram_base + ram_size)) (u32 nvlen); len = nvlen } in
    record { err = write nv; blocks = fw ∷ nv ∷ []; rstvec = rstvec }

abbrev pub fw_write : (Block → ℕ) → ℕ → ℕ → Image → Option (List ℕ) → Loaded
fw_write write ram_base ram_size fwp nvp =
    let fw : Block = record { addr = ram_base; len = fwp.datasize } in
    let rstvec = le32 fwp.contents 0 in
    if ltb fwp.datasize 4
    then refused eftype
    else if ltb ram_size fwp.datasize
    then refused efbig
    else if write fw == 0
    then nvram_write write ram_base ram_size nvp fw rstvec
    else record { err = write fw; blocks = fw ∷ []; rstvec = rstvec }

-- cyw_fw_images_write, of what firmware_get finds.
unfoldable pub images_write : (Block → ℕ) → ℕ → ℕ → Option Image → Option (List ℕ) → Loaded
images_write write ram_base ram_size none nvp = refused enoent
images_write write ram_base ram_size (some fwp) nvp = fw_write write ram_base ram_size fwp nvp

-- A chunk of the CLM blob: its flag word, its length, and where its bytes begin.
pub record Chunk : Type 0 where
  pub flag : ℕ
  pub len : ℕ
  pub off : ℕ

abbrev pub clm_max_chunk : ℕ
clm_max_chunk = 256

-- The flag word of a chunk: BEGIN is bit 1, END bit 2, and the handler's version is 1 in bits 12 to 15.
abbrev pub flag_word : Bool → Bool → ℕ
flag_word begins ends = (if begins then 2 else 0) + (if ends then 4 else 0) + 2 ^ 12

-- The loop of cyw_clm_load, by rounds, from a place in the blob on: the chunks that were sent, and the
-- error. `set` is the error of the firmware's answer to a chunk.
unfoldable pub upload : (Chunk → ℕ) → ℕ → ℕ → ℕ → Bool → List Chunk × ℕ
upload set zero datalen cumulative begins = ([], 0)
upload set (suc rounds) datalen cumulative begins =
    let ends = not (ltb clm_max_chunk (datalen - cumulative)) in
    let len = if ends then datalen - cumulative else clm_max_chunk in
    let c : Chunk = record { flag = flag_word begins ends; len = len; off = cumulative } in
    let (rest, err) = upload set rounds datalen (cumulative + len) false in
    if set c == 0
    then (if ltb (cumulative + len) datalen then (c ∷ rest, err) else (c ∷ [], 0))
    else (c ∷ [], set c)

-- cyw_clm_load, of the blob's length and of what clmload_status answers: an error and a word.
unfoldable pub clm_load : (Chunk → ℕ) → Option ℕ → ℕ → ℕ → ℕ
clm_load set none err status = 0
clm_load set (some datalen) err status =
    let uploaded = (upload set (datalen + 1) datalen 0 true).1 in
    if not (uploaded == 0)
    then uploaded
    else if not (err == 0)
    then err
    else if status == 0
    then 0
    else eio
