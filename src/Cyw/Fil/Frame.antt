-- ===== src/Cyw/Fil/Frame.antt =====
-- The frame of a control request, read back by the functions that take received frames apart.
use free_bsd15_rpi5_modules.Base.{
  ℕ, ◌+◌, ◌-◌, ◌*◌, ◌/◌, ◌%◌, ◌≤◌, ◌<◌, ◌≡◌, refl, ap, ◌∙◌, true, false, ◌&&◌, some, List, arith,
  ltb, leb, bit, u16, u32, length, get_or, if_rule, inl, inr, Option-cases, Bool-cases,
}
use free_bsd15_rpi5_modules.Cyw.{
  Buf, Softc, fill, le16, le32, hdr_len, hdr_len_inv, hdr_chan, hdr_data_offset, sdpcm_max_frame,
}
use free_bsd15_rpi5_modules.Cyw.Recv.{Verdict, check_header, complements}
use free_bsd15_rpi5_modules.Cyw.Sdpcm.{bcdc_flags, bcdc_id}
use free_bsd15_rpi5_modules.Cyw.Fil.{
  iovar_int_set, blank, Request, namelen, payload, framelen, headers, with_name, with_data,
  frame_of, flags_word, put32,
}

fill_before : (b : Buf) (at len : ℕ) (src : Buf) (i : ℕ) → i < at → fill b at len src i ≡ b i
fill_before b at len src i h = ground arith

pub fill_inside :
    (b : Buf) (at len : ℕ) (src : Buf) (i : ℕ) → i < len → fill b at len src (at + i) ≡ src i
fill_inside b at len src i h =
    if_rule (λ (w : ℕ). w ≡ src i) (leb at (at + i) && ltb (at + i) (at + len)) _ _
      (λ e. ap src (omega arith)) (λ e. absurd (ground arith))

fill_after : (b : Buf) (at len : ℕ) (src : Buf) (i : ℕ) → at + len ≤ i → fill b at len src i ≡ b i
fill_after b at len src i h = ground arith

data_keeps : (req : Request) (b : Buf) (i : ℕ) → i < 28 + namelen req → with_data req b i ≡ b i
data_keeps req b i h = elim (Option-cases req.buf) [
  | inl e ↦ rw e refl
  | inr (content, e) ↦ rw e (
      if_rule (λ (out : Buf). out i ≡ b i) req.set _ _
        (λ s. fill_before b (28 + namelen req) req.buflen content i h) (λ s. refl))
]

name_keeps : (req : Request) (b : Buf) (i : ℕ) → i < 28 → with_name req b i ≡ b i
name_keeps req b i h = elim (Option-cases req.name) [
  | inl e ↦ rw e refl
  | inr (s, e) ↦ rw e (fill_before b 28 (length s + 1) (λ j. get_or s j 0) i h)
]

kept : (req : Request) (id seq i : ℕ) → i < 28 → frame_of req id seq i ≡ headers req id seq i
unfolding frame_of
kept req id seq i h =
    data_keeps req (with_name req (headers req id seq)) i (omega arith)
    ∙ name_keeps req (headers req id seq) i h

le16-kept :
    (req : Request) (id seq i : ℕ)
    → i < 27
    → le16 (frame_of req id seq) i ≡ le16 (headers req id seq) i
le16-kept req id seq i h =
    rw (kept req id seq i (omega arith), kept req id seq (i + 1) (omega arith)) refl

le32-kept :
    (req : Request) (id seq i : ℕ)
    → i < 25
    → le32 (frame_of req id seq) i ≡ le32 (headers req id seq) i
le32-kept req id seq i h =
    rw (le16-kept req id seq i (omega arith), le16-kept req id seq (i + 2) (omega arith)) refl

pub word16 : (w : ℕ) → w < 65536 → w % 256 + 256 * (w / 256 % 256) ≡ w
word16 w h = omega arith

word32 :
    (w : ℕ)
    → w < 4294967296
    → w % 256 + 256 * (w / 256 % 256) + 65536 * (w / 65536 % 256 + 256 * (w / 65536 / 256 % 256))
      ≡ w
word32 w h = omega arith

offset_kept : (req : Request) (id seq : ℕ) → hdr_data_offset (frame_of req id seq) ≡ 12
offset_kept req id seq = kept req id seq 7 (omega arith)

flags_fit : (req : Request) (id : ℕ) → id < 65536 → flags_word req id < 4294967296
flags_fit req id h =
    if_rule (λ (f : ℕ). f + id * 65536 < 4294967296) req.set 2 0 (λ e. omega arith)
      (λ e. omega arith)

flags_kept :
    (req : Request) (id seq : ℕ) → id < 65536 → bcdc_flags (frame_of req id seq) ≡ flags_word req id
flags_kept req id seq h =
    ap (λ o. le32 (frame_of req id seq) (o + 8)) (offset_kept req id seq)
    ∙ le32-kept req id seq 20 (omega arith)
    ∙ word32 (flags_word req id) (flags_fit req id h)

id_kept : (req : Request) (id seq : ℕ) → id < 65536 → bcdc_id (frame_of req id seq) ≡ id
id_kept req id seq h = rw (flags_kept req id seq h) (
    if_rule (λ (f : ℕ). (f + id * 65536) / 65536 % 65536 ≡ id) req.set 2 0 (λ e. omega arith)
      (λ e. omega arith))

set_kept :
    (req : Request) (id seq : ℕ)
    → id < 65536
    → (bit (bcdc_flags (frame_of req id seq)) 1 ≡ req.set)
      × (bit (bcdc_flags (frame_of req id seq)) 0 ≡ false)
set_kept req id seq h = rw (flags_kept req id seq h) (elim (Bool-cases req.set) [
  | inl e ↦ rw e (ground arith, ground arith)
  | inr e ↦ rw e (ground arith, ground arith)
])

length_kept :
    (req : Request) (id seq : ℕ)
    → framelen req < 65536
    → hdr_len (frame_of req id seq) ≡ framelen req
length_kept req id seq h =
    le16-kept req id seq 0 (omega arith)
    ∙ word16 (u16 (framelen req)) (omega arith)
    ∙ omega (arith, h)

inverse_kept :
    (req : Request) (id seq : ℕ)
    → framelen req < 65536
    → hdr_len_inv (frame_of req id seq) ≡ 65535 - framelen req
inverse_kept req id seq h =
    le16-kept req id seq 2 (omega arith)
    ∙ word16 (65535 - u16 (framelen req)) (omega arith)
    ∙ omega (arith, h)

complements_kept :
    (req : Request) (id seq : ℕ) → framelen req < 65536 → complements (frame_of req id seq) ≡ true
complements_kept req id seq h =
    rw (length_kept req id seq h, inverse_kept req id seq h) (ground (arith, h))

accepted :
    (req : Request) (id seq : ℕ) (sc : Softc)
    → framelen req ≤ sdpcm_max_frame
    → check_header sc (frame_of req id seq) ≡ Verdict.accept (framelen req)
unfolding check_header
accepted req id seq sc h =
    let small : framelen req < 65536 = omega (arith, h) in
    let more : 28 ≤ framelen req = omega arith in
    rw (length_kept req id seq small, inverse_kept req id seq small) (ground (arith, h, more))

name_filled :
    (req : Request) (b : Buf) (s : List ℕ) (i : ℕ)
    → req.name ≡ some s
    → i < length s + 1
    → with_name req b (28 + i) ≡ get_or s i 0
name_filled req b s i e h = rw e (fill_inside b 28 (length s + 1) (λ j. get_or s j 0) i h)

name_placed :
    (req : Request) (id seq : ℕ) (s : List ℕ) (i : ℕ)
    → req.name ≡ some s
    → i < length s + 1
    → frame_of req id seq (28 + i) ≡ get_or s i 0
unfolding frame_of
name_placed req id seq s i e h =
    let named : namelen req ≡ length s + 1 = rw e refl in
    data_keeps req (with_name req (headers req id seq)) (28 + i) (omega (arith, named, h))
    ∙ name_filled req (headers req id seq) s i e h

data_filled :
    (req : Request) (b content : Buf) (i : ℕ)
    → req.buf ≡ some content
    → req.set ≡ true
    → i < req.buflen
    → with_data req b (28 + namelen req + i) ≡ content i
data_filled req b content i e s h =
    rw (e, s) (fill_inside b (28 + namelen req) req.buflen content i h)

data_placed :
    (req : Request) (id seq : ℕ) (content : Buf) (i : ℕ)
    → req.buf ≡ some content
    → req.set ≡ true
    → i < req.buflen
    → frame_of req id seq (28 + namelen req + i) ≡ content i
unfolding frame_of
data_placed req id seq content i e s h =
    data_filled req (with_name req (headers req id seq)) content i e s h

-- What a reader of the frame finds: a header that the receiver accepts, on the control channel; the
-- request's id, its direction, its command and the length of its payload; the name with its NUL, and
-- behind it the data of a SET.
pub record ReadsBack (req : Request) (id seq : ℕ) (frame : Buf) : Type 0 where
  pub header : (sc : Softc) → check_header sc frame ≡ Verdict.accept (framelen req)
  pub channel : hdr_chan frame ≡ 0
  pub sequence : frame 4 ≡ seq
  pub transaction : bcdc_id frame ≡ id
  pub direction : bit (bcdc_flags frame) 1 ≡ req.set
  pub error : bit (bcdc_flags frame) 0 ≡ false
  pub cmd : le32 frame 12 ≡ req.cmd
  pub payload_len : le32 frame 16 ≡ payload req
  pub name :
      (s : List ℕ) (i : ℕ) → req.name ≡ some s → i < length s + 1 → frame (28 + i) ≡ get_or s i 0
  pub data_at :
      (content : Buf) (i : ℕ)
      → req.buf ≡ some content
      → req.set ≡ true
      → i < req.buflen
      → frame (28 + namelen req + i) ≡ content i

-- A request of at most 2048 bytes, with a 32-bit command and a 16-bit id, is sent as a frame that reads
-- back as that request: the receiver's own checks accept its header and find its length, and the
-- sequence number, the id, the direction, the command, the payload length, the name with its NUL and
-- the data of a SET stand where they are read from. The frame has room for all of them.
pub frame_of-ReadsBack :
    (req : Request) (id seq : ℕ)
    → framelen req ≤ sdpcm_max_frame
    → req.cmd < 4294967296
    → id < 65536
    → ReadsBack req id seq (frame_of req id seq) × (28 + payload req ≤ framelen req)
frame_of-ReadsBack req id seq h c i =
    let short : payload req < 4294967296 = omega (arith, h) in
    (
      record {
        header = λ sc. accepted req id seq sc h;
        channel = ap (λ (w : ℕ). w % 16) (kept req id seq 5 (omega arith));
        sequence = kept req id seq 4 (omega arith);
        transaction = id_kept req id seq i;
        direction = (set_kept req id seq i).0;
        error = (set_kept req id seq i).1;
        cmd =
            le32-kept req id seq 12 (omega arith)
            ∙ word32 (u32 req.cmd) (omega arith)
            ∙ omega (arith, c);
        payload_len =
            le32-kept req id seq 16 (omega arith)
            ∙ word32 (u32 (payload req)) (omega arith)
            ∙ omega (arith, short);
        name = name_placed req id seq;
        data_at = data_placed req id seq;
      },
      omega arith,
    )

le32_of : (f g : Buf) (a : ℕ) → ((i : ℕ) → i < 4 → f (a + i) ≡ g i) → le32 f a ≡ le32 g 0
le32_of f g a same =
    let b0 : f a ≡ g 0 = ap f (omega arith) ∙ same 0 (omega arith) in
    let b3 : f (a + 2 + 1) ≡ g 3 = ap f (omega arith) ∙ same 3 (omega arith) in
    rw (b0, same 1 (omega arith), same 2 (omega arith), b3) refl

-- cyw_fil_iovar_int_set: the four bytes behind the name are the
-- little-endian word of the value.
int_set_reads_back :
    (name : List ℕ) (val id seq : ℕ)
    → val < 4294967296
    → le32 (frame_of (iovar_int_set name val) id seq) (28 + (length name + 1)) ≡ val
int_set_reads_back name val id seq v =
    le32_of (frame_of (iovar_int_set name val) id seq) (put32 blank 0 val) (28 + (length name + 1))
      (λ i. data_placed (iovar_int_set name val) id seq (put32 blank 0 val) i refl refl)
    ∙ word32 val v
