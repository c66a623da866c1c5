-- ===== src/Cyw/Scan/Elements.antt =====
-- cyw_parse_ies and the part of an entry it is given.
use free_bsd15_rpi5_modules.Base.{
  ℕ, zero, suc, ◌+◌, ◌*◌, ◌≤◌, ◌<◌, ◌≡◌, inl, inr, refl, Bool, true, false, ◌&&◌, Option, some,
  arith, ltb, ◌==◌, Bool-cases,
}
use free_bsd15_rpi5_modules.Cyw.{Buf}
use free_bsd15_rpi5_modules.Cyw.Scan.{
  ScanParams, no_elements, is_vendor, point, note_element, parse_ies, locate_ies,
}

-- Where a pointer is set, the element there has the id and lies in the chain with all its bytes.
pub Points : Buf → ℕ → ℕ → Option ℕ → Type 0
Points ie ie_len id o = (p : ℕ) → o ≡ some p → (ie p ≡ id) × (p + 2 + ie (p + 1) ≤ ie_len)

pub record ArePointed (ie : Buf) (ie_len : ℕ) (sp : ScanParams) : Type 0 where
  pub ssid : Points ie ie_len 0 sp.ssid
  pub rates : Points ie ie_len 1 sp.rates
  pub xrates : Points ie ie_len 50 sp.xrates
  pub country : Points ie ie_len 7 sp.country
  pub rsn : Points ie ie_len 48 sp.rsn
  pub htcap : Points ie ie_len 45 sp.htcap
  pub htinfo : Points ie ie_len 61 sp.htinfo
  pub wpa : Points ie ie_len 221 sp.wpa
  pub wme : Points ie ie_len 221 sp.wme

point-Points :
    (ie : Buf) (ie_len id p : ℕ) (here : Bool) (o : Option ℕ)
    → p + 2 + ie (p + 1) ≤ ie_len
    → (here ≡ true → ie p ≡ id)
    → Points ie ie_len id o
    → Points ie ie_len id (point here p o)
unfolding Points
point-Points ie ie_len id p true o fits is_id old q e = ground (arith, is_id refl, e)
point-Points ie ie_len id p false o fits is_id old q e = old q e

note_element-ArePointed :
    (ie : Buf) (ie_len p : ℕ) (sp : ScanParams)
    → p + 2 + ie (p + 1) ≤ ie_len
    → ArePointed ie ie_len sp
    → ArePointed ie ie_len (note_element ie p sp)
note_element-ArePointed ie ie_len p sp fits k = record {
  ssid =
      point-Points ie ie_len 0 p (ie p == 0 && ltb 0 (ie (p + 1))) sp.ssid fits
        (λ e. ground (arith, e)) k.ssid;
  rates = point-Points ie ie_len 1 p (ie p == 1) sp.rates fits (λ e. ground (arith, e)) k.rates;
  xrates =
      point-Points ie ie_len 50 p (ie p == 50) sp.xrates fits (λ e. ground (arith, e)) k.xrates;
  country =
      point-Points ie ie_len 7 p (ie p == 7) sp.country fits (λ e. ground (arith, e)) k.country;
  rsn = point-Points ie ie_len 48 p (ie p == 48) sp.rsn fits (λ e. ground (arith, e)) k.rsn;
  htcap = point-Points ie ie_len 45 p (ie p == 45) sp.htcap fits (λ e. ground (arith, e)) k.htcap;
  htinfo =
      point-Points ie ie_len 61 p (ie p == 61) sp.htinfo fits (λ e. ground (arith, e)) k.htinfo;
  wpa = point-Points ie ie_len 221 p (is_vendor ie p 1) sp.wpa fits (λ e. ground (arith, e)) k.wpa;
  wme = point-Points ie ie_len 221 p (is_vendor ie p 2) sp.wme fits (λ e. ground (arith, e)) k.wme;
}

-- The result of a parse: it ends in the chain, and its pointers are at whole elements of it.
pub record Parsed (ie : Buf) (ie_len : ℕ) (out : Option (ScanParams × ℕ)) : Type 0 where
  pub elements : ScanParams
  pub ies_len : ℕ
  pub is_result : out ≡ some (elements, ies_len)
  pub inside : ies_len ≤ ie_len
  pub pointed : ArePointed ie ie_len elements

parse_ies-Parsed :
    (rounds : ℕ) (ie : Buf) (ie_len p : ℕ) (sp : ScanParams)
    → p ≤ ie_len
    → ie_len < p + 2 * rounds
    → ArePointed ie ie_len sp
    → Parsed ie ie_len (parse_ies rounds ie ie_len p sp)
unfolding parse_ies
parse_ies-Parsed zero ie ie_len p sp l r k = absurd (omega arith)
parse_ies-Parsed (suc rounds) ie ie_len p sp l r k = elim (Bool-cases (ltb ie_len (p + 2))) [
  | inl e ↦ rw e (record { elements = sp; ies_len = p; is_result = refl; inside = l; pointed = k })
  | inr e ↦ elim (Bool-cases (ltb ie_len (p + 2 + ie (p + 1)))) [
    | inl e' ↦
        rw (e, e')
          (record { elements = sp; ies_len = p; is_result = refl; inside = l; pointed = k })
    | inr e' ↦
        rw (e, e')
          (parse_ies-Parsed rounds ie ie_len (p + 2 + ie (p + 1)) (note_element ie p sp)
            (ground arith) (omega arith) (note_element-ArePointed ie ie_len p sp (ground arith) k))
  ]
]

no_elements-ArePointed : (ie : Buf) (ie_len : ℕ) → ArePointed ie ie_len no_elements
unfolding Points
no_elements-ArePointed ie ie_len = record {
  ssid = λ p e. ground arith;
  rates = λ p e. ground arith;
  xrates = λ p e. ground arith;
  country = λ p e. ground arith;
  rsn = λ p e. ground arith;
  htcap = λ p e. ground arith;
  htinfo = λ p e. ground arith;
  wpa = λ p e. ground arith;
  wme = λ p e. ground arith;
}

-- Whatever bytes a chain of elements has, as many rounds as it has bytes and one more are enough to
-- parse it; the parse ends inside the chain, and each pointer it sets is at an element with that
-- pointer's id, all of whose bytes are in the chain.
pub chain-Parsed :
    (ie : Buf) (ie_len : ℕ) → Parsed ie ie_len (parse_ies (suc ie_len) ie ie_len 0 no_elements)
chain-Parsed ie ie_len =
    parse_ies-Parsed (suc ie_len) ie ie_len 0 no_elements (omega arith) (omega arith)
      (no_elements-ArePointed ie ie_len)

-- Whatever offset an entry of 128 to 65535 bytes names, the chain that the scanner parses starts after
-- the fixed part and lies in the entry, and it reaches to the entry's end.
locate_ies_lem :
    (ie_offset bi_len : ℕ)
    → 128 ≤ bi_len
    → bi_len < 65536
    → (128 ≤ (locate_ies ie_offset bi_len).0)
      × ((locate_ies ie_offset bi_len).0 + (locate_ies ie_offset bi_len).1 ≡ bi_len)
unfolding locate_ies
locate_ies_lem ie_offset bi_len l h = (ground arith, ground arith)
