-- ===== src/Cyw/Keys/Tests.antt =====
-- The theorem on keys, applied to a group key with a receive counter beyond 32 bits.
use free_bsd15_rpi5_modules.Base.{◌+◌, true, some}
use free_bsd15_rpi5_modules.Cyw.Keys.{Key, aes_ccm, key_set}
use free_bsd15_rpi5_modules.Cyw.Keys.Install.{Outcome, key_set-Outcome}

abbrev group_key : Key
group_key = record {
  group = true;
  keyix = 1;
  keylen = 16;
  key = λ i. i + 1;
  cipher = some aes_ccm;
  macaddr = 0xffffffffffff;
  keyrsc = 0x123456789abc;
}

key_set-Outcome_example : Outcome (λ w. 0) (some 5) group_key (key_set (λ w. 0) (some 5) group_key)
key_set-Outcome_example = key_set-Outcome (λ w. 0) (some 5) group_key
