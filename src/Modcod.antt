-- ===== src/Modcod.antt =====
-- src/modcod.c: the nine entries of `vlsnr_modcod_table`, their names and the three lookups.
pub mod Consistency
pub mod Lookup
mod Tests
use Prim.Native.String.{String}
use text.Mathlib.Text.{◌==◌ as str_eq}
use open_vlsnr.Prelude.{
  ℕ, ◌-◌, Bool, true, false, ◌||◌, Option, none, some, List, [], ◌∷◌, ltb, if◌then◌else◌, get_elem?,
}
use open_vlsnr.Types.{
  Modcod, bpsk, qpsk, normal, medium, short_frame, set1, set2, pls_vlsnr_set1, pls_vlsnr_set2,
  num_modcods,
}

-- QPSK 2/9, normal frame
abbrev pub qpsk_2_9_normal : Modcod
qpsk_2_9_normal = record {
  index = 1;
  modulation = qpsk;
  frame_type = normal;
  fec_len = 64800;
  code_rate_num = 2;
  code_rate_den = 9;
  has_spread = false;
  vlsnr_set = set1;
  pls_code = pls_vlsnr_set1;
  k_bch = 14208;
  n_bch = 14400;
  bch_t = 12;
  k_ldpc = 14400;
  q_ldpc = 140;
  xs = 0;
  xp = 3240;
  p_period = 15;
  nbch_eff = 14400;
}

-- BPSK 1/5, medium frame
abbrev pub bpsk_1_5_medium : Modcod
bpsk_1_5_medium = record {
  index = 2;
  modulation = bpsk;
  frame_type = medium;
  fec_len = 32400;
  code_rate_num = 1;
  code_rate_den = 5;
  has_spread = false;
  vlsnr_set = set1;
  pls_code = pls_vlsnr_set1;
  k_bch = 5660;
  n_bch = 5840;
  bch_t = 12;
  k_ldpc = 6480;
  q_ldpc = 72;
  xs = 640;
  xp = 980;
  p_period = 25;
  nbch_eff = 5840;
}

-- BPSK 11/45, medium frame
abbrev pub bpsk_11_45_medium : Modcod
bpsk_11_45_medium = record {
  index = 3;
  modulation = bpsk;
  frame_type = medium;
  fec_len = 32400;
  code_rate_num = 11;
  code_rate_den = 45;
  has_spread = false;
  vlsnr_set = set1;
  pls_code = pls_vlsnr_set1;
  k_bch = 7740;
  n_bch = 7920;
  bch_t = 12;
  k_ldpc = 7920;
  q_ldpc = 68;
  xs = 0;
  xp = 1620;
  p_period = 15;
  nbch_eff = 7920;
}

-- BPSK 1/3, medium frame
abbrev pub bpsk_1_3_medium : Modcod
bpsk_1_3_medium = record {
  index = 4;
  modulation = bpsk;
  frame_type = medium;
  fec_len = 32400;
  code_rate_num = 1;
  code_rate_den = 3;
  has_spread = false;
  vlsnr_set = set1;
  pls_code = pls_vlsnr_set1;
  k_bch = 10620;
  n_bch = 10800;
  bch_t = 12;
  k_ldpc = 10800;
  q_ldpc = 60;
  xs = 0;
  xp = 1620;
  p_period = 13;
  nbch_eff = 10800;
}

-- BPSK-S 1/5, short frame (spread)
abbrev pub bpsk_s_1_5_short : Modcod
bpsk_s_1_5_short = record {
  index = 5;
  modulation = bpsk;
  frame_type = short_frame;
  fec_len = 16200;
  code_rate_num = 1;
  code_rate_den = 5;
  has_spread = true;
  vlsnr_set = set1;
  pls_code = pls_vlsnr_set1;
  k_bch = 2512;
  n_bch = 2680;
  bch_t = 12;
  k_ldpc = 3240;
  q_ldpc = 36;
  xs = 560;
  xp = 250;
  p_period = 30;
  nbch_eff = 2680;
}

-- BPSK-S 11/45, short frame (spread)
abbrev pub bpsk_s_11_45_short : Modcod
bpsk_s_11_45_short = record {
  index = 6;
  modulation = bpsk;
  frame_type = short_frame;
  fec_len = 16200;
  code_rate_num = 11;
  code_rate_den = 45;
  has_spread = true;
  vlsnr_set = set1;
  pls_code = pls_vlsnr_set1;
  k_bch = 3792;
  n_bch = 3960;
  bch_t = 12;
  k_ldpc = 3960;
  q_ldpc = 34;
  xs = 0;
  xp = 810;
  p_period = 15;
  nbch_eff = 3960;
}

-- BPSK 1/5, short frame
abbrev pub bpsk_1_5_short : Modcod
bpsk_1_5_short = record {
  index = 7;
  modulation = bpsk;
  frame_type = short_frame;
  fec_len = 16200;
  code_rate_num = 1;
  code_rate_den = 5;
  has_spread = false;
  vlsnr_set = set2;
  pls_code = pls_vlsnr_set2;
  k_bch = 3072;
  n_bch = 3240;
  bch_t = 12;
  k_ldpc = 3240;
  q_ldpc = 36;
  xs = 0;
  xp = 1224;
  p_period = 10;
  nbch_eff = 3240;
}

-- BPSK 4/15, short frame
abbrev pub bpsk_4_15_short : Modcod
bpsk_4_15_short = record {
  index = 8;
  modulation = bpsk;
  frame_type = short_frame;
  fec_len = 16200;
  code_rate_num = 4;
  code_rate_den = 15;
  has_spread = false;
  vlsnr_set = set2;
  pls_code = pls_vlsnr_set2;
  k_bch = 4152;
  n_bch = 4320;
  bch_t = 12;
  k_ldpc = 4320;
  q_ldpc = 33;
  xs = 0;
  xp = 1224;
  p_period = 8;
  nbch_eff = 4320;
}

-- BPSK 1/3, short frame
abbrev pub bpsk_1_3_short : Modcod
bpsk_1_3_short = record {
  index = 9;
  modulation = bpsk;
  frame_type = short_frame;
  fec_len = 16200;
  code_rate_num = 1;
  code_rate_den = 3;
  has_spread = false;
  vlsnr_set = set2;
  pls_code = pls_vlsnr_set2;
  k_bch = 5232;
  n_bch = 5400;
  bch_t = 12;
  k_ldpc = 5400;
  q_ldpc = 30;
  xs = 0;
  xp = 1224;
  p_period = 8;
  nbch_eff = 5400;
}

-- `vlsnr_modcod_table`
abbrev pub modcod_table : List Modcod
modcod_table =
    qpsk_2_9_normal ∷ bpsk_1_5_medium ∷ bpsk_11_45_medium ∷ bpsk_1_3_medium ∷ bpsk_s_1_5_short
    ∷ bpsk_s_11_45_short ∷ bpsk_1_5_short ∷ bpsk_4_15_short ∷ bpsk_1_3_short ∷ []

-- `vlsnr_modcod_names`
abbrev pub modcod_names : List String
modcod_names =
    "QPSK 2/9 normal set1" ∷ "BPSK 1/5 medium set1" ∷ "BPSK 11/45 medium set1"
    ∷ "BPSK 1/3 medium set1" ∷ "BPSK-S 1/5 short set1 SF2" ∷ "BPSK-S 11/45 short set1 SF2"
    ∷ "BPSK 1/5 short set2" ∷ "BPSK 4/15 short set2" ∷ "BPSK 1/3 short set2" ∷ []

-- `legacy_names` of `dvbs2x_vlsnr_get_modcod_by_name`
abbrev pub legacy_names : List (String × ℕ)
legacy_names =
    ("QPSK 2/9", 1)
    ∷ ("BPSK 11/45", 3)
    ∷ ("BPSK-S 1/5", 5)
    ∷ ("BPSK-S 11/45", 6)
    ∷ ("BPSK 4/15", 8)
    ∷ []

-- `dvbs2x_vlsnr_get_modcod`; `none` is NULL.
unfoldable pub get_modcod : ℕ → Option Modcod
get_modcod index =
    if ltb index 1 || ltb num_modcods index then none else get_elem? modcod_table (index - 1)

-- `dvbs2x_vlsnr_get_modcod_name`
pub get_modcod_name : ℕ → Option String
get_modcod_name index =
    if ltb index 1 || ltb num_modcods index then none else get_elem? modcod_names (index - 1)

-- The first loop of `dvbs2x_vlsnr_get_modcod_by_name`: both arrays are walked by one index.
pub find_canonical : String → List String → List Modcod → Option Modcod
find_canonical name [] mcs = none
find_canonical name (n ∷ ns) [] = none
find_canonical name (n ∷ ns) (mc ∷ mcs) =
    if str_eq name n then some mc else find_canonical name ns mcs

-- The second loop.
pub find_legacy : String → List (String × ℕ) → Option Modcod
find_legacy name [] = none
find_legacy name ((n, index) ∷ rest) =
    if str_eq name n then get_modcod index else find_legacy name rest

-- `dvbs2x_vlsnr_get_modcod_by_name`; the argument is `none` for a NULL pointer.
pub get_modcod_by_name : Option String → Option Modcod
get_modcod_by_name none = none
get_modcod_by_name (some name) = elim (find_canonical name modcod_names modcod_table) [
  | some mc ↦ some mc
  | none ↦ find_legacy name legacy_names
]
