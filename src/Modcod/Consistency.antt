-- ===== src/Modcod/Consistency.antt =====
-- src/modcod.c: what the parameters of a table entry have to do with one another.
use mathlib.Core.Path.{subst}
use open_vlsnr.Prelude.{
  ℕ, ◌+◌, ◌-◌, ◌*◌, ◌%◌, ◌≤◌, ◌≡◌, ◌||◌, some, arith, get_elem?, ltb, AllFrom, AllFrom-get_elem?,
  if-none-eq-some,
}
use open_vlsnr.Types.{
  Modcod, FrameType, normal, medium, short_frame, VlsnrSet, set1, set2, ldpc_normal, ldpc_medium,
  ldpc_short, pls_vlsnr_set1, pls_vlsnr_set2, tx_coded_bits,
}
use open_vlsnr.Modcod.{modcod_table, get_modcod}

-- The codeword length and the number of BCH parity bits of each frame type.
abbrev pub code_length : FrameType → ℕ
code_length normal = ldpc_normal
code_length medium = ldpc_medium
code_length short_frame = ldpc_short

abbrev pub bch_parity : FrameType → ℕ
bch_parity normal = 192
bch_parity medium = 180
bch_parity short_frame = 168

abbrev pub set_code : VlsnrSet → ℕ
set_code set1 = pls_vlsnr_set1
set_code set2 = pls_vlsnr_set2

pub record IsConsistent (mc : Modcod) : Type 0 where
  pub frame : mc.fec_len ≡ code_length mc.frame_type
  pub pls : mc.pls_code ≡ set_code mc.vlsnr_set
  pub bch : mc.n_bch ≡ mc.k_bch + bch_parity mc.frame_type
  pub bch_power : mc.bch_t ≡ 12
  pub shortening : mc.k_ldpc ≡ mc.xs + mc.n_bch
  pub effective : mc.nbch_eff ≡ mc.n_bch
  pub groups : mc.k_ldpc % 360 ≡ 0
  pub circulant : mc.k_ldpc + mc.q_ldpc * 360 ≡ mc.fec_len
  pub rate : mc.code_rate_den * mc.k_ldpc ≡ mc.code_rate_num * mc.fec_len
  pub punctures_fit : mc.xp * mc.p_period ≤ mc.fec_len - mc.k_ldpc
  pub field : 80 ≤ mc.k_bch
  pub coded : tx_coded_bits mc + mc.xs + mc.xp ≡ mc.fec_len

abbrev pub Entry : ℕ → Modcod → Type 0
Entry i mc = (mc.index ≡ i) × IsConsistent mc

pub table-Entry : AllFrom Entry 1 modcod_table
table-Entry = omega arith

pub get_modcod_table :
    (i : ℕ) {mc : Modcod} → get_modcod i ≡ some mc → get_elem? modcod_table (i - 1) ≡ some mc
unfolding get_modcod
get_modcod_table i e = (if-none-eq-some (ltb i 1 || ltb 9 i) (get_elem? modcod_table (i - 1)) e).1

-- `dvbs2x_vlsnr_get_modcod` answers at an index from 1 to 9 only; what it returns has that
-- index, and its parameters agree with one another.
pub get_modcod-IsConsistent :
    (i : ℕ) {mc : Modcod}
    → get_modcod i ≡ some mc
    → (1 ≤ i) × (i ≤ 9) × (mc.index ≡ i) × IsConsistent mc
unfolding get_modcod
get_modcod-IsConsistent i {mc} e =
    let (inside, found) = if-none-eq-some (ltb i 1 || ltb 9 i) (get_elem? modcod_table (i - 1)) e in
    let low : 1 ≤ i = ground arith in
    let high : i ≤ 9 = ground arith in
    let (at, good) : Entry i mc =
      subst (λ k. Entry k mc) (omega arith)
        (AllFrom-get_elem? Entry 1 modcod_table (i - 1) table-Entry found) in
    (low, high, at, good)
