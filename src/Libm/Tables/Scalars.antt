-- ===== src/Libm/Tables/Scalars.antt =====
-- The scalars and polynomials of libm/src/musl/{exp,log,log2,pow}_data.c, as their bits.
use wasm_cxx_shim.Prelude.{ℕ, List, ◌∷◌, []}

-- exp_data.c, where `N` is 128.
abbrev pub inv_ln2_n : ℕ
inv_ln2_n = 0x40671547652b82fe

abbrev pub neg_ln2_hi_n : ℕ
neg_ln2_hi_n = 0xbf762e42fefa0000

abbrev pub neg_ln2_lo_n : ℕ
neg_ln2_lo_n = 0xbd0cf79abc9e3b3a

abbrev pub exp_shift : ℕ
exp_shift = 0x4338000000000000

abbrev pub exp_poly : List ℕ
exp_poly = 0x3fdffffffffffdbd ∷ 0x3fc555555555543c ∷ 0x3fa55555cf172b91 ∷ 0x3f81111167a4d017 ∷ []

-- log_data.c; pow_data.c has the same `ln2hi` and `ln2lo`.
abbrev pub ln2_hi : ℕ
ln2_hi = 0x3fe62e42fefa3800

abbrev pub ln2_lo : ℕ
ln2_lo = 0x3d2ef35793c76730

abbrev pub log_poly1 : List ℕ
log_poly1 =
    0xbfe0000000000000 ∷ 0x3fd5555555555577 ∷ 0xbfcffffffffffdcb ∷ 0x3fc999999995dd0c
    ∷ 0xbfc55555556745a7 ∷ 0x3fc24924a344de30 ∷ 0xbfbfffffa4423d65 ∷ 0x3fbc7184282ad6ca
    ∷ 0xbfb999eb43b068ff ∷ 0x3fb78182f7afd085 ∷ 0xbfb5521375d145cd ∷ []

abbrev pub log_poly : List ℕ
log_poly =
    0xbfe0000000000001 ∷ 0x3fd555555551305b ∷ 0xbfcfffffffeb4590 ∷ 0x3fc999b324f10111
    ∷ 0xbfc55575e506c89f ∷ []

-- log2_data.c.
abbrev pub inv_ln2_hi : ℕ
inv_ln2_hi = 0x3ff7154765200000

abbrev pub inv_ln2_lo : ℕ
inv_ln2_lo = 0x3de705fc2eefa200

abbrev pub log2_poly1 : List ℕ
log2_poly1 =
    0xbfe71547652b82fe ∷ 0x3fdec709dc3a03f7 ∷ 0xbfd71547652b7c3f ∷ 0x3fd2776c50f05be4
    ∷ 0xbfcec709dd768fe5 ∷ 0x3fca61761ec4e736 ∷ 0xbfc7153fbc64a79b ∷ 0x3fc484d154f01b4a
    ∷ 0xbfc289e4a72c383c ∷ 0x3fc0b32f285aee66 ∷ []

abbrev pub log2_poly : List ℕ
log2_poly =
    0xbfe71547652b8339 ∷ 0x3fdec709dc3a04be ∷ 0xbfd7154764702ffb ∷ 0x3fd2776c50034c48
    ∷ 0xbfcec7b328ea92bc ∷ 0x3fca6225e117f92e ∷ []

-- pow_data.c.
abbrev pub pow_poly : List ℕ
pow_poly =
    0xbfe0000000000000 ∷ 0xbfe5555555555560 ∷ 0x3fe0000000000006 ∷ 0x3fe999999959554e
    ∷ 0xbfe555555529a47a ∷ 0xbff2495b9b4845e9 ∷ 0x3ff0002b8b263fc3 ∷ []
