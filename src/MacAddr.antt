-- ===== src/MacAddr.antt =====
-- src/shared/secondary/spp_worker_th/cmd_utils.c: `sppwk_convert_mac_str_to_int64`.
-- An `int64_t` is its two's complement of 64 bits.
pub mod Bits
pub mod Convert
use Prim.Native.Nat.{bit_or}
use spp_tmp.Base.{
  ℕ, zero, suc, ◌+◌, ◌-◌, ◌*◌, ◌%◌, ◌^◌, Bool, true, false, Option, none, some, List, [], ◌∷◌, ◌==◌,
  if◌then◌else◌, ltb, leb, length,
}
use spp_tmp.CString.{codes, strtol, whole, to_int, is_neg, strtok_r}

-- RTE_ETHER_ADDR_LEN and STR_LEN_SHORT
abbrev pub ether_addr_len : ℕ
ether_addr_len = 6

abbrev pub str_len_short : ℕ
str_len_short = 32

-- SPPWK_RET_NG as an `int64_t`
abbrev pub ret_ng : ℕ
ret_ng = 2 ^ 64 - 1

abbrev pub is_neg64 : ℕ → Bool
is_neg64 v = leb (2 ^ 63) v

-- `(int64_t)ret_tol`
abbrev pub to_int64 : ℕ → ℕ
to_int64 v = if is_neg v then v + (2 ^ 64 - 2 ^ 32) else v

abbrev pub shifted : ℕ → ℕ → ℕ
shifted token_val token_cnt = to_int64 token_val * 2 ^ (8 * token_cnt) % 2 ^ 64

-- The loop, where `room` tokens more are allowed.
unfoldable pub mac_loop : ℕ → ℕ → ℕ → List ℕ → ℕ
mac_loop zero token_cnt ret_mac s = elim (strtok_r b':' s) [ none ↦ ret_mac | some p ↦ ret_ng ]
mac_loop (suc room) token_cnt ret_mac s = elim (strtok_r b':' s) [
  | none ↦ ret_mac
  | some (ret_tok, saveptr) ↦ elim (whole (strtol 16 ret_tok)) [
    | none ↦ ret_mac
    | some v ↦ mac_loop room (token_cnt + 1) (bit_or ret_mac (shifted (to_int v) token_cnt)) saveptr
  ]
]

-- `none` is a `strcpy` behind the end of `tmp_mac`.
unfoldable pub sppwk_convert_mac_str_to_int64 : List ℕ → Option ℕ
unfolding mac_loop
sppwk_convert_mac_str_to_int64 macaddr =
    if leb str_len_short (length macaddr) then none else some (mac_loop ether_addr_len 0 0 macaddr)
