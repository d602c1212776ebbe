-- ===== src/MacAddr/Convert.antt =====
-- secondary/spp_worker_th/cmd_utils.c: which value a MAC address has.
use Prim.Native.Nat.{bit_or}
use spp_tmp.Base.{
  ℕ, zero, suc, ◌+◌, ◌-◌, ◌*◌, ◌/◌, ◌%◌, ◌^◌, ◌<◌, ◌≡◌, refl, ap, ◌∙◌, true, false, some, List, [],
  ◌∷◌, ◌++◌, ◌==◌, if◌then◌else◌, ltb, arith,
}
use spp_tmp.CString.{
  sign, skip_space, based, is_hex, number, digits, digit_val, to_long, strtol, whole, to_int,
}
use spp_tmp.CString.Tokens.{IsWord, strtok_r-word, strtok_r-last, strtok_r-nil}
use spp_tmp.CString.Decimal.{convert_parts}
use spp_tmp.MacAddr.{mac_loop, shifted, sppwk_convert_mac_str_to_int64}
use spp_tmp.MacAddr.Bits.{bit_or_disjoint}

-- What `%02x` prints of a byte.
abbrev hex_digit : ℕ → ℕ
hex_digit d = if ltb d 10 then b'0' + d else b'a' + (d - 10)

unfoldable pub hex2 : ℕ → List ℕ
hex2 b = hex_digit (b / 16) ∷ hex_digit (b % 16) ∷ []

digit_val-hex_digit : (d : ℕ) → d < 16 → digit_val (hex_digit d) ≡ d
digit_val-hex_digit d h = ground arith

sign-hex_digit :
    (d : ℕ) (t : List ℕ) → d < 16 → sign (skip_space (hex_digit d ∷ t)) ≡ (false, hex_digit d ∷ t)
unfolding sign skip_space
sign-hex_digit d t h = ground arith

based-hex_digit :
    (hi lo : ℕ)
    → hi < 16
    → lo < 16
    → based 16 (hex_digit hi ∷ hex_digit lo ∷ []) ≡ some (hi * 16 + lo, [])
unfolding based is_hex number digits
based-hex_digit hi lo h l =
    let eh = digit_val-hex_digit hi h in
    let el = digit_val-hex_digit lo l in
    let bh : ltb hi 16 ≡ true = ground arith in
    let bl : ltb lo 16 ≡ true = ground arith in
    rw eh (rw el (rw bh (rw bl (ap (λ (v : ℕ). some (v, [])) (omega arith)))))

pub strtol-hex2 : (b : ℕ) → b < 256 → whole (strtol 16 (hex2 b)) ≡ some b
unfolding hex2
strtol-hex2 b h =
    let hi = b / 16 in
    let lo = b % 16 in
    let parts =
      convert_parts to_long 16 (hex2 b) false (hex2 b) (hi * 16 + lo) []
        (sign-hex_digit hi (hex_digit lo ∷ []) (omega arith))
        (based-hex_digit hi lo (omega arith) (omega arith)) in
    ap whole parts ∙ ap some (small b h)
  where
    small : (b : ℕ) → b < 256 → to_long false (b / 16 * 16 + b % 16) ≡ b
    small b h = ground arith

pub IsWord-hex2 : (b : ℕ) → b < 256 → IsWord b':' (hex2 b)
unfolding hex2
IsWord-hex2 b h = (not_colon (b / 16) (omega arith), (not_colon (b % 16) (omega arith), tt))
  where
    not_colon : (d : ℕ) → d < 16 → (hex_digit d == b':') ≡ false
    not_colon d h = ground arith

-- One token of the loop.
mac_step :
    (room cnt acc b : ℕ) (r : List ℕ)
    → b < 256
    → mac_loop (suc room) cnt acc (hex2 b ++ (b':' ∷ r))
      ≡ mac_loop room (cnt + 1) (bit_or acc (shifted (to_int b) cnt)) r
unfolding mac_loop
mac_step room cnt acc b r h =
    rw (strtok_r-word b':' (hex2 b) r (IsWord-hex2 b h), mac_loop) (rw (strtol-hex2 b h) refl)

mac_last :
    (room cnt acc b : ℕ)
    → b < 256
    → mac_loop (suc room) cnt acc (hex2 b) ≡ bit_or acc (shifted (to_int b) cnt)
unfolding mac_loop
mac_last room cnt acc b h =
    rw (strtok_r-last b':' (hex2 b) (IsWord-hex2 b h), mac_loop)
      (rw (strtol-hex2 b h) (mac_end room (cnt + 1) (bit_or acc (shifted (to_int b) cnt))))
  where
    mac_end : (room cnt acc : ℕ) → mac_loop room cnt acc [] ≡ acc
    mac_end zero cnt acc = rw (strtok_r-nil b':', mac_loop) refl
    mac_end (suc room) cnt acc = rw (strtok_r-nil b':', mac_loop) refl

-- Six bytes as `xx:xx:xx:xx:xx:xx`.
abbrev pub mac_str : ℕ → ℕ → ℕ → ℕ → ℕ → ℕ → List ℕ
mac_str b0 b1 b2 b3 b4 b5 =
    hex2 b0
    ++ (b':'
        ∷ (hex2 b1
            ++ (b':' ∷ (hex2 b2 ++ (b':' ∷ (hex2 b3 ++ (b':' ∷ (hex2 b4 ++ (b':' ∷ hex2 b5)))))))))

-- The same, with the sum in place of the bit operations: the digits do not overlap.
mac_byte :
    (room j acc b : ℕ) (r : List ℕ)
    → b < 256
    → acc < 2 ^ (8 * j)
    → shifted (to_int b) j ≡ b * 2 ^ (8 * j)
    → mac_loop (suc room) j acc (hex2 b ++ (b':' ∷ r))
      ≡ mac_loop room (j + 1) (acc + b * 2 ^ (8 * j)) r
mac_byte room j acc b r h lt e =
    mac_step room j acc b r h
    ∙ ap (λ v. mac_loop room (j + 1) v r) (rw e (bit_or_disjoint (8 * j) acc b lt))

mac_last_byte :
    (room j acc b : ℕ)
    → b < 256
    → acc < 2 ^ (8 * j)
    → shifted (to_int b) j ≡ b * 2 ^ (8 * j)
    → mac_loop (suc room) j acc (hex2 b) ≡ acc + b * 2 ^ (8 * j)
mac_last_byte room j acc b h lt e =
    mac_last room j acc b h ∙ rw e (bit_or_disjoint (8 * j) acc b lt)

-- Six bytes printed in hexadecimal with colons have the value whose bytes, from the lowest, they are.
pub convert-mac_str :
    (b0 b1 b2 b3 b4 b5 : ℕ)
    → b0 < 256
    → b1 < 256
    → b2 < 256
    → b3 < 256
    → b4 < 256
    → b5 < 256
    → sppwk_convert_mac_str_to_int64 (mac_str b0 b1 b2 b3 b4 b5)
      ≡ some (b0 + b1 * 2 ^ 8 + b2 * 2 ^ 16 + b3 * 2 ^ 24 + b4 * 2 ^ 32 + b5 * 2 ^ 40)
unfolding sppwk_convert_mac_str_to_int64 hex2
convert-mac_str b0 b1 b2 b3 b4 b5 h0 h1 h2 h3 h4 h5 =
    let r5 = hex2 b5 in
    let r4 = hex2 b4 ++ (b':' ∷ r5) in
    let r3 = hex2 b3 ++ (b':' ∷ r4) in
    let r2 = hex2 b2 ++ (b':' ∷ r3) in
    let r1 = hex2 b1 ++ (b':' ∷ r2) in
    let a1 = 0 + b0 * 1 in
    let a2 = a1 + b1 * 2 ^ 8 in
    let a3 = a2 + b2 * 2 ^ 16 in
    let a4 = a3 + b3 * 2 ^ 24 in
    let a5 = a4 + b4 * 2 ^ 32 in
    ap some (
      mac_byte 5 0 0 b0 r1 h0 (omega arith) (ground arith)
      ∙ mac_byte 4 1 a1 b1 r2 h1 (omega arith) (ground arith)
      ∙ mac_byte 3 2 a2 b2 r3 h2 (omega arith) (ground arith)
      ∙ mac_byte 2 3 a3 b3 r4 h3 (omega arith) (ground arith)
      ∙ mac_byte 1 4 a4 b4 r5 h4 (omega arith) (ground arith)
      ∙ mac_last_byte 0 5 a5 b5 h5 (omega arith) (ground arith)
      ∙ omega arith)
