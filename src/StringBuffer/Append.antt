-- ===== src/StringBuffer/Append.antt =====
-- The functions of string_buffer.c on a buffer whose string and terminating 0 fit.
use spp_tmp.Base.{
  ℕ, zero, suc, ◌+◌, ◌*◌, ◌%◌, ◌^◌, ◌<◌, ◌≡◌, ◌≢◌, refl, Bool, true, some, List, [], ◌∷◌, ◌++◌,
  arith, Bool-cases, inl, inr, length, length-append, drop, leb,
}
use spp_tmp.StringBuffer.{Strbuf, grow, allocate, reallocate, until_zero, append, remove_front}

abbrev pub IsTerminated : Strbuf → Type 0
IsTerminated b = length b.str < b.capacity

-- With more fuel than bytes are missing, `grow` ends with a capacity above the required length.
grow_enough :
    (fuel size required : ℕ)
    → 0 < size
    → required < 2 ^ 63
    → required + 1 < fuel + size
    → 0 < fuel
    → (c : ℕ) × (grow fuel size required ≡ some c) × (required < c)
unfolding grow
grow_enough zero size required h0 hr hf hp = absurd (omega arith)
grow_enough (suc zero) size required h0 hr hf hp = (size, ground arith, omega arith)
grow_enough (suc (suc fuel)) size required h0 hr hf hp = elim (Bool-cases (leb size required)) [
  | inr e ↦ (size, rw e refl, ground arith)
  | inl e ↦
      let (c, g, lt) =
        grow_enough (suc fuel) (size * 2 % 2 ^ 64) required (ground arith) hr (ground arith)
          (omega arith) in
      (c, rw e g, lt)
]

-- Bytes without a 0.
abbrev pub NoZero : List ℕ → Type 0
NoZero [] = Unit {0}
NoZero (x ∷ xs) = (x ≢ 0) × NoZero xs

until_zero_all : (xs : List ℕ) → NoZero xs → until_zero xs ≡ xs
unfolding until_zero
until_zero_all [] h = refl
until_zero_all (x ∷ xs) (ne, h) = let ih = until_zero_all xs h in ground arith

drop_append : (xs ys : List ℕ) → drop (length xs) (xs ++ ys) ≡ ys
drop_append [] ys = refl
drop_append (x ∷ xs) ys = drop_append xs ys

-- If `malloc` succeeds, an append of bytes without a 0 to a terminated buffer of less than 2^62 bytes
-- in all succeeds, the buffer holds the old string and then the new bytes, and it is terminated; to remove as many bytes
-- as it held before leaves the new ones.
pub append_fits :
    (malloc : ℕ → Bool) (b : Strbuf) (bytes : List ℕ)
    → ((n : ℕ) → malloc n ≡ true)
    → NoZero bytes
    → IsTerminated b
    → b.capacity < 2 ^ 62
    → length b.str + length bytes < 2 ^ 62
    → (c : Strbuf) × (append malloc b bytes ≡ some c)
      × (c.str ≡ b.str ++ bytes)
      × IsTerminated c
      × (remove_front c (length b.str) ≡ some (record c { str = bytes }))
unfolding append reallocate allocate remove_front
append_fits malloc b bytes ok nz term hc hl =
    elim (Bool-cases (leb b.capacity (length b.str + length bytes))) [
      | inr e ↦ (
        record b { str = b.str ++ bytes },
        let z = until_zero_all bytes nz in rw (e, z) refl,
        refl,
        ground (arith, length-append b.str bytes),
        front b.capacity,
      )
      | inl e ↦
          let (c, g, lt) =
            grow_enough (length b.str + length bytes + 1) (b.capacity * 2 % 2 ^ 64)
              (length b.str + length bytes) (omega arith) (omega arith) (omega arith)
              (omega arith) in
          (
            record { capacity = c; str = b.str ++ bytes },
            let z = until_zero_all bytes nz in
                rw (e, z, reallocate, g, allocate, ok ((c + 8) % 2 ^ 64)) refl,
            refl,
            omega (arith, length-append b.str bytes),
            front c,
          )
    ]
  where
    front :
        (size : ℕ)
        → remove_front (record { capacity = size; str = b.str ++ bytes }) (length b.str)
          ≡ some (record { capacity = size; str = bytes })
    front size = ground (arith, length-append b.str bytes, drop_append b.str bytes)
