-- ===== src/StringBuffer.antt =====
-- src/shared/secondary/string_buffer.c: the buffer of the messages from spp-ctl.
-- A buffer is its capacity and the string before its terminating 0. The allocation is a parameter:
-- whether `malloc` of a size succeeds.
pub mod Append
use spp_tmp.Base.{
  ℕ, zero, suc, ◌+◌, ◌-◌, ◌*◌, ◌%◌, ◌^◌, Bool, true, false, Option, none, some, List, [], ◌∷◌, ◌++◌,
  ◌==◌, if◌then◌else◌, ltb, leb, length, drop,
}

pub record Strbuf : Type 0 where
  pub capacity : ℕ
  pub str : List ℕ

-- `while (new_cap <= required_len) new_cap *= 2;` in `size_t`, in at most `fuel` rounds.
pub grow : ℕ → ℕ → ℕ → Option ℕ
grow zero cap required_len = none
grow (suc fuel) cap required_len =
    let rest = grow fuel (cap * 2 % 2 ^ 64) required_len in
    if leb cap required_len then rest else some cap

-- The bytes before the first 0: what `strlen` counts.
pub until_zero : List ℕ → List ℕ
until_zero [] = []
until_zero (x ∷ xs) = let rest = until_zero xs in if x == 0 then [] else x ∷ rest

module _ (malloc : ℕ → Bool) where
  -- 8 is `sizeof(size_t)`.
  pub allocate : ℕ → Option Strbuf
  allocate capacity =
      if malloc ((capacity + 8) % 2 ^ 64)
      then some (record { capacity = capacity; str = [] })
      else none

  abbrev pub copy_into : List ℕ → Option Strbuf → Option Strbuf
  copy_into s none = none
  copy_into s (some b) = some (record b { str = s })

  -- Each round doubles the capacity, so one more round than bytes are required is enough.
  pub reallocate : Strbuf → ℕ → Option Strbuf
  reallocate b required_len =
      elim (grow (required_len + 1) (b.capacity * 2 % 2 ^ 64) required_len) [
        | none ↦ none
        | some new_cap ↦ copy_into b.str (allocate new_cap)
      ]

  -- `none` is NULL. `bytes` are the `append_len` bytes at `append`, any bytes; the string that the
  -- buffer holds after the copy ends at the first 0 among them.
  pub append : Strbuf → List ℕ → Option Strbuf
  append b bytes =
      if leb b.capacity (length b.str + length bytes)
      then copy_into (b.str ++ until_zero bytes) (reallocate b (length b.str + length bytes))
      else some (record b { str = b.str ++ until_zero bytes })

-- `none` is a `memmove` of a length that has wrapped around.
pub remove_front : Strbuf → ℕ → Option Strbuf
remove_front b remove_len =
    if ltb (length b.str) remove_len then none else some (record b { str = drop remove_len b.str })
