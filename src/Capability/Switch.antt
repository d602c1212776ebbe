-- ===== src/Capability/Switch.antt =====
-- `SPPWK_SWAP_REF` of port_capability.c: the loop over the marked ports, and what a worker reads
-- after it.
use spp_tmp.Base.{
  ℕ, ◌+◌, ◌≤◌, ◌<◌, ◌≡◌, ◌≢◌, refl, ◌∙◌, ◌==◌, if◌then◌else◌, arith, Bool-cases, inl, inr, ◌⊎◌,
  ℕ_discrete, for_from_inv,
}
use spp_tmp.Capability.{Column, switch_over, marked, switch_port, switch_all}

-- What holds after `j` rounds of the loop that began at `c`.
record Switched (c : Column) (j : ℕ) (t : Column) : Type 0 where
  rest : (a : ℕ) → j ≤ a → t.list a ≡ c.list a
  either : (k : ℕ) → (t.mng k ≡ c.mng k) ⊎ (t.mng k ≡ switch_over (c.mng k))
  listed : (a k : ℕ) → a < j → c.list a ≡ k → t.mng k ≡ switch_over (c.mng k)
  unlisted : (k : ℕ) → ((a : ℕ) → a < j → c.list a ≢ k) → t.mng k ≡ c.mng k

switch_port_mng :
    (j : ℕ) (t : Column) (k : ℕ)
    → (switch_port j t).mng k ≡ (if k == t.list j then switch_over (t.mng k) else t.mng k)
unfolding switch_port
switch_port_mng j t k = ground arith

switch_port_list : (j : ℕ) (t : Column) (a : ℕ) → a ≢ j → (switch_port j t).list a ≡ t.list a
unfolding switch_port
switch_port_list j t a h = ground arith

module _ (c : Column) (j : ℕ) (t : Column) (s : Switched c j t) where
  over_either : (k : ℕ) → switch_over (t.mng k) ≡ switch_over (c.mng k)
  over_either k = ground (arith, s.either k)

  step-either :
      (k : ℕ)
      → ((switch_port j t).mng k ≡ c.mng k) ⊎ ((switch_port j t).mng k ≡ switch_over (c.mng k))
  step-either k = elim (Bool-cases (k == t.list j)) [
    | inl e ↦ inr (switch_port_mng j t k ∙ rw e (over_either k))
    | inr e ↦ ground (arith, switch_port_mng j t k, s.either k)
  ]

  step-listed :
      (a k : ℕ) → a < j + 1 → c.list a ≡ k → (switch_port j t).mng k ≡ switch_over (c.mng k)
  step-listed a k h e = elim (ℕ_discrete a j) [
    | yes p ↦ ground (arith, switch_port_mng j t k, over_either k, s.rest j)
    | no p ↦ ground (arith, switch_port_mng j t k, over_either k, s.listed a k)
  ]

  step-unlisted : (k : ℕ) → ((a : ℕ) → a < j + 1 → c.list a ≢ k) → (switch_port j t).mng k ≡ c.mng k
  step-unlisted k h =
      ground (arith, switch_port_mng j t k, s.rest j, h j, s.unlisted k (λ a lt. h a (omega arith)))

  step-Switched : Switched c (j + 1) (switch_port j t)
  step-Switched = record {
    rest = λ a h. switch_port_list j t a (omega arith) ∙ s.rest a (omega arith);
    either = step-either;
    listed = step-listed;
    unlisted = step-unlisted;
  }

switch_all-Switched : (c : Column) → Switched c (0 + c.num) (switch_all c)
unfolding switch_all
switch_all-Switched c =
    for_from_inv (λ j t. Switched c j t) switch_port c.num 0 c (λ j t _ _ s. step-Switched c j t s)
      (record {
        rest = λ a h. refl;
        either = λ k. inl refl;
        listed = λ a k h e. absurd (omega arith);
        unlisted = λ k h. refl;
      })

-- A port that was marked last is switched over.
pub switch_all-listed :
    (c : Column) (i : ℕ) → (switch_all (marked i c)).mng i ≡ switch_over ((marked i c).mng i)
switch_all-listed c i =
    (switch_all-Switched (marked i c)).listed c.num i (omega arith) (ground arith)

pub switch_all_num : (c : Column) → (switch_all c).num ≡ c.num
unfolding switch_all switch_port
switch_all_num c = for_from_inv (λ _ t. t.num ≡ c.num) switch_port c.num 0 c (λ j t _ _ e. e) refl

pub switch_all_size : (c : Column) → (switch_all c).size ≡ c.size
unfolding switch_all switch_port
switch_all_size c =
    for_from_inv (λ _ t. t.size ≡ c.size) switch_port c.num 0 c (λ j t _ _ e. e) refl
