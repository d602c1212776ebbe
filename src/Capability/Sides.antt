-- ===== src/Capability/Sides.antt =====
-- The two sides of port_capability.c: what a worker reads while and after a port is updated.
use spp_tmp.Base.{
  ℕ, zero, suc, ◌+◌, ◌-◌, ◌%◌, ◌≤◌, ◌<◌, ◌≡◌, ◌≢◌, refl, ap, ◌∙◌, List, [], ◌∷◌, ◌++◌, ◌==◌,
  if◌then◌else◌, arith, Bool-cases, inl, inr, ◌⊎◌, set, replicate, length, append_assoc,
}
use spp_tmp.WorkerTypes.{PortDir, dir_no, PortAttrs, zero_attrs, port_capabl_max, two_sides}
use spp_tmp.Capability.{CapablMng, Column, ref_attrs, marked, prepare, copy_attrs, fill_port}

-- The attributes of one direction, with the tag control information filled in.
abbrev pub select : PortDir → List PortAttrs → List PortAttrs
select d [] = []
select d (a ∷ l) = if dir_no a.dir == dir_no d then prepare a.ops a ∷ select d l else select d l

set-append_end :
    (done : List PortAttrs) (x v : PortAttrs) (rest : List PortAttrs)
    → set (done ++ x ∷ rest) (length done) v ≡ done ++ v ∷ rest
set-append_end [] x v rest = refl
set-append_end (y ∷ done) x v rest = ap (λ l. y ∷ l) (set-append_end done x v rest)

length_snoc : (done : List PortAttrs) (x : PortAttrs) → length (done ++ x ∷ []) ≡ length done + 1
length_snoc [] x = omega arith
length_snoc (y ∷ done) x = omega (arith, length_snoc done x)

copy_attrs_from :
    (d : PortDir) (attrs done : List PortAttrs) (n : ℕ)
    → length attrs ≤ n
    → copy_attrs d attrs (length done) (done ++ replicate n zero_attrs)
      ≡ done ++ (select d attrs ++ replicate (n - length (select d attrs)) zero_attrs)
unfolding copy_attrs
copy_attrs_from d [] done n h = ap (λ k. done ++ replicate k zero_attrs) (omega arith)
copy_attrs_from d (a ∷ l) done zero h = absurd (omega arith)
copy_attrs_from d (a ∷ l) done (suc n) h = elim (Bool-cases (dir_no a.dir == dir_no d)) [
  | inr e ↦ rw e (copy_attrs_from d l done (suc n) (omega arith))
  | inl e ↦ rw e (
      rw
        (
          set-append_end done zero_attrs (prepare a.ops a) (replicate n zero_attrs),
          ← length_snoc done (prepare a.ops a),
          ← append_assoc done (prepare a.ops a ∷ []) (replicate n zero_attrs),
        )
        (copy_attrs_from d l (done ++ prepare a.ops a ∷ []) n (omega arith)
          ∙ append_assoc done _ _
          ∙ ap (λ k. done ++ prepare a.ops a ∷ (select d l ++ replicate k zero_attrs))
              (omega arith)))
]

-- The update side gets the port's attributes of that direction, in order, and zeroes behind them.
pub copy_attrs-eq-select :
    (d : PortDir) (attrs : List PortAttrs)
    → length attrs ≤ port_capabl_max
    → copy_attrs d attrs 0 (replicate port_capabl_max zero_attrs)
      ≡ select d attrs ++ replicate (port_capabl_max - length (select d attrs)) zero_attrs
copy_attrs-eq-select d attrs h = copy_attrs_from d attrs [] port_capabl_max h

-- The sides are told apart: `upd_index` is the other one.
abbrev pub IsFlipped : CapablMng → Type 0
IsFlipped m = (m.ref_index < two_sides) × (m.upd_index ≡ (m.ref_index + 1) % two_sides)

-- While a port is marked, `upd_index` is the side that is read.
abbrev pub IsMarked : CapablMng → Type 0
IsMarked m = (m.ref_index < two_sides) × (m.upd_index ≡ m.ref_index)

-- Each entry of a direction is in one of the two states.
abbrev pub IsSided : Column → Type 0
IsSided c = (i : ℕ) → IsFlipped (c.mng i) ⊎ IsMarked (c.mng i)

module _ (d : PortDir) (attrs : List PortAttrs) (i : ℕ) where
  -- The update of one direction: fill the update side, then mark the port.
  abbrev pub updated : Column → Column
  updated c = marked i (fill_port i d attrs c)

  pub updated-ref_attrs :
      (c : Column)
      → IsFlipped (c.mng i)
      → (k : ℕ) → ref_attrs ((updated c).mng k) ≡ ref_attrs (c.mng k)
  unfolding fill_port
  updated-ref_attrs c f k = ground arith

  pub updated-IsMarked : (c : Column) → IsFlipped (c.mng i) → IsMarked ((updated c).mng i)
  unfolding fill_port
  updated-IsMarked c f = ground arith

  updated_other : (c : Column) (k : ℕ) → k ≢ i → (updated c).mng k ≡ c.mng k
  unfolding fill_port
  updated_other c k h = ground arith

  pub updated_side :
      (c : Column)
      → IsFlipped (c.mng i)
      → ((updated c).mng i).port_attrs ((((updated c).mng i).upd_index + 1) % two_sides)
        ≡ copy_attrs d attrs 0 (replicate port_capabl_max zero_attrs)
  unfolding fill_port
  updated_side c f = ground arith
