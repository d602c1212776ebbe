-- ===== src/Capability/Publish.antt =====
-- The update of a port's attributes in port_capability.c, as a worker sees it.
use spp_tmp.Base.{
  for_from_inv, ◌&&◌, refl, Bool-cases, ltb, ◌⊎◌, subst, sym, ℕ, ◌+◌, ◌-◌, ◌≤◌, ◌<◌, inl, inr, ◌≡◌,
  ap, ◌∙◌, Option, none, some, List, [], ◌∷◌, ◌++◌, arith, replicate, length,
}
use spp_tmp.WorkerTypes.{PortDir, PortAttrs, PortInfo, zero_attrs, port_capabl_max}
use spp_tmp.Capability.{
  switch_port, marked, CapablMng, Column, CapState, ref_attrs, mark_port, switch_all, swap_upd,
  swap_ref, get_port_attrs, fill_port, update_port_attrs,
}
use spp_tmp.Capability.Sides.{
  select, copy_attrs-eq-select, IsFlipped, updated, updated-ref_attrs, updated_side,
}
use spp_tmp.Capability.Switch.{switch_all-listed, switch_all_num, switch_all_size}

-- The entry of a port in a direction that the table has.
abbrev pub entry : PortDir → ℕ → CapState → Option CapablMng
entry PortDir.rx_dir i s = some (s.rx.mng i)
entry PortDir.tx_dir i s = some (s.tx.mng i)
entry _ i s = none

pub data HasDir : PortDir → Type 0 where
  is_rx : HasDir PortDir.rx_dir
  is_tx : HasDir PortDir.tx_dir

abbrev pub Flipped : Option CapablMng → Type 0
Flipped none = ⊥
Flipped (some m) = IsFlipped m

-- An update that stays within the arrays writes only the side that no worker reads: until the switch every worker reads, of every
-- port and in either direction, the attributes of before.
pub update_isolated :
    (i : ℕ) (port : PortInfo) (d : PortDir) (s : CapState) {t : CapState}
    → Flipped (entry d i s)
    → update_port_attrs i port d s ≡ some t
    → (k : ℕ) (e : PortDir) → get_port_attrs k e t ≡ get_port_attrs k e s
unfolding update_port_attrs get_port_attrs swap_upd mark_port
update_isolated i port PortDir.rx_dir s f p k PortDir.rx_dir =
    ground (arith, updated-ref_attrs PortDir.rx_dir port.port_attrs i s.rx f k)
update_isolated i port PortDir.rx_dir s f p k e = ground arith
update_isolated i port PortDir.tx_dir s f p k PortDir.tx_dir =
    ground (arith, updated-ref_attrs PortDir.tx_dir port.port_attrs i s.tx f k)
update_isolated i port PortDir.tx_dir s f p k e = ground arith
update_isolated i port d s f p k e = ground arith

column_published :
    (d : PortDir) (attrs : List PortAttrs) (i : ℕ) (c : Column)
    → IsFlipped (c.mng i)
    → length attrs ≤ port_capabl_max
    → ref_attrs ((switch_all (updated d attrs i c)).mng i)
      ≡ select d attrs ++ replicate (port_capabl_max - length (select d attrs)) zero_attrs
column_published d attrs i c f h =
    ap ref_attrs (switch_all-listed (fill_port i d attrs c) i)
    ∙ updated_side d attrs i c f
    ∙ copy_attrs-eq-select d attrs h

-- After an update that stays within the arrays and the switch, workers read of the port exactly its attributes of that direction, in
-- order and with the tag control information filled in, then zeroes.
pub update_published :
    (i : ℕ) (port : PortInfo) (d : PortDir) (s : CapState) {t : CapState}
    → Flipped (entry d i s)
    → length port.port_attrs ≤ port_capabl_max
    → update_port_attrs i port d s ≡ some t
    → get_port_attrs i d (swap_ref t)
      ≡ some (
          select d port.port_attrs
          ++ replicate (port_capabl_max - length (select d port.port_attrs)) zero_attrs)
unfolding update_port_attrs get_port_attrs swap_upd mark_port swap_ref
update_published i port PortDir.rx_dir s f h p =
    ground (arith, column_published PortDir.rx_dir port.port_attrs i s.rx f h)
update_published i port PortDir.tx_dir s f h p =
    ground (arith, column_published PortDir.tx_dir port.port_attrs i s.tx f h)
update_published i port d s f h p = absurd f

-- The calls of `sppwk_swap_two_sides`.
pub data Call : Type 0 where
  upd : ℕ → PortDir → Call
  ref : Call

unfoldable pub call : Call → CapState → Option CapState
call (Call.upd i d) s = swap_upd i d s
call Call.ref s = some (swap_ref s)

unfoldable pub run : List Call → CapState → Option CapState
run [] s = some s
run (c ∷ cs) s = elim (call c s) [ none ↦ none | some t ↦ run cs t ]

abbrev is_rx_upd : Call → ℕ
is_rx_upd (Call.upd i PortDir.rx_dir) = 1
is_rx_upd _ = 0

-- The number of marked RX ports so far.
abbrev pub rx_upds : List Call → ℕ
rx_upds [] = 0
rx_upds (c ∷ cs) = is_rx_upd c + rx_upds cs

-- The lists are filled within their arrays and hold entries of `g_port_mng_info` only, so the loops of
-- a switch stay within the arrays.
abbrev pub StaysInside : Column → Type 0
StaysInside c = (c.num ≤ c.size) × ((k : ℕ) → k < c.num → c.list k < c.size)

marked-StaysInside :
    (i : ℕ) (c : Column) → i < c.size → c.num < c.size → StaysInside c → StaysInside (marked i c)
marked-StaysInside i c lt room (_, h) = (omega arith, λ k hk. ground (arith, h k))

switch_all-StaysInside : (c : Column) → StaysInside c → StaysInside (switch_all c)
unfolding switch_all switch_port
switch_all-StaysInside c (le, h) =
    let (n, z, g) =
      for_from_inv
        (λ j t. (t.num ≡ c.num) × (t.size ≡ c.size) × ((k : ℕ) → k < c.num → t.list k < c.size))
        switch_port c.num 0 c (λ j t _ _ (n, z, g). (n, z, λ k hk. let h' = g k hk in ground arith))
        (refl, refl, h) in
    (omega (arith, n, z), λ k hk. let h' = g k (omega (arith, n)) in omega (arith, h', z))

-- Calls without undefined behaviour keep both lists so.
run-StaysInside :
    (cs : List Call) (s : CapState) {t : CapState}
    → run cs s ≡ some t
    → StaysInside s.rx
    → StaysInside s.tx
    → StaysInside t.rx × StaysInside t.tx
unfolding run call swap_upd swap_ref mark_port
run-StaysInside [] s {t} e rx tx =
    let es : s ≡ t = ground arith in
    (
      subst (λ (u : CapState). StaysInside u.rx) es rx,
      subst (λ (u : CapState). StaysInside u.tx) es tx,
    )
run-StaysInside (Call.upd i PortDir.rx_dir ∷ cs) s {t} e rx tx =
    elim (Bool-cases (ltb i s.rx.size && ltb s.rx.num s.rx.size)) [
      | inl z ↦
          run-StaysInside cs (record s { rx = marked i s.rx }) {t = t} (ground arith)
            (marked-StaysInside i s.rx (ground arith) (ground arith) rx) tx
      | inr z ↦ absurd (ground arith)
    ]
run-StaysInside (Call.upd i PortDir.tx_dir ∷ cs) s {t} e rx tx =
    elim (Bool-cases (ltb i s.tx.size && ltb s.tx.num s.tx.size)) [
      | inl z ↦
          run-StaysInside cs (record s { tx = marked i s.tx }) {t = t} (ground arith) rx
            (marked-StaysInside i s.tx (ground arith) (ground arith) tx)
      | inr z ↦ absurd (ground arith)
    ]
run-StaysInside (Call.upd i d ∷ cs) s e rx tx = run-StaysInside cs s e rx tx
run-StaysInside (Call.ref ∷ cs) s e rx tx =
    run-StaysInside cs (swap_ref s) e (switch_all-StaysInside s.rx rx)
      (switch_all-StaysInside s.tx tx)

abbrev is_tx_upd : Call → ℕ
is_tx_upd (Call.upd i PortDir.tx_dir) = 1
is_tx_upd _ = 0

abbrev pub tx_upds : List Call → ℕ
tx_upds [] = 0
tx_upds (c ∷ cs) = is_tx_upd c + tx_upds cs

-- The ports of a call are entries of `g_port_mng_info`, which has `size` entries.
abbrev pub InTable : ℕ → List Call → Type 0
InTable size [] = Unit {0}
InTable size (Call.ref ∷ cs) = InTable size cs
InTable size (Call.upd i d ∷ cs) = (i < size) × InTable size cs

-- The calls end with `num_rx` grown by the number of RX updates, which the list has room for.
abbrev pub Grows : List Call → CapState → Type 0
Grows cs s =
    (t : CapState) × (run cs s ≡ some t)
    × (t.rx.num ≡ s.rx.num + rx_upds cs)
    × (s.rx.num + rx_upds cs ≤ s.rx.size)

-- They write behind the list.
abbrev pub Overruns : List Call → CapState → Type 0
Overruns cs s = (run cs s ≡ none) × (s.rx.size < s.rx.num + rx_upds cs)

-- The counter `num_rx`, the next index into `rx_list`, never falls. For calls with existing ports,
-- from a counter within the list and with room for the TX updates: either the list has room for all
-- RX updates among them, and at the end the counter has grown by their number, however many switches
-- there were; or it has not, and a call writes behind the list.
pub run_num :
    (cs : List Call) (s : CapState)
    → InTable s.rx.size cs
    → s.tx.size ≡ s.rx.size
    → s.rx.num ≤ s.rx.size
    → s.tx.num + tx_upds cs ≤ s.tx.size
    → Grows cs s ⊎ Overruns cs s
unfolding run call swap_upd swap_ref mark_port
run_num [] s valid same fits room = inl (s, refl, omega arith, omega arith)
run_num (Call.upd i PortDir.rx_dir ∷ cs) s (lt, valid) same fits room =
    elim (Bool-cases (ltb s.rx.num s.rx.size)) [
      | inl e ↦
          elim (run_num cs (record s { rx = marked i s.rx }) valid same (ground arith)
            (omega (arith, room))) [
              | inl (t, r, n, h) ↦ inl (t, ground arith, omega (arith, n), omega (arith, h))
              | inr (r, h) ↦ inr (ground arith, omega (arith, h))
            ]
      | inr e ↦ inr (ground arith, ground arith)
    ]
run_num (Call.upd i PortDir.tx_dir ∷ cs) s (lt, valid) same fits room =
    elim (run_num cs (record s { tx = marked i s.tx }) valid same fits (omega arith)) [
      | inl (t, r, n, h) ↦ inl (t, ground arith, omega (arith, n), omega (arith, h))
      | inr (r, h) ↦ inr (ground arith, omega (arith, h))
    ]
run_num (Call.upd i d ∷ cs) s (lt, valid) same fits room =
    elim (run_num cs s valid same fits (omega (arith, room))) [
      | inl (t, r, n, h) ↦ inl (t, r, omega (arith, n), omega (arith, h))
      | inr (r, h) ↦ inr (r, omega (arith, h))
    ]
run_num (Call.ref ∷ cs) s valid same fits room =
    let rn = switch_all_num s.rx in
    let rs = switch_all_size s.rx in
    let tn = switch_all_num s.tx in
    let ts = switch_all_size s.tx in
    elim (run_num cs (swap_ref s) (subst (λ (k : ℕ). InTable k cs) (sym rs) valid)
      (ts ∙ same ∙ sym rs) (omega (arith, rn, rs)) (omega (arith, tn, ts))) [
        | inl (t, r, n, h) ↦ inl (t, r, omega (arith, n, rn), omega (arith, h, rn, rs))
        | inr (r, h) ↦ inr (r, omega (arith, h, rn, rs))
      ]
