-- ===== src/Capability.antt =====
-- src/shared/secondary/spp_worker_th/port_capability.c: the VLAN operations of a port, kept twice.
-- A worker reads the side `ref_index`; the main thread writes the side `upd_index`, marks it by
-- setting `upd_index` to `ref_index` (`SPPWK_SWAP_UPD`), and the worker then switches over
-- (`SPPWK_SWAP_REF`).
pub mod Sides
pub mod Switch
pub mod Publish
use spp_tmp.Base.{
  ℕ, zero, suc, ◌+◌, ◌*◌, ◌%◌, ◌≡◌, Bool, true, false, Option, none, some, List, [], ◌∷◌, ◌==◌,
  if◌then◌else◌, ◌&&◌, ltb, update, for_from, set, replicate,
}
use spp_tmp.PortManager.{PortType}
use spp_tmp.WorkerTypes.{
  PortDir, dir_no, PortOps, VlanTag, PortAttrs, PortInfo, zero_attrs, port_capabl_max, two_sides,
  cpu_to_be_16,
}

pub record CapablMng : Type 0 where
  pub ref_index : ℕ
  pub upd_index : ℕ
  pub port_attrs : ℕ → List PortAttrs

-- One direction: the member `rx` (or `tx`) of each entry of `g_port_mng_info`, with the static
-- variables `num_rx` and `rx_list` (or `num_tx` and `tx_list`) of `sppwk_swap_two_sides`. `size` is
-- RTE_MAX_ETHPORTS, the number of entries of `g_port_mng_info` and of `rx_list`; it never changes.
pub record Column : Type 0 where
  pub size : ℕ
  pub mng : ℕ → CapablMng
  pub num : ℕ
  pub list : ℕ → ℕ

pub record CapState : Type 0 where
  pub iface_type : ℕ → PortType
  pub iface_no : ℕ → ℕ
  pub rx : Column
  pub tx : Column

abbrev pub zero_sides : CapablMng
zero_sides = record {
  ref_index = 0;
  upd_index = 1;
  port_attrs = λ _. replicate port_capabl_max zero_attrs;
}

-- `memset` makes every interface PHY 0; the static variables stay.
pub port_capability_init : CapState → CapState
port_capability_init s = record {
  iface_type = λ _. PortType.phy;
  iface_no = λ _. 0;
  rx = record (s.rx) { mng = λ _. zero_sides };
  tx = record (s.tx) { mng = λ _. zero_sides };
}

abbrev pub ref_attrs : CapablMng → List PortAttrs
ref_attrs m = m.port_attrs m.ref_index

-- `none` is the dereference of NULL for a direction other than RX and TX.
unfoldable pub get_port_attrs : ℕ → PortDir → CapState → Option (List PortAttrs)
get_port_attrs i PortDir.rx_dir s = some (ref_attrs (s.rx.mng i))
get_port_attrs i PortDir.tx_dir s = some (ref_attrs (s.tx.mng i))
get_port_attrs i _ s = none

abbrev pub mark : CapablMng → CapablMng
mark m = record m { upd_index = m.ref_index }

abbrev pub switch_over : CapablMng → CapablMng
switch_over m = record m { ref_index = (m.upd_index + 1) % two_sides }

-- What the stores of one case of the switch under `SPPWK_SWAP_UPD` write.
abbrev pub marked : ℕ → Column → Column
marked i c = record c {
  mng = update c.mng i (mark (c.mng i));
  num = c.num + 1;
  list = update c.list c.num i;
}

-- One case of the switch under `SPPWK_SWAP_UPD`. `none` is an access behind the end of
-- `g_port_mng_info` or of the list.
unfoldable pub mark_port : ℕ → Column → Option Column
mark_port i c = if ltb i c.size && ltb c.num c.size then some (marked i c) else none

-- `sppwk_swap_two_sides` with `SPPWK_SWAP_UPD`
unfoldable pub swap_upd : ℕ → PortDir → CapState → Option CapState
swap_upd i PortDir.rx_dir s = elim (mark_port i s.rx) [
  | none ↦ none
  | some c ↦ some (record s { rx = c })
]
swap_upd i PortDir.tx_dir s = elim (mark_port i s.tx) [
  | none ↦ none
  | some c ↦ some (record s { tx = c })
]
swap_upd i _ s = some s

-- The body of a loop under `SPPWK_SWAP_REF`, for `cnt` below `num`. `mark_port`, the only function that
-- raises `num` and stores a port in the list, does so below `size` only, so these are entries of the
-- list and of the table (Publish.run-StaysInside).
unfoldable pub switch_port : ℕ → Column → Column
switch_port cnt c = record c {
  mng = update c.mng (c.list cnt) (switch_over (c.mng (c.list cnt)));
  list = update c.list cnt 0;
}

unfoldable pub switch_all : Column → Column
switch_all c = for_from c.num 0 switch_port c

-- `sppwk_swap_two_sides` with `SPPWK_SWAP_REF`; the counters stay.
unfoldable pub swap_ref : CapState → CapState
swap_ref s = record s { rx = switch_all s.rx; tx = switch_all s.tx }

-- `SPP_VLANTAG_CALC_TCI`: the masks and the shift, as remainders and a product.
abbrev pub calc_tci : ℕ → ℕ → ℕ
calc_tci vid pcp = pcp % 8 * 8192 + vid % 4096

abbrev pub with_tci : PortAttrs → PortAttrs
with_tci a = record a {
  vlantag = record (a.vlantag) { tci = cpu_to_be_16 (calc_tci a.vlantag.vid a.vlantag.pcp) };
}

abbrev pub prepare : PortOps → PortAttrs → PortAttrs
prepare PortOps.add_vlan a = with_tci a
prepare _ a = a

-- The loop over `port_attrs_in`; `out_cnt` is the next free entry.
unfoldable pub copy_attrs : PortDir → List PortAttrs → ℕ → List PortAttrs → List PortAttrs
copy_attrs d [] out_cnt out = out
copy_attrs d (a ∷ as_in) out_cnt out =
    let skipped = copy_attrs d as_in out_cnt out in
    let taken = copy_attrs d as_in (out_cnt + 1) (set out out_cnt (prepare a.ops a)) in
    if dir_no a.dir == dir_no d then taken else skipped

abbrev pub fill : PortDir → List PortAttrs → CapablMng → CapablMng
fill d attrs m = record m {
  port_attrs =
      update m.port_attrs m.upd_index (copy_attrs d attrs 0 (replicate port_capabl_max zero_attrs));
}

unfoldable pub fill_port : ℕ → PortDir → List PortAttrs → Column → Column
fill_port i d attrs c = record c { mng = update c.mng i (fill d attrs (c.mng i)) }

abbrev pub name_port : ℕ → PortInfo → CapState → CapState
name_port i port s = record s {
  iface_type = update s.iface_type i port.iface_type;
  iface_no = update s.iface_no i port.iface_no;
}

-- `i` is the ethdev port of `port`, the index into `g_port_mng_info`. `none` is the dereference of
-- NULL for another direction, or an access behind the end of an array.
unfoldable pub update_port_attrs : ℕ → PortInfo → PortDir → CapState → Option CapState
update_port_attrs i port PortDir.rx_dir s =
    let t = name_port i port s in
    swap_upd i PortDir.rx_dir (record t { rx = fill_port i PortDir.rx_dir port.port_attrs s.rx })
update_port_attrs i port PortDir.tx_dir s =
    let t = name_port i port s in
    swap_upd i PortDir.tx_dir (record t { tx = fill_port i PortDir.tx_dir port.port_attrs s.tx })
update_port_attrs i port _ s = none
