-- ===== src/Vlan.antt =====
-- src/shared/secondary/spp_worker_th/port_capability.c: adding and deleting VLAN tags, and the bursts
-- of a worker. Frames are lists of bytes; `g_vlan_tpid` is the constant that it is set to.
-- `rte_memcpy` between the overlapping headers is taken to read before it writes.
pub mod Frame
pub mod Tagging
pub mod Burst
use spp_tmp.Base.{
  ℕ, zero, suc, ◌+◌, ◌-◌, ◌*◌, ◌<◌, ◌≡◌, Bool, true, false, ◌&&◌, Option, none, some, List, [], ◌∷◌,
  ◌++◌, ◌%◌, ◌==◌, if◌then◌else◌, ltb, length, take, drop, set, get_or,
}
use spp_tmp.Ethdev.{Ethdev, free_all}
use spp_tmp.WorkerTypes.{
  Be16, PortOps, VlanTag, PortAttrs, PortDir, zero_attrs, is_no_ops, eth_vlan_id_max,
}
use spp_tmp.Capability.{CapState, ref_attrs}

-- `struct rte_ether_hdr` has 14 bytes, `struct rte_vlan_hdr` 4.
abbrev pub vlan_hdr_len : ℕ
vlan_hdr_len = 4

abbrev pub ether_type : List ℕ → Be16
ether_type f = (get_or f 12 0, get_or f 13 0)

abbrev pub vlan_tpid : Be16
vlan_tpid = (0x81, 0x00)

-- `ether_type == g_vlan_tpid`
abbrev pub is_tagged : List ℕ → Bool
is_tagged f = (get_or f 12 0 == 0x81) && (get_or f 13 0 == 0x00)

-- `get_vid` of vf/classifier.c
unfoldable pub get_vid : List ℕ → ℕ
get_vid f = if is_tagged f then (get_or f 14 0 * 256 + get_or f 15 0) % 4096 else eth_vlan_id_max

-- A store of 16 bits.
abbrev pub store16 : ℕ → Be16 → List ℕ → List ℕ
store16 off (hi, lo) f = set (set f off hi) (off + 1) lo

-- A copy of `xs` to the front of a buffer.
abbrev pub overwrite : List ℕ → List ℕ → List ℕ
overwrite xs f = xs ++ drop (length xs) f

-- The 32-bit word `k` of a buffer, and a store of it one word further.
abbrev pub move_word : ℕ → List ℕ → List ℕ
move_word k f = take (4 * (k + 1)) f ++ (take 4 (drop (4 * k) f) ++ drop (4 * (k + 2)) f)

-- The stores of `add_vlan_tag_one` into a frame that was extended by 4 bytes in front.
pub insert_tag : Be16 → List ℕ → List ℕ
insert_tag tci f =
    let moved = overwrite (take 14 (drop vlan_hdr_len f)) f in
    store16 14 tci (store16 12 vlan_tpid (store16 16 (ether_type moved) moved))

-- The stores of `del_vlan_tag_one`, from the old front of the frame on; the old word 0 lies before
-- the new front.
pub remove_tag : List ℕ → List ℕ
remove_tag f =
    drop vlan_hdr_len (overwrite (0 ∷ 0 ∷ 0 ∷ 0 ∷ []) (move_word 0 (move_word 1 (move_word 2 f))))

abbrev pub first_attrs : List PortAttrs → PortAttrs
first_attrs [] = zero_attrs
first_attrs (a ∷ l) = a

module _ (eth : Ethdev) where
  open eth use {World, frame, set_frame, set_tail, prepend, adj, net_crc, rx_burst, tx_burst}

  pub set_fcs_packet : ℕ → World → World
  set_fcs_packet pkt w = set_tail pkt (net_crc (frame pkt w)) w

  -- `none` is SPPWK_RET_NG; the packet is then as before.
  unfoldable pub add_vlan_tag_one : VlanTag → ℕ → World → Option World
  add_vlan_tag_one tag pkt w =
      if is_tagged (frame pkt w)
      then some (set_fcs_packet pkt (set_frame pkt (store16 14 tag.tci (frame pkt w)) w))
      else elim (prepend pkt vlan_hdr_len w) [
        | none ↦ none
        | some v ↦ some (set_fcs_packet pkt (set_frame pkt (insert_tag tag.tci (frame pkt v)) v))
      ]

  pub del_vlan_tag_one : ℕ → World → Option World
  del_vlan_tag_one pkt w =
      if is_tagged (frame pkt w)
      then (elim (adj pkt vlan_hdr_len w) [
        | none ↦ none
        | some v ↦ some (set_fcs_packet pkt (set_frame pkt (remove_tag (frame pkt w)) v))
      ])
      else some w

  -- The loop of `add_vlan_tag_all` and of `del_vlan_tag_all`: it stops at the first packet that
  -- fails, and returns the number of those before it.
  pub tag_all : (ℕ → World → Option World) → List ℕ → World → ℕ × World
  tag_all one [] w = (0, w)
  tag_all one (p ∷ ps) w = elim (one p w) [
    | none ↦ (0, w)
    | some v ↦ let (k, u) = tag_all one ps v in (k + 1, u)
  ]

  pub add_vlan_tag_all : VlanTag → List ℕ → World → ℕ × World
  add_vlan_tag_all tag = tag_all (add_vlan_tag_one tag)

  pub del_vlan_tag_all : List ℕ → World → ℕ × World
  del_vlan_tag_all = tag_all del_vlan_tag_one

  -- The loop over the attributes. Every operation is given the capability of the first attribute.
  pub apply_ops : VlanTag → List PortAttrs → List ℕ → ℕ → World → ℕ × World
  apply_ops tag [] pkts ok_pkts w = (ok_pkts, w)
  apply_ops tag (a ∷ l) pkts ok_pkts w = elim a.ops [
    | PortOps.no_ops ↦ (ok_pkts, w)
    | PortOps.add_vlan ↦
        let (k, v) = add_vlan_tag_all tag (take ok_pkts pkts) w in apply_ops tag l pkts k v
    | PortOps.del_vlan ↦
        let (k, v) = del_vlan_tag_all (take ok_pkts pkts) w in apply_ops tag l pkts k v
  ]

  -- `attrs` is the array that `sppwk_get_port_attrs` finds.
  pub vlan_operation : List PortAttrs → List ℕ → World → ℕ × World
  vlan_operation attrs pkts w =
      if is_no_ops (first_attrs attrs).ops
      then (length pkts, w)
      else (let (ok_pkts, v) = apply_ops (first_attrs attrs).vlantag attrs pkts (length pkts) w in
          (ok_pkts, if ltb ok_pkts (length pkts) then free_all eth (drop ok_pkts pkts) v else v))

  -- The result is the array `rx_pkts` up to the number that the function returns.
  pub eth_vlan_rx_burst : CapState → ℕ → ℕ → ℕ → World → List ℕ × World
  eth_vlan_rx_burst caps port queue nb_pkts w =
      let (pkts, v) = rx_burst port queue nb_pkts w in
      if length pkts == 0
      then ([], v)
      else (let (ok_pkts, u) = vlan_operation (ref_attrs (caps.rx.mng port)) pkts v in
          (take ok_pkts pkts, u))

  pub eth_vlan_tx_burst : CapState → ℕ → ℕ → List ℕ → World → ℕ × World
  eth_vlan_tx_burst caps port queue pkts w =
      let (nb_tx, v) = vlan_operation (ref_attrs (caps.tx.mng port)) pkts w in
      if nb_tx == 0 then (0, v) else tx_burst port queue (take nb_tx pkts) v
