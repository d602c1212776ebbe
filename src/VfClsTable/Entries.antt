-- ===== src/VfClsTable/Entries.antt =====
-- The entries of the address table in src/vf/vf_cmd_runner.c.
use spp_tmp.Base.{ℕ, ◌≡◌, some, List, [], refl, arith}
use spp_tmp.WorkerTypes.{ClsAttrs, eth_vlan_id_max}
use spp_tmp.VfCommand.{Action}
use spp_tmp.VfClsTable.{cls_attrs_after, cleared}

-- The entry of a port in a classifier table is added only to a port without one. To delete it with
-- the same VLAN ID and address succeeds and leaves the port without one: the VLAN ID is that of no VLAN,
-- there is no address, and the same entry can be added again with the same result.
pub cls_attrs_add_del :
    (vid mac : ℕ) (mac_str : List ℕ) (a : ClsAttrs) {b : ClsAttrs}
    → cls_attrs_after Action.add vid mac mac_str a ≡ some b
    → (a.vlantag.vid ≡ eth_vlan_id_max)
      × (a.mac_addr ≡ 0)
      × (b.vlantag.vid ≡ vid)
      × (b.mac_addr ≡ mac)
      × (c : ClsAttrs) × (cls_attrs_after Action.del vid mac mac_str b ≡ some c)
      × (c.vlantag.vid ≡ eth_vlan_id_max)
      × (c.mac_addr ≡ 0)
      × (c.mac_addr_str ≡ [])
      × (cls_attrs_after Action.add vid mac mac_str c ≡ some b)
unfolding cls_attrs_after
cls_attrs_add_del vid mac mac_str a {b} e = (
  ground arith,
  ground arith,
  ground arith,
  ground arith,
  cleared b,
  ground arith,
  refl,
  refl,
  refl,
  ground arith,
)
