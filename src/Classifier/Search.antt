-- ===== src/Classifier/Search.antt =====
-- The description that the tables of vf/classifier.c are compared with: a search of the TX ports.
use spp_tmp.Base.{
  list_eq, ℕ, zero, suc, Bool, true, false, ◌&&◌, not, Option, none, some, List, [], ◌∷◌, ◌++◌,
  ◌==◌, if◌then◌else◌,
}
use spp_tmp.WorkerTypes.{PortInfo}
use spp_tmp.Classifier.{mac_key, cls_dummy_addr}

abbrev pub last_index : (ℕ → Bool) → ℕ → Option ℕ
last_index p zero = none
last_index p (suc n) = if p n then some n else last_index p n

abbrev pub indices : (ℕ → Bool) → ℕ → List ℕ
indices p zero = []
indices p (suc n) = if p n then indices p n ++ n ∷ [] else indices p n

abbrev pub any_index : (ℕ → Bool) → ℕ → Bool
any_index p zero = false
any_index p (suc n) = if p n then true else any_index p n

-- Whether a TX port has the VLAN ID `vid` and an address; is its default; has the address `k`.
module _ (vid : ℕ) (p : PortInfo) where
  abbrev pub is_member : Bool
  is_member = (vid == p.cls_attrs.vlantag.vid) && not (p.cls_attrs.mac_addr == 0)

  abbrev pub is_default : Bool
  is_default = is_member && (p.cls_attrs.mac_addr == cls_dummy_addr)

  abbrev pub has_mac : List ℕ → Bool
  has_mac k =
      is_member
      && not (p.cls_attrs.mac_addr == cls_dummy_addr)
      && list_eq k (mac_key p.cls_attrs.mac_addr)
