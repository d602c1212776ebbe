-- ===== src/Nfv.antt =====
-- src/nfv/commands.h: the commands that add, patch and delete the ports of spp_nfv, behind the split of a
-- command into words, with `get_port_type` of src/shared/port_manager.c.
-- The drivers that attach and detach devices are parameters.
pub mod Safe
use spp_tmp.Base.{
  ℕ, zero, suc, ◌+◌, ◌%◌, Bool, true, false, ◌||◌, Option, none, some, List, [], ◌∷◌, ◌==◌,
  if◌then◌else◌, leb, update, list_eq,
}
use spp_tmp.CString.{codes, strip}
use spp_tmp.PortManager.{
  PortState, PortType, PatchResult, port_reset, set_fwd, add_patch, find_port_id,
  forward_array_reset, forward_array_remove, port_map_init_one,
}

-- `portmap`
abbrev pub portmap : List (List ℕ × PortType)
portmap =
    (codes "phy", PortType.phy)
    ∷ (codes "ring", PortType.ring)
    ∷ (codes "vhost", PortType.vhost)
    ∷ (codes "pcap", PortType.pcap)
    ∷ (codes "nullpmd", PortType.nullpmd)
    ∷ (codes "tap", PortType.tap)
    ∷ (codes "memif", PortType.memif)
    ∷ []

-- The first name of the list that `portname` starts with.
pub type_in : List (List ℕ × PortType) → List ℕ → PortType
type_in [] portname = PortType.undef
type_in ((name, t) ∷ l) portname = elim (strip name portname) [
  | none ↦ type_in l portname
  | some rest ↦ t
]

pub get_port_type : List ℕ → PortType
get_port_type portname = type_in portmap portname

-- The chains of `strcmp` in `do_add` and `do_del`: the types that these commands know.
unfoldable pub dynamic_type : List ℕ → PortType
dynamic_type p_type =
    if list_eq p_type (codes "vhost")
    then PortType.vhost
    else if list_eq p_type (codes "ring")
    then PortType.ring
    else if list_eq p_type (codes "pcap")
    then PortType.pcap
    else if list_eq p_type (codes "memif")
    then PortType.memif
    else if list_eq p_type (codes "nullpmd")
    then PortType.nullpmd
    else PortType.undef

-- `add_vhost_pmd` and the like, where -1 is `none`; the second is `dev_detach_by_port_id`, or the stop
-- and the close of a ring.
pub record Drivers : Type 1 where
  pub State : Type 0
  pub add_pmd : PortType → ℕ → State → Option ℕ × State
  pub detach : PortType → ℕ → State → State

-- What a command names, as `parse_resource_uid` splits it. No id is negative.
pub record Uid : Type 0 where
  pub p_type : List ℕ
  pub p_id : ℕ
  pub queue_id : ℕ

pub data Command : Type 0 where
  add del : Uid → Command
  patch : Uid → Uid → Command
  patch_reset : Command

abbrev pub is_ring : PortType → Bool
is_ring PortType.ring = true
is_ring _ = false

-- RTE_MAX_ETHPORTS and RTE_MAX_QUEUES_PER_PORT
module _ (max_ethports max_queues : ℕ) where
  -- The entry of a new port. The counters of the rings stand behind those of the ports.
  pub set_port_map : PortType → ℕ → ℕ → PortState → PortState
  set_port_map t p_id port s = record s {
    port_map = update s.port_map port (record {
      id = p_id;
      port_type = t;
      stats = if is_ring t then max_ethports + p_id else (s.port_map port).stats;
      queue_info = none;
    });
  }

  pub use_queue : ℕ → ℕ → PortState → PortState
  use_queue port q s =
      set_fwd port q (record (s.fwd port q) { in_port_id = port; in_queue_id = q }) s

  module _ (drv : Drivers) where
    open drv use {State, add_pmd, detach}

    -- No driver is called for a type that is not known, and `res` stays 0.
    abbrev attach : PortType → ℕ → State → Option ℕ × State
    attach PortType.undef p_id d = (some 0, d)
    attach t p_id d = add_pmd t p_id d

    -- `none` is an access behind the end of `port_map` or `ports_fwd_array`.
    pub do_add : Uid → PortState × State → Option (Bool × PortState × State)
    do_add u (s, d) =
        let t = dynamic_type u.p_type in
        let (res, d') = attach t u.p_id d in
        elim res [
          | none ↦ some (false, s, d')
          | some r ↦
              let port = r % 0x1_0000 in
              if leb max_ethports port || leb max_queues u.queue_id
              then none
              else some (true, use_queue port u.queue_id (set_port_map t u.p_id port s), d')
        ]

    -- The end of `do_del`.
    pub remove : ℕ → ℕ → PortState × State → Option (Bool × PortState × State)
    remove port q (s, d) =
        if leb max_ethports port || leb max_queues q
        then none
        else some (true, port_map_init_one port (forward_array_remove max_ethports port q s), d)

    -- For a type that is not known, the port stays PORT_RESET.
    pub del_of : PortType → Uid → PortState × State → Option (Bool × PortState × State)
    del_of PortType.undef u sd = remove port_reset u.queue_id sd
    del_of t u (s, d) =
        let port = find_port_id max_ethports u.p_id t s in
        if port == port_reset
        then some (false, s, d)
        else remove port u.queue_id (s, detach t port d)

    pub do_del : Uid → PortState × State → Option (Bool × PortState × State)
    do_del u sd = del_of (dynamic_type u.p_type) u sd

    abbrev is_patched : PatchResult → Bool
    is_patched PatchResult.patched = true
    is_patched _ = false

    pub do_patch : Uid → Uid → PortState → Bool × PortState
    do_patch u v s =
        let in_port = find_port_id max_ethports u.p_id (get_port_type u.p_type) s in
        let out_port = find_port_id max_ethports v.p_id (get_port_type v.p_type) s in
        let (r, t) = add_patch max_ethports in_port u.queue_id out_port v.queue_id s in
        (is_patched r, t)

    -- The cases of `parse_command` that change the table, without `cmd = STOP`, by which `del` pauses
    -- the loop.
    pub parse_command : Command → PortState × State → Option (Bool × PortState × State)
    parse_command (Command.add u) sd = do_add u sd
    parse_command (Command.del u) sd = do_del u sd
    parse_command (Command.patch u v) (s, d) = let (b, t) = do_patch u v s in some (b, t, d)
    parse_command Command.patch_reset (s, d) = some (true, forward_array_reset max_ethports s, d)
