-- ===== src/PortManager/Patch.antt =====
-- `add_patch` of src/shared/port_manager.c: when it refuses, and what it writes.
use spp_tmp.Base.{ℕ, ◌≡◌, ◌≢◌, Bool, true, false, ◌&&◌, ◌⊎◌, ◌==◌, if◌then◌else◌, arith}
use spp_tmp.PortManager.{
  PortState, Port, set_fwd, add_patch, fill_in, fill_out, is_valid_port, is_valid_port_rxq,
  is_valid_port_txq, get_port_max_queues, PatchResult, patched, invalid_port, invalid_queue,
}
use spp_tmp.PortManager.Wired.{IsWired, FitsQueues, fwd-set_fwd}

-- `add_patch` on the two entries that it writes.
module _ (ip iq op oq : ℕ) (s : PortState) where
  abbrev linked : PortState
  linked = fill_out op oq (fill_in ip iq op oq s)

  abbrev first : Port
  first = record {
    in_port_id = ip;
    in_queue_id = iq;
    out_port_id = op;
    out_queue_id = oq;
    has_funcs = true;
  }

  abbrev second : Port → Port
  second p = record p { in_port_id = op; in_queue_id = oq; has_funcs = true }

  -- The table after a patch, entry by entry.
  linked_fwd :
      (a b : ℕ)
      → linked.fwd a b ≡ (
          if (a == op) && (b == oq)
          then second (if (op == ip) && (oq == iq) then first else s.fwd op oq)
          else if (a == ip) && (b == iq)
          then first
          else s.fwd a b)
  unfolding fill_out fill_in
  linked_fwd a b =
      rw
        (fwd-set_fwd op oq (second ((set_fwd ip iq first s).fwd op oq)) (set_fwd ip iq first s) a b)
        (rw (fwd-set_fwd ip iq first s op oq, fwd-set_fwd ip iq first s a b))

  linked-has_funcs : (a b : ℕ) → (s.fwd a b).has_funcs ≡ true → (linked.fwd a b).has_funcs ≡ true
  linked-has_funcs a b h = ground (arith, linked_fwd a b)

  linked_out : (linked.fwd op oq).has_funcs ≡ true
  linked_out = ground (arith, linked_fwd op oq)

  linked-IsWired : (n m : ℕ) → IsWired n m s → IsWired n m linked
  linked-IsWired n m wired a b ha hb = ground (
    arith,
    linked_fwd a b,
    linked_out,
    wired a b ha hb,
    linked-has_funcs (s.fwd a b).out_port_id (s.fwd a b).out_queue_id,
  )

-- `add_patch` refuses with -1 exactly when an end is no valid port, else with 1 exactly when a queue
-- is out of range, and then changes nothing; else the two entries are linked.
pub add_patch_cases :
    (n ip iq op oq : ℕ) (s : PortState)
    → add_patch n ip iq op oq s ≡ (
        if is_valid_port n s ip iq && is_valid_port n s op oq
        then if is_valid_port_rxq s ip iq && is_valid_port_txq s op oq
          then (patched, fill_out op oq (fill_in ip iq op oq s))
          else (invalid_queue, s)
        else (invalid_port, s))
unfolding add_patch
add_patch_cases n ip iq op oq s = ground arith

-- Whatever `add_patch` returns, a wired array stays wired.
pub add_patch-IsWired :
    (n m ip iq op oq : ℕ) (s : PortState)
    → IsWired n m s
    → IsWired n m (add_patch n ip iq op oq s).1
add_patch-IsWired n m ip iq op oq s wired = rw (add_patch_cases n ip iq op oq s) (pick _ _)
  where
    pick :
        (a b : Bool)
        → let r : PatchResult × PortState =
            if a
            then if b then (patched, linked ip iq op oq s) else (invalid_queue, s)
            else (invalid_port, s) in
          IsWired n m r.1
    pick true true = linked-IsWired ip iq op oq s n m wired
    pick true false = wired
    pick false b = wired

-- A patch that is accepted is in the table: packets of the input queue go to the output queue, both
-- ends are in use, every other entry is as before.
pub add_patch_links :
    (n ip iq op oq : ℕ) (s : PortState)
    → (add_patch n ip iq op oq s).0 ≡ patched
    → (ip ≢ op) ⊎ (iq ≢ oq)
    → let t = (add_patch n ip iq op oq s).1 in
      ((t.fwd ip iq).out_port_id ≡ op)
      × ((t.fwd ip iq).out_queue_id ≡ oq)
      × ((t.fwd ip iq).in_port_id ≡ ip)
      × ((t.fwd op oq).in_port_id ≡ op)
      × ((t.fwd op oq).out_port_id ≡ (s.fwd op oq).out_port_id)
      × ((a b : ℕ) → (a ≢ ip) ⊎ (b ≢ iq) → (a ≢ op) ⊎ (b ≢ oq) → t.fwd a b ≡ s.fwd a b)
add_patch_links n ip iq op oq s e ne =
    let go : add_patch n ip iq op oq s ≡ (patched, linked ip iq op oq s) =
      ground (arith, add_patch_cases n ip iq op oq s) in
    rw go (
      ground (arith, ne, linked_fwd ip iq op oq s ip iq),
      ground (arith, ne, linked_fwd ip iq op oq s ip iq),
      ground (arith, ne, linked_fwd ip iq op oq s ip iq),
      ground (arith, ne, linked_fwd ip iq op oq s op oq),
      ground (arith, ne, linked_fwd ip iq op oq s op oq),
      λ a b f g. ground (arith, f, g, linked_fwd ip iq op oq s a b),
    )

pub add_patch-FitsQueues :
    (n m ip iq op oq : ℕ) (s : PortState)
    → FitsQueues m s
    → FitsQueues m (add_patch n ip iq op oq s).1
unfolding fill_in fill_out set_fwd get_port_max_queues
add_patch-FitsQueues n m ip iq op oq s fits = rw (add_patch_cases n ip iq op oq s) (pick _ _)
  where
    pick :
        (a b : Bool)
        → let r : PatchResult × PortState =
            if a
            then if b then (patched, linked ip iq op oq s) else (invalid_queue, s)
            else (invalid_port, s) in
          FitsQueues m r.1
    pick true true = fits
    pick true false = fits
    pick false b = fits
