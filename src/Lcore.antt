-- ===== src/Lcore.antt =====
-- The list of components of a worker thread: `update_lcore_info` of
-- src/shared/secondary/spp_worker_th/cmd_utils.c, and its counterpart in `slave_main` of
-- src/vf/spp_vf.c. `update_lcore_info` is split at its wait.
pub mod Publish
use spp_tmp.Base.{ℕ, ◌+◌, ◌%◌, Bool, true, false, ◌==◌, if◌then◌else◌, update, for_from}
use spp_tmp.WorkerTypes.{two_sides}
use spp_tmp.Manager.{CoreInfo, CoreMngInfo, MngData}

pub get_core_info : CoreMngInfo → CoreInfo
get_core_info c = c.core c.ref_index

pub sppwk_is_lcore_updated : CoreMngInfo → Bool
sppwk_is_lcore_updated c = c.ref_index == c.upd_index

abbrev pub mark_core : CoreMngInfo → CoreMngInfo
mark_core c = record c { upd_index = c.ref_index }

abbrev pub copy_core : CoreMngInfo → CoreMngInfo
copy_core c = record c { core = update c.core c.upd_index (c.core c.ref_index) }

-- The body of a loop over the lcores that changes only those with `change_core`.
abbrev pub on_changed : (CoreMngInfo → CoreMngInfo) → ℕ → MngData → MngData
on_changed f cnt s =
    if s.change_core cnt then record s { core = update s.core cnt (f (s.core cnt)) } else s

-- The first loop of `update_lcore_info`.
unfoldable pub mark_cores : ℕ → MngData → MngData
mark_cores max_lcore = for_from max_lcore 0 (on_changed mark_core)

-- What the second loop does behind the waits.
unfoldable pub copy_cores : ℕ → MngData → MngData
copy_cores max_lcore = for_from max_lcore 0 (on_changed copy_core)

-- What a thread does at the start of a round of `slave_main`.
pub switch_core : CoreMngInfo → CoreMngInfo
switch_core c =
    if sppwk_is_lcore_updated c then record c { ref_index = (c.upd_index + 1) % two_sides } else c
