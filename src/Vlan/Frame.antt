-- ===== src/Vlan/Frame.antt =====
-- The stores of port_capability.c as functions of the bytes of a frame.
use spp_tmp.Base.{ℕ, ◌≤◌, ◌<◌, ◌≡◌, refl, true, List, [], ◌∷◌, ◌++◌, arith, length, take, drop}
use spp_tmp.WorkerTypes.{Be16, cpu_to_be_16}
use spp_tmp.Capability.{calc_tci}
use spp_tmp.Vlan.{is_tagged, get_vid, store16, insert_tag, remove_tag}

-- A frame with a tag behind the two addresses.
abbrev pub tagged : Be16 → List ℕ → List ℕ
tagged (hi, lo) f = take 12 f ++ (0x81 ∷ 0x00 ∷ hi ∷ lo ∷ drop 12 f)

insert_tag_pad :
    (p q r s : ℕ) (tci : Be16) (f : List ℕ)
    → 14 ≤ length f
    → insert_tag tci (p ∷ q ∷ r ∷ s ∷ f) ≡ tagged tci f
unfolding insert_tag
insert_tag_pad p q t s (hi, lo)
      (a0 ∷ a1 ∷ a2 ∷ a3 ∷ a4 ∷ a5 ∷ a6 ∷ a7 ∷ a8 ∷ a9 ∷ a10 ∷ a11 ∷ a12 ∷ a13 ∷ r) h =
    refl
insert_tag_pad p q t s tci f h = absurd (omega arith)

-- Whatever the headroom held, the stores leave the frame with a tag.
pub insert_tag_lem :
    (pad : List ℕ) (tci : Be16) (f : List ℕ)
    → length pad ≡ 4
    → 14 ≤ length f
    → insert_tag tci (pad ++ f) ≡ tagged tci f
insert_tag_lem (p ∷ q ∷ t ∷ s ∷ []) tci f e h = insert_tag_pad p q t s tci f h
insert_tag_lem pad tci f e h = absurd (omega arith)

-- The stores of the deletion drop the four bytes behind the addresses.
pub remove_tag_lem : (f : List ℕ) → 16 ≤ length f → remove_tag f ≡ take 12 f ++ drop 16 f
unfolding remove_tag
remove_tag_lem
      (a0 ∷ a1 ∷ a2 ∷ a3 ∷ a4 ∷ a5 ∷ a6 ∷ a7 ∷ a8 ∷ a9 ∷ a10 ∷ a11 ∷ a12 ∷ a13 ∷ a14 ∷ a15 ∷ r) h =
    refl
remove_tag_lem f h = absurd (omega arith)

pub remove_tag-tagged : (tci : Be16) (f : List ℕ) → 14 ≤ length f → remove_tag (tagged tci f) ≡ f
unfolding remove_tag
remove_tag-tagged (hi, lo)
      (a0 ∷ a1 ∷ a2 ∷ a3 ∷ a4 ∷ a5 ∷ a6 ∷ a7 ∷ a8 ∷ a9 ∷ a10 ∷ a11 ∷ a12 ∷ a13 ∷ r) h =
    refl
remove_tag-tagged tci f h = absurd (omega arith)

pub tagged-is_tagged : (tci : Be16) (f : List ℕ) → 14 ≤ length f → is_tagged (tagged tci f) ≡ true
tagged-is_tagged (hi, lo)
      (a0 ∷ a1 ∷ a2 ∷ a3 ∷ a4 ∷ a5 ∷ a6 ∷ a7 ∷ a8 ∷ a9 ∷ a10 ∷ a11 ∷ a12 ∷ a13 ∷ r) h =
    refl
tagged-is_tagged tci f h = absurd (omega arith)

-- The classifier reads the VLAN ID that the tag was computed from.
pub get_vid-tagged :
    (vid pcp : ℕ) (f : List ℕ)
    → vid < 4096
    → 14 ≤ length f
    → get_vid (tagged (cpu_to_be_16 (calc_tci vid pcp)) f) ≡ vid
unfolding get_vid
get_vid-tagged vid pcp (a0 ∷ a1 ∷ a2 ∷ a3 ∷ a4 ∷ a5 ∷ a6 ∷ a7 ∷ a8 ∷ a9 ∷ a10 ∷ a11 ∷ a12 ∷ a13 ∷ r)
      hv h =
    omega arith
get_vid-tagged vid pcp f hv h = absurd (omega arith)

-- A store into the tag of a tagged frame.
pub store_tci :
    (tci : Be16) (f : List ℕ)
    → 16 ≤ length f
    → is_tagged f ≡ true
    → store16 14 tci f ≡ tagged tci (take 12 f ++ drop 16 f)
store_tci (hi, lo)
      (a0 ∷ a1 ∷ a2 ∷ a3 ∷ a4 ∷ a5 ∷ a6 ∷ a7 ∷ a8 ∷ a9 ∷ a10 ∷ a11 ∷ a12 ∷ a13 ∷ a14 ∷ a15 ∷ r) h
      t =
    ground arith
store_tci tci f h t = absurd (omega arith)
