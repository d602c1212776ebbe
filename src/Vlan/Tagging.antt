-- ===== src/Vlan/Tagging.antt =====
-- Tagging one packet in port_capability.c: the frame that comes out, and the mbuf references.
use spp_tmp.Base.{
  ℕ, ◌≤◌, ◌<◌, ◌≡◌, ap, ◌∙◌, true, false, some, List, ◌∷◌, ◌++◌, arith, length, take, drop,
  length-append, length-take, length-drop, Bool-cases, Option-cases, inl, inr, ◌⊎◌,
}
use spp_tmp.Ethdev.{Ethdev}
use spp_tmp.WorkerTypes.{VlanTag, Be16, cpu_to_be_16}
use spp_tmp.Capability.{calc_tci}
use spp_tmp.Vlan.{
  is_tagged, get_vid, store16, insert_tag, remove_tag, vlan_hdr_len, set_fcs_packet,
  add_vlan_tag_one, del_vlan_tag_one,
}
use spp_tmp.Vlan.Frame.{
  tagged, insert_tag_lem, remove_tag_lem, remove_tag-tagged, tagged-is_tagged, get_vid-tagged,
  store_tci,
}

length-tagged : (tci : Be16) (f : List ℕ) → 14 ≤ length f → 16 ≤ length (tagged tci f)
length-tagged (hi, lo) f h = omega (
  arith,
  length-append (take 12 f) (0x81 ∷ 0x00 ∷ hi ∷ lo ∷ drop 12 f),
  length-take 12 f,
  length-drop 12 f,
)

module _ (eth : Ethdev) where
  open eth use {
    World, acquired, released, frame, set_frame, set_tail, prepend, adj, frame-set_frame,
    frame-set_tail, prepend_frame, adj_frame, adj_some, set_frame_acquired, set_frame_released,
    set_tail_acquired, set_tail_released, prepend_acquired, prepend_released, adj_acquired,
    adj_released,
  }

  -- The store of a frame and of the check sequence behind it.
  stored_frame :
      (pkt : ℕ) (f : List ℕ) (w : World)
      → frame pkt (set_fcs_packet eth pkt (set_frame pkt f w)) ≡ f
  unfolding set_fcs_packet
  stored_frame pkt f w = frame-set_tail pkt pkt _ _ ∙ frame-set_frame pkt f w

  abbrev pub SameRefs : World → World → Type 0
  SameRefs w v = (acquired v ≡ acquired w) × (released v ≡ released w)

  stored_refs :
      (pkt : ℕ) (f : List ℕ) (w : World) → SameRefs w (set_fcs_packet eth pkt (set_frame pkt f w))
  unfolding set_fcs_packet
  stored_refs pkt f w = (
    set_tail_acquired pkt _ _ ∙ set_frame_acquired pkt f w,
    set_tail_released pkt _ _ ∙ set_frame_released pkt f w,
  )

  -- Inversion of the two operations.
  add_cases :
      (tag : VlanTag) (pkt : ℕ) (w : World) {v : World}
      → add_vlan_tag_one eth tag pkt w ≡ some v
      → ((is_tagged (frame pkt w) ≡ true)
          × (v ≡ set_fcs_packet eth pkt (set_frame pkt (store16 14 tag.tci (frame pkt w)) w)))
        ⊎ ((u : World) × (is_tagged (frame pkt w) ≡ false)
            × (prepend pkt vlan_hdr_len w ≡ some u)
            × (v ≡ set_fcs_packet eth pkt (set_frame pkt (insert_tag tag.tci (frame pkt u)) u)))
  unfolding add_vlan_tag_one
  add_cases tag pkt w e = elim (Bool-cases (is_tagged (frame pkt w))) [
    | inl t ↦ inl (t, ground arith)
    | inr t ↦ elim (Option-cases (prepend pkt vlan_hdr_len w)) [
      | inl n ↦ absurd (ground arith)
      | inr (u, s) ↦ inr (u, t, s, ground arith)
    ]
  ]

  -- An untagged packet comes out with the tag behind its addresses, and is otherwise unchanged.
  pub add_vlan_tag_one-frame :
      (tag : VlanTag) (pkt : ℕ) (w : World) {v : World}
      → is_tagged (frame pkt w) ≡ false
      → 14 ≤ length (frame pkt w)
      → add_vlan_tag_one eth tag pkt w ≡ some v
      → frame pkt v ≡ tagged tag.tci (frame pkt w)
  add_vlan_tag_one-frame tag pkt w t h e = elim (add_cases tag pkt w e) [
    | inl c ↦ absurd (ground arith)
    | inr (u, _, p, ev) ↦
        let (pad, len, fe) = prepend_frame pkt vlan_hdr_len w p in
        rw (ev, stored_frame pkt (insert_tag tag.tci (frame pkt u)) u, fe)
          (insert_tag_lem pad tag.tci (frame pkt w) len h)
  ]

  -- Of a tagged packet only the tag control information is replaced, and this cannot fail.
  pub add_vlan_tag_one-retag :
      (tag : VlanTag) (pkt : ℕ) (w : World)
      → is_tagged (frame pkt w) ≡ true
      → 16 ≤ length (frame pkt w)
      → (v : World) × (add_vlan_tag_one eth tag pkt w ≡ some v)
        × (frame pkt v ≡ tagged tag.tci (take 12 (frame pkt w) ++ drop 16 (frame pkt w)))
  unfolding add_vlan_tag_one
  add_vlan_tag_one-retag tag pkt w t h =
      let f = store16 14 tag.tci (frame pkt w) in
      (
        set_fcs_packet eth pkt (set_frame pkt f w),
        rw t,
        stored_frame pkt f w ∙ store_tci tag.tci (frame pkt w) h t,
      )

  -- A tagged packet loses the four bytes behind its addresses, and this cannot fail.
  pub del_vlan_tag_one-frame :
      (pkt : ℕ) (w : World)
      → is_tagged (frame pkt w) ≡ true
      → 16 ≤ length (frame pkt w)
      → (v : World) × (del_vlan_tag_one eth pkt w ≡ some v)
        × (frame pkt v ≡ take 12 (frame pkt w) ++ drop 16 (frame pkt w))
  unfolding del_vlan_tag_one
  del_vlan_tag_one-frame pkt w t h =
      let (u, e) = adj_some pkt vlan_hdr_len w (omega arith) in
      (
        set_fcs_packet eth pkt (set_frame pkt (remove_tag (frame pkt w)) u),
        rw (t, e),
        stored_frame pkt _ u ∙ remove_tag_lem (frame pkt w) h,
      )

  -- Tagging an untagged packet and deleting the tag again gives the packet back byte by byte, and the
  -- classifier sees the tag's VLAN ID in between.
  pub del-add :
      (vid pcp pkt : ℕ) (tag : VlanTag) (w : World) {v : World}
      → tag.tci ≡ cpu_to_be_16 (calc_tci vid pcp)
      → vid < 4096
      → is_tagged (frame pkt w) ≡ false
      → 14 ≤ length (frame pkt w)
      → add_vlan_tag_one eth tag pkt w ≡ some v
      → (u : World) × (get_vid (frame pkt v) ≡ vid)
        × (del_vlan_tag_one eth pkt v ≡ some u)
        × (frame pkt u ≡ frame pkt w)
  unfolding del_vlan_tag_one
  del-add vid pcp pkt tag w {v} te hv t h e =
      let fe : frame pkt v ≡ tagged tag.tci (frame pkt w) =
        add_vlan_tag_one-frame tag pkt w t h e in
      let (u, a) =
        adj_some pkt vlan_hdr_len v
          (rw fe (omega (arith, length-tagged tag.tci (frame pkt w) h))) in
      (
        set_fcs_packet eth pkt (set_frame pkt (remove_tag (frame pkt v)) u),
        rw (fe, te) (get_vid-tagged vid pcp (frame pkt w) hv h),
        rw (ap is_tagged fe ∙ tagged-is_tagged tag.tci (frame pkt w) h, a),
        stored_frame pkt _ u ∙ rw fe (remove_tag-tagged tag.tci (frame pkt w) h),
      )

  pub add-SameRefs :
      (tag : VlanTag) (pkt : ℕ) (w : World) {v : World}
      → add_vlan_tag_one eth tag pkt w ≡ some v
      → SameRefs w v
  add-SameRefs tag pkt w e = elim (add_cases tag pkt w e) [
    | inl (_, ev) ↦ rw ev (stored_refs pkt _ w)
    | inr (u, _, p, ev) ↦
        let (a, r) = stored_refs pkt (insert_tag tag.tci (frame pkt u)) u in
        rw ev (a ∙ prepend_acquired pkt vlan_hdr_len w p, r ∙ prepend_released pkt vlan_hdr_len w p)
  ]

  pub del-SameRefs :
      (pkt : ℕ) (w : World) {v : World} → del_vlan_tag_one eth pkt w ≡ some v → SameRefs w v
  unfolding del_vlan_tag_one
  del-SameRefs pkt w {v} e = elim (Bool-cases (is_tagged (frame pkt w))) [
    | inr t ↦ (ground arith, ground arith)
    | inl t ↦ elim (Option-cases (adj pkt vlan_hdr_len w)) [
      | inl n ↦ absurd (ground arith)
      | inr (u, s) ↦
          let (a, r) = stored_refs pkt (remove_tag (frame pkt w)) u in
          let ev : v ≡ set_fcs_packet eth pkt (set_frame pkt (remove_tag (frame pkt w)) u) =
            ground arith in
          rw ev (a ∙ adj_acquired pkt vlan_hdr_len w s, r ∙ adj_released pkt vlan_hdr_len w s)
    ]
  ]
