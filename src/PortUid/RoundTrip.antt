-- ===== src/PortUid/RoundTrip.antt =====
-- secondary/spp_worker_th: which names of ports are read back.
use spp_tmp.Base.{
  ℕ, ◌≤◌, ◌<◌, ◌≡◌, refl, sym, ap, ◌∙◌, subst, Bool, true, false, none, some, List, [], ◌∷◌, ◌++◌,
  if◌then◌else◌, leb, arith, append-nil, Bool-cases, Option-cases, inl, inr,
}
use spp_tmp.PortManager.{PortType}
use spp_tmp.CString.{codes, strtol, to_int, to_long, is_neg, strip, is_prefix}
use spp_tmp.CString.Decimal.{dec, Stops, convert-dec, Lacks-dec}
use spp_tmp.CString.Tokens.{strstr-absent, strstr-first}
use spp_tmp.PortUid.{
  is_phy, phy_str, vhost_str, ring_str, delim_phy_mq, uid_type, uid_queue, ends_uid, dec_int,
  out_of_range, get_port_max_queues, uid_iface, same, many, uid_port, parse_resource_uid, type_str,
  sppwk_port_uid,
}

pub strtol-dec :
    (n : ℕ) (ys : List ℕ) → n < 2_147_483_648 → Stops ys → strtol 0 (dec n ++ ys) ≡ some (n, ys)
strtol-dec n ys h stop = convert-dec to_long n ys stop ∙ ap (λ v. some (v, ys)) (small n h)
  where
    small : (n : ℕ) → n < 2_147_483_648 → to_long false n ≡ n
    small n h = ground arith

pub strtol-dec_end : (n : ℕ) → n < 2_147_483_648 → strtol 0 (dec n) ≡ some (n, [])
strtol-dec_end n h = ap (strtol 0) (sym (append-nil (dec n))) ∙ strtol-dec n [] h tt

pub dec_int_small : (n : ℕ) → n < 2_147_483_648 → dec_int n ≡ dec n
unfolding dec_int
dec_int_small n h = let e : is_neg n ≡ false = ground arith in rw e refl

uid_type-str :
    (t : PortType) {p : List ℕ} (s : List ℕ) → type_str t ≡ some p → uid_type (p ++ s) ≡ some (t, s)
unfolding uid_type type_str
uid_type-str PortType.phy {p} s e =
    let e' : phy_str ≡ p = cc in subst (λ p. uid_type (p ++ s) ≡ some (PortType.phy, s)) e' refl
uid_type-str PortType.vhost {p} s e =
    let e' : vhost_str ≡ p = cc in subst (λ p. uid_type (p ++ s) ≡ some (PortType.vhost, s)) e' refl
uid_type-str PortType.ring {p} s e =
    let e' : ring_str ≡ p = cc in subst (λ p. uid_type (p ++ s) ≡ some (PortType.ring, s)) e' refl
uid_type-str _ {p} s e = cc

pub int_small : (n : ℕ) → n < 2_147_483_648 → to_int n ≡ n
int_small n h = omega arith

uid_queue-dec : (t : PortType) (n : ℕ) → uid_queue t (dec n) ≡ some (0, false)
unfolding uid_queue
uid_queue-dec t n =
    rw (strstr-absent b'n' (b'q' ∷ []) (dec n) (Lacks-dec b'n' n refl), uid_queue) refl

uid_queue-dec-dec :
    (n q : ℕ)
    → q < 2_147_483_648
    → uid_queue PortType.phy (dec n ++ (delim_phy_mq ++ dec q)) ≡ some (q, true)
unfolding uid_queue
uid_queue-dec-dec n q h =
    rw (strstr-first b'n' (b'q' ∷ []) (dec n) (dec q) (Lacks-dec b'n' n refl), uid_queue)
      (rw (strtol-dec_end q h) (ap (λ v. some (v, true)) (int_small q h)))

starts_mq : (s : List ℕ) → ends_uid (delim_phy_mq ++ s) ≡ true
unfolding is_prefix strip
starts_mq s = refl

abbrev printed_queue : ℕ → List ℕ
printed_queue q = codes " nq " ++ dec_int q

module _ (max_ethports : ℕ) (rxq txq : ℕ → ℕ) where
  in_range :
      (n : ℕ)
      → max_ethports < 2_147_483_648
      → n ≤ max_ethports
      → out_of_range max_ethports rxq txq n ≡ false
  in_range n hm h = ground arith

  uid_iface-dec :
      (n : ℕ) (ys : List ℕ)
      → max_ethports < 2_147_483_648
      → n ≤ max_ethports
      → Stops ys
      → ends_uid ys ≡ true
      → uid_iface max_ethports rxq txq (dec n ++ ys) ≡ some n
  unfolding uid_iface
  uid_iface-dec n ys hm h stop ends =
      rw (strtol-dec n ys (omega arith) stop, uid_iface)
        (rw ends (rw (int_small n (omega arith)) (rw (in_range n hm h) refl)))

  uid_iface_bad :
      (n : ℕ) (ys : List ℕ)
      → n < 2_147_483_648
      → Stops ys
      → ends_uid ys ≡ false
      → uid_iface max_ethports rxq txq (dec n ++ ys) ≡ none
  unfolding uid_iface
  uid_iface_bad n ys h stop bad = rw (strtol-dec n ys h stop, uid_iface) (rw bad refl)

  parse_parts :
      (res_uid s : List ℕ) {t : PortType} {q : ℕ × Bool}
      → uid_type res_uid ≡ some (t, s)
      → uid_queue t s ≡ some q
      → (n : ℕ) → uid_iface max_ethports rxq txq s ≡ some n
      → parse_resource_uid max_ethports rxq txq res_uid ≡ uid_port max_ethports rxq txq t q n
  unfolding parse_resource_uid
  parse_parts res_uid s e eq n en = rw (e, parse_resource_uid) (rw eq (rw en refl))

  -- The queue is named exactly if the port has several.
  uid_port_fits :
      (t : PortType) (q n : ℕ) (multi : Bool)
      → (is_phy t ≡ true → many (get_port_max_queues max_ethports rxq txq t n) ≡ multi)
      → uid_port max_ethports rxq txq t (q, multi) n
        ≡ some (record { iface_type = t; iface_no = n; queue_no = q })
  unfolding uid_port
  uid_port_fits t q n multi h = elim (Bool-cases (is_phy t)) [
    | inl e ↦ rw e (rw (h e) (rw (same_self multi) refl))
    | inr e ↦ rw e refl
  ]
    where
      same_self : (b : Bool) → same b b ≡ true
      same_self true = refl
      same_self false = refl

  -- Any of the three types, with its number alone.
  pub parse-uid_plain :
      (t : PortType) {p : List ℕ} (n : ℕ)
      → max_ethports < 2_147_483_648
      → n ≤ max_ethports
      → type_str t ≡ some p
      → many (get_port_max_queues max_ethports rxq txq t n) ≡ false
      → parse_resource_uid max_ethports rxq txq (p ++ dec n)
        ≡ some (record { iface_type = t; iface_no = n; queue_no = 0 })
  parse-uid_plain t {p} n hm h e single =
      parse_parts (p ++ dec n) (dec n) (uid_type-str t (dec n) e) (uid_queue-dec t n) n (
        ap (uid_iface max_ethports rxq txq) (sym (append-nil (dec n)))
        ∙ uid_iface-dec n [] hm h tt refl)
      ∙ uid_port_fits t 0 n false (λ _. single)

  -- A queue of a physical port that has several.
  pub parse-uid_queue :
      (n q : ℕ)
      → max_ethports < 2_147_483_648
      → n ≤ max_ethports
      → q < 2_147_483_648
      → many (get_port_max_queues max_ethports rxq txq PortType.phy n) ≡ true
      → parse_resource_uid max_ethports rxq txq (phy_str ++ (dec n ++ (delim_phy_mq ++ dec q)))
        ≡ some (record { iface_type = PortType.phy; iface_no = n; queue_no = q })
  unfolding type_str
  parse-uid_queue n q hm h hq several =
      parse_parts (phy_str ++ (dec n ++ (delim_phy_mq ++ dec q))) (dec n ++ (delim_phy_mq ++ dec q))
        (uid_type-str PortType.phy (dec n ++ (delim_phy_mq ++ dec q)) refl)
        (uid_queue-dec-dec n q hq) n
        (uid_iface-dec n (delim_phy_mq ++ dec q) hm h (refl, refl) (starts_mq (dec q)))
      ∙ uid_port_fits PortType.phy q n true (λ _. several)

  parse_refused :
      (res_uid s : List ℕ) {t : PortType}
      → uid_type res_uid ≡ some (t, s)
      → uid_iface max_ethports rxq txq s ≡ none
      → parse_resource_uid max_ethports rxq txq res_uid ≡ none
  unfolding parse_resource_uid
  parse_refused res_uid s {t} e en = elim (Option-cases (uid_queue t s)) [
    | inl q ↦ rw (e, parse_resource_uid) (rw q refl)
    | inr (_, q) ↦ rw (e, parse_resource_uid) (rw q (rw en refl))
  ]

  many_of :
      (t : PortType) (n m : ℕ)
      → get_port_max_queues max_ethports rxq txq t n ≡ some m
      → leb m 1 ≡ true
      → many (get_port_max_queues max_ethports rxq txq t n) ≡ false
  many_of t n m e h = rw e (ground arith)

  nameless :
      (t : PortType) (n q : ℕ)
      → type_str t ≡ none
      → sppwk_port_uid max_ethports rxq txq t n q ≡ none
  unfolding sppwk_port_uid
  nameless t n q et = rw (et, sppwk_port_uid) refl

  port_uid_printed :
      (t : PortType) (n q m : ℕ) {p : List ℕ}
      → n < 2_147_483_648
      → type_str t ≡ some p
      → get_port_max_queues max_ethports rxq txq t n ≡ some m
      → sppwk_port_uid max_ethports rxq txq t n q
        ≡ (if leb m 1 then some (p ++ dec n) else some (p ++ (dec n ++ (printed_queue q))))
  unfolding sppwk_port_uid
  port_uid_printed t n q m h et em = rw (et, sppwk_port_uid) (rw em (rw (dec_int_small n h) refl))

  -- The name that `sppwk_port_uid` prints of a port in range is read back if the port has at most one
  -- queue. Otherwise the printed name, which has spaces around `nq`, is refused.
  pub parse-port_uid :
      (t : PortType) (n q m : ℕ) {uid : List ℕ}
      → max_ethports < 2_147_483_648
      → n ≤ max_ethports
      → get_port_max_queues max_ethports rxq txq t n ≡ some m
      → sppwk_port_uid max_ethports rxq txq t n q ≡ some uid
      → parse_resource_uid max_ethports rxq txq uid
        ≡ (if leb m 1 then some (record { iface_type = t; iface_no = n; queue_no = 0 }) else none)
  unfolding is_prefix
  parse-port_uid t n q m {uid} hm h em e = elim (Option-cases (type_str t)) [
    | inl et ↦ absurd (no_name et)
    | inr (p, et) ↦
        let eq = sym (port_uid_printed t n q m (omega arith) et em) ∙ e in
        elim (Bool-cases (leb m 1)) [
          | inl single ↦
              let e1 = rw single at eq in
              let e2 : p ++ dec n ≡ uid = cc in
              rw (single, sym e2) (parse-uid_plain t n hm h et (many_of t n m em single))
          | inr several ↦
              let e1 = rw several at eq in
              let rest = dec n ++ printed_queue q in
              let e2 : p ++ rest ≡ uid = cc in
              rw (several, sym e2)
                (parse_refused (p ++ rest) rest (uid_type-str t rest et)
                  (uid_iface_bad n (printed_queue q) (omega arith) (refl, refl) refl))
        ]
  ]
    where
      no_name : type_str t ≡ none → ⊥
      no_name et = let x : none ≡ some uid = sym (nameless t n q et) ∙ e in cc
