-- ===== src/Manager/Arrays.antt =====
-- The deletion from the arrays of cmd_utils.c and cmd_runner.c.
use spp_tmp.Base.{
  ℕ, ◌+◌, ◌-◌, ◌<◌, ◌≤◌, ◌≡◌, ◌≢◌, refl, sym, ap, ◌∙◌, true, false, Option, none, some, ◌==◌,
  if◌then◌else◌, update, update_self, update_ne, for_from, for_from_inv, arith, Bool-cases,
  Option-cases, inl, inr, subst, ℕ_discrete, ltb,
}
use spp_tmp.WorkerTypes.{PortIdx, PortArray, null_port}
use spp_tmp.Manager.{port_eq, get_idx_port_info, shift, delete_port_info, del_comp_info}

-- What is left of an array: the entries before `idx`, then those behind it.
abbrev pub without {ℓ} : {A : Type ℓ} → ℕ → (ℕ → A) → ℕ → A
without idx a k = if ltb k idx then a k else a (k + 1)

shifted :
    {A : Type 0} (idx n : ℕ) (a : ℕ → A)
    → idx ≤ n
    → (k : ℕ) → shift idx n a k ≡ (if ltb k n then without idx a k else a k)
unfolding shift
shifted idx n a h k =
    subst (λ (m : ℕ). (j : ℕ) → shift idx n a j ≡ (if ltb j m then without idx a j else a j))
      (omega arith)
      (for_from_inv
        (λ (m : ℕ) (b : ℕ → _). (j : ℕ) → b j ≡ (if ltb j m then without idx a j else a j))
        (λ cnt b. update b cnt (b (cnt + 1))) (n - idx) idx a
        (λ m b lo hi ih j. ground (arith, ih j, ih (m + 1))) (λ j. ground arith))
      k

abbrev found_step : PortIdx → (ℕ → PortIdx) → ℕ → Option ℕ → Option ℕ
found_step p ptr cnt ret = if port_eq p (ptr cnt) then some cnt else ret

-- The index that `get_idx_port_info` returns is that of an entry that is the port, and if it returns
-- none, no entry is.
abbrev pub IsIndexOf : PortIdx → (ℕ → PortIdx) → ℕ → Option ℕ → Type 0
IsIndexOf p ptr n none = (k : ℕ) → k < n → port_eq p (ptr k) ≡ false
IsIndexOf p ptr n (some i) = (i < n) × (port_eq p (ptr i) ≡ true)

found_step-IsIndexOf :
    (p : PortIdx) (ptr : ℕ → PortIdx) (n : ℕ) (o : Option ℕ)
    → IsIndexOf p ptr n o
    → IsIndexOf p ptr (n + 1) (found_step p ptr n o)
found_step-IsIndexOf p ptr n o h = elim (Bool-cases (port_eq p (ptr n))) [
  | inl e ↦ rw e (omega arith, e)
  | inr e ↦ rw e (keep e o h)
]
  where
    keep :
        port_eq p (ptr n) ≡ false → (o : Option ℕ) → IsIndexOf p ptr n o → IsIndexOf p ptr (n + 1) o
    keep e none all = λ k lt. elim (ℕ_discrete k n) [
      | yes eq ↦ subst (λ m. port_eq p (ptr m) ≡ false) (sym eq) e
      | no ne ↦ all k (omega arith)
    ]
    keep e (some i) (lt, eq) = (omega arith, eq)

pub get_idx_port_info-IsIndexOf :
    (p : PortIdx) (ports : PortArray) → IsIndexOf p ports.ptr ports.nof (get_idx_port_info p ports)
unfolding get_idx_port_info
get_idx_port_info-IsIndexOf p ports =
    subst (λ m. IsIndexOf p ports.ptr m (get_idx_port_info p ports)) (omega arith)
      (for_from_inv (λ m o. IsIndexOf p ports.ptr m o) (found_step p ports.ptr) ports.nof 0 none
        (λ m o _ _ h. found_step-IsIndexOf p ports.ptr m o h) (λ k lt. absurd (omega arith)))

delete_at :
    (A : Type 0) (idx n : ℕ) (a : ℕ → A) (v : A)
    → idx ≤ n
    → let r = update (shift idx n a) n v in ((k : ℕ) → k < n → r k ≡ without idx a k) × (r n ≡ v)
delete_at A idx n a v h = (
  (λ k lt. update_ne (shift idx n a) n k v (omega arith) ∙ (shifted idx n a h k ∙ below k lt)),
  update_self (shift idx n a) n v,
)
  where
    below : (k : ℕ) → k < n → (if ltb k n then without idx a k else a k) ≡ without idx a k
    below k lt = ground arith

port_eq_common : (p q r : PortIdx) → port_eq p q ≡ true → port_eq p r ≡ true → port_eq q r ≡ true
port_eq_common p q r e f = ground arith

-- No port stands in the first `n` entries twice.
abbrev pub IsDistinct : ℕ → (ℕ → PortIdx) → Type 0
IsDistinct n ptr = (i j : ℕ) → i < n → j < n → port_eq (ptr i) (ptr j) ≡ true → i ≡ j

-- A deletion from an array without duplicates: the other ports stay in order, in the entries before
-- the last, the last one is NULL, the port is gone, and there are no duplicates.
pub delete_port_info_lem :
    (p : PortIdx) (ports : PortArray) {r : ℕ → PortIdx}
    → IsDistinct ports.nof ports.ptr
    → delete_port_info p ports ≡ some r
    → let last = ports.nof - 1 in
      (idx : ℕ) × (idx < ports.nof)
      × (port_eq p (ports.ptr idx) ≡ true)
      × ((k : ℕ) → k < last → r k ≡ without idx ports.ptr k)
      × (r last ≡ null_port)
      × ((k : ℕ) → k < last → port_eq p (r k) ≡ false)
      × IsDistinct last r
unfolding delete_port_info
delete_port_info_lem p ports {r} distinct e = elim (Option-cases (get_idx_port_info p ports)) [
  | inl n ↦ absurd (ground arith)
  | inr (idx, s) ↦
      let last = ports.nof - 1 in
      let (lt, hit) =
        subst (IsIndexOf p ports.ptr ports.nof) s (get_idx_port_info-IsIndexOf p ports) in
      let er : update (shift idx last ports.ptr) last null_port ≡ r = ground arith in
      let (same, end) = delete_at PortIdx idx last ports.ptr null_port (omega arith) in
      let kept =
        subst (λ (a : ℕ → PortIdx). (k : ℕ) → k < last → a k ≡ without idx ports.ptr k) er same in
      (
        idx,
        lt,
        hit,
        kept,
        ap (λ a. a last) (sym er) ∙ end,
        (λ k klt. rw (kept k klt) (gone idx lt hit k klt)),
        (λ i j il jl q. moved idx i j il jl (rw (kept i il, kept j jl) at q)),
      )
]
  where
    source : ℕ → ℕ → ℕ
    source idx k = if ltb k idx then k else k + 1

    without_source : (idx k : ℕ) → without idx ports.ptr k ≡ ports.ptr (source idx k)
    without_source idx k = ground arith

    gone :
        (idx : ℕ)
        → idx < ports.nof
        → port_eq p (ports.ptr idx) ≡ true
        → (k : ℕ) → k < ports.nof - 1
        → port_eq p (without idx ports.ptr k) ≡ false
    gone idx lt hit k klt = elim (Bool-cases (port_eq p (ports.ptr (source idx k)))) [
      | inr f ↦ rw (without_source idx k) f
      | inl t ↦
          let eq =
            distinct idx (source idx k) lt (ground arith)
              (port_eq_common p (ports.ptr idx) (ports.ptr (source idx k)) hit t) in
          absurd (ground arith)
    ]

    moved :
        (idx i j : ℕ)
        → i < ports.nof - 1
        → j < ports.nof - 1
        → port_eq (without idx ports.ptr i) (without idx ports.ptr j) ≡ true
        → i ≡ j
    moved idx i j il jl q =
        let eq =
          distinct (source idx i) (source idx j) (ground arith) (ground arith)
            (rw (without_source idx i, without_source idx j) at q) in
        ground arith

-- `del_comp_info` of a component that the core does not have deletes the core's first component.
pub del_comp_info_absent :
    (id n : ℕ) (comp_ary : ℕ → ℕ)
    → ((k : ℕ) → k < n → comp_ary k ≢ id)
    → (k : ℕ) → k < n - 1
    → del_comp_info id n comp_ary k ≡ comp_ary (k + 1)
unfolding del_comp_info
del_comp_info_absent id n comp_ary absent k lt =
    rw absent_idx ((delete_at ℕ 0 (n - 1) comp_ary 0 (omega arith)).0 k lt ∙ behind)
  where
    behind : without 0 comp_ary k ≡ comp_ary (k + 1)
    behind = ground arith

    absent_idx : for_from n 0 (λ cnt idx. if id == comp_ary cnt then cnt else idx) 0 ≡ 0
    absent_idx =
        for_from_inv (λ _ (idx : ℕ). idx ≡ 0) (λ cnt idx. if id == comp_ary cnt then cnt else idx) n
          0 0 (λ j idx _ hj z. ground (arith, absent j)) refl
