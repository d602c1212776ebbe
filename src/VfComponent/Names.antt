-- ===== src/VfComponent/Names.antt =====
-- `update_comp` of src/vf/vf_cmd_runner.c.
use spp_tmp.Base.{
  ℕ, zero, suc, ◌+◌, ◌<◌, ◌≤◌, ◌≡◌, ◌≢◌, refl, sym, ap, ◌∙◌, Bool, true, false, Option, none, some,
  List, [], ◌∷◌, ◌==◌, if◌then◌else◌, update, arith, Bool-cases, Option-cases, inl, inr, subst,
  ℕ_discrete, list_eq, ==_refl,
}
use spp_tmp.WorkerTypes.{WorkerType, is_no_type, zero_comp}
use spp_tmp.Manager.{MngData, first_index, get_free_lcore_id, sppwk_get_lcore_id}
use spp_tmp.VfComponent.{start_comp, stop_comp}

-- The first index that meets `p`, or none.
abbrev pub IsFirst : (ℕ → Bool) → ℕ → ℕ → Option ℕ → Type 0
IsFirst p n i none = (k : ℕ) → i ≤ k → k < i + n → p k ≡ false
IsFirst p n i (some j) = (i ≤ j) × (j < i + n) × (p j ≡ true)

pub first_index-IsFirst : (p : ℕ → Bool) (n i : ℕ) → IsFirst p n i (first_index p n i)
first_index-IsFirst p zero i = λ k lo hi. absurd (omega arith)
first_index-IsFirst p (suc n) i = elim (Bool-cases (p i)) [
  | inl e ↦ rw e (omega arith, omega arith, e)
  | inr e ↦ rw e (later e (first_index p n (i + 1)) (first_index-IsFirst p n (i + 1)))
]
  where
    later : p i ≡ false → (o : Option ℕ) → IsFirst p n (i + 1) o → IsFirst p (suc n) i o
    later e none all = λ k lo hi. elim (ℕ_discrete k i) [
      | yes z ↦ subst (λ j. p j ≡ false) (sym z) e
      | no ne ↦ all k (omega arith) (omega arith)
    ]
    later e (some j) (lo, hi, t) = (omega arith, omega arith, t)

-- A name that is not empty belongs to at most one of the `n` components.
abbrev pub IsNamed : ℕ → MngData → Type 0
IsNamed n s =
    (i j : ℕ)
    → i < n
    → j < n
    → (s.component i).name ≢ []
    → list_eq (s.component i).name (s.component j).name ≡ true
    → i ≡ j

list_eq_sym : (xs ys : List ℕ) → list_eq xs ys ≡ list_eq ys xs
list_eq_sym [] [] = refl
list_eq_sym [] (y ∷ ys) = refl
list_eq_sym (x ∷ xs) [] = refl
list_eq_sym (x ∷ xs) (y ∷ ys) = rw (list_eq_sym xs ys) (ground arith)

nonempty : (xs ys : List ℕ) → xs ≢ [] → list_eq xs ys ≡ true → ys ≢ []
nonempty [] ys ne e = absurd (ne refl)
nonempty (x ∷ xs) [] ne e = absurd (ground arith)
nonempty (x ∷ xs) (y ∷ ys) ne e = λ z. ground arith

module _ (max_lcore : ℕ) where
  -- What `start_comp` does when it succeeds.
  pub start_cases :
      (name : List ℕ) (lcore : ℕ) (worker : WorkerType) (s : MngData) {t : MngData}
      → start_comp max_lcore name lcore worker s ≡ (true, t)
      → (id : ℕ) × (sppwk_get_lcore_id max_lcore name s ≡ none)
        × (get_free_lcore_id max_lcore s ≡ some id)
        × (t.component
            ≡ update s.component id (record zero_comp {
              name = name;
              wk_type = worker;
              lcore_id = lcore;
              comp_id = id;
            }))
  unfolding start_comp
  start_cases name lcore worker s {t} e =
      elim (Option-cases (sppwk_get_lcore_id max_lcore name s)) [
        | inr (i, f) ↦ absurd (ground arith)
        | inl f ↦ elim (Option-cases (get_free_lcore_id max_lcore s)) [
          | inl g ↦ absurd (ground arith)
          | inr (id, g) ↦ (id, f, g, ground arith)
        ]
      ]

  absent :
      (name : List ℕ) (s : MngData)
      → sppwk_get_lcore_id max_lcore name s ≡ none
      → name ≢ []
      → (k : ℕ) → k < max_lcore
      → list_eq name (s.component k).name ≡ false
  unfolding sppwk_get_lcore_id
  absent [] s e ne k lt = absurd (ne refl)
  absent (c ∷ cs) s e ne k lt =
      subst (IsFirst (λ cnt. list_eq (c ∷ cs) (s.component cnt).name) max_lcore 0) e
        (first_index-IsFirst (λ cnt. list_eq (c ∷ cs) (s.component cnt).name) max_lcore 0) k
        (omega arith) (omega arith)

  -- A start that succeeds takes an entry that was free, writes the component there, leaves the other
  -- entries alone, and keeps the names unique.
  pub start_comp-IsNamed :
      (name : List ℕ) (lcore : ℕ) (worker : WorkerType) (s : MngData) {t : MngData}
      → IsNamed max_lcore s
      → start_comp max_lcore name lcore worker s ≡ (true, t)
      → (id : ℕ) × (id < max_lcore)
        × (is_no_type (s.component id).wk_type ≡ true)
        × (t.component
            ≡ update s.component id (record zero_comp {
              name = name;
              wk_type = worker;
              lcore_id = lcore;
              comp_id = id;
            }))
        × IsNamed max_lcore t
  unfolding get_free_lcore_id
  start_comp-IsNamed name lcore worker s {t} named e =
      let (id, f, g, c) = start_cases name lcore worker s e in
      let (_, lt, free) =
        subst (IsFirst (λ cnt. is_no_type (s.component cnt).wk_type) max_lcore 0) g
          (first_index-IsFirst (λ cnt. is_no_type (s.component cnt).wk_type) max_lcore 0) in
      let name_of : (k : ℕ)
          → (t.component k).name ≡ (if k == id then name else (s.component k).name) =
        λ k. ap (λ g. (g k).name) c ∙ ground arith in
      (
        id,
        omega arith,
        free,
        c,
        λ i j hi hj ne q.
            unique id f name_of i j hi hj (rw (name_of i) at ne) (rw (name_of i, name_of j) at q),
      )
    where
      named_as : ℕ → ℕ → List ℕ
      named_as id k = if k == id then name else (s.component k).name

      unique :
          (id : ℕ)
          → sppwk_get_lcore_id max_lcore name s ≡ none
          → ((k : ℕ) → (t.component k).name ≡ named_as id k)
          → (i j : ℕ) → i < max_lcore
          → j < max_lcore
          → named_as id i ≢ []
          → list_eq (named_as id i) (named_as id j) ≡ true
          → i ≡ j
      unique id f _ i j hi hj ne q = elim (Bool-cases (i == id)) [
        | inl a ↦ elim (Bool-cases (j == id)) [
          | inl b ↦ ground arith
          | inr b ↦ let off = absent name s f (rw a at ne) j hj in absurd (ground arith)
        ]
        | inr a ↦ elim (Bool-cases (j == id)) [
          | inl b ↦
              let on : list_eq (s.component i).name name ≡ true = rw (a, b) at q in
              let off = absent name s f (nonempty (s.component i).name name (rw a at ne) on) i hi in
              absurd (ground (arith, list_eq_sym (s.component i).name name))
          | inr b ↦ named i j hi hj (rw a at ne) (rw (a, b) at q)
        ]
      ]

  module _ {S : Type 0} (init_classifier_info : ℕ → S → S) where
    -- To stop a component, a classifier or not, leaves the state of the classifiers as it is:
    -- `init_classifier_info` is never called.
    pub stop_comp_keeps :
        (name : List ℕ) (s : MngData) (cls : S)
        → (stop_comp max_lcore init_classifier_info name (s, cls)).1 ≡ cls
    unfolding stop_comp
    stop_comp_keeps name s cls = elim (Option-cases (sppwk_get_lcore_id max_lcore name s)) [
      | inl e ↦ rw (e, stop_comp) refl
      | inr (id, e) ↦ rw (e, stop_comp, ==_refl id) refl
    ]
