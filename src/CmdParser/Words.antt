-- ===== src/CmdParser/Words.antt =====
-- cmd_parser.c: postconditions of the functions on parameters, and of the loop over a table.
use spp_tmp.Base.{
  ℕ, suc, ◌+◌, ◌≤◌, ◌<◌, ◌≡◌, ◌≢◌, refl, subst, Bool, true, false, Option, none, some, List, [],
  ◌∷◌, if◌then◌else◌, leb, length, arith,
}
use spp_tmp.CmdParser.{
  ClsCmd, CompCmd, PortCmd, CmdType, CmdAttrs, Outcome, accept, reject, undefined, sppwk_val_bufsz,
}
use spp_tmp.CString.Tokens.{AllShort}
use spp_tmp.CmdParser.Request.{
  Result, ok, err, crash, set_detailed_parse_error, CmdOps, parse_params, on_cls, on_comp, on_port,
}

-- Defined, and `P` holds of what was written if the parameter was accepted.
abbrev pub Sat : {A : Type 0} → (A → Type 0) → Outcome A → Type 0
Sat P (accept a) = P a
Sat P reject = Unit
Sat P undefined = ⊥

abbrev pub Ensures : {A : Type 0} → (A → Type 0) → Result A → Type 0
Ensures P (ok a) = P a
Ensures P (err m) = Unit
Ensures P crash = ⊥

module _ {A : Type 0} (P : A → Type 0) where
  -- A test that refuses.
  pub Sat-guard :
      (b : Bool) (y : Outcome A) → (b ≡ false → Sat P y) → Sat P (if b then reject else y)
  Sat-guard true y h = tt
  Sat-guard false y h = h refl

  pub Sat-option :
      {B : Type 0} (o : Option B) (k : B → Outcome A)
      → ((b : B) → o ≡ some b → Sat P (k b))
      → Sat P (elim o [ none ↦ reject | some b ↦ k b ])
  Sat-option none k h = tt
  Sat-option (some b) k h = h b refl

  pub Ensures-no_crash : (r : Result A) → Ensures P r → r ≢ crash
  Ensures-no_crash (ok a) h = cc
  Ensures-no_crash (err m) h = cc
  Ensures-no_crash crash h = absurd h

  pub Ensures-ok : (r : Result A) {a : A} → Ensures P r → r ≡ ok a → P a
  Ensures-ok (ok b) {a} h e = let x : b ≡ a = cc in subst P x h
  Ensures-ok (err m) h e = cc
  Ensures-ok crash h e = absurd h

  -- A word that is short enough for `details` makes an error, whatever it says.
  pub Ensures-error :
      (m w : List ℕ) → length w < sppwk_val_bufsz → Ensures P (set_detailed_parse_error m w)
  unfolding set_detailed_parse_error
  Ensures-error m w h = let e : leb sppwk_val_bufsz (length w) ≡ false = ground arith in rw e tt

pub Ensures_mono :
    {A : Type 0} (P Q : A → Type 0) (r : Result A)
    → ((a : A) → P a → Q a)
    → Ensures P r
    → Ensures Q r
Ensures_mono P Q (ok a) f h = f a h
Ensures_mono P Q (err m) f h = tt
Ensures_mono P Q crash f h = absurd h

-- What holds before each parameter and behind it, where `i` parameters have been read.
abbrev pub StepOk : {A : Type 0} → (ℕ → A → Type 0) → ℕ → (Bool → List ℕ → A → Outcome A) → Type 0
StepOk {A} P i f =
    (flag : Bool) (arg : List ℕ) (c : A) → length arg < 32 → P i c → Sat (P (suc i)) (f flag arg c)

module _ (P : ℕ → CmdAttrs → Type 0) where
  abbrev pub OpsOk : ℕ → List CmdOps → Type 0
  OpsOk i [] = Unit
  OpsOk i (o ∷ ops) = StepOk P i o.func × OpsOk (suc i) ops

  pub parse_params-Ensures :
      (flag : Bool) (i : ℕ) (ops : List CmdOps) (args : List (List ℕ)) (c : CmdAttrs)
      → OpsOk i ops
      → length args ≤ length ops
      → AllShort 32 args
      → P i c
      → Ensures (P (length args + i)) (parse_params flag ops args c)
  unfolding parse_params
  parse_params-Ensures flag i ops [] c k h s p = subst (λ n. P n c) (zero_left i) p
    where
      zero_left : (i : ℕ) → i ≡ 0 + i
      zero_left i = omega arith
  parse_params-Ensures flag i [] (arg ∷ args) c k h s p = absurd (omega arith)
  parse_params-Ensures flag i (o ∷ ops) (arg ∷ args) c k h s p =
      step (λ d q. parse_params-Ensures flag (suc i) ops args d k.1 (omega arith) s.1 q)
        (o.func flag arg c) (k.0 flag arg c s.0 p)
    where
      shift : (n i : ℕ) → n + suc i ≡ suc n + i
      shift n i = omega arith

      step :
          ((d : CmdAttrs)
            → P (suc i) d
            → Ensures (P (length args + suc i)) (parse_params flag ops args d))
          → (r : Outcome CmdAttrs) → Sat (P (suc i)) r
          → Ensures (P (suc (length args) + i)) (elim r [
            | accept d ↦ parse_params flag ops args d
            | reject ↦ set_detailed_parse_error o.name arg
            | undefined ↦ crash
          ])
      step more (accept d) q =
          subst (λ n. Ensures (P n) (parse_params flag ops args d)) (shift (length args) i)
            (more d q)
      step more reject q = Ensures-error (P (suc (length args) + i)) o.name arg (omega arith)
      step more undefined q = absurd q

-- The functions on one member of the union, which leave the type of the command alone.
pub on_port-StepOk :
    (t : CmdType) (P : ℕ → PortCmd → Type 0) (i : ℕ) (f : Bool → List ℕ → PortCmd → Outcome PortCmd)
    → StepOk P i f
    → StepOk (λ n c. (c.ctype ≡ t) × P n c.port) i (on_port f)
on_port-StepOk t P i f k flag arg c s p = lift (f flag arg c.port) (k flag arg c.port s p.1)
  where
    lift :
        (r : Outcome PortCmd)
        → Sat (P (suc i)) r
        → Sat
            (λ (c : CmdAttrs). (c.ctype ≡ t) × P (suc i) c.port)
            (elim r [
              | accept v ↦ accept (record c { port = v })
              | reject ↦ reject
              | undefined ↦ undefined
            ])
    lift (accept v) q = (p.0, q)
    lift reject q = tt
    lift undefined q = absurd q

pub on_comp-StepOk :
    (t : CmdType) (P : ℕ → CompCmd → Type 0) (i : ℕ) (f : Bool → List ℕ → CompCmd → Outcome CompCmd)
    → StepOk P i f
    → StepOk (λ n c. (c.ctype ≡ t) × P n c.comp) i (on_comp f)
on_comp-StepOk t P i f k flag arg c s p = lift (f flag arg c.comp) (k flag arg c.comp s p.1)
  where
    lift :
        (r : Outcome CompCmd)
        → Sat (P (suc i)) r
        → Sat
            (λ (c : CmdAttrs). (c.ctype ≡ t) × P (suc i) c.comp)
            (elim r [
              | accept v ↦ accept (record c { comp = v })
              | reject ↦ reject
              | undefined ↦ undefined
            ])
    lift (accept v) q = (p.0, q)
    lift reject q = tt
    lift undefined q = absurd q

pub on_cls-StepOk :
    (t : CmdType) (P : ℕ → ClsCmd → Type 0) (i : ℕ) (f : Bool → List ℕ → ClsCmd → Outcome ClsCmd)
    → StepOk P i f
    → StepOk (λ n c. (c.ctype ≡ t) × P n c.cls_table) i (on_cls f)
on_cls-StepOk t P i f k flag arg c s p =
    lift (f flag arg c.cls_table) (k flag arg c.cls_table s p.1)
  where
    lift :
        (r : Outcome ClsCmd)
        → Sat (P (suc i)) r
        → Sat
            (λ (c : CmdAttrs). (c.ctype ≡ t) × P (suc i) c.cls_table)
            (elim r [
              | accept v ↦ accept (record c { cls_table = v })
              | reject ↦ reject
              | undefined ↦ undefined
            ])
    lift (accept v) q = (p.0, q)
    lift reject q = tt
    lift undefined q = absurd q
