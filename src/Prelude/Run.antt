-- ===== src/Prelude/Run.antt =====
-- Code that changes a shared state and may raise: what was written before an exception stays.
use mathlib.Core.Path.{◌≡◌, refl}
use stovacore.Prelude.Tests.{if◌then◌else◌}
use stovacore.Prelude.Result.{Error, Result, err, ok}
use mathlib.Core.Bool.{Bool, true, false}

abbrev pub Run {ℓ} : Type ℓ → Type ℓ → Type ℓ
Run S A = S → S × Result A

module _ {ℓ} {S A : Type ℓ} where
  abbrev pub return : A → Run S A
  return a s = (s, ok a)

  abbrev pub raise : Error → Run S A
  raise e s = (s, err e)

  -- a call that changes nothing
  abbrev pub call : Result A → Run S A
  call r s = (s, r)

  abbrev pub read : (S → A) → Run S A
  read f s = (s, ok (f s))

  -- a query of the state, which may raise
  abbrev pub lookup_state : (S → Result A) → Run S A
  lookup_state f s = (s, f s)

abbrev pub modify {ℓ} : {S : Type ℓ} → (S → S) → Run S (Unit {ℓ})
modify f s = (f s, ok tt)

module _ {ℓ} {S A B : Type ℓ} where
  infixl 5 ◌>>=◌ ◌>>◌
  abbrev pub continue : S × Result A → (A → Run S B) → S × Result B
  continue (s, err e) f = (s, err e)
  continue (s, ok a) f = f a s

  abbrev pub ◌>>=◌ : Run S A → (A → Run S B) → Run S B
  ◌>>=◌ m f s = continue (m s) f

  abbrev pub ◌>>◌ : Run S A → Run S B → Run S B
  m >> n = m >>= λ a. n

abbrev pub caught {ℓ} : {S A : Type ℓ} → S × Result A → (Error → Run S A) → S × Result A
caught (s, err e) handler = handler e s
caught (s, ok a) handler = (s, ok a)

-- `try: ... except: ...` that catches every exception, with what was written before it
abbrev pub catch {ℓ} : {S A : Type ℓ} → Run S A → (Error → Run S A) → Run S A
catch m handler s = caught (m s) handler

-- What holds after a first step, and after the rest of a block, holds after the block.
module _ {ℓ κ} {S A B : Type ℓ} (P : S → Type κ) where
  pub after_step :
      (p : S × Result A) (f : A → Run S B)
      → P p.0
      → ((a : A) (s : S) → P s → P (f a s).0)
      → P (continue p f).0
  after_step (s, err e) f h k = h
  after_step (s, ok a) f h k = k a s h

  pub after_query :
      (s : S) (r : Result A) (f : A → Run S B)
      → P s
      → ((a : A) → r ≡ ok a → P (f a s).0)
      → P (continue (s, r) f).0
  after_query s (err e) f h k = h
  after_query s (ok a) f h k = k a refl

pub after_if {ℓ κ} :
    {S A : Type ℓ} (P : S → Type κ) (w : Bool) (m n : Run S A) (s : S)
    → P (m s).0
    → P (n s).0
    → P ((if w then m else n) s).0
after_if P true m n s h k = h
after_if P false m n s h k = k

-- A block that returns is a first step that returns and a rest that does.
pub step-eq-ok {ℓ} :
    {S A B : Type ℓ} (p : S × Result A) (f : A → Run S B) {b : B} {s' : S}
    → continue p f ≡ (s', ok b)
    → (s : S) × (a : A) × (p ≡ (s, ok a)) × (f a s ≡ (s', ok b))
step-eq-ok (s, err e) f h = cc
step-eq-ok (s, ok a) f h = (s, a, refl, h)

-- The same for a first step that changes nothing.
pub query-eq-ok {ℓ} :
    {S A B : Type ℓ} (s : S) (r : Result A) (f : A → Run S B) {b : B} {s' : S}
    → continue (s, r) f ≡ (s', ok b)
    → (a : A) × (r ≡ ok a) × (f a s ≡ (s', ok b))
query-eq-ok s (err e) f h = cc
query-eq-ok s (ok a) f h = (a, refl, h)

-- An outcome of a block whose first step changes nothing: of what that step raises, and of the
-- rest if it returns.
pub query_outcome {ℓ κ} :
    {S A B : Type ℓ} (P : S × Result B → Type κ) (s : S) (r : Result A) (f : A → Run S B)
    → ((e : Error) → r ≡ err e → P (s, err e))
    → ((a : A) → r ≡ ok a → P (f a s))
    → P (continue (s, r) f)
query_outcome P s (err e) f h k = h e refl
query_outcome P s (ok a) f h k = k a refl
