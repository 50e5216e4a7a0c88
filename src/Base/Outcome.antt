-- ===== src/Base/Outcome.antt =====
-- Go's `(T, error)` results and panics, and stateful calls that return one.
use Prim.Native.String.{String}
use mathlib.Core.Path.{◌≡◌, refl}
use mathlib.Core.Bool.{Bool, true, false}
use hash256_miner.Base.Tests.{if◌then◌else◌}

-- An error value: made here by `fmt.Errorf` from its format, around another error (`%w`) or not,
-- or returned by code outside the program, which numbers its own errors.
pub data Err : Type 0 where
  errorf : String → Err
  wrap : String → Err → Err
  foreign : String → Err

-- A call returns a value, returns an error, or panics.
pub data Result {ℓ} (A : Type ℓ) : Type ℓ where
  ok : A → Result A
  err : Err → Result A
  panic : String → Result A

-- A call on the state `W`. What it wrote before it failed stays written.
abbrev pub Exec {ℓ κ} : Type ℓ → Type κ → Type (ℓ ⊔ κ)
Exec W A = W → Result A × W

module _ {ℓ κ} {W : Type ℓ} {A : Type κ} where
  abbrev pub pure : A → Exec W A
  pure a w = (ok a, w)

  abbrev pub fail : Err → Exec W A
  fail e w = (err e, w)

  abbrev pub crash : String → Exec W A
  crash s w = (panic s, w)

  -- A pure call that may fail.
  abbrev pub lift : Result A → Exec W A
  lift r w = (r, w)

module _ {ℓ κ μ} {W : Type ℓ} {A : Type κ} {B : Type μ} where
  abbrev pub resume : Result A → (A → Exec W B) → (Err → Exec W B) → Exec W B
  resume (ok a) k h w = k a w
  resume (err e) k h w = h e w
  resume (panic s) k h w = (panic s, w)

  -- `v, err := m()` and the two ways on; a panic is in nobody's hands.
  abbrev pub handle : Exec W A → (A → Exec W B) → (Err → Exec W B) → Exec W B
  handle m k h w = resume (m w).0 k h (m w).1

  infixl 5 ◌>>=◌
  -- `if err != nil { return err }`.
  abbrev pub ◌>>=◌ : Exec W A → (A → Exec W B) → Exec W B
  m >>= k = handle m k fail

  infixl 5 ◌>>◌
  abbrev pub ◌>>◌ : Exec W A → Exec W B → Exec W B
  m >> k = m >>= λ _. k

-- `if err != nil { return fmt.Errorf("text: %w", err) }`.
abbrev pub wrapping {ℓ κ} : {W : Type ℓ} {A : Type κ} → String → Exec W A → Exec W A
wrapping s m = handle m pure (λ e. fail (wrap s e))

-- `defer fin()` in front of `m`: it runs on every way out, and nothing but its panic is seen.
abbrev pub after_defer : {A : Type 0} → Result A → Result (Unit {0}) → Result A
after_defer r (ok u) = r
after_defer r (err e) = r
after_defer r (panic s) = panic s

abbrev pub deferring {ℓ} : {W : Type ℓ} {A : Type 0} → Exec W (Unit {0}) → Exec W A → Exec W A
deferring fin m w = (after_defer (m w).0 (fin (m w).1).0, (fin (m w).1).1)

-- Inversion of a chain of calls that returned a value.
pub >>=-ok {ℓ κ μ} :
    {W : Type ℓ} {A : Type κ} {B : Type μ} (m : Exec W A) (k : A → Exec W B) (w : W) {b : B}
    → ((m >>= k) w).0 ≡ ok b
    → (a : A) × ((m w).0 ≡ ok a) × ((k a (m w).1).0 ≡ ok b)
>>=-ok m k w {b} h = split (m w).0 (m w).1 h
  where
    split :
        (r : Result _) (w' : _)
        → (resume r k fail w').0 ≡ ok b
        → (a : _) × (r ≡ ok a) × ((k a w').0 ≡ ok b)
    split (ok a) w' h' = (a, refl, h')
    split (err e) w' h' = cc
    split (panic s) w' h' = cc

-- The rule for a call and its two continuations: the result of the call is known in each.
pub resume_rule {ℓ κ μ ν} :
    {W : Type ℓ} {A : Type κ} {B : Type μ} (P : Result B × W → Type ν) (r : Result A)
    (k : A → Exec W B) (h : Err → Exec W B) (w : W)
    → ((a : A) → r ≡ ok a → P (k a w))
    → ((e : Err) → r ≡ err e → P (h e w))
    → ((s : String) → r ≡ panic s → P (panic s, w))
    → P (resume r k h w)
resume_rule P (ok a) k h w on_ok on_err on_panic = on_ok a refl
resume_rule P (err e) k h w on_ok on_err on_panic = on_err e refl
resume_rule P (panic s) k h w on_ok on_err on_panic = on_panic s refl

pub ok-injective {ℓ} : {A : Type ℓ} {a b : A} → ok a ≡ ok b → a ≡ b
ok-injective e = cc

-- The bind of results that need no state, and its inversion.
abbrev pub and_then {ℓ κ} : {A : Type ℓ} {B : Type κ} → Result A → (A → Result B) → Result B
and_then (ok a) f = f a
and_then (err e) f = err e
and_then (panic s) f = panic s

pub and_then-ok {ℓ κ} :
    {A : Type ℓ} {B : Type κ} (r : Result A) (f : A → Result B) {b : B}
    → and_then r f ≡ ok b
    → (a : A) × (r ≡ ok a) × (f a ≡ ok b)
and_then-ok (ok a) f h = (a, refl, h)
and_then-ok (err e) f h = cc
and_then-ok (panic s) f h = cc

abbrev pub wrap_err {ℓ} : {A : Type ℓ} → String → Result A → Result A
wrap_err t (ok a) = ok a
wrap_err t (err e) = err (wrap t e)
wrap_err t (panic s) = panic s

pub wrap_err-ok {ℓ} :
    {A : Type ℓ} (t : String) (r : Result A) {a : A} → wrap_err t r ≡ ok a → r ≡ ok a
wrap_err-ok t (ok a) h = h
wrap_err-ok t (err e) h = cc
wrap_err-ok t (panic s) h = cc

pub wrapping-ok {ℓ κ} :
    {W : Type ℓ} {A : Type κ} (t : String) (m : Exec W A) (w : W) {a : A}
    → (wrapping t m w).0 ≡ ok a
    → (m w).0 ≡ ok a
wrapping-ok t m w {a} h = split (m w).0 h
  where
    split : (r : Result _) → (resume r pure (λ e. fail (wrap t e)) (m w).1).0 ≡ ok a → r ≡ ok a
    split (ok b) h' = h'
    split (err e) h' = cc
    split (panic s) h' = cc

-- A guard that was passed.
pub if-ok {ℓ} :
    {A : Type ℓ} (b : Bool) (m : Result A) (e : Err) {a : A}
    → (if b then m else err e) ≡ ok a
    → (b ≡ true) × (m ≡ ok a)
if-ok true m e h = (refl, h)
if-ok false m e h = cc

-- The same inversions with the state that was reached.
pub >>=-run {ℓ κ μ} :
    {W : Type ℓ} {A : Type κ} {B : Type μ} (m : Exec W A) (k : A → Exec W B) (w : W) {b : B}
    → ((m >>= k) w).0 ≡ ok b
    → (a : A) × ((m w).0 ≡ ok a) × ((k a (m w).1).0 ≡ ok b) × ((m >>= k) w ≡ k a (m w).1)
>>=-run m k w {b} h = split (m w).0 (m w).1 h
  where
    split :
        (r : Result _) (w' : _)
        → (resume r k fail w').0 ≡ ok b
        → (a : _) × (r ≡ ok a) × ((k a w').0 ≡ ok b) × (resume r k fail w' ≡ k a w')
    split (ok a) w' h' = (a, refl, h', refl)
    split (err e) w' h' = cc
    split (panic s) w' h' = cc

resume-wrapping {ℓ κ} :
    {W : Type ℓ} {A : Type κ} (t : String) (r : Result A) (w : W) {a : A}
    → (resume {W = W} r (pure {W = W} {A = A}) (λ e. fail (wrap t e)) w).0 ≡ ok a
    → resume {W = W} r (pure {W = W} {A = A}) (λ e. fail (wrap t e)) w ≡ (r, w)
resume-wrapping t (ok a) w h = refl
resume-wrapping t (err e) w h = cc
resume-wrapping t (panic s) w h = cc

pub wrapping-run {ℓ κ} :
    {W : Type ℓ} {A : Type κ} (t : String) (m : Exec W A) (w : W) {a : A}
    → (wrapping t m w).0 ≡ ok a
    → wrapping t m w ≡ m w
wrapping-run t m w h = resume-wrapping t (m w).0 (m w).1 h

-- The rule for a wrapped call and what follows it: the result of the call is known in each.
pub wrapping_rule {ℓ κ μ ν} :
    {W : Type ℓ} {A : Type κ} {B : Type μ} (P : Result B × W → Type ν) (t : String) (m : Exec W A)
    (k : A → Exec W B) (w : W)
    → ((a : A) → (m w).0 ≡ ok a → P (k a (m w).1))
    → ((e : Err) → (m w).0 ≡ err e → P (err (wrap t e), (m w).1))
    → ((s : String) → (m w).0 ≡ panic s → P (panic s, (m w).1))
    → P ((wrapping t m >>= k) w)
wrapping_rule {W} {A} P t m k w on_ok on_err on_panic = go (m w).0 on_ok on_err on_panic
  where
    go :
        (r : Result A)
        → ((a : A) → r ≡ ok a → P (k a (m w).1))
        → ((e : Err) → r ≡ err e → P (err (wrap t e), (m w).1))
        → ((s : String) → r ≡ panic s → P (panic s, (m w).1))
        → P (
            resume
              (resume r pure (λ e. fail (wrap t e)) (m w).1).0
              k
              fail
              (resume r pure (λ e. fail (wrap t e)) (m w).1).1)
    go (ok a) on_a on_e on_p = on_a a refl
    go (err e) on_a on_e on_p = on_e e refl
    go (panic s) on_a on_e on_p = on_p s refl
