-- ===== src/Effects.antt =====
-- A call of Go code that returns `(value, error)` and may change state: a function from the state
-- to a result and the state after it.
use sentinel_api_platform.Prelude.{
  arith, ◌≡◌, refl, ap, ◌∙◌, ◌⊎◌, inl, inr, Bool, true, false, String, if◌then◌else◌,
}
use sentinel_api_platform.Errs.{Error, Sentinel, sentinel, is, wrapped}

pub data Result (A : Type 0) : Type 0 where
  ok : A → Result A
  err : Error → Result A

abbrev pub Call : Type 0 → Type 0 → Type 0
Call S A = S → Result A × S

abbrev pub pure : {S A : Type 0} → A → Call S A
pure a s = (ok a, s)

abbrev pub throw : {S A : Type 0} → Error → Call S A
throw e s = (err e, s)

infixl 5 ◌>>=◌ ◌>>◌
abbrev pub ◌>>=◌ : {S A B : Type 0} → Call S A → (A → Call S B) → Call S B
◌>>=◌ m f s = let (r, s') = m s in elim r [ ok a ↦ f a s' | err e ↦ (err e, s') ]

abbrev pub ◌>>◌ : {S A B : Type 0} → Call S A → Call S B → Call S B
m >> k = m >>= λ _. k

-- `if !cond { return e }`
abbrev pub guard : {S : Type 0} → Bool → Error → Call S (Unit {0})
guard true e s = (ok tt, s)
guard false e s = (err e, s)

-- `if err != nil { return f(err) }`
abbrev pub map_err : {S A : Type 0} → (Error → Error) → Call S A → Call S A
map_err f m s = let (r, s') = m s in elim r [ ok a ↦ (ok a, s') | err e ↦ (err (f e), s') ]

-- `if errors.Is(err, t) { return t }; return fmt.Errorf("what: %w", err)`, `what` with its colon
abbrev pub sentinel_or : Sentinel → String → Error → Error
sentinel_or t what e = if is e t then sentinel t else wrapped what e ""

-- `fmt.Errorf("what: %w", err)`
abbrev pub wrap : String → Error → Error
wrap what e = wrapped what e ""

-- Only the state of a call is kept: its result is dropped, as in `_ = f(x)`.
abbrev pub ignore : {S A : Type 0} → Call S A → Call S (Unit {0})
ignore m s = (ok tt, (m s).1)

abbrev pub is_ok : {A : Type 0} → Result A → Bool
is_ok (ok _) = true
is_ok (err _) = false

pub ok_injective : {A : Type 0} {a b : A} → ok a ≡ ok b → a ≡ b
ok_injective h = ground arith

pub Result-cases :
    {A : Type 0} (r : Result A) → ((a : A) × (r ≡ ok a)) ⊎ ((e : Error) × (r ≡ err e))
Result-cases (ok a) = inl (a, refl)
Result-cases (err e) = inr (e, refl)

-- What a call with mapped errors has done: the state is the call's, and so is a success.
pub map_err-state :
    {S A : Type 0} (f : Error → Error) (m : Call S A) (s : S) → (map_err f m s).1 ≡ (m s).1
map_err-state f m s = ground arith

pub map_err-ok :
    {S A : Type 0} (f : Error → Error) (m : Call S A) (s : S) (a : A)
    → (map_err f m s).0 ≡ ok a
    → (m s).0 ≡ ok a
map_err-ok f m s a h = ground arith

-- A sequence that succeeds: its first call has succeeded, and the rest ran in the state after it.
pub bind-ok :
    {S A B : Type 0} (m : Call S A) (f : A → Call S B) (s : S) (b : B)
    → ((m >>= f) s).0 ≡ ok b
    → (a : A) × ((m s).0 ≡ ok a) × ((m >>= f) s ≡ f a (m s).1)
bind-ok m f s b h = elim (Result-cases (m s).0) [
  | inl (a, e) ↦ (a, e, ground arith)
  | inr (e, failed) ↦ ground arith
]

pub map_err-ok_of :
    {S A : Type 0} (f : Error → Error) (m : Call S A) (s : S) (a : A)
    → (m s).0 ≡ ok a
    → (map_err f m s).0 ≡ ok a
map_err-ok_of f m s a h = ground arith

pub map_err-err_of :
    {S A : Type 0} (f : Error → Error) (m : Call S A) (s : S) (e : Error)
    → (m s).0 ≡ err e
    → (map_err f m s).0 ≡ err (f e)
map_err-err_of f m s e h = ground arith

-- A sequence whose first call is known: it goes on with the value, or it fails with the error.
pub bind-ok_of :
    {S A B : Type 0} (m : Call S A) (f : A → Call S B) (s : S) (a : A)
    → (m s).0 ≡ ok a
    → ((m >>= f) s).0 ≡ (f a (m s).1).0
bind-ok_of m f s a h = rw (h, ◌>>=◌) refl

pub bind-err_of :
    {S A B : Type 0} (m : Call S A) (f : A → Call S B) (s : S) (e : Error)
    → (m s).0 ≡ err e
    → ((m >>= f) s).0 ≡ err e
bind-err_of m f s e h = rw (h, ◌>>=◌) refl

-- A guard that stops, after a call whose values it refuses: the state is the call's, and the whole
-- fails.
pub bind_guard :
    {S A B : Type 0} (m : Call S A) (b : A → Bool) (why : Error) (k : A → Call S B) (s : S)
    → ((a : A) → (m s).0 ≡ ok a → b a ≡ false)
    → (((m >>= λ a. guard (b a) why >> k a) s).1 ≡ (m s).1)
      × (is_ok ((m >>= λ a. guard (b a) why >> k a) s).0 ≡ false)
bind_guard m b why k s h = elim (Result-cases (m s).0) [
  | inl (a, e) ↦ rw (e, ◌>>=◌) (rw (h a e) (refl, refl))
  | inr (stop, e) ↦ rw (e, ◌>>=◌) (refl, refl)
]

-- A value that a source of values gives: it cannot fail.
abbrev pub draw : {S A : Type 0} → (S → A × S) → Call S A
draw f s = let (a, s') = f s in (ok a, s')

-- A guard that is passed.
pub guard-ok :
    {S A : Type 0} (b : Bool) (why : Error) (k : Call S A) (s : S) (a : A)
    → ((guard b why >> k) s).0 ≡ ok a
    → (b ≡ true) × ((guard b why >> k) s ≡ k s)
guard-ok true why k s a h = (refl, refl)
guard-ok false why k s a h = ground arith

-- A lookup that succeeds and changes nothing, before the rest of a sequence.
pub bind-found :
    {S A B : Type 0} (f : Error → Error) (m : Call S A) (k : A → Call S B) (s : S) (a : A)
    → m s ≡ (ok a, s)
    → (map_err f m >>= k) s ≡ k a s
bind-found f m k s a h =
    let found : (m s).0 ≡ ok a = ap (λ x. x.0) h in
    rw (found, ◌>>=◌) (ap (k a) (map_err-state f m s ∙ ap (λ x. x.1) h))

-- A first call that fails and changes nothing: so does the sequence.
pub bind-failed :
    {S A B : Type 0} (m : Call S A) (k : A → Call S B) (s : S) (e : Error)
    → m s ≡ (err e, s)
    → (m >>= k) s ≡ (err e, s)
bind-failed m k s e h =
    let failed : (m s).0 ≡ err e = ap (λ x. x.0) h in rw (failed, ◌>>=◌) (ap (λ x. (err e, x.1)) h)

pub map_err-failed :
    {S A : Type 0} (f : Error → Error) (m : Call S A) (s : S) (e : Error)
    → m s ≡ (err e, s)
    → map_err f m s ≡ (err (f e), s)
map_err-failed f m s e h =
    let failed : (m s).0 ≡ err e = ap (λ x. x.0) h in
    rw (failed, map_err) (ap (λ x. (err (f e), x.1)) h)

pub map_err-is_ok :
    {S A : Type 0} (f : Error → Error) (m : Call S A) (s : S)
    → is_ok (map_err f m s).0 ≡ is_ok (m s).0
map_err-is_ok f m s = ground arith
