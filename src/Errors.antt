-- ===== src/Errors.antt =====
-- The exceptions that the code raises, without their message texts, and the two monads of the
-- models: `Result` for a function that may raise, `Exec` for a method that also changes state.
pub mod Handles
use hil_lab.Prelude.{
  ℕ, suc, List, [], ◌∷◌, subst, Indexed, ◌≡◌, ap, sym, ◌⊎◌, inl, inr, refl, Bool, true, false,
  Option, none, some,
}
use hil_lab.Hil.Capability.{Capability}
use mathlib.Core.Path.{fun_ext}

pub data Error : Type 0 where
  value_error runtime_error timeout_error key_error overflow_error os_error : Error
  struct_error type_error file_not_found not_implemented zero_division index_error : Error
  sdo_abort : ℕ → ℕ → ℕ → Error
  unsupported_capability : Capability → Error
  infrastructure invalid_configuration : Error
  resource_busy tool_unavailable command_failed : Error

pub data Result {ℓ} (A : Type ℓ) : Type ℓ where
  ok : A → Result A
  err : Error → Result A

abbrev pub bind {ℓ κ} : {A : Type ℓ} {B : Type κ} → Result A → (A → Result B) → Result B
bind (ok a) f = f a
bind (err e) f = err e

-- `if c: raise e`.
abbrev pub refuse_if : Bool → Error → Result (Unit {0})
refuse_if true e = err e
refuse_if false e = ok tt

abbrev pub or_err {ℓ} : {A : Type ℓ} → Option A → Error → Result A
or_err none e = err e
or_err (some a) e = ok a

-- What was written before an exception stays written, so the state comes back beside the error.
abbrev pub Exec : Type 0 → Type 0 → Type 0
Exec S A = S → Result A × S

module _ {S A : Type 0} where
  abbrev pub pure : A → Exec S A
  pure a s = (ok a, s)

  abbrev pub raise : Error → Exec S A
  raise e s = (err e, s)

  abbrev pub lift : Result A → Exec S A
  lift r s = (r, s)

abbrev pub continue : {S A B : Type 0} → Result A → (A → Exec S B) → Exec S B
continue (ok a) f s = f a s
continue (err e) f s = (err e, s)

infixl 5 ◌>>=◌ ◌>>◌
abbrev pub ◌>>=◌ : {S A B : Type 0} → Exec S A → (A → Exec S B) → Exec S B
◌>>=◌ m f s = let (r, s') = m s in continue r f s'

abbrev pub ◌>>◌ : {S B : Type 0} → Exec S Unit → Exec S B → Exec S B
m >> k = m >>= λ _. k

abbrev pub raise_if : {S : Type 0} → Bool → Error → Exec S Unit
raise_if c e s = (refuse_if c e, s)

-- `try: m; finally: k`: `k` runs on both paths, and an exception of its own replaces that of `m`.
abbrev pub finally : {S A : Type 0} → Exec S A → Exec S Unit → Exec S A
finally m k s = let (r, t) = m s in (k >> lift r) t

pub Result-cases {ℓ} :
    {A : Type ℓ} (r : Result A) → ((a : A) × (r ≡ ok a)) ⊎ ((e : Error) × (r ≡ err e))
Result-cases (ok a) = inl (a, refl)
Result-cases (err e) = inr (e, refl)

-- A run that succeeded made its first step succeed.
pub >>=-eq-ok :
    {S A B : Type 0} {b : B} {t : S} (m : Exec S A) (f : A → Exec S B) (s : S)
    → (m >>= f) s ≡ (ok b, t)
    → (a : A) × (u : S) × (m s ≡ (ok a, u)) × (f a u ≡ (ok b, t))
>>=-eq-ok {S} {A} {B} {b} {t} m f s h = split (m s).0 (m s).1 refl h
  where
    split :
        (r : Result A) (u : S)
        → m s ≡ (r, u)
        → continue r f u ≡ (ok b, t)
        → (a : A) × (u : S) × (m s ≡ (ok a, u)) × (f a u ≡ (ok b, t))
    split (ok a) u e g = (a, u, e, g)
    split (err x) u e g = cc

pub bind-eq-ok {ℓ κ} :
    {A : Type ℓ} {B : Type κ} {b : B} (m : Result A) (f : A → Result B)
    → bind m f ≡ ok b
    → (a : A) × (m ≡ ok a) × (f a ≡ ok b)
bind-eq-ok (ok a) f h = (a, refl, h)
bind-eq-ok (err e) f h = cc

pub or_err-eq-ok {ℓ} :
    {A : Type ℓ} {a : A} (o : Option A) (e : Error) → or_err o e ≡ ok a → o ≡ some a
or_err-eq-ok none e h = cc
or_err-eq-ok (some x) e h = cc

continue_assoc :
    {S A B C : Type 0} (r : Result A) (f : A → Exec S B) (g : B → Exec S C) (s : S)
    → (continue r f >>= g) s ≡ continue r (λ a. f a >>= g) s
continue_assoc (ok a) f g s = refl
continue_assoc (err e) f g s = refl

pub >>=_assoc :
    {S A B C : Type 0} (m : Exec S A) (f : A → Exec S B) (g : B → Exec S C)
    → ((m >>= f) >>= g) ≡ (m >>= λ a. f a >>= g)
>>=_assoc m f g = fun_ext (λ s. continue_assoc (m s).0 f g (m s).1)

pub >>_assoc : {S C : Type 0} (a b : Exec S Unit) (c : Exec S C) → ((a >> b) >> c) ≡ (a >> (b >> c))
>>_assoc a b c = >>=_assoc a (λ _. b) (λ _. c)

continue-pure : {S : Type 0} (r : Result Unit) (s : S) → continue r (λ _. pure tt) s ≡ (r, s)
continue-pure (ok done) s = refl
continue-pure (err e) s = refl

pub >>_pure : {S : Type 0} (a : Exec S Unit) → (a >> pure tt) ≡ a
>>_pure a = fun_ext (λ s. continue-pure (a s).0 (a s).1)

-- The value and the state of a run that succeeded.
pub ok-run :
    {S A : Type 0} {a b : A} {s t : S}
    → ◌≡◌ {A = Result A × S} (ok a, s) (ok b, t)
    → (b ≡ a) × (t ≡ s)
ok-run {S} {A} {a} {b} {s} {t} h = (ap (λ p. value p.0) (sym h), ap (λ p. p.1) (sym h))
  where
    value : Result A → A
    value (ok x) = x
    value (err e) = a

-- A run that succeeded passed its checks.
pub raise_if-eq-ok :
    {S A : Type 0} {a : A} {t : S} (b : Bool) (e : Error) (k : Exec S A) (s : S)
    → (raise_if b e >> k) s ≡ (ok a, t)
    → (b ≡ false) × (k s ≡ (ok a, t))
raise_if-eq-ok true e k s h = cc
raise_if-eq-ok false e k s h = (refl, h)

-- What holds of a state holds after a step that may have failed before it.
pub continue-state :
    {S A B : Type 0} (P : S → Type 0) (r : Result A) (f : A → Exec S B) (s : S)
    → P s
    → ((a : A) → P (f a s).1)
    → P (continue r f s).1
continue-state P (ok a) f s h k = k a
continue-state P (err e) f s h k = h

pub ok-injective {ℓ} : {A : Type ℓ} (a b : A) → ok a ≡ ok b → b ≡ a
ok-injective {A = A} a b h = ap value (sym h)
  where
    value : Result A → A
    value (ok x) = x
    value (err e) = a

-- A condition on the value, if there is one. What the rest of a run ensures from every state, the
-- whole run ensures.
abbrev pub OnOk : {A : Type 0} → (A → Type 0) → Result A → Type 0
OnOk Q (ok a) = Q a
OnOk Q (err e) = Unit

pub continue-OnOk :
    {S A B : Type 0} (Q : B → Type 0) (r : Result A) (f : A → Exec S B) (s : S)
    → ((a : A) (t : S) → OnOk Q (f a t).0)
    → OnOk Q (continue r f s).0
continue-OnOk Q (ok a) f s h = h a s
continue-OnOk Q (err e) f s h = tt

-- The same with the equation that the value comes from.
pub continue-OnOk_eq :
    {S A B : Type 0} (Q : B → Type 0) (r : Result A) (f : A → Exec S B) (s : S)
    → ((a : A) → r ≡ ok a → OnOk Q (f a s).0)
    → OnOk Q (continue r f s).0
continue-OnOk_eq Q (ok a) f s h = h a refl
continue-OnOk_eq Q (err e) f s h = tt

pub refuse_if-eq-ok : (b : Bool) (e : Error) → refuse_if b e ≡ ok tt → b ≡ false
refuse_if-eq-ok true e h = cc
refuse_if-eq-ok false e h = refl

-- A list built by a step that may raise, and the same with the index of each element.
abbrev pub map_result {ℓ κ} : {A : Type ℓ} {B : Type κ} → (A → Result B) → List A → Result (List B)
map_result f [] = ok []
map_result f (x ∷ xs) = let rest = map_result f xs in bind (f x) λ y. bind rest λ ys. ok (y ∷ ys)

abbrev pub map_result_from : {A : Type 0} → (ℕ → A → Result A) → ℕ → List A → Result (List A)
map_result_from f i [] = ok []
map_result_from f i (x ∷ xs) =
    let rest = map_result_from f (suc i) xs in bind (f i x) λ y. bind rest λ ys. ok (y ∷ ys)

pub Indexed-map_result_from :
    {A : Type 0} (P Q : ℕ → A → Type 0) (f : ℕ → A → Result A) (i : ℕ) (xs ys : List A)
    → ((k : ℕ) (x y : A) → P k x → f k x ≡ ok y → Q k y)
    → Indexed P i xs
    → map_result_from f i xs ≡ ok ys
    → Indexed Q i ys
Indexed-map_result_from P Q f i [] ys step h e = subst (Indexed Q i) (sym (ok-injective [] ys e)) tt
Indexed-map_result_from P Q f i (x ∷ xs) ys step h e =
    let (y, ey, e₁) = bind-eq-ok (f i x) _ e in
    let (zs, ez, e₂) = bind-eq-ok (map_result_from f (suc i) xs) _ e₁ in
    subst (Indexed Q i) (sym (ok-injective (y ∷ zs) ys e₂))
      (step i x y h.0 ey, Indexed-map_result_from P Q f (suc i) xs zs step h.1 ez)
