-- ===== src/Base/Raising.antt =====
-- A call that returns or raises. `validation` is the `ValidationError` of a pydantic model, by the
-- model's name; the other errors are the `ValueError`s, named for their messages.
use Prim.Native.String.{String}
use mathlib.Core.Path.{◌≡◌, refl, subst}
use mathlib.Core.Bool.{Bool, true, false}
use mathlib.Core.List.{List, [], ◌∷◌}
use mathlib.Core.Option.{Option, none, some}

pub data Error : Type 0 where
  no_bar_on_as_of several_codes duplicate_dates : Error
  previous_other_code previous_other_version previous_not_before : Error
  end_index_missing end_out_of_range lengths_differ : Error
  stop_iteration index_error key_error assertion : Error
  horizons_not_sorted no_horizon holding_too_short no_reward_room : Error
  missing_bars frozen_field_changed plan_of_other_day no_bar_on_plan_date changed_profile
        invalid_operation :
      Error
  validation : String → Error

pub data Outcome {ℓ} (A : Type ℓ) : Type ℓ where
  ok : A → Outcome A
  raised : Error → Outcome A

infixl 5 ◌>>=◌
abbrev pub ◌>>=◌ {ℓ κ} : {B : Type κ} {A : Type ℓ} → Outcome A → (A → Outcome B) → Outcome B
raised error >>= next = raised error
ok value >>= next = next value

infixl 5 ◌>>◌
abbrev pub ◌>>◌ {ℓ κ} : {B : Type κ} {A : Type ℓ} → Outcome A → Outcome B → Outcome B
first >> second = first >>= λ _. second

-- `if test: raise error`
abbrev pub raise_if : Bool → Error → Outcome (Unit {0})
raise_if true e = raised e
raise_if false e = ok tt

abbrev pub or_raise {ℓ} : {A : Type ℓ} → Option A → Error → Outcome A
or_raise none e = raised e
or_raise (some a) e = ok a

-- The construction of a model: its validators, then the value.
abbrev pub checked {ℓ} : {A : Type ℓ} → String → (A → Bool) → A → Outcome A
checked name valid a = elim (valid a) [ true ↦ ok a | false ↦ raised (validation name) ]

module _ {ℓ κ} {A : Type ℓ} {B : Type κ} where
  pub >>=-eq-ok :
      (action : Outcome A) (next : A → Outcome B) {result : B}
      → (action >>= next) ≡ ok result
      → (value : A) × (action ≡ ok value) × (next value ≡ ok result)
  >>=-eq-ok (raised error) next e = cc
  >>=-eq-ok (ok value) next e = (value, refl, e)

  -- `tuple(f(x) for x in l)` where `f` may raise
  abbrev pub traverse : (A → Outcome B) → List A → Outcome (List B)
  traverse f [] = ok []
  traverse f (x ∷ xs) = do y ← f x; ys ← traverse f xs; ok (y ∷ ys)

pub ok-injective {ℓ} : {A : Type ℓ} {a b : A} → ok a ≡ ok b → a ≡ b
ok-injective h = cc

pub checked-ok {ℓ} :
    {A : Type ℓ} (name : String) (valid : A → Bool) (a : A) {b : A}
    → checked name valid a ≡ ok b
    → (a ≡ b) × (valid b ≡ true)
checked-ok name valid a {b} h = from (valid a) refl h
  where
    from :
        (v : Bool)
        → valid a ≡ v
        → elim v [ true ↦ ok a | false ↦ raised (validation name) ] ≡ ok b
        → (a ≡ b) × (valid b ≡ true)
    from true e k = (ok-injective k, subst (λ x. valid x ≡ true) (ok-injective k) e)
    from false e k = cc

-- The call returns a value with the property.
abbrev pub Returns {ℓ} : {A : Type ℓ} → (A → Type 0) → Outcome A → Type 0
Returns P (ok a) = P a
Returns P (raised e) = ⊥

module _ {ℓ κ} {A : Type ℓ} {B : Type κ} {P : A → Type 0} (Q : B → Type 0) where
  pub Returns->>= :
      (action : Outcome A) (next : A → Outcome B)
      → Returns P action
      → ((a : A) → P a → Returns Q (next a))
      → Returns Q (action >>= next)
  Returns->>= (ok a) next h k = k a h
  Returns->>= (raised e) next h k = elim h [ ]

-- If the call returns, its value has the property.
abbrev pub Whenever {ℓ} : {A : Type ℓ} → (A → Type 0) → Outcome A → Type 0
Whenever P (ok a) = P a
Whenever P (raised e) = Unit

module _ {ℓ κ} {A : Type ℓ} {B : Type κ} (Q : B → Type 0) where
  pub Whenever->>= :
      (action : Outcome A) (next : A → Outcome B)
      → ((a : A) → Whenever Q (next a))
      → Whenever Q (action >>= next)
  Whenever->>= (ok a) next k = k a
  Whenever->>= (raised e) next k = tt
