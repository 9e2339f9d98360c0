-- ===== src/Act.antt =====
-- Python methods that change an object and may raise. What was changed before a raise stays changed,
-- so an action returns the object beside the result, also beside an error.
use durable_approval_gated_r.Prelude.{ℕ, String, ◌≡◌, refl, ap, ◌⊎◌, inl, inr, Option, none, some}

-- The exceptions that the code raises, and the statuses that `raise_for_status` raises.
pub data Error : Type 0 where
  unknown_service : String → Error
  unknown_tool : String → Error
  unknown_compensation : Error
  -- `FaultType(value)` or `FaultRate(value)` on another text
  not_a_fault : String → Error
  unknown_change : String → Error
  -- `tool, target = s.split(":", 1)` on a text with no colon
  not_an_action : String → Error
  no_disk_surface : Error
  no_prior_version : Error
  -- a subscript of a missing key or of an empty list
  missing_key : String → Error
  index_out_of_range : Error
  -- an attribute of `None`
  no_attribute : String → Error
  http_status : ℕ → Error
  -- what a language model's client raises
  model_failed : Error

pub data Result {ℓ} (A : Type ℓ) : Type ℓ where
  ok : A → Result A
  raised : Error → Result A

-- `d[k]` where `d.get(k)` is the argument.
abbrev pub required {ℓ} : {A : Type ℓ} → String → Option A → Result A
required k none = raised (missing_key k)
required k (some a) = ok a

-- `f` on the value of a result.
abbrev pub map_result {ℓ κ} : {A : Type ℓ} {B : Type κ} → (A → B) → Result A → Result B
map_result f (ok a) = ok (f a)
map_result f (raised e) = raised e

-- A pure call that may raise, followed by another.
abbrev pub and_then {ℓ κ} : {A : Type ℓ} {B : Type κ} → Result A → (A → Result B) → Result B
and_then (ok a) f = f a
and_then (raised e) f = raised e

abbrev pub Act {ℓ κ} : Type ℓ → Type κ → Type (ℓ ⊔ κ)
Act S A = S → Result A × S

module _ {ℓ κ} {S : Type ℓ} {A : Type κ} where
  abbrev pub pure : A → Act S A
  pure a s = (ok a, s)

  abbrev pub raise : Error → Act S A
  raise e s = (raised e, s)

  abbrev pub lift : Result A → Act S A
  lift r s = (r, s)

  abbrev pub gets : (S → A) → Act S A
  gets f s = (ok (f s), s)

module _ {ℓ κ μ} {S : Type ℓ} {A : Type κ} {B : Type μ} where
  abbrev pub go_on : Result A → (A → Act S B) → Act S B
  go_on (ok a) f s = f a s
  go_on (raised e) f s = (raised e, s)

  infixl 10 ◌>>=◌ ◌>>◌
  abbrev pub ◌>>=◌ : Act S A → (A → Act S B) → Act S B
  ◌>>=◌ m f s = go_on (m s).0 f (m s).1

  abbrev pub ◌>>◌ : Act S A → Act S B → Act S B
  m >> k = m >>= λ _. k

pub Result-cases {ℓ} :
    {A : Type ℓ} (r : Result A) → ((a : A) × (r ≡ ok a)) ⊎ ((e : Error) × (r ≡ raised e))
Result-cases (ok a) = inl (a, refl)
Result-cases (raised e) = inr (e, refl)

pub raised≢ok {ℓ} : {A : Type ℓ} (e : Error) (a : A) → ¬ (◌≡◌ {A = Result A} (raised e) (ok a))
raised≢ok e a p = cc

pub ok-injective {ℓ} : {A : Type ℓ} {a b : A} → ok a ≡ ok b → a ≡ b
ok-injective p = cc

-- An action that raised did not return.
pub raised-ne-ok {ℓ κ} :
    {S : Type ℓ} {A : Type κ} (e : Error) (s t : S) (a : A)
    → ¬ (◌≡◌ {A = Result A × S} (raised e, s) (ok a, t))
raised-ne-ok e s t a p = raised≢ok e a (ap (λ q. q.0) p)

-- What returned had its parts return.
pub and_then-eq-ok {ℓ κ} :
    {A : Type ℓ} {B : Type κ} (m : Result A) (f : A → Result B) {b : B}
    → and_then m f ≡ ok b
    → (a : A) × (m ≡ ok a) × (f a ≡ ok b)
and_then-eq-ok (ok a) f h = (a, refl, h)
and_then-eq-ok (raised e) f h = absurd (raised≢ok e _ h)

pub map_result-eq-ok {ℓ κ} :
    {A : Type ℓ} {B : Type κ} (f : A → B) (m : Result A) {b : B}
    → map_result f m ≡ ok b
    → (a : A) × (m ≡ ok a) × (f a ≡ b)
map_result-eq-ok f (ok a) h = (a, refl, ok-injective h)
map_result-eq-ok f (raised e) h = absurd (raised≢ok e _ h)

pub required-eq-ok {ℓ} :
    {A : Type ℓ} (k : String) (o : Option A) {a : A} → required k o ≡ ok a → o ≡ some a
required-eq-ok k none h = absurd (raised≢ok _ _ h)
required-eq-ok k (some a) h = ap some (ok-injective h)

-- An action that returned went on from where its first part returned.
pub go_on-eq-ok {ℓ κ μ} :
    {S : Type ℓ} {A : Type κ} {B : Type μ} (r : Result A) (f : A → Act S B) (s : S) {b : B}
    → (go_on r f s).0 ≡ ok b
    → (a : A) × (r ≡ ok a) × ((f a s).0 ≡ ok b)
go_on-eq-ok (ok a) f s h = (a, refl, h)
go_on-eq-ok (raised e) f s h = absurd (raised≢ok e _ h)
