-- ===== src/Prelude/Results.antt =====
-- What a run of a goroutine's code comes to: a value, a wait that nothing in the state ends, or a
-- panic (a nil dereference, a send on a closed channel, a second close). And Go's result pairs.
use Prim.Native.String.{String}
use mathlib.Core.Path.{◌≡◌, refl, ◌∙◌}
use mathlib.Core.Logic.{◌⊎◌, inl, inr}
use mathlib.Core.Bool.{Bool, true, false}
use mathlib.Core.Option.{Option, none, some}
use ideacrawler.Prelude.Tests.{if◌then◌else◌}

pub data Outcome {ℓ} (A : Type ℓ) : Type ℓ where
  ok : A → Outcome A
  blocks : Outcome A
  panics : Outcome A

infixl 5 ◌>>=◌ ◌>>◌
abbrev pub ◌>>=◌ {ℓ κ} : {A : Type ℓ} {B : Type κ} → Outcome A → (A → Outcome B) → Outcome B
panics >>= next = panics
blocks >>= next = blocks
ok value >>= next = next value

abbrev pub ◌>>◌ {κ} : {B : Type κ} → Outcome (Unit {0}) → Outcome B → Outcome B
first >> then_ = first >>= λ _. then_

-- A result pair `(value, error)` of which one part counts.
pub data Result {ℓ} (A : Type ℓ) : Type ℓ where
  val : A → Result A
  err : String → Result A

-- `if err != nil { return ... }` before the rest.
abbrev pub on_error {ℓ} : {A : Type ℓ} → Option String → (String → A) → A → A
on_error none fail next = next
on_error (some e) fail next = fail e

pub on_error_elim {ℓ κ} :
    {A : Type ℓ} (P : A → Type κ) (o : Option String) (fail : String → A) (next : A)
    → ((e : String) → P (fail e))
    → P next
    → P (on_error o fail next)
on_error_elim P none fail next h k = k
on_error_elim P (some e) fail next h k = h e

pub on_error_cases {ℓ κ} :
    {A : Type ℓ} (P : A → Type κ) (o : Option String) (fail : String → A) (next : A)
    → ((e : String) → o ≡ some e → P (fail e))
    → (o ≡ none → P next)
    → P (on_error o fail next)
on_error_cases P none fail next h k = k refl
on_error_cases P (some e) fail next h k = h e refl

pub on_error-none {ℓ} :
    {A : Type ℓ} (o : Option String) (fail : String → A) (next : A)
    → o ≡ none
    → on_error o fail next ≡ next
on_error-none o fail next h = rw h refl

-- Inversion of a bind that returned.
pub >>=-eq-ok {ℓ κ} :
    {A : Type ℓ} {B : Type κ} (first : Outcome A) (next : A → Outcome B) {out : B}
    → (first >>= next) ≡ ok out
    → (value : A) × (first ≡ ok value) × (next value ≡ ok out)
>>=-eq-ok panics next e = cc
>>=-eq-ok blocks next e = cc
>>=-eq-ok (ok value) next e = (value, refl, e)

pub ok-injective {ℓ} : {A : Type ℓ} {a b : A} → ok a ≡ ok b → a ≡ b
ok-injective h = cc

pub val-injective {ℓ} : {A : Type ℓ} {a b : A} → val a ≡ val b → a ≡ b
val-injective h = cc

pub Result-cases {ℓ} :
    {A : Type ℓ} (r : Result A) → ((e : String) × (r ≡ err e)) ⊎ ((a : A) × (r ≡ val a))
Result-cases (err e) = inl (e, refl)
Result-cases (val a) = inr (a, refl)

-- Partial correctness: `P` holds of the value, if one is returned.
pub Ensures {ℓ κ} : {A : Type ℓ} → (A → Type κ) → Outcome A → Type κ
Ensures P (ok a) = P a
Ensures P blocks = Unit
Ensures P panics = Unit

module _ {ℓ κ} {A : Type ℓ} where
  pub Ensures-ok : (P : A → Type κ) (a : A) → P a → Ensures P (ok a)
  unfolding Ensures
  Ensures-ok P a p = p

  pub Ensures-panics : (P : A → Type κ) → Ensures P panics
  unfolding Ensures
  Ensures-panics P = tt

  pub Ensures-blocks : (P : A → Type κ) → Ensures P blocks
  unfolding Ensures
  Ensures-blocks P = tt

  pub ensures : (P : A → Type κ) (m : Outcome A) → ((a : A) → m ≡ ok a → P a) → Ensures P m
  unfolding Ensures
  ensures P (ok a) h = h a refl
  ensures P blocks h = tt
  ensures P panics h = tt

  pub ensured : (P : A → Type κ) (m : Outcome A) {a : A} → Ensures P m → m ≡ ok a → P a
  unfolding Ensures
  ensured P m h e = rw e at h

  pub Ensures-if :
      (P : A → Type κ) (b : Bool) (x y : Outcome A)
      → (b ≡ true → Ensures P x)
      → (b ≡ false → Ensures P y)
      → Ensures P (if b then x else y)
  Ensures-if P true x y h k = h refl
  Ensures-if P false x y h k = k refl

pub Ensures-bind {ℓ κ μ ν} :
    {A : Type ℓ} {B : Type κ} (P : A → Type μ) (Q : B → Type ν) (m : Outcome A) (f : A → Outcome B)
    → Ensures P m
    → ((a : A) → P a → Ensures Q (f a))
    → Ensures Q (m >>= f)
unfolding Ensures
Ensures-bind P Q (ok a) f h k = k a h
Ensures-bind P Q blocks f h k = tt
Ensures-bind P Q panics f h k = tt

pub Ensures-bind_any {ℓ κ ν} :
    {A : Type ℓ} {B : Type κ} (Q : B → Type ν) (m : Outcome A) (f : A → Outcome B)
    → ((a : A) → Ensures Q (f a))
    → Ensures Q (m >>= f)
unfolding Ensures
Ensures-bind_any Q (ok a) f k = k a
Ensures-bind_any Q blocks f k = tt
Ensures-bind_any Q panics f k = tt

pub Ensures-bind_eq {ℓ κ ν} :
    {A : Type ℓ} {B : Type κ} (Q : B → Type ν) (m : Outcome A) (f : A → Outcome B)
    → ((a : A) → m ≡ ok a → Ensures Q (f a))
    → Ensures Q (m >>= f)
unfolding Ensures
Ensures-bind_eq Q (ok a) f k = k a refl
Ensures-bind_eq Q blocks f k = tt
Ensures-bind_eq Q panics f k = tt

pub Ensures-mono {ℓ κ ν} :
    {A : Type ℓ} (P : A → Type κ) (Q : A → Type ν) (m : Outcome A)
    → ((a : A) → P a → Q a)
    → Ensures P m
    → Ensures Q m
unfolding Ensures
Ensures-mono P Q (ok a) f p = f a p
Ensures-mono P Q blocks f p = tt
Ensures-mono P Q panics f p = tt

-- Total correctness: a value is returned.
abbrev pub Returns {ℓ} : {A : Type ℓ} → Outcome A → Type ℓ
Returns {A = A} m = (a : A) × (m ≡ ok a)

pub >>=-ok {ℓ κ} :
    {A : Type ℓ} {B : Type κ} (m : Outcome A) (f : A → Outcome B) (a : A)
    → m ≡ ok a
    → (m >>= f) ≡ f a
>>=-ok m f a h = rw h refl

pub Returns-bind {ℓ κ} :
    {A : Type ℓ} {B : Type κ} (m : Outcome A) (f : A → Outcome B) (a : A)
    → m ≡ ok a
    → Returns (f a)
    → Returns (m >>= f)
Returns-bind m f a h (b, run) = (b, >>=-ok m f a h ∙ run)

pub Returns-if {ℓ} :
    {A : Type ℓ} (c : Bool) (x y : Outcome A) → Returns x → Returns y → Returns (if c then x else y)
Returns-if true x y h k = h
Returns-if false x y h k = k

-- What comes of a run `r` that begins with `m`: it ends as `m` does, or with what follows its value.
abbrev pub Follows {ℓ κ ν} :
    {A : Type ℓ} {B : Type κ} → (A → Outcome B → Type ν) → Outcome A → Outcome B → Type (ℓ ⊔ κ ⊔ ν)
Follows {A = A} P m r =
    ((m ≡ blocks) × (r ≡ blocks)) ⊎ ((m ≡ panics) × (r ≡ panics)) ⊎ ((a : A) × (m ≡ ok a) × P a r)

pub bind-Follows {ℓ κ ν} :
    {A : Type ℓ} {B : Type κ} (P : A → Outcome B → Type ν) (m : Outcome A) (f : A → Outcome B)
    → ((a : A) → P a (f a))
    → Follows P m (m >>= f)
bind-Follows P blocks f h = inl (refl, refl)
bind-Follows P panics f h = inr (inl (refl, refl))
bind-Follows P (ok a) f h = inr (inr (a, refl, h a))
