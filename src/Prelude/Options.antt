-- ===== src/Prelude/Options.antt =====
-- Predicates on what an option holds.
use mathlib.Core.Path.{◌≡◌, subst}
use mathlib.Core.Bool.{Bool, true, false}
use mathlib.Core.Option
use mathlib.Core.Option.{Option, none, some}

unfoldable pub is_missing {ℓ} : {A : Type ℓ} → Option A → Bool
is_missing none = true
is_missing (some x) = false

-- A predicate holds of what an option holds.
abbrev pub Holds : {A : Type 0} → (A → Type 0) → Option A → Type 0
Holds P none = Unit
Holds P (some a) = P a

pub Holds-elim :
    {A B : Type 0} (P : A → Type 0) (Q : B → Type 0) (o : Option A) (f : A → Option B)
    → Holds P o
    → ((a : A) → P a → Holds Q (f a))
    → Holds Q (elim o [ none ↦ none | some a ↦ f a ])
Holds-elim P Q none f h g = tt
Holds-elim P Q (some a) f h g = g a h

pub Holds-map :
    {A B : Type 0} (P : A → Type 0) (Q : B → Type 0) (o : Option A) (f : A → B)
    → Holds P o
    → ((a : A) → P a → Q (f a))
    → Holds Q (Option.map f o)
Holds-map P Q none f h g = tt
Holds-map P Q (some a) f h g = g a h

pub Holds-bind :
    {A B : Type 0} (Q : B → Type 0) (o : Option A) (f : A → Option B)
    → ((a : A) → Holds Q (f a))
    → Holds Q (Option.bind o f)
unfolding Option.bind
Holds-bind Q none f g = tt
Holds-bind Q (some a) f g = g a

pub Holds-map_any :
    {A B : Type 0} (Q : B → Type 0) (o : Option A) (f : A → B)
    → ((a : A) → Q (f a))
    → Holds Q (Option.map f o)
Holds-map_any Q none f g = tt
Holds-map_any Q (some a) f g = g a

pub Holds-weaken :
    {A : Type 0} {P Q : A → Type 0} (o : Option A) → ((a : A) → P a → Q a) → Holds P o → Holds Q o
Holds-weaken none f h = tt
Holds-weaken (some a) f h = f a h

pub Holds_some : {A : Type 0} (P : A → Type 0) {o : Option A} {a : A} → o ≡ some a → Holds P o → P a
Holds_some P e h = subst (Holds P) e h
