-- ===== src/Common/Calls.antt =====
-- C functions as calls on a state, which may end the run instead of returning.
use mathlib.Core.Option.{Option, none, some}
use mathlib.Core.Path.{◌≡◌, refl, sym, ap, ◌∙◌}
use mathlib.Core.Bool.{true, false}
use mathlib.Core.Logic.{◌⊎◌, inl, inr}

pub data Outcome (E A : Type 0) : Type 0 where
  ok : A → Outcome E A
  stop : E → Outcome E A

abbrev pub Call : Type 0 → Type 0 → Type 0 → Type 0
Call E S A = S → Outcome E (A × S)

infixl 10 ◌>>=◌
abbrev pub ◌>>=◌ : {E S A B : Type 0} → Call E S A → (A → Call E S B) → Call E S B
(c >>= f) s = elim (c s) [ ok (a, t) ↦ f a t | stop e ↦ stop e ]

infixl 10 ◌>>◌
abbrev pub ◌>>◌ : {E S B : Type 0} → Call E S (Unit {0}) → Call E S B → Call E S B
c >> d = c >>= (λ u. d)

abbrev pub ret : {E S A : Type 0} → A → Call E S A
ret a s = ok (a, s)

abbrev pub fail : {E S A : Type 0} → E → Call E S A
fail e s = stop e

abbrev pub or_fail : {E S A : Type 0} → E → Option A → Call E S A
or_fail e none = fail e
or_fail e (some a) = ret a

pub Outcome-cases :
    {E A : Type 0} (o : Outcome E A) → ((e : E) × (o ≡ stop e)) ⊎ ((a : A) × (o ≡ ok a))
Outcome-cases (ok a) = inr (a, refl)
Outcome-cases (stop e) = inl (e, refl)

-- The second of two calls runs on the state that the first leaves.
pub then_runs :
    {E S B : Type 0} (c : Call E S (Unit {0})) (d : Call E S B) (s t : S)
    → c s ≡ ok (tt, t)
    → (c >> d) s ≡ d t
then_runs c d s t h = ap (λ o. elim o [ ok (a, u) ↦ d u | stop e ↦ stop e ]) h

pub bind_ok :
    {E S A B : Type 0} (c : Call E S A) (f : A → Call E S B) (s t : S) (a : A)
    → c s ≡ ok (a, t)
    → (c >>= f) s ≡ f a t
bind_ok c f s t a h = ap (λ o. elim o [ ok (b, u) ↦ f b u | stop e ↦ stop e ]) h

pub bind_stop :
    {E S A B : Type 0} (c : Call E S A) (f : A → Call E S B) (s : S) (e : E)
    → c s ≡ stop e
    → (c >>= f) s ≡ stop e
bind_stop c f s e h = ap (λ o. elim o [ ok (b, u) ↦ f b u | stop e ↦ stop e ]) h

pub ok-injective : {E A : Type 0} {a b : A} → ◌≡◌ {A = Outcome E A} (ok a) (ok b) → a ≡ b
ok-injective {a = a} h = ap (λ o. elim o [ ok x ↦ x | stop e ↦ a ]) h

-- Two results of one call.
pub same_end :
    {E S A : Type 0} {a b : A} {s t : S} {o : Outcome E (A × S)}
    → o ≡ ok (a, s)
    → o ≡ ok (b, t)
    → s ≡ t
same_end h k = ap (λ r. r.1) (ok-injective (sym h ∙ k))

-- A call that ends the run does not return.
pub stop_not_ok :
    {E A : Type 0} {e : E} {a : A} {o : Outcome E A} → o ≡ stop e → o ≡ ok a → false ≡ true
stop_not_ok h k = ap (λ o. elim o [ ok x ↦ true | stop e ↦ false ]) (sym h ∙ k)
