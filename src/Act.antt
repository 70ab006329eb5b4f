-- ===== src/Act.antt =====
-- Handlers that call the server: they read and change the state of a component, call a client, and
-- may raise an error. The server is a parameter that answers a call and changes its own state.
pub mod Laws
use dbtabase_workbench.Common.{Bool, true, false, Option, Text}

-- What an `await` gives: a value, or an error with the message it has.
pub data Called {ℓ} (A : Type ℓ) : Type ℓ where
  returned : A → Called A
  raised : Option Text → Called A

abbrev pub Act : Type 0 → Type 0 → Type 0 → Type 0
Act W S A = W × S → Called A × (W × S)

infixl 5 ◌>>=◌ ◌>>◌
abbrev pub ◌>>=◌ : {W S A B : Type 0} → Act W S A → (A → Act W S B) → Act W S B
(m >>= f) x = let r = m x in elim r.0 [ returned a ↦ f a r.1 | raised e ↦ (raised e, r.1) ]

abbrev pub ◌>>◌ : {W S B : Type 0} → Act W S (Unit {0}) → Act W S B → Act W S B
m >> k = m >>= λ _. k

abbrev pub give : {W S A : Type 0} → A → Act W S A
give a x = (returned a, x)

abbrev pub now : {W S : Type 0} → Act W S W
now x = (returned x.0, x)

abbrev pub edit : {W S : Type 0} → (W → W) → Act W S (Unit {0})
edit f x = (returned tt, (f x.0, x.1))

abbrev pub call : {W S A : Type 0} → (S → Called A × S) → Act W S A
call f x = let r = f x.1 in (r.0, (x.0, r.1))

abbrev pub raise : {W S A : Type 0} → Option Text → Act W S A
raise e x = (raised e, x)

-- `try { m } catch (error) { k error }`.
abbrev pub attempt : {W S A : Type 0} → Act W S A → (Option Text → Act W S A) → Act W S A
attempt m k x = let r = m x in elim r.0 [ returned a ↦ (returned a, r.1) | raised e ↦ k e r.1 ]

-- An action that is left out when the test fails.
abbrev pub only_if : {W S : Type 0} → Bool → Act W S (Unit {0}) → Act W S (Unit {0})
only_if true m = m
only_if false m = give tt

-- `Promise.all` of two calls that are made one after another. Where both raise an error, the first
-- one's is given; in the code it is that of the call that fails first.
abbrev pub both {ℓ} : {A B : Type ℓ} → Called A → Called B → Called (A × B)
both (returned a) (returned b) = returned (a, b)
both (returned a) (raised e) = raised e
both (raised e) b = raised e
