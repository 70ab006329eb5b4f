-- ===== src/Act/Laws.antt =====
-- How handlers are put together, where a part of them returns or raises an error.
use dbtabase_workbench.Common.{◌≡◌, refl, ap, ◌⊎◌, inl, inr, Option, Text}
use dbtabase_workbench.Act.{Called, returned, raised, Act, ◌>>=◌, ◌>>◌, edit, attempt}

pub >>=-returned :
    {W S A B : Type 0} (m : Act W S A) (f : A → Act W S B) (x : W × S) {a : A}
    → (m x).0 ≡ returned a
    → (m >>= f) x ≡ f a (m x).1
>>=-returned m f x h = rw (h, ◌>>=◌)

pub Called-cases :
    {A : Type 0} (c : Called A)
    → ((a : A) × (c ≡ returned a)) ⊎ ((e : Option Text) × (c ≡ raised e))
Called-cases (returned a) = inl (a, refl)
Called-cases (raised e) = inr (e, refl)

-- An attempt whose rescue does not raise an error raises none.
pub attempt-returned :
    {W S : Type 0} (m : Act W S (Unit {0})) (k : Option Text → Act W S (Unit {0})) (x : W × S)
    → ((e : Option Text) (y : W × S) → (k e y).0 ≡ returned tt)
    → (attempt m k x).0 ≡ returned tt
attempt-returned m k x h = elim (Called-cases (m x).0) [
  | inl (a, e) ↦ rw (e, attempt)
  | inr (e, r) ↦ rw (r, attempt) (h e (m x).1)
]

-- An attempt that raises none, with a change of the state after it.
pub attempt-edit :
    {W S : Type 0} (m : Act W S (Unit {0})) (k : Option Text → Act W S (Unit {0})) (f : W → W)
    (x : W × S)
    → ((e : Option Text) (y : W × S) → (k e y).0 ≡ returned tt)
    → (attempt m k >> edit f) x ≡ (returned tt, (f (attempt m k x).1.0, (attempt m k x).1.1))
attempt-edit m k f x h = >>=-returned (attempt m k) (λ _. edit f) x (attempt-returned m k x h)

pub >>=-raised :
    {W S A B : Type 0} (m : Act W S A) (f : A → Act W S B) (x y : W × S) (e : Option Text)
    → m x ≡ (raised e, y)
    → (m >>= f) x ≡ (raised e, y)
>>=-raised m f x y e h = rw (ap (λ r. r.0) h, ◌>>=◌) (ap (λ r. (raised e, r.1)) h)

pub attempt-raised :
    {W S A : Type 0} (m : Act W S A) (k : Option Text → Act W S A) (x y : W × S) (e : Option Text)
    → m x ≡ (raised e, y)
    → attempt m k x ≡ k e y
attempt-raised m k x y e h = rw (ap (λ r. r.0) h, attempt) (ap (λ r. k e r.1) h)

pub >>-returned :
    {W S B : Type 0} (m : Act W S (Unit {0})) (k : Act W S B) (x y : W × S)
    → m x ≡ (returned tt, y)
    → (m >> k) x ≡ k y
>>-returned m k x y h = rw (ap (λ r. r.0) h, ◌>>=◌) (ap (λ r. k r.1) h)

pub attempt-done :
    {W S A : Type 0} (m : Act W S A) (k : Option Text → Act W S A) (x y : W × S) {a : A}
    → m x ≡ (returned a, y)
    → attempt m k x ≡ (returned a, y)
attempt-done m k x y {a} h = rw (ap (λ r. r.0) h, attempt) (ap (λ r. (returned a, r.1)) h)
