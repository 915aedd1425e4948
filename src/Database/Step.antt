-- ===== src/Database/Step.antt =====
-- The operations of a writer: each takes the state of the database and gives its result, or what it
-- raised, with the state that it left. A step that raises leaves the state that it had reached.
use bi_ble_atlas.Base.{◌≡◌, refl, ap}
use bi_ble_atlas.Base.Result.{Result, ok, raise}

abbrev pub Step {ℓ κ λ'} : Type ℓ → Type κ → Type λ' → Type (ℓ ⊔ κ ⊔ λ')
Step S E A = S → Result E A × S

module _ {ℓ κ λ' μ} {S : Type ℓ} {E : Type κ} {A : Type λ'} {B : Type μ} where
  abbrev pub continue_with : (A → Step S E B) → Result E A × S → Result E B × S
  continue_with f (ok a, s) = f a s
  continue_with f (raise e, s) = (raise e, s)

  infixl 5 ◌>>=◌
  abbrev pub ◌>>=◌ : Step S E A → (A → Step S E B) → Step S E B
  ◌>>=◌ m f s = continue_with f (m s)

  infixl 5 ◌>>◌
  abbrev pub ◌>>◌ : Step S E A → Step S E B → Step S E B
  m >> k = m >>= λ _. k

  -- A chain that returned: what its parts returned, and the states between.
  pub >>=-eq-ok :
      (m : Step S E A) (f : A → Step S E B) (s : S) {b : B}
      → ((m >>= f) s).0 ≡ ok b
      → (a : A) × ((m s).0 ≡ ok a) × ((f a (m s).1).0 ≡ ok b) × (((m >>= f) s).1 ≡ (f a (m s).1).1)
  >>=-eq-ok m f s e = split (m s) e
    where
      split :
          (r : Result E A × S) {b : B}
          → (continue_with f r).0 ≡ ok b
          → (a : A) × (r.0 ≡ ok a) × ((f a r.1).0 ≡ ok b) × ((continue_with f r).1 ≡ (f a r.1).1)
      split (ok a, t) e = (a, refl, e, refl)
      split (raise x, t) e = cc

module _ {ℓ κ λ'} {S : Type ℓ} {E : Type κ} {A : Type λ'} where
  abbrev pub pure : A → Step S E A
  pure a s = (ok a, s)

  -- A step that leaves the state alone.
  abbrev pub lift : Result E A → Step S E A
  lift r s = (r, s)

  -- `except`: what the client raised, as the exception that leaves the writer.
  abbrev pub rescue {μ} : {F : Type μ} → (F → E) → Result F A × S → Result E A × S
  rescue handler (ok a, s) = (ok a, s)
  rescue handler (raise e, s) = (raise (handler e), s)

-- A call of the client that returned through an `except` clause, and the answer that is made of it.
pub called-ok :
    {S F E A B : Type 0} (handler : F → E) (answer : A → B) (r : Result F A × S) {b : B}
    → (continue_with (λ a. pure (answer a)) (rescue handler r)).0 ≡ ok b
    → (a : A) × (r.0 ≡ ok a)
      × (answer a ≡ b)
      × ((continue_with {E = E} (λ a. pure (answer a)) (rescue handler r)).1 ≡ r.1)
called-ok handler answer (ok a, s) e = (a, refl, cc, refl)
called-ok handler answer (raise x, s) e = cc

-- A handler leaves the state alone, and a result that is returned.
pub rescue-state :
    {S F E A : Type 0} (handler : F → E) (r : Result F A × S) → (rescue handler r).1 ≡ r.1
rescue-state handler (ok a, s) = refl
rescue-state handler (raise x, s) = refl

pub rescue-ok :
    {S F E A : Type 0} (handler : F → E) (r : Result F A × S) {a : A}
    → (rescue handler r).0 ≡ ok a
    → r.0 ≡ ok a
rescue-ok handler (ok a, s) e = cc
rescue-ok handler (raise x, s) e = cc

-- A step that only reads, and a step without a state, before another.
pub read-step :
    {S F E A B : Type 0} (read : S → Result F A) (handler : F → E) (f : A → Step S E B) (s : S)
    {b : B}
    → (((λ t. rescue handler (read t, t)) >>= f) s).0 ≡ ok b
    → (a : A) × (read s ≡ ok a) × (((λ t. rescue handler (read t, t)) >>= f) s ≡ f a s)
read-step {S} {F} {E} {A} {B} read handler f s e = split (read s) refl e
  where
    split :
        (r : Result F A) {b : B}
        → read s ≡ r
        → (continue_with f (rescue handler (r, s))).0 ≡ ok b
        → (a : A) × (read s ≡ ok a) × (((λ t. rescue handler (read t, t)) >>= f) s ≡ f a s)
    split (ok a) asked e = (a, asked, ap (λ r. continue_with f (rescue handler (r, s))) asked)
    split (raise x) asked e = cc

pub lift-step :
    {S E A B : Type 0} (r : Result E A) (f : A → Step S E B) (s : S) {b : B}
    → ((lift r >>= f) s).0 ≡ ok b
    → (a : A) × (r ≡ ok a) × ((lift r >>= f) s ≡ f a s)
lift-step (ok a) f s e = (a, refl, refl)
lift-step (raise x) f s e = cc

-- A call that the client answered.
pub answered-ok :
    {S F E A B : Type 0} (handler : F → E) (answer : A → B) (r : Result F A × S) {a : A}
    → r.0 ≡ ok a
    → (continue_with {E = E} (λ x. pure (answer x)) (rescue handler r)).0 ≡ ok (answer a)
answered-ok handler answer (ok x, s) e = cc
answered-ok handler answer (raise x, s) e = cc
