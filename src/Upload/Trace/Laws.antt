-- ===== src/Upload/Trace/Laws.antt =====
-- Predicates on all calls that an import makes.
use bi_ble_atlas.Base.{List, [], ◌∷◌, ◌++◌, All}
use bi_ble_atlas.Base.Result.{ok, raise}
use bi_ble_atlas.Upload.Trace.{Event, Trace, ◌>>=◌}

pub All-append {ℓ κ} :
    {A : Type ℓ} (P : A → Type κ) (xs ys : List A) → All P xs → All P ys → All P (xs ++ ys)
All-append P [] ys h k = k
All-append P (x ∷ xs) ys (p, h) k = (p, All-append P xs ys h k)

pub All-map {ℓ κ λ'} :
    {A : Type ℓ} (P : A → Type κ) (Q : A → Type λ') (xs : List A)
    → ((x : A) → P x → Q x)
    → All P xs
    → All Q xs
All-map P Q [] f h = tt
All-map P Q (x ∷ xs) f (p, h) = (f x p, All-map P Q xs f h)

-- All calls of a step are among those that the predicate allows.
abbrev pub Within {ℓ} : (Event → Type 0) → {A : Type ℓ} → Trace A → Type 0
Within P t = All P t.1

pub Within->>= {ℓ κ} :
    (P : Event → Type 0) {A : Type ℓ} {B : Type κ} (m : Trace A) (f : A → Trace B)
    → Within P m
    → ((a : A) → Within P (f a))
    → Within P (m >>= f)
Within->>= P (ok a, es) f h k = All-append P es (f a).1 h (k a)
Within->>= P (raise e, es) f h k = h
