-- ===== src/Common/Results.antt =====
-- What a handler of the server answers: a value, or one of the exceptions of `@nestjs/common`.
-- What else is thrown, by the database client for one, is answered as a server error.
use mathlib.Core.Path.{◌≡◌, refl}
use mathlib.Core.Logic.{◌⊎◌, inl, inr}

pub data HttpError : Type 0 where
  bad_request unauthorized forbidden not_found conflict server_error : HttpError

pub data Result {ℓ} (A : Type ℓ) : Type ℓ where
  ok : A → Result A
  failed : HttpError → Result A

pub Result-cases {ℓ} :
    {A : Type ℓ} (r : Result A) → ((e : HttpError) × (r ≡ failed e)) ⊎ ((a : A) × (r ≡ ok a))
Result-cases (failed e) = inl (e, refl)
Result-cases (ok a) = inr (a, refl)
