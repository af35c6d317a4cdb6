-- ===== src/Base/Exec.antt =====
-- Python calls that change a state and may raise. What was written before an exception stays
-- written, so the state comes back beside the exception too.
use flux_guard.Base.{ℕ, ◌≡◌, refl, ◌⊎◌, inl, inr}

-- `unfinished` is no exception of the program: a loop that ran out of its fuel.
pub data Error : Type 0 where
  os_error : ℕ → Error
  value_error other_error unfinished : Error

pub data Result {ℓ} (A : Type ℓ) : Type ℓ where
  ok : A → Result A
  err : Error → Result A

abbrev pub Exec {ℓ} : Type ℓ → Type ℓ → Type ℓ
Exec S A = S → Result A × S

module _ {ℓ} {S A : Type ℓ} where
  abbrev pub pure : A → Exec S A
  pure a s = (ok a, s)

  abbrev pub raise : Error → Exec S A
  raise e s = (err e, s)

module _ {ℓ} {S A B : Type ℓ} where
  infixl 5 ◌>>=◌ ◌>>◌
  abbrev pub ◌>>=◌ : Exec S A → (A → Exec S B) → Exec S B
  ◌>>=◌ m f s = let (r, s') = m s in elim r [ ok a ↦ f a s' | err e ↦ (err e, s') ]

  abbrev pub ◌>>◌ : Exec S A → Exec S B → Exec S B
  m >> k = m >>= λ _. k

-- `try: m except OSError: h`, where the handler does not look at the error.
abbrev pub except_os_error {ℓ} : {S A : Type ℓ} → Exec S A → Exec S A → Exec S A
except_os_error m h s =
    let (r, s') = m s in
    elim r [ ok a ↦ (ok a, s') | err e ↦ elim e [ os_error _ ↦ h s' | other ↦ (err other, s') ] ]

-- To split on a result and keep the equation.
pub Result-cases {ℓ} :
    {A : Type ℓ} (r : Result A) → ((a : A) × (r ≡ ok a)) ⊎ ((e : Error) × (r ≡ err e))
Result-cases (ok a) = inl (a, refl)
Result-cases (err e) = inr (e, refl)
