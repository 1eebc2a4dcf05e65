-- ===== src/Downlink/Returned.antt =====
-- server/sim/data_payload.py: a property of what a chain of calls returns, where it returns.
use gaggia_esp_c3_mini_serve.Prelude.{◌≡◌, refl}
use mathlib.Core.Path.{subst}
use gaggia_esp_c3_mini_serve.Python.Object.{Result, ok, err, ◌>>=◌}

-- `P` holds of the result, if there is one.
pub record OnOk {ℓ κ} {A : Type ℓ} (P : A → Type κ) (r : Result A) : Type (ℓ ⊔ κ) where
  pub holds : (a : A) → r ≡ ok a → P a

pub bind-OnOk {ℓ κ ν μ} :
    {A : Type ℓ} {B : Type κ} (P : B → Type ν) (Q : A → Type μ) (r : Result A) (f : A → Result B)
    → OnOk Q r
    → ((a : A) → Q a → OnOk P (f a))
    → OnOk P (r >>= f)
bind-OnOk P Q (ok a) f q h = h a (q.holds a refl)
bind-OnOk P Q (err e) f q h = record { holds = λ a e. cc }

-- A step of which nothing is said
pub skip-OnOk {ℓ κ ν} :
    {A : Type ℓ} {B : Type κ} (P : B → Type ν) (r : Result A) (f : A → Result B)
    → ((a : A) → OnOk P (f a))
    → OnOk P (r >>= f)
skip-OnOk P (ok a) f h = h a
skip-OnOk P (err e) f h = record { holds = λ a e. cc }

ok_value {ℓ} : {A : Type ℓ} → A → Result A → A
ok_value default (ok a) = a
ok_value default (err e) = default

pub ok-OnOk {ℓ κ} : {A : Type ℓ} (P : A → Type κ) (a : A) → P a → OnOk P (ok a)
unfolding ok_value
ok-OnOk P a h = record { holds = λ b e. subst (λ r. P (ok_value a r)) e h }
