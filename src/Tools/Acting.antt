-- ===== src/Tools/Acting.antt =====
-- How raised exceptions pass through the code of app/tools that acts on the world: a statement after
-- one that raises is not reached, and the world stays as it was then.
use ochestrate.Base.{◌≡◌, refl, Bool, true, false, if◌then◌else◌}
use ochestrate.Tools.Hub.{Result, ok, raised, ToolError}

-- what acts on a world and returns or raises
abbrev pub Act {ℓ κ} : Type ℓ → Type κ → Type (ℓ ⊔ κ)
Act W A = W → Result A × W

abbrev pub continue {ℓ κ μ} :
    {W : Type ℓ} {A : Type κ} {B : Type μ} → Result A × W → (A → Act W B) → Result B × W
continue (ok a, w) f = f a w
continue (raised e, w) f = (raised e, w)

infixl 5 ◌>>=◌
abbrev pub ◌>>=◌ {ℓ κ μ} :
    {W : Type ℓ} {A : Type κ} {B : Type μ} → Act W A → (A → Act W B) → Act W B
(m >>= f) w = continue (m w) f

-- What holds of the world where a computation raises, and after what follows one that returns, holds
-- after both.
pub continue-kept {ℓ κ μ ν} :
    {W : Type ℓ} {A : Type κ} {B : Type μ} (P : W → Type ν) (r : Result A × W) (f : A → Act W B)
    → P r.1
    → ((a : A) → r.0 ≡ ok a → P ((f a r.1).1))
    → P ((continue r f).1)
continue-kept P (ok a, w) f h after = after a refl
continue-kept P (raised e, w) f h after = h

-- what is returned, if anything is, has a property
abbrev pub Returns {ℓ ν} : {A : Type ℓ} → (A → Type ν) → Result A → Type ν
Returns Q (ok a) = Q a
Returns Q (raised e) = Unit

pub continue-Returns {ℓ κ μ ν} :
    {W : Type ℓ} {A : Type κ} {B : Type μ} (Q : B → Type ν) (r : Result A × W) (f : A → Act W B)
    → ((a : A) (w : W) → Returns Q ((f a w).0))
    → Returns Q ((continue r f).0)
continue-Returns Q (ok a, w) f after = after a w
continue-Returns Q (raised e, w) f after = tt

-- what looks at the world and leaves it
abbrev pub looks {ℓ κ} : {W : Type ℓ} {A : Type κ} → (W → Result A) → Act W A
looks f w = (f w, w)

abbrev pub give {ℓ κ} : {W : Type ℓ} {A : Type κ} → A → Act W A
give a w = (ok a, w)

abbrev pub raise {ℓ κ} : {W : Type ℓ} {A : Type κ} → ToolError → Act W A
raise e w = (raised e, w)

-- What holds after both branches of a test holds after the test.
pub if-kept {ℓ κ ν} :
    {W : Type ℓ} {A : Type κ} (P : W → Type ν) (b : Bool) (m n : Act W A) (w : W)
    → P ((m w).1)
    → P ((n w).1)
    → P (((if b then m else n) w).1)
if-kept P true m n w h k = h
if-kept P false m n w h k = k
