-- ===== src/Tools/Raising.antt =====
-- How raised exceptions pass through the code of app/tools that only looks: a statement after one
-- that raises is not reached.
use ochestrate.Base.{◌≡◌, refl}
use ochestrate.Tools.Hub.{Result, ok, raised}

infixl 5 ◌>>=◌
abbrev pub ◌>>=◌ : {X : Type 0} {Y : Type 0} → Result X → (X → Result Y) → Result Y
r >>= next = elim r [ ok x ↦ next x | raised error ↦ raised error ]

-- Where the whole returns, so did the first part, and what comes after it.
pub returned_from :
    {X Y : Type 0} {y : Y} (r : Result X) (next : X → Result Y)
    → (r >>= next) ≡ ok y
    → (x : X) × (r ≡ ok x) × (next x ≡ ok y)
returned_from (raised error) next whole = cc
returned_from (ok x) next whole = (x, refl, whole)
