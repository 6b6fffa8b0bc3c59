-- ===== src/Wire/Bind.antt =====
-- A successful chain of readers, taken apart.
use gologix.Base.{◌≡◌, refl}
use gologix.Base.Result.{Result, ok, err, panic}
use gologix.Wire.{Bytes, Reader, continue}

pub bind-eq-ok :
    {A B : Type 0} (m : Result (A × Bytes)) (f : A → Reader B) {z : B × Bytes}
    → continue m f ≡ ok z
    → (a : A) × (r : Bytes) × (m ≡ ok (a, r)) × (f a r ≡ ok z)
bind-eq-ok (ok (a, r)) f h = (a, r, refl, h)
bind-eq-ok (err e) f h = cc
bind-eq-ok panic f h = cc
