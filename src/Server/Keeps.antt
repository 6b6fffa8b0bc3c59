-- ===== src/Server/Keeps.antt =====
-- Services of connectedMulti (server_connected.go) change the endpoints alone.
use gologix.Base.{ℕ, ◌≡◌, refl, ap, ◌∙◌, List, [], ◌∷◌, Bool, true, false, if◌then◌else◌}
use gologix.Base.Int.{ℤ}
use gologix.Base.Result.{Result, ok, err, panic}
use gologix.Wire.{Bytes}
use gologix.Server.Session.{Session, Action, Env, Element, Datum, one, lift, pure, continue, ◌>>=◌}
use gologix.Server.Access.{read_tag, write_tag, write_values, first_value}
use gologix.Server.Multi.{one_service, service_at}

-- Only the endpoints change.
pub record KeepsSession {W A : Type 0} (m : Action W A) : Type 0 where
  pub at : (s : Session W) → (m s).1 ≡ record s { world = (m s).1.world }

continue-keeps :
    {W A B : Type 0} (s : Session W) (r : Result A × Session W) (f : A → Action W B)
    → r.1 ≡ record s { world = r.1.world }
    → ((a : A) → KeepsSession (f a))
    → (continue r f).1 ≡ record s { world = (continue r f).1.world }
continue-keeps {W} s (ok a, s1) f h k =
    (k a).at s1 ∙ ap (λ (x : Session W). record x { world = (f a s1).1.world }) h
continue-keeps s (err e, s1) f h k = h
continue-keeps s (panic, s1) f h k = h

KeepsSession-bind :
    {W A B : Type 0} (m : Action W A) (f : A → Action W B)
    → KeepsSession m
    → ((a : A) → KeepsSession (f a))
    → KeepsSession (m >>= f)
KeepsSession-bind m f h k = record { at = λ s. continue-keeps s (m s) f (h.at s) k }

KeepsSession-lift : {W A : Type 0} (r : Result A) → KeepsSession {W = W} (lift r)
KeepsSession-lift r = record { at = λ s. refl }

KeepsSession-pure : {W A : Type 0} (a : A) → KeepsSession {W = W} (pure a)
KeepsSession-pure a = record { at = λ s. refl }

KeepsSession-if :
    {W A : Type 0} (b : Bool) (m n : Action W A)
    → KeepsSession m
    → KeepsSession n
    → KeepsSession (if b then m else n)
KeepsSession-if true m n h k = h
KeepsSession-if false m n h k = k

module _ {W E : Type 0} (env : Env W E) where
  KeepsSession-read_tag : (p : E) (tag : Bytes) (qty : ℕ) → KeepsSession (read_tag env p tag qty)
  unfolding read_tag
  KeepsSession-read_tag p tag qty = record { at = λ s. refl }

  KeepsSession-write_tag : (p : E) (tag : Bytes) (d : Datum) → KeepsSession (write_tag env p tag d)
  unfolding write_tag
  KeepsSession-write_tag p tag d = record { at = λ s. refl }

  KeepsSession-first_value :
      (p : E) (tag : Bytes) (vs : List Element) → KeepsSession (first_value env p tag vs)
  unfolding first_value
  KeepsSession-first_value p tag [] = KeepsSession-lift panic
  KeepsSession-first_value p tag (v ∷ vs) = KeepsSession-write_tag p tag (one v)

  KeepsSession-write_values :
      (p : E) (tag : Bytes) (vs : List Element) → KeepsSession (write_values env p tag vs)
  unfolding write_values
  KeepsSession-write_values p tag vs =
      search (KeepsSession-if, KeepsSession-write_tag, KeepsSession-first_value)

  pub KeepsSession-service_at :
      (p : E) (content : Bytes) (o : ℤ) → KeepsSession (service_at env p content o)
  unfolding service_at one_service
  KeepsSession-service_at p content o =
      search
        (
          KeepsSession-bind, KeepsSession-lift, KeepsSession-pure, KeepsSession-if,
          KeepsSession-read_tag, KeepsSession-write_values,
        )
        depth 60
