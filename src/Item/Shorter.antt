-- ===== src/Item/Shorter.antt =====
-- Reading items takes bytes from the front and gives none back (items.go).
use gologix.Base.{ℕ, zero, suc, ◌∷◌}
use gologix.Wire.{pure, ◌>>=◌}
use gologix.Wire.Shrinks.{Shrinks, Shrinks-bind, Shrinks-pure, shrinks_rules}
use gologix.Item.{read_item, read_items_loop, read_items}

Shrinks-read_item : Shrinks read_item
unfolding read_item
Shrinks-read_item = search shrinks_rules depth 60

Shrinks-read_items_loop : (n : ℕ) → Shrinks (read_items_loop n)
unfolding read_items_loop
Shrinks-read_items_loop zero = search shrinks_rules depth 60
Shrinks-read_items_loop (suc n) =
    Shrinks-bind read_item (λ item. read_items_loop n >>= λ items. pure (item ∷ items))
      Shrinks-read_item
      (λ item.
        Shrinks-bind (read_items_loop n) (λ items. pure (item ∷ items)) (Shrinks-read_items_loop n)
          (λ items. Shrinks-pure _))

pub Shrinks-read_items : Shrinks read_items
unfolding read_items
Shrinks-read_items = search (shrinks_rules, Shrinks-read_items_loop) depth 60
