-- ===== src/Maps/Examples.antt =====
-- The insertion of a fifth key, which makes a rotation.
use stunt.Prelude.{ℕ, ◌≡◌, refl, true, false, some, [], ◌∷◌, ◌<◌, List, arith, length}
use stunt.Prelude.Int.{ℤ, pos, ◌-ℤ◌}
use stunt.Int32.{wrap32, signed32, bits}
use stunt.Value.{Var, int, Node, leaf, node}
use stunt.Value.Compare.{compare}
use stunt.Value.Sample.{whole_floats}
use stunt.Maps.{node_compare, descend, rbinsert}
use stunt.Maps.Shape.{HasHeight, HasColours}
use stunt.Maps.Balanced.Ends.{Balanced}
use stunt.Maps.Order.{Item, item, items}
use stunt.Maps.Splits.{Each, IsBelow}
use stunt.Maps.Walk.{Trav, slide, rbstart, rbtfirst, mapforeach, mapforeach-items}
use stunt.Maps.Depth.{height_limit, starts, Visits-height_limit}
use stunt.Maps.Found.{IsTree, IsInserted, rbinsert-IsInserted}

abbrev by_key : Var → Var → ℤ
by_key = node_compare whole_floats (λ s t. pos 0) false

abbrev key_of : ℕ → Var
key_of n = int (pos n)

abbrev one_of : ℕ → Item
one_of n = item (key_of n) (key_of n)

abbrev four : Node
four =
    node false (key_of 2) (key_of 2) (node false (key_of 1) (key_of 1) leaf leaf)
      (node false (key_of 3) (key_of 3) leaf (node true (key_of 4) (key_of 4) leaf leaf))

abbrev lower : List Item
lower = one_of 1 ∷ one_of 2 ∷ one_of 3 ∷ one_of 4 ∷ []

four-IsTree : IsTree four
unfolding Balanced HasHeight HasColours
four-IsTree = record {
  root = refl;
  balanced =
      (2, ((refl, refl), (refl, (refl, refl))), (refl, (refl, tt, tt), (refl, tt, (refl, tt, tt))));
}

lower-IsBelow : Each (IsBelow by_key (key_of 5)) lower
unfolding Each IsBelow node_compare compare wrap32 signed32 bits ◌-ℤ◌
lower-IsBelow = (refl, (refl, (refl, (refl, tt))))

rbinsert-IsInserted_example : IsInserted by_key (key_of 5) (key_of 6) four lower []
unfolding items Each node_compare compare wrap32 signed32 bits ◌-ℤ◌
rbinsert-IsInserted_example =
    rbinsert-IsInserted by_key (key_of 5) (key_of 6) four lower [] four-IsTree refl lower-IsBelow tt
      refl

five :
    rbinsert by_key (key_of 5) (key_of 6) four
    ≡ some (
        node false (key_of 2) (key_of 2) (node false (key_of 1) (key_of 1) leaf leaf) (
          node false
            (key_of 4)
            (key_of 4)
            (node true (key_of 3) (key_of 3) leaf leaf)
            (node true (key_of 5) (key_of 6) leaf leaf)))
unfolding rbinsert descend node_compare compare wrap32 signed32 bits ◌-ℤ◌
five = refl

mapforeach-items_example : mapforeach 5 (rbtfirst four) ≡ some (items four)
unfolding items
mapforeach-items_example = mapforeach-items four 5 (omega arith)

-- The last node, two links down.
abbrev last_place : Trav
last_place = rbstart four true

Visits-height_limit_example : length last_place.path < height_limit
unfolding items
Visits-height_limit_example =
    Visits-height_limit four last_place four-IsTree (omega arith) (starts true)

down_twice : length last_place.path ≡ 2
unfolding rbstart slide
down_twice = refl
