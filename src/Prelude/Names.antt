-- ===== src/Prelude/Names.antt =====
-- `std::unordered_set<std::string>` as a list of byte strings.
use mathlib.Core.Path.{◌≡◌}
use mathlib.Core.Bool.{Bool, true, false, ◌||◌}
use mathlib.Core.List.{List, [], ◌∷◌}
use native.Mathlib.Omega.{arith}
use axn_chat_app.Prelude.Tests.{if◌then◌else◌}
use axn_chat_app.Prelude.Text.{Bytes, same, same-eq, same_self}

-- `find(name) != end()`
unfoldable pub contains : Bytes → List Bytes → Bool
contains x [] = false
contains x (y ∷ ys) = same y x || contains x ys

unfoldable pub insert : Bytes → List Bytes → List Bytes
unfolding contains
insert x ys = if contains x ys then ys else x ∷ ys

unfoldable pub erase : Bytes → List Bytes → List Bytes
erase x [] = []
erase x (y ∷ ys) = let rest = erase x ys in if same y x then rest else y ∷ rest

pub contains-insert :
    (x y : Bytes) (ys : List Bytes)
    → contains y (insert x ys) ≡ (if same x y then true else contains y ys)
unfolding insert
contains-insert x y ys = ground (arith, same-eq x y)

pub contains-erase :
    (x y : Bytes) (ys : List Bytes)
    → contains y (erase x ys) ≡ (if same x y then false else contains y ys)
unfolding contains erase
contains-erase x y [] = ground arith
contains-erase x y (z ∷ zs) =
    ground (arith, contains-erase x y zs, same-eq z x, same-eq z y, same-eq x y, same_self y)
