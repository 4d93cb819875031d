-- ===== src/Testing/Handlers/Stream/Lists.antt =====
-- Lists within lists, and the lengths of lists that are put together.
use sentinel_api_platform.Prelude.{◌+◌, ◌≡◌, refl, ap, List, [], ◌∷◌, ◌++◌, map, length, arith}
use mathlib.Core.List.{Sublistᴰ}

-- A list that is within another one is within it with more in between.
pub Sublist-insert :
    {A : Type 0} (xs ps gs qs : List A) → Sublistᴰ xs (ps ++ qs) → Sublistᴰ xs (ps ++ (gs ++ qs))
Sublist-insert xs [] [] qs h = h
Sublist-insert xs [] (g ∷ gs) qs h = Sublistᴰ.cons (Sublist-insert xs [] gs qs h)
Sublist-insert xs (p ∷ ps) gs qs (Sublistᴰ.cons h) = Sublistᴰ.cons (Sublist-insert xs ps gs qs h)
Sublist-insert (x ∷ xs) (p ∷ ps) gs qs (Sublistᴰ.cons-cons e h) =
    Sublistᴰ.cons-cons e (Sublist-insert xs ps gs qs h)

pub Sublist-refl : {A : Type 0} (xs : List A) → Sublistᴰ xs xs
Sublist-refl [] = Sublistᴰ.slnil
Sublist-refl (x ∷ xs) = Sublistᴰ.cons-cons refl (Sublist-refl xs)

pub append_nil : {A : Type 0} (xs : List A) → xs ++ [] ≡ xs
append_nil [] = refl
append_nil (x ∷ xs) = ap (λ ys. x ∷ ys) (append_nil xs)

pub map-append :
    {A B : Type 0} (f : A → B) (xs ys : List A) → map f (xs ++ ys) ≡ map f xs ++ map f ys
map-append f [] ys = refl
map-append f (x ∷ xs) ys = ap (λ zs. f x ∷ zs) (map-append f xs ys)

pub length-snoc : {A : Type 0} (xs : List A) (x : A) → length (xs ++ (x ∷ [])) ≡ length xs + 1
length-snoc [] x = refl
length-snoc (y ∷ xs) x = let rest = length-snoc xs x in ground arith

pub length-append : {A : Type 0} (xs ys : List A) → length (xs ++ ys) ≡ length xs + length ys
length-append [] ys = ground arith
length-append (x ∷ xs) ys = let rest = length-append xs ys in ground arith
