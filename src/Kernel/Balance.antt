-- ===== src/Kernel/Balance.antt =====
-- Counting events: both counts go over concatenation, and read off lists of one kind of event.
use dmaplane_master.Base.{
  ◌∙◌, reverse-append, ◌+◌, ◌≡◌, refl, ap, List, [], ◌∷◌, ◌++◌, map, reverse, arith,
}
use dmaplane_master.Kernel.{Resource, Event, get, put, count, gets, puts}

module _ (x : Resource) where
  pub count-append : (xs ys : List Resource) → count x (xs ++ ys) ≡ count x xs + count x ys
  unfolding count
  count-append [] ys = omega arith
  count-append (y ∷ xs) ys = omega (arith, count-append xs ys)

  pub count-reverse : (xs : List Resource) → count x (reverse xs) ≡ count x xs
  unfolding count
  count-reverse [] = refl
  count-reverse (y ∷ xs) =
      ap (count x) (reverse-append (y ∷ []) xs)
      ∙ omega (arith, count-append (reverse xs) (y ∷ []), count-reverse xs)

  pub gets-append : (es fs : List Event) → gets x (es ++ fs) ≡ gets x es + gets x fs
  unfolding gets
  gets-append [] fs = omega arith
  gets-append (get y ∷ es) fs = omega (arith, gets-append es fs)
  gets-append (put y ∷ es) fs = gets-append es fs

  pub puts-append : (es fs : List Event) → puts x (es ++ fs) ≡ puts x es + puts x fs
  unfolding puts
  puts-append [] fs = omega arith
  puts-append (get y ∷ es) fs = puts-append es fs
  puts-append (put y ∷ es) fs = omega (arith, puts-append es fs)

  pub gets-get : (xs : List Resource) → gets x (map get xs) ≡ count x xs
  unfolding gets count
  gets-get [] = refl
  gets-get (y ∷ xs) = omega (arith, gets-get xs)

  pub gets-put : (xs : List Resource) → gets x (map put xs) ≡ 0
  unfolding gets
  gets-put [] = refl
  gets-put (y ∷ xs) = gets-put xs

  pub puts-get : (xs : List Resource) → puts x (map get xs) ≡ 0
  unfolding puts
  puts-get [] = refl
  puts-get (y ∷ xs) = puts-get xs

  pub puts-put : (xs : List Resource) → puts x (map put xs) ≡ count x xs
  unfolding puts count
  puts-put [] = refl
  puts-put (y ∷ xs) = omega (arith, puts-put xs)
