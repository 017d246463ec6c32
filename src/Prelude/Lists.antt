-- ===== src/Prelude/Lists.antt =====
-- Lists under Boolean tests, measured by native numbers, with the laws that the components share.
use Prim.Native.Nat.{ℕ, zero, suc, ◌+◌, ◌≤◌, ◌<◌}
use mathlib.Core.Path.{◌≡◌, refl}
use native.Mathlib.Omega.{arith}
use mathlib.Core.Bool.{Bool, true, false, not, ◌&&◌, ◌||◌}
use mathlib.Core.List.{List, [], ◌∷◌, ◌++◌}
use mathlib.Core.Option.{Option, none, some}
use backend_core_kit.Prelude.Tests.{if◌then◌else◌}

module _ {ℓ} {A : Type ℓ} where
  abbrev pub length : List A → ℕ
  length [] = 0
  length (x ∷ xs) = suc (length xs)

  abbrev pub take : ℕ → List A → List A
  take zero xs = []
  take (suc n) [] = []
  take (suc n) (x ∷ xs) = x ∷ take n xs

  -- The first element that passes.
  abbrev pub find? : (A → Bool) → List A → Option A
  find? p [] = none
  find? p (x ∷ xs) = if p x then some x else find? p xs

  abbrev pub any : (A → Bool) → List A → Bool
  any p [] = false
  any p (x ∷ xs) = p x || any p xs

  abbrev pub all : (A → Bool) → List A → Bool
  all p [] = true
  all p (x ∷ xs) = p x && all p xs

  abbrev pub filter : (A → Bool) → List A → List A
  filter p [] = []
  filter p (x ∷ xs) = if p x then x ∷ filter p xs else filter p xs

  abbrev pub count : (A → Bool) → List A → ℕ
  count p [] = 0
  count p (x ∷ xs) = (if p x then 1 else 0) + count p xs

  abbrev pub update_where : (A → Bool) → (A → A) → List A → List A
  update_where p f [] = []
  update_where p f (x ∷ xs) = (if p x then f x else x) ∷ update_where p f xs

  abbrev pub All {κ} : (A → Type κ) → List A → Type κ
  All P [] = Unit
  All P (x ∷ xs) = P x × All P xs

-- What every row has after an update, no row lacks.
module _ {ℓ} {A : Type ℓ} (bad : A → Bool) where
  pub any-update_where :
      (p : A → Bool) (f : A → A) (xs : List A)
      → ((x : A) → bad (if p x then f x else x) ≡ false)
      → any bad (update_where p f xs) ≡ false
  any-update_where p f [] h = refl
  any-update_where p f (x ∷ xs) h = ground (arith, h x, any-update_where p f xs h)

  pub any-update_where_twice :
      (p : A → Bool) (f : A → A) (p' : A → Bool) (f' : A → A) (xs : List A)
      → ((x : A) → let y = if p x then f x else x in bad (if p' y then f' y else y) ≡ false)
      → any bad (update_where p' f' (update_where p f xs)) ≡ false
  any-update_where_twice p f p' f' [] h = refl
  any-update_where_twice p f p' f' (x ∷ xs) h =
      ground (arith, h x, any-update_where_twice p f p' f' xs h)

  pub count-append : (xs ys : List A) → count bad (xs ++ ys) ≡ count bad xs + count bad ys
  count-append [] ys = omega arith
  count-append (x ∷ xs) ys = ground (arith, count-append xs ys)

  -- A row appended last is still there after an update that keeps what is asked of it.
  pub any-update_where_last :
      (p : A → Bool) (f : A → A) (xs : List A) (y : A)
      → bad (if p y then f y else y) ≡ true
      → any bad (update_where p f (xs ++ y ∷ [])) ≡ true
  any-update_where_last p f [] y h = ground arith
  any-update_where_last p f (x ∷ xs) y h = ground (arith, any-update_where_last p f xs y h)

  -- Updates, one after another, of a row that was there.
  pub any-update_where_of_any :
      (p : A → Bool) (f : A → A) (was : A → Bool) (xs : List A)
      → ((x : A) → was x ≡ true → bad (if p x then f x else x) ≡ true)
      → any was xs ≡ true
      → any bad (update_where p f xs) ≡ true
  any-update_where_of_any p f was [] h e = cc
  any-update_where_of_any p f was (x ∷ xs) h e =
      ground (arith, h x, any-update_where_of_any p f was xs h)

  -- An update that makes no bad row keeps a table free of them.
  pub any-update_where_keep :
      (p : A → Bool) (f : A → A) (was : A → Bool) (xs : List A)
      → ((x : A) → was x ≡ false → bad (if p x then f x else x) ≡ false)
      → any was xs ≡ false
      → any bad (update_where p f xs) ≡ false
  any-update_where_keep p f was [] h e = refl
  any-update_where_keep p f was (x ∷ xs) h e =
      ground (arith, h x, any-update_where_keep p f was xs h)

  pub any-append_one : (xs : List A) (y : A) → any bad (xs ++ y ∷ []) ≡ (any bad xs || bad y)
  any-append_one [] y = ground arith
  any-append_one (x ∷ xs) y = ground (arith, any-append_one xs y)

  pub any_of_count : (xs : List A) → 0 < count bad xs → any bad xs ≡ true
  any_of_count [] h = absurd (omega arith)
  any_of_count (x ∷ xs) h = ground (arith, any_of_count xs)

  pub count_of_not_any : (xs : List A) → any bad xs ≡ false → count bad xs ≡ 0
  count_of_not_any [] h = refl
  count_of_not_any (x ∷ xs) h = ground (arith, count_of_not_any xs)

  pub find?-any : (xs : List A) (x : A) → find? bad xs ≡ some x → any bad xs ≡ true
  find?-any [] y h = cc
  find?-any (x ∷ xs) y h = ground (arith, find?-any xs y)

  pub find?-passes : (xs : List A) (x : A) → find? bad xs ≡ some x → bad x ≡ true
  find?-passes [] y h = cc
  find?-passes (x ∷ xs) y h = ground (arith, find?-passes xs y)

  pub find?-none : (xs : List A) → find? bad xs ≡ none → any bad xs ≡ false
  find?-none [] h = refl
  find?-none (x ∷ xs) h = ground (arith, find?-none xs)

  pub find?-any_with :
      (xs : List A) (x : A) (fine : A → Bool)
      → find? bad xs ≡ some x
      → fine x ≡ true
      → any (λ y. bad y && fine y) xs ≡ true
  find?-any_with [] x fine e h = cc e
  find?-any_with (y ∷ ys) x fine e h = ground (arith, find?-any_with ys x fine)

  -- A row of a value that none had is the only one.
  pub count-append_one :
      (xs : List A) (y : A) → any bad xs ≡ false → bad y ≡ true → count bad (xs ++ y ∷ []) ≡ 1
  count-append_one [] y h k = ground arith
  count-append_one (x ∷ xs) y h k = ground (arith, count-append_one xs y)

  -- Where a row is found after an update that moves none under another key.
  pub find?-update_where :
      (p : A → Bool) (f : A → A) (xs : List A) (x : A)
      → ((y : A) → bad (if p y then f y else y) ≡ bad y)
      → find? bad xs ≡ some x
      → find? bad (update_where p f xs) ≡ some (if p x then f x else x)
  find?-update_where p f [] x k e = cc e
  find?-update_where p f (y ∷ ys) x k e = ground (arith, k y, find?-update_where p f ys x k)

  -- Under a key, the row that is found is the only one.
  pub find?-unique :
      (xs : List A) (x : A) (fine : A → Bool)
      → find? bad xs ≡ some x
      → count bad xs ≤ 1
      → fine x ≡ true
      → any (λ y. bad y && not (fine y)) xs ≡ false
  find?-unique [] x fine e u h = cc
  find?-unique (y ∷ ys) x fine e u h = ground (arith, find?-unique ys x fine, none_more ys fine)
    where
      none_more :
          (zs : List A) (fine : A → Bool)
          → count bad zs ≡ 0
          → any (λ y. bad y && not (fine y)) zs ≡ false
      none_more [] fine e = refl
      none_more (z ∷ zs) fine e = ground (arith, none_more zs fine)

  pub any-never : (xs : List A) → ((x : A) → bad x ≡ false) → any bad xs ≡ false
  any-never [] h = refl
  any-never (x ∷ xs) h = ground (arith, h x, any-never xs h)

  pub any-filter_none : (xs : List A) → length (filter bad xs) ≡ 0 → any bad xs ≡ false
  any-filter_none [] h = refl
  any-filter_none (x ∷ xs) h = ground (arith, any-filter_none xs)

  pub length-filter : (xs : List A) → length (filter bad xs) ≡ count bad xs
  length-filter [] = refl
  length-filter (x ∷ xs) = ground (arith, length-filter xs)

  -- An update takes away at most as many rows as it touches.
  pub count-update_where :
      (p : A → Bool) (f : A → A) (xs : List A)
      → count bad xs ≤ count bad (update_where p f xs) + count p xs
  count-update_where p f [] = omega arith
  count-update_where p f (x ∷ xs) = ground (arith, count-update_where p f xs)

  -- An update that touches none of the rows that are asked for.
  pub any-update_where_other :
      (p : A → Bool) (f : A → A) (xs : List A)
      → any bad xs ≡ true
      → any (λ x. p x && not (not (bad x))) xs ≡ false
      → any bad (update_where p f xs) ≡ true
  any-update_where_other p f [] e h = e
  any-update_where_other p f (x ∷ xs) e h = ground (arith, any-update_where_other p f xs)

-- A row that is appended is the one that is found, if none before it passes.
pub find?-append_one {ℓ} :
    {A : Type ℓ} (p : A → Bool) (xs : List A) (y : A)
    → any p xs ≡ false
    → p y ≡ true
    → find? p (xs ++ y ∷ []) ≡ some y
find?-append_one p [] y h k = ground arith
find?-append_one p (x ∷ xs) y h k = ground (arith, find?-append_one p xs y)

-- What no row has, no row has a stronger form of.
pub any_weaker {ℓ} :
    {A : Type ℓ} (p p' : A → Bool) (xs : List A)
    → ((x : A) → p x ≡ true → p' x ≡ true)
    → any p' xs ≡ false
    → any p xs ≡ false
any_weaker p p' [] w h = refl
any_weaker p p' (x ∷ xs) w h = ground (arith, w x, any_weaker p p' xs w)
