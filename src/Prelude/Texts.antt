-- ===== src/Prelude/Texts.antt =====
-- Texts as lists of UTF-16 code units, with the string functions that the source uses.
use Prim.Native.Nat.{ℕ}
use mathlib.Core.Path.{◌≡◌, refl, ap, ◌∙◌}
use native.Mathlib.Omega.{arith}
use mathlib.Core.Bool.{Bool, true, false, not, ◌&&◌, ◌||◌}
use mathlib.Core.List.{List, [], ◌∷◌, ◌++◌}
use backend_core_kit.Prelude.Tests.{if◌then◌else◌, ◌==◌, leb}
use backend_core_kit.Prelude.Lists.{any, all}

abbrev pub Text : Type 0
Text = List ℕ

abbrev pub text_eq : Text → Text → Bool
text_eq [] [] = true
text_eq (a ∷ s) (b ∷ t) = a == b && text_eq s t
text_eq _ _ = false

pub text_eq_refl : (t : Text) → text_eq t t ≡ true
text_eq_refl [] = refl
text_eq_refl (c ∷ t) = ground (arith, text_eq_refl t)

pub text_eq_sound : (s t : Text) → text_eq s t ≡ true → s ≡ t
text_eq_sound [] [] h = refl
text_eq_sound [] (b ∷ t) h = cc h
text_eq_sound (a ∷ s) [] h = cc h
text_eq_sound (a ∷ s) (b ∷ t) h = ground (arith, text_eq_sound s t)

-- White space as `trim` takes it: the ECMAScript white space and line terminators.
abbrev pub is_space : ℕ → Bool
is_space c =
    (leb 9 c && leb c 13)
    || c == 32
    || c == 160
    || c == 5760
    || (leb 8192 c && leb c 8202)
    || c == 8232
    || c == 8233
    || c == 8239
    || c == 8287
    || c == 12288
    || c == 65279

abbrev pub trim_start : Text → Text
trim_start [] = []
trim_start (c ∷ t) = if is_space c then trim_start t else c ∷ t

-- A character in front of a trimmed end: white space goes if nothing follows it.
abbrev pub keep_before : ℕ → Text → Text
keep_before c [] = if is_space c then [] else c ∷ []
keep_before c (d ∷ t) = c ∷ d ∷ t

abbrev pub trim_end : Text → Text
trim_end [] = []
trim_end (c ∷ t) = keep_before c (trim_end t)

abbrev pub trim : Text → Text
trim t = trim_end (trim_start t)

abbrev pub is_empty : Text → Bool
is_empty [] = true
is_empty (c ∷ t) = false

-- The parts between the separators; there is always a first one.
abbrev pub add_to_first : ℕ → List Text → List Text
add_to_first c [] = (c ∷ []) ∷ []
add_to_first c (part ∷ parts) = (c ∷ part) ∷ parts

abbrev pub split : ℕ → Text → List Text
split separator [] = [] ∷ []
split separator (c ∷ t) =
    let parts = split separator t in if c == separator then [] ∷ parts else add_to_first c parts

abbrev pub join : ℕ → List Text → Text
join separator [] = []
join separator (t ∷ []) = t
join separator (t ∷ u ∷ texts) = t ++ separator ∷ join separator (u ∷ texts)

-- A text without the separator is one part, and in front of a separator it is the first.
pub split_one : (sep : ℕ) (t : Text) → any (λ c. c == sep) t ≡ false → split sep t ≡ t ∷ []
split_one sep [] h = refl
split_one sep (c ∷ t) h = ground (arith, split_one sep t)

pub split-append :
    (sep : ℕ) (t u : Text)
    → any (λ c. c == sep) t ≡ false
    → split sep (t ++ sep ∷ u) ≡ t ∷ split sep u
split-append sep [] u h = ground arith
split-append sep (c ∷ t) u h = ground (arith, split-append sep t u)

pub split-join :
    (sep : ℕ) (t : Text) (texts : List Text)
    → all (λ s. not (any (λ c. c == sep) s)) (t ∷ texts) ≡ true
    → split sep (join sep (t ∷ texts)) ≡ t ∷ texts
split-join sep t [] h = split_one sep t (ground arith)
split-join sep t (u ∷ texts) h =
    split-append sep t (join sep (u ∷ texts)) (ground arith)
    ∙ ap (λ rest. t ∷ rest) (split-join sep u texts (ground arith))

-- A text without white space is left as it is.
trim_end_plain : (t : Text) → any is_space t ≡ false → trim_end t ≡ t
trim_end_plain [] h = refl
trim_end_plain (c ∷ []) h = ground arith
trim_end_plain (c ∷ d ∷ t) h = ground (arith, trim_end_plain (d ∷ t))

pub trim_plain : (t : Text) → any is_space t ≡ false → trim t ≡ t
trim_plain [] h = refl
trim_plain (c ∷ t) h = ground (arith, trim_end_plain (c ∷ t))
