-- ===== src/Prelude/Texts.antt =====
-- JavaScript strings as lists of UTF-16 code units, and what the program uses of them.
use Prim.Native.Char.{code}
use Prim.Native.Nat.{ℕ, suc, ◌+◌}
use mathlib.Core.Option
use mathlib.Core.Option.{Option, none, some}
use Prim.Native.String.{String}
use mathlib.Core.Bool.{Bool, true, false, ◌&&◌, ◌||◌}
use mathlib.Core.List.{List, [], ◌∷◌, ◌++◌}
use mathlib.Core.Logic.{◌↔◌, ◌≢◌}
use mathlib.Core.Path.{◌≡◌, refl}
use native.Mathlib.Omega.{arith}
use aria_bridge.Prelude.Tests.{leb, ◌==◌, if◌then◌else◌}

abbrev pub Text : Type 0
Text = List ℕ

-- A literal of the source. Its code points are its code units: none lies above U+FFFF.
abbrev pub text : String → Text
text String.[] = []
text (String.◌∷◌ c s) = code c ∷ text s

-- `s === t`.
unfoldable pub text_eq : Text → Text → Bool
text_eq [] [] = true
text_eq [] (b ∷ t) = false
text_eq (a ∷ s) [] = false
text_eq (a ∷ s) (b ∷ t) = (a == b) && text_eq s t

pub text_eq_refl : (s : Text) → text_eq s s ≡ true
unfolding text_eq
text_eq_refl [] = refl
text_eq_refl (a ∷ s) = ground (arith, text_eq_refl s)

eq_of_text_eq : (s t : Text) → text_eq s t ≡ true → s ≡ t
unfolding text_eq
eq_of_text_eq [] [] h = refl
eq_of_text_eq [] (b ∷ t) h = cc
eq_of_text_eq (a ∷ s) [] h = cc
eq_of_text_eq (a ∷ s) (b ∷ t) h = ground (arith, eq_of_text_eq s t)

pub text_eq_iff : (s t : Text) → (text_eq s t ≡ true) ↔ (s ≡ t)
text_eq_iff s t = (eq_of_text_eq s t, λ e. rw e (text_eq_refl t))

pub text_eq_of_ne : (s t : Text) → t ≢ s → text_eq s t ≡ false
text_eq_of_ne s t h = ground (arith, text_eq_iff s t)

-- `toLowerCase` of a code unit. Two code units outside ASCII, the Kelvin sign and the capital I
-- with a dot, have a lower case that holds an ASCII letter. Any other one is kept: its lower case
-- holds no ASCII letter, and every word that the program looks for is ASCII.
unfoldable pub lower_unit : ℕ → Text
lower_unit c =
    if leb b'A' c && leb c b'Z'
    then (c + 32) ∷ []
    else if c == 0x212a
    then b'k' ∷ []
    else if c == 0x130
    then b'i' ∷ 0x307 ∷ []
    else c ∷ []

-- `s.toLowerCase()`.
unfoldable pub lower : Text → Text
unfolding lower_unit
lower [] = []
lower (c ∷ s) = lower_unit c ++ lower s

abbrev IsLower : Text → Type 0
IsLower [] = Unit
IsLower (c ∷ s) = (lower_unit c ≡ c ∷ []) × IsLower s

lower_of_IsLower : (s : Text) → IsLower s → lower s ≡ s
unfolding lower
lower_of_IsLower [] h = refl
lower_of_IsLower (c ∷ s) (p, h) = rw (p, lower_of_IsLower s h)

IsLower-append : (s t : Text) → IsLower s → IsLower t → IsLower (s ++ t)
IsLower-append [] t h k = k
IsLower-append (c ∷ s) t (p, h) k = (p, IsLower-append s t h k)

lower_unit-IsLower : (c : ℕ) → IsLower (lower_unit c)
unfolding lower_unit
lower_unit-IsLower c = ground arith

lower-IsLower : (s : Text) → IsLower (lower s)
unfolding lower
lower-IsLower [] = tt
lower-IsLower (c ∷ s) =
    IsLower-append (lower_unit c) (lower s) (lower_unit-IsLower c) (lower-IsLower s)

pub lower_idem : (s : Text) → lower (lower s) ≡ lower s
lower_idem s = lower_of_IsLower (lower s) (lower-IsLower s)

-- `s.startsWith(t)`.
unfoldable pub starts_with : Text → Text → Bool
starts_with s [] = true
starts_with [] (b ∷ t) = false
starts_with (a ∷ s) (b ∷ t) = (a == b) && starts_with s t

-- `s.includes(t)` of two strings.
unfoldable pub contains : Text → Text → Bool
unfolding starts_with
contains [] t = starts_with [] t
contains (a ∷ s) t = starts_with (a ∷ s) t || contains s t

starts_with-append : (t q : Text) → starts_with (t ++ q) t ≡ true
unfolding starts_with
starts_with-append [] q = refl
starts_with-append (b ∷ t) q = ground (arith, starts_with-append t q)

-- A text holds every word that stands somewhere in it.
pub contains-append : (p t q : Text) → contains (p ++ (t ++ q)) t ≡ true
unfolding contains
contains-append [] [] [] = refl
contains-append [] [] (c ∷ q) = refl
contains-append [] (b ∷ t) q = ground (arith, starts_with-append t q)
contains-append (a ∷ p) t q = ground (arith, contains-append p t q)

-- `xs.includes(t)` of a list of strings.
unfoldable pub includes : List Text → Text → Bool
includes [] t = false
includes (s ∷ ss) t = text_eq s t || includes ss t

-- `xs.indexOf(t)`; `none` is -1.
unfoldable pub index_of : Text → List Text → Option ℕ
index_of t [] = none
index_of t (s ∷ ss) = if text_eq s t then some 0 else Option.map suc (index_of t ss)
