-- ===== src/Prelude/Text.antt =====
-- Python's `str` as a native text, `bytes` as a list of byte values, and the tests on both.
use Prim.Native.Nat.{ℕ, zero, suc, ◌+◌}
use Prim.Native.Char.{code}
use Prim.Native.String
use Prim.Native.String.{String}
use mathlib.Core.Path.{◌≡◌, refl}
use mathlib.Core.Logic.{◌↔◌}
use mathlib.Core.Bool.{Bool, true, false, ◌&&◌, ◌||◌}
use mathlib.Core.Option.{Option, none, some}
use mathlib.Core.List.{List, [], ◌∷◌}
use native.Mathlib.Omega.{arith}
use text.Mathlib.Text.{◌==◌ as text_eq}
use text.Mathlib.TextEquality.{eq_iff}
use kace.Prelude.Tests.{◌==◌, leb, if◌then◌else◌}

abbrev pub Bytes : Type 0
Bytes = List ℕ

-- The code points of a text: its bytes, if it is ASCII.
abbrev pub codes : String → List ℕ
codes String.[] = []
codes (String.◌∷◌ c s) = code c ∷ codes s

abbrev pub str_eq : String → String → Bool
str_eq a b = text_eq a b

pub str_eq_iff : (a b : String) → (str_eq a b ≡ true) ↔ (a ≡ b)
str_eq_iff a b = eq_iff a b

infixr 66 ◌<>◌
abbrev pub ◌<>◌ : String → String → String
a <> b = String.◌++◌ a b

-- `==` on `bytes`, and on texts given by their code points.
abbrev pub bytes_eq : Bytes → Bytes → Bool
bytes_eq [] [] = true
bytes_eq (x ∷ xs) (y ∷ ys) = x == y && bytes_eq xs ys
bytes_eq [] (y ∷ ys) = false
bytes_eq (x ∷ xs) [] = false

pub bytes_eq_iff : (a b : Bytes) → (bytes_eq a b ≡ true) ↔ (a ≡ b)
bytes_eq_iff [] [] = ground arith
bytes_eq_iff (x ∷ a) (y ∷ b) = ground (arith, bytes_eq_iff a b)
bytes_eq_iff [] (y ∷ b) = ground arith
bytes_eq_iff (x ∷ a) [] = ground arith

pub bytes_eq_refl : (a : Bytes) → bytes_eq a a ≡ true
bytes_eq_refl a = (bytes_eq_iff a a).1 refl

-- `part in whole`, on code points.
abbrev pub begins_with : List ℕ → List ℕ → Bool
begins_with s [] = true
begins_with [] (c ∷ p) = false
begins_with (x ∷ s) (c ∷ p) = x == c && begins_with s p

abbrev pub has_infix : List ℕ → List ℕ → Bool
has_infix [] p = begins_with [] p
has_infix (x ∷ s) p = begins_with (x ∷ s) p || has_infix s p

-- `str.lower` on the ASCII letters. A test for a lower-case ASCII word without `k` and `s` at
-- a changed place has the same answer under the full table.
abbrev pub lower : ℕ → ℕ
lower c = if leb b'A' c && leb c b'Z' then c + 32 else c

-- `sep.join(parts)`.
abbrev pub join : String → List String → String
join sep [] = ""
join sep (s ∷ []) = s
join sep (s ∷ t ∷ rest) = s <> sep <> join sep (t ∷ rest)

-- `text[:n]`.
abbrev pub prefix : ℕ → String → String
prefix zero s = ""
prefix (suc n) String.[] = ""
prefix (suc n) (String.◌∷◌ c s) = String.◌∷◌ c (prefix n s)

-- `text.endswith(part)`, on code points.
abbrev pub ends_with : List ℕ → List ℕ → Bool
ends_with [] p = bytes_eq [] p
ends_with (x ∷ s) p = bytes_eq (x ∷ s) p || ends_with s p

-- `==` on lists of texts.
abbrev pub texts_eq : List String → List String → Bool
texts_eq [] [] = true
texts_eq (s ∷ ss) (t ∷ ts) = str_eq s t && texts_eq ss ts
texts_eq [] (t ∷ ts) = false
texts_eq (s ∷ ss) [] = false

pub texts_eq_iff : (ss ts : List String) → (texts_eq ss ts ≡ true) ↔ (ss ≡ ts)
texts_eq_iff [] [] = ground arith
texts_eq_iff (s ∷ ss) (t ∷ ts) = ground (arith, str_eq_iff s t, texts_eq_iff ss ts)
texts_eq_iff [] (t ∷ ts) = ground arith
texts_eq_iff (s ∷ ss) [] = ground arith

-- `str(text or "")`.
abbrev pub text_or_empty : Option String → String
text_or_empty none = ""
text_or_empty (some text) = text

-- `a or b`.
abbrev pub or_text : String → String → String
or_text a b = if str_eq a "" then b else a
