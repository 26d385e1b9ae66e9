-- ===== src/Base/Texts.antt =====
-- Texts as lists of bytes, with the searches of `std::string` that the program calls. A position
-- in a text is the rest of the text from there on, and `npos` is `none`.
use Prim.Native.Nat.{ℕ}
use Prim.Native.Char.{code}
use Prim.Native.String.{String}
use mathlib.Core.Path.{◌≡◌, refl}
use mathlib.Core.Logic.{◌↔◌}
use mathlib.Core.Bool.{Bool, true, false, ◌&&◌}
use mathlib.Core.Option.{Option, none, some}
use mathlib.Core.List.{List, [], ◌∷◌}
use native.Mathlib.Omega.{arith}
use webrtc_cpp_remote_contro.Base.Tests.{◌==◌, if◌then◌else◌}

abbrev pub Bytes : Type 0
Bytes = List ℕ

-- The bytes of an ASCII literal.
abbrev pub codes : String → Bytes
codes String.[] = []
codes (String.◌∷◌ c s) = code c ∷ codes s

abbrev pub is_empty {ℓ} : {A : Type ℓ} → List A → Bool
is_empty [] = true
is_empty (x ∷ xs) = false

-- `operator==` on texts.
unfoldable pub bytes_eq : Bytes → Bytes → Bool
bytes_eq [] [] = true
bytes_eq [] (y ∷ ys) = false
bytes_eq (x ∷ xs) [] = false
bytes_eq (x ∷ xs) (y ∷ ys) = (x == y) && bytes_eq xs ys

pub bytes_eq→eq : (xs ys : Bytes) → bytes_eq xs ys ≡ true → xs ≡ ys
unfolding bytes_eq
bytes_eq→eq [] [] h = refl
bytes_eq→eq [] (y ∷ ys) h = cc
bytes_eq→eq (x ∷ xs) [] h = cc
bytes_eq→eq (x ∷ xs) (y ∷ ys) h = ground (arith, bytes_eq→eq xs ys)

pub bytes_eq_self : (xs : Bytes) → bytes_eq xs xs ≡ true
unfolding bytes_eq
bytes_eq_self [] = refl
bytes_eq_self (x ∷ xs) = ground (arith, bytes_eq_self xs)

pub bytes_eq_iff : (xs ys : Bytes) → (bytes_eq xs ys ≡ true) ↔ (xs ≡ ys)
bytes_eq_iff xs ys = (bytes_eq→eq xs ys, λ e. rw e (bytes_eq_self ys))

-- What is left of `text` behind the prefix `key`.
unfoldable pub strip_prefix : Bytes → Bytes → Option Bytes
strip_prefix [] text = some text
strip_prefix (k ∷ key) [] = none
strip_prefix (k ∷ key) (c ∷ text) =
    let rest = strip_prefix key text in if k == c then rest else none

-- `find(key)`, and then the position behind the match, `position + key.size()`.
unfoldable pub find_behind : Bytes → Bytes → Option Bytes
unfolding strip_prefix
find_behind key [] = strip_prefix key []
find_behind key (c ∷ text) = elim (strip_prefix key (c ∷ text)) [
  | some rest ↦ some rest
  | none ↦ find_behind key text
]

-- `find(c)`, and then the position behind it.
unfoldable pub find_byte : ℕ → Bytes → Option Bytes
find_byte c [] = none
find_byte c (x ∷ text) = let rest = find_byte c text in if x == c then some text else rest
