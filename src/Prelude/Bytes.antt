-- ===== src/Prelude/Bytes.antt =====
-- Go strings that the program takes apart, as lists of byte values, with the functions of package
-- strings that it calls on them.
use Prim.Native.Nat.{ℕ, ◌+◌, ◌-◌}
use Prim.Native.Char.{code}
use Prim.Native.String.{String}
use mathlib.Core.Path.{◌≡◌}
use mathlib.Core.Logic.{◌↔◌}
use mathlib.Core.Bool.{Bool, true, false, ◌&&◌, ◌||◌}
use mathlib.Core.Option.{Option, none, some}
use mathlib.Core.List.{List, [], ◌∷◌, map, reverse}
use native.Mathlib.Omega.{arith}
use torana_enterprise.Prelude.Tests.{◌==◌, leb, if◌then◌else◌}
use torana_enterprise.Prelude.Maps.{Eq}

abbrev pub Bytes : Type 0
Bytes = List ℕ

-- A string literal: its code points are its bytes, since it is ASCII.
abbrev pub bytes : String → Bytes
bytes String.[] = []
bytes (String.◌∷◌ c s) = code c ∷ bytes s

unfoldable pub bytes_eq : Bytes → Bytes → Bool
bytes_eq [] [] = true
bytes_eq [] (y ∷ ys) = false
bytes_eq (x ∷ xs) [] = false
bytes_eq (x ∷ xs) (y ∷ ys) = x == y && bytes_eq xs ys

pub bytes_eq_iff : (a b : Bytes) → (bytes_eq a b ≡ true) ↔ (a ≡ b)
unfolding bytes_eq
bytes_eq_iff [] [] = ground arith
bytes_eq_iff [] (y ∷ ys) = ground arith
bytes_eq_iff (x ∷ xs) [] = ground arith
bytes_eq_iff (x ∷ xs) (y ∷ ys) = ground (arith, bytes_eq_iff xs ys)

instance abbrev pub bytes_key : Eq Bytes
bytes_key = record { beq = bytes_eq; beq_iff = bytes_eq_iff }

-- strings.HasPrefix
unfoldable pub has_prefix : Bytes → Bytes → Bool
has_prefix s [] = true
has_prefix [] (p ∷ ps) = false
has_prefix (c ∷ s) (p ∷ ps) = c == p && has_prefix s ps

-- strings.HasSuffix
unfoldable pub has_suffix : Bytes → Bytes → Bool
unfolding has_prefix
has_suffix s t = has_prefix (reverse s) (reverse t)

-- strings.Contains for one byte
unfoldable pub contains_byte : ℕ → Bytes → Bool
contains_byte b [] = false
contains_byte b (c ∷ s) = c == b || contains_byte b s

-- host[:strings.Index(host, sep)], the whole string where the byte is not in it
unfoldable pub before_byte : ℕ → Bytes → Bytes
before_byte b [] = []
before_byte b (c ∷ s) = let rest = c ∷ before_byte b s in if c == b then [] else rest

-- strings.Trim with a cutset of one byte
drop_leading : ℕ → Bytes → Bytes
drop_leading b [] = []
drop_leading b (c ∷ s) = let rest = drop_leading b s in if c == b then rest else c ∷ s

unfoldable pub trim : ℕ → Bytes → Bytes
unfolding drop_leading
trim b s = reverse (drop_leading b (reverse (drop_leading b s)))

-- what follows a prefix
unfoldable pub drop_prefix : Bytes → Bytes → Option Bytes
drop_prefix [] s = some s
drop_prefix (p ∷ ps) [] = none
drop_prefix (p ∷ ps) (c ∷ s) = let rest = drop_prefix ps s in if c == p then rest else none

-- bytes.TrimSpace and strings.TrimSpace on ASCII
is_space : ℕ → Bool
is_space c = c == 32 || (leb 9 c && leb c 13)

drop_space : Bytes → Bytes
unfolding is_space
drop_space [] = []
drop_space (c ∷ s) = let rest = drop_space s in if is_space c then rest else c ∷ s

unfoldable pub trim_space : Bytes → Bytes
unfolding drop_space
trim_space s = reverse (drop_space (reverse (drop_space s)))

-- strings.Split at one byte: one part more than there are such bytes
cons_first : ℕ → List Bytes → List Bytes
cons_first c [] = (c ∷ []) ∷ []
cons_first c (part ∷ parts) = (c ∷ part) ∷ parts

unfoldable pub split : ℕ → Bytes → List Bytes
unfolding cons_first
split b [] = [] ∷ []
split b (c ∷ s) = let parts = split b s in if c == b then [] ∷ parts else cons_first c parts

-- strings.Fields on ASCII
as_space : ℕ → ℕ
unfolding is_space
as_space c = if is_space c then 32 else c

not_empty : List Bytes → List Bytes
not_empty [] = []
not_empty ([] ∷ parts) = not_empty parts
not_empty ((c ∷ s) ∷ parts) = (c ∷ s) ∷ not_empty parts

unfoldable pub fields : Bytes → List Bytes
unfolding as_space not_empty
fields s = not_empty (split 32 (map as_space s))

-- strings.ToLower and strings.ToUpper on ASCII
unfoldable pub lower_byte : ℕ → ℕ
lower_byte c = if leb b'A' c && leb c b'Z' then c + 32 else c

unfoldable pub upper_byte : ℕ → ℕ
upper_byte c = if leb b'a' c && leb c b'z' then c - 32 else c

unfoldable pub to_lower : Bytes → Bytes
unfolding lower_byte
to_lower = map lower_byte

unfoldable pub to_upper : Bytes → Bytes
unfolding upper_byte
to_upper = map upper_byte

-- the bytes of an HTTP token
unfoldable pub is_token : ℕ → Bool
is_token c =
    (leb b'a' c && leb c b'z')
    || (leb b'A' c && leb c b'Z')
    || (leb b'0' c && leb c b'9')
    || contains_byte c (bytes "!#$%&'*+-.^_`|~")
