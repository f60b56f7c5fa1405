-- ===== src/Encoding/Text.antt =====
-- Go strings: the library's `String`, with its code points where the program walks a text. A text
-- that an encoder makes is ASCII.
pub mod Split
use Prim.Native.Nat.{compare, Ordering}
use Prim.Native.Char.{Char, char, code, IsScalar}
use Prim.Native.String
use clawdwallet.Base.{
  ℕ, ◌%◌, ◌<◌, ◌≡◌, refl, String, List, [], ◌∷◌, arith, All, if◌then◌else◌, ◌==◌, Option, some,
  none,
}

abbrev pub codes : String → List ℕ
codes String.[] = []
codes (String.◌∷◌ c s) = code c ∷ codes s

low_code : (n : ℕ) → compare (n % 128) 55296 ≡ Ordering.lt
low_code n = ground arith

IsScalar-low : (n : ℕ) → IsScalar (n % 128)
IsScalar-low n = rw (low_code n) tt

unfoldable pub ascii : ℕ → Char
unfolding IsScalar-low low_code
ascii n = char (n % 128) (IsScalar-low n)

-- `string(bs)` of ASCII bytes
unfoldable pub text : List ℕ → String
unfolding ascii
text [] = String.[]
text (b ∷ bs) = String.◌∷◌ (ascii b) (text bs)

pub codes-text : (bs : List ℕ) → All (λ b. b < 128) bs → codes (text bs) ≡ bs
unfolding text
codes-text [] h = refl
codes-text (b ∷ bs) (h, hs) = ground (arith, codes-text bs hs)

-- `strings.Split(s, sep)` for a separator of one byte: `cur` is the part that is being read.
split_from : ℕ → String → String → List String
split_from sep cur String.[] = cur ∷ []
split_from sep cur (String.◌∷◌ c s) =
    let closed = cur ∷ split_from sep "" s in
    let longer = split_from sep (String.◌++◌ cur (String.◌∷◌ c String.[])) s in
    if code c == sep then closed else longer

unfoldable pub split : ℕ → String → List String
unfolding split_from
split sep s = split_from sep "" s

-- `strings.Cut(s, sep)`: what stands before and after the first separator.
unfoldable pub cut : ℕ → String → Option (String × String)
cut sep String.[] = none
cut sep (String.◌∷◌ c s) =
    let rest = cut sep s in
    if code c == sep
    then some ("", s)
    else elim rest [ none ↦ none | some (a, b) ↦ some (String.◌∷◌ c a, b) ]
