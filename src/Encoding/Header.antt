-- ===== src/Encoding/Header.antt =====
-- `strings.TrimSpace` and `net/http`'s canonical header names.
use Prim.Native.Char.{code}
use clawdwallet.Base.{
  ℕ, ◌+◌, ◌-◌, String, Bool, true, not, if◌then◌else◌, str_eq, leb, ◌==◌, ◌&&◌, ◌||◌,
}
use clawdwallet.Encoding.Text.{ascii}

-- `unicode.IsSpace`
unfoldable pub is_space : ℕ → Bool
is_space c =
    (leb 9 c && leb c 13)
    || (c == 32
        || (c == 133
            || (c == 160
                || (c == 5760
                    || ((leb 8192 c && leb c 8202)
                        || (c == 8232
                            || (c == 8233 || (c == 8239 || (c == 8287 || c == 12288)))))))))

trim_left : String → String
trim_left String.[] = ""
trim_left (String.◌∷◌ c s) =
    let rest = trim_left s in if is_space (code c) then rest else String.◌∷◌ c s

trim_right : String → String
trim_right String.[] = ""
trim_right (String.◌∷◌ c s) =
    let rest = trim_right s in if str_eq rest "" && is_space (code c) then "" else String.◌∷◌ c rest

unfoldable pub trim_space : String → String
unfolding trim_left trim_right is_space
trim_space s = trim_left (trim_right s)

is_lower : ℕ → Bool
is_lower c = leb b'a' c && leb c b'z'

is_upper : ℕ → Bool
is_upper c = leb b'A' c && leb c b'Z'

-- The other bytes that a token may have, by their code.
is_mark : ℕ → Bool
is_mark c =
    c == 33
    || ((leb 35 c && leb c 39)
        || (c == 42
            || (c == 43
                || (c == 45
                    || (c == 46
                        || (c == 94 || (c == 95 || (c == 96 || (c == 124 || c == 126)))))))))

unfoldable pub is_token_byte : ℕ → Bool
unfolding is_lower is_upper is_mark
is_token_byte c = is_lower c || (is_upper c || ((leb 48 c && leb c 57) || is_mark c))

all_token : String → Bool
all_token String.[] = true
all_token (String.◌∷◌ c s) = is_token_byte (code c) && all_token s

-- The first letter and those after a dash are upper case, the others lower case.
recased : Bool → ℕ → ℕ
unfolding is_lower is_upper
recased upper c =
    if upper && is_lower c then c - 32 else if not upper && is_upper c then c + 32 else c

with_case : Bool → String → String
with_case upper String.[] = ""
with_case upper (String.◌∷◌ c s) =
    String.◌∷◌ (ascii (recased upper (code c))) (with_case (code c == 45) s)

-- A name with a byte that no token has stays as it is.
unfoldable pub canonical_header : String → String
unfolding all_token with_case recased is_token_byte ascii
canonical_header s = if all_token s then with_case true s else s
