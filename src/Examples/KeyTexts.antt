-- ===== src/Examples/KeyTexts.antt =====
-- A text for every Solana key, which is read back.
use Prim.Native.Char.{char, code}
use clawdwallet.Base.{
  zero, suc, ◌+◌, ◌∙◌, ◌==◌, length, ℕ, ◌≡◌, refl, String, List, [], ◌∷◌, arith, if◌then◌else◌, ok,
  Result, ap,
}
use clawdwallet.Solana.Keys.{SolanaKey, KeyText}

-- The text of a key: each byte in unary, closed by a zero.
pub ones : ℕ → String → String
ones zero s = String.◌∷◌ (char 48 tt) s
ones (suc n) s = String.◌∷◌ (char 49 tt) (ones n s)

pub key_string : List ℕ → String
unfolding ones
key_string [] = ""
key_string (n ∷ ns) = ones n (key_string ns)

pub read_bytes : ℕ → String → List ℕ
read_bytes acc String.[] = []
read_bytes acc (String.◌∷◌ c s) =
    let more = read_bytes (suc acc) s in
    let rest = read_bytes 0 s in if code c == 49 then more else acc ∷ rest

read_bytes-ones : (acc n : ℕ) (s : String) → read_bytes acc (ones n s) ≡ (acc + n) ∷ read_bytes 0 s
unfolding read_bytes ones
read_bytes-ones acc zero s = ground arith
read_bytes-ones acc (suc n) s = read_bytes-ones (suc acc) n s ∙ ground arith

read_bytes-key_string : (k : List ℕ) → read_bytes 0 (key_string k) ≡ k
unfolding key_string read_bytes
read_bytes-key_string [] = refl
read_bytes-key_string (n ∷ ns) =
    read_bytes-ones 0 n (key_string ns) ∙ ground (arith, read_bytes-key_string ns)

pub parse-key_string :
    (k : SolanaKey)
    → length k ≡ 32
    → ◌≡◌ {A = Result SolanaKey} (ok (read_bytes 0 (key_string k))) (ok k)
parse-key_string k h = ap ok (read_bytes-key_string k)

unfoldable pub key_text : KeyText
unfolding key_string read_bytes
key_text = record {
  key_string = key_string;
  parse_solana_key = λ s. ok (read_bytes 0 s);
  parse-key_string = parse-key_string;
}
