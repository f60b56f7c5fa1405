-- ===== src/Encoding/Text/Split.antt =====
-- `strings.Split` of parts that are joined with the separator.
use Prim.Native.Char.{Char, code}
use Prim.Native.String
use text.Mathlib.TextLemmas.{append-nil, append_assoc, cons-append, nil-append}
use clawdwallet.Base.{ℕ, ◌≡◌, refl, ap, sym, ◌∙◌, ◌≢◌, String, [], ◌∷◌, arith, ◌==◌, true, false}
use clawdwallet.Encoding.Text.{split_from, split}

-- The separator is not in the text.
abbrev pub Lacks : ℕ → String → Type 0
Lacks sep String.[] = Unit {0}
Lacks sep (String.◌∷◌ c s) = (code c ≢ sep) × Lacks sep s

snoc_append :
    (cur : String) (c : Char) (s : String)
    → String.◌++◌ (String.◌++◌ cur (String.◌∷◌ c String.[])) s ≡ String.◌++◌ cur (String.◌∷◌ c s)
snoc_append cur c s =
    append_assoc cur (String.◌∷◌ c String.[]) s
    ∙ ap (String.◌++◌ cur) (cons-append c String.[] s ∙ ap (String.◌∷◌ c) (nil-append s))

module _ (sep : ℕ) where
  from-Lacks : (cur s : String) → Lacks sep s → split_from sep cur s ≡ String.◌++◌ cur s ∷ []
  unfolding split_from
  from-Lacks cur String.[] h = ap (λ x. x ∷ []) (sym (append-nil cur))
  from-Lacks cur (String.◌∷◌ c s) (n, h) =
      let q : (code c == sep) ≡ false = ground (arith, n) in
      rw q (from-Lacks (String.◌++◌ cur (String.◌∷◌ c String.[])) s h)
      ∙ ap (λ x. x ∷ []) (snoc_append cur c s)

  from-part :
      (c : Char) (cur s rest : String)
      → code c ≡ sep
      → Lacks sep s
      → split_from sep cur (String.◌++◌ s (String.◌∷◌ c rest))
        ≡ String.◌++◌ cur s ∷ split_from sep "" rest
  unfolding split_from
  from-part c cur String.[] rest e h =
      let q : (code c == sep) ≡ true = ground (arith, e) in
      ap (split_from sep cur) (nil-append (String.◌∷◌ c rest))
      ∙ rw q (ap (λ x. x ∷ split_from sep "" rest) (sym (append-nil cur)))
  from-part c cur (String.◌∷◌ d s) rest e (n, h) =
      let q : (code d == sep) ≡ false = ground (arith, n) in
      ap (split_from sep cur) (cons-append d s (String.◌∷◌ c rest))
      ∙ rw q (from-part c (String.◌++◌ cur (String.◌∷◌ d String.[])) s rest e h)
      ∙ ap (λ x. x ∷ split_from sep "" rest) (snoc_append cur d s)

-- The parts of a path.
pub split-Lacks : (sep : ℕ) (s : String) → Lacks sep s → split sep s ≡ s ∷ []
unfolding split
split-Lacks sep s h = from-Lacks sep "" s h ∙ ap (λ x. x ∷ []) (nil-append s)

pub split-slash :
    (s rest : String)
    → Lacks b'/' s
    → split b'/' (String.◌++◌ s (String.◌++◌ "/" rest)) ≡ s ∷ split b'/' rest
unfolding split
split-slash s rest h =
    let slash : Char = "/" in
    ap (λ x. split b'/' (String.◌++◌ s x))
      (cons-append slash String.[] rest ∙ ap (String.◌∷◌ slash) (nil-append rest))
    ∙ from-part b'/' slash "" s rest refl h
    ∙ ap (λ x. x ∷ split b'/' rest) (nil-append s)
