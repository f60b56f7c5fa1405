-- ===== src/Agent/Pairing/Consume.antt =====
-- `Consume`, `gc` and a receive on a valid registry.
use clawdwallet.Base.{
  ℕ, not, ◌+◌, ◌-◌, ◌≤◌, ◌≡◌, refl, ◌≢◌, inl, inr, String, false, Option, none, some, arith, eq_iff,
  get_elem?, get_elem?-set_self, get_elem?-set_ne, Option-cases, Bool-cases, str_eq, ltb, ◌∙◌,
}
use clawdwallet.Base.Maps.{lookup, HasUniqueKeys-keep_if, lookup-keep_if}
use clawdwallet.Agent.Pairing.Channel.{Chans, done, receive}
use clawdwallet.Agent.Pairing.Registry.{
  IsValid, HasChan, claimed, claimed-IsValid, claim_done, get_elem?-lt,
}
use clawdwallet.Agent.Pairing.{
  pairing_token_ttl, pairing_expired_grace, is_stale, PairingRegistry, PairEntry, PairingError,
  token_invalid, token_consumed, token_expired, consume, gc,
}
use native.Mathlib.Decide.{ℕ_discrete}

-- What `Consume` does on a valid registry: it refuses and changes nothing, or claims the token.
pub data Verdict (token mobile : String) (now at : ℕ) (r : PairingRegistry) : Type 0 where
  refuse :
      (code : PairingError)
      → consume token mobile now at r ≡ done (r, some code)
      → Verdict token mobile now at r
  accept :
      (e : PairEntry)
      → lookup token r.entries ≡ some e
      → e.consumed ≡ false
      → token ≢ ""
      → now ≤ e.issued_at + pairing_token_ttl
      → consume token mobile now at r ≡ done (claimed token e mobile at r, none)
      → Verdict token mobile now at r

consume-entry :
    (token mobile : String) (now at : ℕ) (r : PairingRegistry) (e : PairEntry)
    → IsValid r
    → str_eq token "" ≡ false
    → lookup token r.entries ≡ some e
    → Verdict token mobile now at r
unfolding consume claimed
consume-entry token mobile now at r e v named known = elim (Bool-cases e.consumed) [
  | inl used ↦ refuse token_consumed (rw (named, known) (rw used))
  | inr fresh ↦ elim (Bool-cases (ltb pairing_token_ttl (now - e.issued_at))) [
    | inl late ↦ refuse token_expired (rw (named, known) (rw (fresh, late)))
    | inr timely ↦ accept e known fresh (ground (arith, eq_iff token "")) (ground arith) (
        rw (named, known)
          (rw (fresh, timely) (claim_done token e mobile at r fresh (v.has_chan token e known))))
  ]
]

pub consume-Verdict :
    (token mobile : String) (now at : ℕ) (r : PairingRegistry)
    → IsValid r
    → Verdict token mobile now at r
unfolding consume
consume-Verdict token mobile now at r v = elim (Bool-cases (str_eq token "")) [
  | inl empty ↦ refuse token_invalid (rw empty)
  | inr named ↦ elim (Option-cases (lookup token r.entries)) [
    | inl missing ↦ refuse token_invalid (rw (named, missing))
    | inr (e, known) ↦ consume-entry token mobile now at r e v named known
  ]
]

-- `Consume` returns on a valid registry, which stays valid: it neither panics nor blocks.
consume-IsValid :
    (token mobile : String) (now at : ℕ) (r : PairingRegistry)
    → IsValid r
    → (p : PairingRegistry × Option PairingError) × (consume token mobile now at r ≡ done p)
      × IsValid p.0
consume-IsValid token mobile now at r v = elim (consume-Verdict token mobile now at r v) [
  | refuse code e ↦ ((r, some code), e, v)
  | accept e known fresh _ _ same ↦
      ((claimed token e mobile at r, none), same, claimed-IsValid token e mobile at r v known)
]

-- What is left after a sweep was there before, and was not stale.
pub lookup-gc :
    (t : String) (now : ℕ) (r : PairingRegistry) (e : PairEntry)
    → IsValid r
    → lookup t (gc now r).entries ≡ some e
    → lookup t r.entries ≡ some e
unfolding gc
lookup-gc t now r e v h = ground (
  arith,
  lookup-keep_if t (λ f. not (is_stale (now - (pairing_token_ttl + pairing_expired_grace)) f))
      r.entries v.keys,
)

-- An entry that is not past its grace window stays.
pub lookup-gc_recent :
    (t : String) (now : ℕ) (r : PairingRegistry) (e : PairEntry)
    → IsValid r
    → lookup t r.entries ≡ some e
    → now ≤ e.issued_at + (pairing_token_ttl + pairing_expired_grace)
    → lookup t (gc now r).entries ≡ some e
unfolding gc
lookup-gc_recent t now r e v h recent = ground (
  arith,
  lookup-keep_if t (λ f. not (is_stale (now - (pairing_token_ttl + pairing_expired_grace)) f))
      r.entries v.keys,
)

pub gc-IsValid : (now : ℕ) (r : PairingRegistry) → IsValid r → IsValid (gc now r)
gc-IsValid now r v = record {
  keys = unfold gc in HasUniqueKeys-keep_if _ r.entries v.keys;
  has_chan = λ t e h. unfold gc in v.has_chan t e (lookup-gc t now r e v h);
  own_chan = λ t u e f h k same.
      v.own_chan t u e f (lookup-gc t now r e v h) (lookup-gc u now r f v k) same;
}

receive-HasChan :
    (h : ℕ) (chans : Chans) (e : PairEntry) → HasChan chans e → HasChan (receive h chans).1 e
unfolding receive
receive-HasChan h chans e (ch, here, closed, empty) = elim (Option-cases (get_elem? chans h)) [
  | inl out ↦ rw (out, receive) (ch, here, closed, empty)
  | inr (ch', there) ↦
      rw (there, receive)
        (elim (ℕ_discrete h e.done) [
          | yes same ↦ (
            record ch' { buffer = none },
            rw (← same) (get_elem?-set_self chans h _ (get_elem?-lt chans h there)),
            ground arith,
            λ _. refl,
          )
          | no other ↦ (ch, get_elem?-set_ne chans _ other ∙ here, closed, empty)
        ])
]

pub receive-IsValid :
    (h : ℕ) (r : PairingRegistry) → IsValid r → IsValid (record r { chans = (receive h r.chans).1 })
unfolding receive
receive-IsValid h r v = record {
  keys = v.keys;
  has_chan = λ t e k. receive-HasChan h r.chans e (v.has_chan t e k);
  own_chan = v.own_chan;
}
