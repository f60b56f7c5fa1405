-- ===== src/Agent/Pairing/SingleUse.antt =====
-- Histories of the registry: a token is claimed at most once for each time that it is minted.
use clawdwallet.Base.{
  ℕ, ◌≡◌, refl, ap, ◌≢◌, ◌⊎◌, inl, inr, String, true, false, none, some, List, [], ◌∷◌, ok, All,
  Bool-cases, Option-cases, str_eq,
}
use clawdwallet.Base.Maps.{lookup}
use clawdwallet.Agent.Pairing.Channel.{done, receive}
use clawdwallet.Agent.Pairing.Registry.{
  IsValid, claimed, mint-IsValid, mint_cases, claimed-IsValid, claimed_cases,
}
use clawdwallet.Agent.Pairing.Consume.{
  consume-Verdict, refuse, accept, gc-IsValid, lookup-gc, receive-IsValid,
}
use clawdwallet.Agent.Pairing.{
  PairingRegistry, PairEntry, PairingError, token_invalid, token_consumed, issue, mint, consume, gc,
  close_registry,
}

pub data Event : Type 0 where
  minted : String → Event
  claims : String → Event
  refuses : String → PairingError → Event
  collected : Event
  received : ℕ → Event
  stops : Event

-- One call on the registry. The mutex makes the calls atomic, so that any interleaving of callers
-- is a sequence of such steps.
pub data Step (r : PairingRegistry) : Event → PairingRegistry → Type 0 where
  issuing :
      {t : String} {ch : ℕ} {r' : PairingRegistry} (buf : List ℕ) (now : ℕ)
      → issue (ok buf) now r ≡ ok (t, ch, r')
      → Step r (minted t) r'
  claiming :
      {r' : PairingRegistry} (t mobile : String) (now at : ℕ)
      → consume t mobile now at r ≡ done (r', none)
      → Step r (claims t) r'
  refusing :
      {r' : PairingRegistry} {code : PairingError} (t mobile : String) (now at : ℕ)
      → consume t mobile now at r ≡ done (r', some code)
      → Step r (refuses t code) r'
  collecting : (now : ℕ) → Step r collected (gc now r)
  receiving : (h : ℕ) → Step r (received h) (record r { chans = (receive h r.chans).1 })
  stopping : Step r stops (close_registry r)

pub data Trace : PairingRegistry → List Event → PairingRegistry → Type 0 where
  here : {r : PairingRegistry} → Trace r [] r
  next :
      {r s u : PairingRegistry} {e : Event} {es : List Event}
      → Step r e s
      → Trace s es u
      → Trace r (e ∷ es) u

-- The token is unknown or consumed.
abbrev pub IsSpent : String → PairingRegistry → Type 0
IsSpent t r = (e : PairEntry) → lookup t r.entries ≡ some e → e.consumed ≡ true

mint_of_issue :
    (buf : List ℕ) (now : ℕ) (r : PairingRegistry) {t : String} {ch : ℕ} {r' : PairingRegistry}
    → issue (ok buf) now r ≡ ok (t, ch, r')
    → r' ≡ mint t now r
unfolding issue
mint_of_issue buf now r h = cc

-- A successful claim, taken apart.
claimed_of_consume :
    (t mobile : String) (now at : ℕ) (r : PairingRegistry) {r' : PairingRegistry}
    → IsValid r
    → consume t mobile now at r ≡ done (r', none)
    → (e : PairEntry) × (lookup t r.entries ≡ some e)
      × (e.consumed ≡ false)
      × (r' ≡ claimed t e mobile at r)
claimed_of_consume t mobile now at r v h = elim (consume-Verdict t mobile now at r v) [
  | refuse code e ↦ cc
  | accept e known fresh _ _ same ↦ (e, known, fresh, cc)
]

same_of_consume :
    (t mobile : String) (now at : ℕ) (r : PairingRegistry) {r' : PairingRegistry}
    {code : PairingError}
    → IsValid r
    → consume t mobile now at r ≡ done (r', some code)
    → r' ≡ r
same_of_consume t mobile now at r v h = elim (consume-Verdict t mobile now at r v) [
  | refuse code e ↦ cc
  | accept e known fresh _ _ same ↦ cc
]

Step-IsValid : {r r' : PairingRegistry} {e : Event} → Step r e r' → IsValid r → IsValid r'
Step-IsValid {r} (issuing {t} buf now h) v = rw (mint_of_issue buf now r h) (mint-IsValid t now r v)
Step-IsValid {r} (claiming t mobile now at h) v =
    let (e, known, _, same) = claimed_of_consume t mobile now at r v h in
    rw same (claimed-IsValid t e mobile at r v known)
Step-IsValid {r} (refusing t mobile now at h) v = rw (same_of_consume t mobile now at r v h) v
Step-IsValid {r} (collecting now) v = gc-IsValid now r v
Step-IsValid {r} (receiving h) v = receive-IsValid h r v
Step-IsValid {r} stopping v =
    unfold close_registry in record { keys = v.keys; has_chan = v.has_chan; own_chan = v.own_chan }

IsSpent-claimed :
    (t u : String) (f : PairEntry) (mobile : String) (at : ℕ) (r : PairingRegistry)
    → IsValid r
    → lookup u r.entries ≡ some f
    → (u ≡ t) ⊎ IsSpent t r
    → IsSpent t (claimed u f mobile at r)
IsSpent-claimed t u f mobile at r v known h e found =
    elim (claimed_cases u f mobile at r v known t e found) [
      | inl (_, same) ↦ ap (λ (x : PairEntry). x.consumed) same
      | inr (other, old) ↦ elim h [ inl same ↦ absurd (other same) | inr spent ↦ spent e old ]
    ]

-- A step that does not mint the token leaves it spent.
Step-IsSpent :
    {r r' : PairingRegistry} {e : Event} (t : String)
    → Step r e r'
    → IsValid r
    → e ≢ minted t
    → IsSpent t r
    → IsSpent t r'
Step-IsSpent {r} t (issuing {t = u} buf now h) v other spent =
    rw (mint_of_issue buf now r h) λ e found. elim (mint_cases u now r v t e found) [
      | inl (same, _) ↦ absurd (other (ap minted same))
      | inr old ↦ spent e old
    ]
Step-IsSpent {r} t (claiming u mobile now at h) v other spent =
    let (f, known, _, same) = claimed_of_consume u mobile now at r v h in
    rw same (IsSpent-claimed t u f mobile at r v known (inr spent))
Step-IsSpent {r} t (refusing u mobile now at h) v other spent =
    rw (same_of_consume u mobile now at r v h) spent
Step-IsSpent {r} t (collecting now) v other spent = λ e found. spent e (lookup-gc t now r e v found)
Step-IsSpent {r} t (receiving h) v other spent = spent
Step-IsSpent {r} t stopping v other spent = unfold close_registry in spent

Trace-IsValid : {r r' : PairingRegistry} {es : List Event} → Trace r es r' → IsValid r → IsValid r'
Trace-IsValid here v = v
Trace-IsValid (next s rest) v = Trace-IsValid rest (Step-IsValid s v)

Trace-IsSpent :
    {r r' : PairingRegistry} {es : List Event} (t : String)
    → Trace r es r'
    → IsValid r
    → All (λ e. e ≢ minted t) es
    → IsSpent t r
    → IsSpent t r'
Trace-IsSpent t here v _ spent = spent
Trace-IsSpent t (next s rest) v (other, others) spent =
    Trace-IsSpent t rest (Step-IsValid s v) others (Step-IsSpent t s v other spent)

-- A spent token is refused.
spent_refused :
    (t mobile : String) (now at : ℕ) (r : PairingRegistry)
    → IsSpent t r
    → (consume t mobile now at r ≡ done (r, some token_invalid))
      ⊎ (consume t mobile now at r ≡ done (r, some token_consumed))
unfolding consume
spent_refused t mobile now at r spent = elim (Bool-cases (str_eq t "")) [
  | inl empty ↦ inl (rw empty)
  | inr named ↦ elim (Option-cases (lookup t r.entries)) [
    | inl missing ↦ inl (rw (named, missing))
    | inr (e, known) ↦ inr (rw (named, known) (rw (spent e known)))
  ]
]

-- Once a token is claimed on a valid registry, no later `Consume` of it succeeds, whatever calls
-- come between, as long as none of them mints the same token again.
pub claimed_once :
    {r s u : PairingRegistry} {es : List Event} (t : String)
    → IsValid r
    → Step r (claims t) s
    → Trace s es u
    → All (λ e. e ≢ minted t) es
    → (mobile : String) (now at : ℕ)
    → (consume t mobile now at u ≡ done (u, some token_invalid))
      ⊎ (consume t mobile now at u ≡ done (u, some token_consumed))
claimed_once {r} {s} {u} t v (claiming _ m n a h) rest others mobile now at =
    let (e, known, _, same) = claimed_of_consume t m n a r v h in
    let spent : IsSpent t s = rw same (IsSpent-claimed t t e m a r v known (inl refl)) in
    spent_refused t mobile now at u
      (Trace-IsSpent t rest (Step-IsValid (claiming t m n a h) v) others spent)
