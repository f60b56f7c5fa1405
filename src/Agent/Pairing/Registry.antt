-- ===== src/Agent/Pairing/Registry.antt =====
-- The registry's invariant: what the two channel statements of `Consume` rely on.
use clawdwallet.Base.{
  ℕ, suc, ◌<◌, ◌≡◌, refl, sym, ap, subst, ◌∙◌, ◌≢◌, ◌⊎◌, inl, inr, String, true, false, none, some,
  List, [], ◌∷◌, ◌++◌, arith, eq_iff, length, get_elem?, set, get_elem?-set_self, get_elem?-set_ne,
}
use clawdwallet.Base.Maps.{lookup, insert, lookup-insert, HasUniqueKeys, HasUniqueKeys-insert}
use clawdwallet.Agent.Pairing.Channel.{Chan, Chans, Consumption, done, make, send, close}
use clawdwallet.Agent.Pairing.{PairingRegistry, PairEntry, mint, claim, new_pairing_registry}

-- The entry's channel is on the heap, closed just when the token is consumed, and empty before.
abbrev pub HasChan : Chans → PairEntry → Type 0
HasChan chans e =
    (ch : Chan) × (get_elem? chans e.done ≡ some ch)
    × (ch.closed ≡ e.consumed)
    × (e.consumed ≡ false → ch.buffer ≡ none)

pub record IsValid (r : PairingRegistry) : Type 0 where
  pub keys : HasUniqueKeys r.entries
  pub has_chan : (t : String) (e : PairEntry) → lookup t r.entries ≡ some e → HasChan r.chans e
  pub own_chan :
      (t u : String) (e f : PairEntry)
      → lookup t r.entries ≡ some e
      → lookup u r.entries ≡ some f
      → e.done ≡ f.done
      → t ≡ u

pub get_elem?-lt {ℓ} :
    {A : Type ℓ} (xs : List A) (i : ℕ) {x : A} → get_elem? xs i ≡ some x → i < length xs
get_elem?-lt [] i h = cc
get_elem?-lt (y ∷ xs) ℕ.zero h = omega arith
get_elem?-lt (y ∷ xs) (suc i) h = omega (arith, get_elem?-lt xs i h)

get_elem?-append_left {ℓ} :
    {A : Type ℓ} (xs ys : List A) (i : ℕ) {x : A}
    → get_elem? xs i ≡ some x
    → get_elem? (xs ++ ys) i ≡ some x
get_elem?-append_left [] ys i h = cc
get_elem?-append_left (y ∷ xs) ys ℕ.zero h = h
get_elem?-append_left (y ∷ xs) ys (suc i) h = get_elem?-append_left xs ys i h

get_elem?-append_last {ℓ} :
    {A : Type ℓ} (xs : List A) (y : A) → get_elem? (xs ++ (y ∷ [])) (length xs) ≡ some y
get_elem?-append_last [] y = refl
get_elem?-append_last (x ∷ xs) y = get_elem?-append_last xs y

pub new-IsValid : IsValid new_pairing_registry
unfolding new_pairing_registry lookup
new-IsValid = record { keys = tt; has_chan = λ t e h. cc; own_chan = λ t u e f h k same. cc }

-- A new token has a new channel.
module _ (token : String) (now : ℕ) (r : PairingRegistry) (v : IsValid r) where
  abbrev pub entry : PairEntry
  entry = record { issued_at = now; consumed = false; done = length r.chans }

  pub mint_cases :
      (t : String) (e : PairEntry)
      → lookup t (mint token now r).entries ≡ some e
      → ((token ≡ t) × (e ≡ entry)) ⊎ (lookup t r.entries ≡ some e)
  unfolding mint
  mint_cases t e h = ground (arith, lookup-insert token t entry r.entries, eq_iff token t)

  mint-HasChan :
      (t : String) (e : PairEntry)
      → lookup t (mint token now r).entries ≡ some e
      → HasChan (mint token now r).chans e
  unfolding mint
  mint-HasChan t e h = elim (mint_cases t e h) [
    | inl (_, same) ↦
        subst (HasChan (r.chans ++ (make ∷ []))) (sym same)
          (make, get_elem?-append_last r.chans make, refl, λ _. refl)
    | inr old ↦
        let (ch, here, closed, empty) = v.has_chan t e old in
        (ch, get_elem?-append_left r.chans (make ∷ []) e.done here, closed, empty)
  ]

  old_lt : (t : String) (e : PairEntry) → lookup t r.entries ≡ some e → e.done < length r.chans
  old_lt t e h = get_elem?-lt r.chans e.done (v.has_chan t e h).1

  mint-own_chan :
      (t u : String) (e f : PairEntry)
      → lookup t (mint token now r).entries ≡ some e
      → lookup u (mint token now r).entries ≡ some f
      → e.done ≡ f.done
      → t ≡ u
  mint-own_chan t u e f h k same = elim (mint_cases t e h) [
    | inl (p, new_e) ↦ elim (mint_cases u f k) [
      | inl (q, _) ↦ sym p ∙ q
      | inr old ↦ absurd (omega (arith, old_lt u f old, ap (λ (x : PairEntry). x.done) new_e))
    ]
    | inr old_e ↦ elim (mint_cases u f k) [
      | inl (_, new_f) ↦
          absurd (omega (arith, old_lt t e old_e, ap (λ (x : PairEntry). x.done) new_f))
      | inr old_f ↦ v.own_chan t u e f old_e old_f same
    ]
  ]

  pub mint-IsValid : IsValid (mint token now r)
  mint-IsValid = record {
    keys = unfold mint in HasUniqueKeys-insert token entry r.entries v.keys;
    has_chan = mint-HasChan;
    own_chan = mint-own_chan;
  }

-- The state after a token is claimed.
unfoldable pub claimed : String → PairEntry → String → ℕ → PairingRegistry → PairingRegistry
claimed token e mobile at r =
    let got : Chan = record {
      buffer = some (record { mobile_spot_id = mobile; at = at });
      closed = true;
    } in
    record r {
      entries = insert token (record e { consumed = true }) r.entries;
      chans = set r.chans e.done got;
    }

set-set {ℓ} : {A : Type ℓ} (xs : List A) (i : ℕ) (v w : A) → set (set xs i v) i w ≡ set xs i w
set-set [] i v w = refl
set-set (x ∷ xs) ℕ.zero v w = refl
set-set (x ∷ xs) (suc i) v w = rw (set-set xs i v w)

-- Neither statement panics or blocks.
pub claim_done :
    (token : String) (e : PairEntry) (mobile : String) (at : ℕ) (r : PairingRegistry)
    → e.consumed ≡ false
    → HasChan r.chans e
    → claim token e mobile at r ≡ done (claimed token e mobile at r, none)
unfolding send close claimed
claim_done token e mobile at r fresh (ch, here, closed, empty) =
    let c : Consumption = record { mobile_spot_id = mobile; at = at } in
    let sent : Chan = record { buffer = some c; closed = false } in
    ground (
      arith,
      here,
      empty fresh,
      get_elem?-set_self r.chans e.done sent (get_elem?-lt r.chans e.done here),
      set-set r.chans e.done sent (record { buffer = some c; closed = true }),
    )

-- Claiming a token keeps the invariant: the other tokens' channels are other channels.
module _ (token : String) (e : PairEntry) (mobile : String) (at : ℕ) (r : PairingRegistry)
    (v : IsValid r) (known : lookup token r.entries ≡ some e) where
  pub claimed_cases :
      (t : String) (f : PairEntry)
      → lookup t (claimed token e mobile at r).entries ≡ some f
      → ((token ≡ t) × (f ≡ record e { consumed = true }))
        ⊎ ((token ≢ t) × (lookup t r.entries ≡ some f))
  unfolding claimed
  claimed_cases t f h =
      ground (arith, lookup-insert token t (record e { consumed = true }) r.entries, eq_iff token t)

  got : Chan
  got = record { buffer = some (record { mobile_spot_id = mobile; at = at }); closed = true }

  claimed-HasChan :
      (t : String) (f : PairEntry)
      → lookup t (claimed token e mobile at r).entries ≡ some f
      → HasChan (claimed token e mobile at r).chans f
  unfolding claimed got
  claimed-HasChan t f h = elim (claimed_cases t f h) [
    | inl (_, same) ↦ subst (HasChan (set r.chans e.done got)) (sym same) (
      got,
      get_elem?-set_self r.chans e.done got
          (get_elem?-lt r.chans e.done (v.has_chan token e known).1),
      refl,
      λ k. cc,
    )
    | inr (other, old) ↦
        let (ch, here, closed, empty) = v.has_chan t f old in
        (
          ch,
          get_elem?-set_ne r.chans got (λ same. other (v.own_chan token t e f known old same))
              ∙ here,
          closed,
          empty,
        )
  ]

  claimed-own_chan :
      (t u : String) (f g : PairEntry)
      → lookup t (claimed token e mobile at r).entries ≡ some f
      → lookup u (claimed token e mobile at r).entries ≡ some g
      → f.done ≡ g.done
      → t ≡ u
  claimed-own_chan t u f g h k same = elim (claimed_cases t f h) [
    | inl (p, new_f) ↦ elim (claimed_cases u g k) [
      | inl (q, _) ↦ sym p ∙ q
      | inr (_, old) ↦
          sym p
          ∙ v.own_chan token u e g known old (sym (ap (λ (x : PairEntry). x.done) new_f) ∙ same)
    ]
    | inr (_, old_f) ↦ elim (claimed_cases u g k) [
      | inl (q, new_g) ↦
          v.own_chan t token f e old_f known (same ∙ ap (λ (x : PairEntry). x.done) new_g) ∙ q
      | inr (_, old_g) ↦ v.own_chan t u f g old_f old_g same
    ]
  ]

  pub claimed-IsValid : IsValid (claimed token e mobile at r)
  claimed-IsValid = record {
    keys = unfold claimed in HasUniqueKeys-insert token _ r.entries v.keys;
    has_chan = claimed-HasChan;
    own_chan = claimed-own_chan;
  }
