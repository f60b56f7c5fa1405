-- ===== src/Agent/Protocol/Resolve.antt =====
-- The table of curves and protocols that `resolveCurveProtocol` accepts.
use clawdwallet.Base.{String, ◌≡◌, ◌⊎◌, inl, inr, ◌↔◌, ok, arith, eq_iff}
use clawdwallet.Agent.Protocol.{
  EllipticCurve, Resolved, protocol_frost, protocol_dkls23, curve_ed25519, curve_secp256k1,
  resolve_curve_protocol, on_edwards, on_s256,
}

abbrev pub IsFrost : Resolved → Type 0
IsFrost r =
    (r.group ≡ EllipticCurve.edwards) × (r.curve ≡ curve_ed25519) × (r.protocol ≡ protocol_frost)

abbrev pub IsDkls23 : Resolved → Type 0
IsDkls23 r =
    (r.group ≡ EllipticCurve.s256) × (r.curve ≡ curve_secp256k1) × (r.protocol ≡ protocol_dkls23)

-- What the doc comment promises.
abbrev pub AsksFrost : String → String → Type 0
AsksFrost curve protocol =
    ((protocol ≡ protocol_frost) ⊎ (protocol ≡ "")) × ((curve ≡ "") ⊎ (curve ≡ curve_ed25519))

abbrev pub AsksDkls23 : String → String → Type 0
AsksDkls23 curve protocol =
    ((protocol ≡ protocol_dkls23) × ((curve ≡ "") ⊎ (curve ≡ curve_secp256k1)))
    ⊎ ((protocol ≡ "") × (curve ≡ curve_secp256k1))

-- A pair is accepted exactly when it asks for one of the two protocols, and the answer is the
-- group, the curve and the protocol that belong together.
module _ (curve protocol : String) where
  resolve-Asks :
      (r : Resolved)
      → resolve_curve_protocol curve protocol ≡ ok r
      → (AsksFrost curve protocol × IsFrost r) ⊎ (AsksDkls23 curve protocol × IsDkls23 r)
  unfolding resolve_curve_protocol
  resolve-Asks r h = ground (
    arith,
    eq_iff protocol protocol_frost,
    eq_iff protocol protocol_dkls23,
    eq_iff protocol "",
    eq_iff curve "",
    eq_iff curve curve_ed25519,
    eq_iff curve curve_secp256k1,
  )

  resolve_frost_ok :
      AsksFrost curve protocol → resolve_curve_protocol curve protocol ≡ ok on_edwards
  unfolding resolve_curve_protocol
  resolve_frost_ok (inl p, inl c) = rw (p, c)
  resolve_frost_ok (inl p, inr c) = rw (p, c)
  resolve_frost_ok (inr p, inl c) = rw (p, c)
  resolve_frost_ok (inr p, inr c) = rw (p, c)

  resolve_dkls23_ok : AsksDkls23 curve protocol → resolve_curve_protocol curve protocol ≡ ok on_s256
  unfolding resolve_curve_protocol
  resolve_dkls23_ok (inl (p, inl c)) = rw (p, c)
  resolve_dkls23_ok (inl (p, inr c)) = rw (p, c)
  resolve_dkls23_ok (inr (p, c)) = rw (p, c)

  Asks-resolve :
      (r : Resolved)
      → (AsksFrost curve protocol × IsFrost r) ⊎ (AsksDkls23 curve protocol × IsDkls23 r)
      → resolve_curve_protocol curve protocol ≡ ok r
  Asks-resolve r (inl (a, f)) = ground (arith, resolve_frost_ok a)
  Asks-resolve r (inr (a, f)) = ground (arith, resolve_dkls23_ok a)

  -- A curve and a protocol are resolved exactly when they ask for FROST on Ed25519 or DKLs23 on
  -- secp256k1, and to just that.
  resolve_iff :
      (r : Resolved)
      → (resolve_curve_protocol curve protocol ≡ ok r)
        ↔ ((AsksFrost curve protocol × IsFrost r) ⊎ (AsksDkls23 curve protocol × IsDkls23 r))
  resolve_iff r = (resolve-Asks r, Asks-resolve r)
