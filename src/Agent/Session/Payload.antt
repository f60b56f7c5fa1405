-- ===== src/Agent/Session/Payload.antt =====
-- Decoding a payload.
use clawdwallet.Base.{◌≡◌, ◌≢◌, arith, eq_iff}
use clawdwallet.Agent.Protocol.{curve_ed25519}
use clawdwallet.Agent.Session.{
  InitPayload, RawPayload, session_sign, unmarshal_payload, marshal_payload,
}

-- A payload that was decoded once: its kind is not the old alias, and its curve is set.
pub record IsCanonical (p : InitPayload) : Type 0 where
  pub kind_current : p.kind ≢ "sign"
  pub curve_set : p.curve ≢ ""

unmarshal-IsCanonical : (r : RawPayload) → IsCanonical (unmarshal_payload r)
unfolding unmarshal_payload
unmarshal-IsCanonical r = record {
  kind_current = ground (
    arith,
    eq_iff r.type_field "",
    eq_iff r.kind "sign",
    eq_iff r.type_field "sign",
    eq_iff session_sign "sign",
  );
  curve_set = ground (arith, eq_iff r.curve "", eq_iff curve_ed25519 "");
}

-- A payload whose kind is not the old alias and whose curve is set comes back as it is when it is
-- written and read again.
unmarshal-marshal : (p : InitPayload) → IsCanonical p → unmarshal_payload (marshal_payload p) ≡ p
unfolding unmarshal_payload marshal_payload
unmarshal-marshal p c =
    ground (arith, eq_iff p.kind "", eq_iff p.kind "sign", eq_iff p.curve "", eq_iff p.digest "")
