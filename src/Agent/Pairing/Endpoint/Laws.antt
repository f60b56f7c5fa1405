-- ===== src/Agent/Pairing/Endpoint/Laws.antt =====
-- Who is paired.
use clawdwallet.Base.{ℕ, ◌≡◌, refl, subst, ◌≢◌, ◌↔◌, Option, none, some, arith, eq_iff, Error}
use clawdwallet.Base.Machine.{pos}
use clawdwallet.Agent.Pairing.Channel.{done}
use clawdwallet.Agent.Pairing.Registry.{IsValid}
use clawdwallet.Agent.Pairing.Consume.{consume-Verdict, refuse, accept}
use clawdwallet.Agent.Pairing.Window.{IsLive, consume_iff}
use clawdwallet.Agent.Pairing.{PairingRegistry, PairingError}
use clawdwallet.Agent.Pairing.Endpoint.{
  Identity, PairRequest, PairResponse, paired, refused, handle_pair, handle_request, response,
}

abbrev pub IsProper : PairRequest → ℕ → PairingRegistry → Type 0
IsProper req now r = (req.v ≡ pos 1) × (req.mobile_spot_id ≢ "") × IsLive req.token now r

module _ (a : Identity) (now at : ℕ) (r : PairingRegistry) (v : IsValid r) where
  request_paired :
      (req : PairRequest) (r' : PairingRegistry) (resp : PairResponse)
      → handle_request a req now at r ≡ done (r', paired resp)
      → IsProper req now r
  unfolding handle_request
  request_paired req r' resp h = (version, mobile, live)
    where
      version : req.v ≡ pos 1
      version = ground arith

      mobile : req.mobile_spot_id ≢ ""
      mobile = ground (arith, eq_iff req.mobile_spot_id "")

      live : IsLive req.token now r
      live = elim (consume-Verdict req.token req.mobile_spot_id now at r v) [
        | refuse code e ↦ absurd (ground arith)
        | accept e known fresh named timely same ↦ (named, (e, known, fresh, timely))
      ]

  paired_request :
      (req : PairRequest)
      → IsProper req now r
      → (r' : PairingRegistry) × (handle_request a req now at r ≡ done (r', paired (response a)))
  unfolding handle_request
  paired_request req (version, mobile, live) =
      let (r', same) = (consume_iff req.token req.mobile_spot_id now at r v).1 live in
      (r', ground (arith, same, eq_iff req.token "", eq_iff req.mobile_spot_id "", live.0))

-- On a valid registry the endpoint answers with the agent's identity exactly when the message
-- holds a request of version 1 with a mobile's id and a live token.
pub handle_pair_iff :
    (a : Identity) (now at : ℕ) (r : PairingRegistry) (msg : Option (Option PairRequest))
    → IsValid r
    → ((r' : PairingRegistry) × (handle_pair a msg now at r ≡ done (r', paired (response a))))
      ↔ ((req : PairRequest) × (msg ≡ some (some req)) × IsProper req now r)
unfolding handle_pair
handle_pair_iff a now at r none v = (λ h. cc, λ h. cc)
handle_pair_iff a now at r (some none) v = (λ h. cc, λ h. cc)
handle_pair_iff a now at r (some (some req)) v = (
  λ (r', h). (req, refl, request_paired a now at r v req r' _ h),
  λ (req', same, p).
      let e : req' ≡ req = cc same in
      paired_request a now at r v req (subst (λ q. IsProper q now r) e p),
)

-- On a valid registry, an answer of the endpoint that is a refusal leaves the registry as it was.
handle_pair_refused :
    (a : Identity) (now at : ℕ) (r r' : PairingRegistry) (msg : Option (Option PairRequest))
    (code : PairingError) (e : Error)
    → IsValid r
    → handle_pair a msg now at r ≡ done (r', refused code e)
    → r' ≡ r
unfolding handle_pair handle_request
handle_pair_refused a now at r r' none code e v h = cc
handle_pair_refused a now at r r' (some none) code e v h = cc
handle_pair_refused a now at r r' (some (some req)) code e v h =
    elim (consume-Verdict req.token req.mobile_spot_id now at r v) [
      | refuse _ same ↦ ground arith
      | accept _ _ _ _ _ same ↦ ground arith
    ]
