-- ===== src/Agent/Handlers/Lock.antt =====
-- The lock of agent/agent.go over a sequence of policy messages, and what it stops.
use clawdwallet.Base.{
  ◌≡◌, ◌≢◌, refl, ap, ◌∙◌, inl, inr, String, Bool, true, Bool-cases, List, [], ◌∷◌, Result, ok, err,
  message, arith, eq_iff, str_eq, All, ℕ,
}
use clawdwallet.Agent.Session.{Sessions}
use clawdwallet.Agent.Ceremony.{SignEnv, Local}
use clawdwallet.Agent.Transfer.{PayEnv, TransferOptions}
use clawdwallet.Agent.Payment.{payable_share, prepare_transfer, prepare_x402, build_and_pay, pay}
use clawdwallet.Agent.Handlers.{handle_policy}

-- The lock after the messages, in their order.
unfoldable pub lock_after : List (Result String) → Bool → Bool
lock_after [] locked = locked
lock_after (m ∷ ms) locked = lock_after ms (handle_policy m locked).0

unlock_only : (m : Result String) → m ≢ ok "unlock" → (handle_policy m true).0 ≡ true
unfolding handle_policy
unlock_only (err e) h = refl
unlock_only (ok action) h = elim (Bool-cases (str_eq action "unlock")) [
  | inl q ↦ absurd (h (ap ok ((eq_iff action "unlock").0 q)))
  | inr q ↦ ground (arith, q)
]

stays_locked :
    (ms : List (Result String)) → All (λ m. m ≢ ok "unlock") ms → lock_after ms true ≡ true
unfolding lock_after
stays_locked [] h = refl
stays_locked (m ∷ ms) (h, hs) = ap (lock_after ms) (unlock_only m h) ∙ stays_locked ms hs

lock_sets : (locked : Bool) → (handle_policy (ok "lock") locked).0 ≡ true
unfolding handle_policy
lock_sets locked = refl

-- After a policy message that locks and any messages without an unlock, a transfer and an x402
-- payment are refused, send nothing and leave the sessions as they were.
pub locked-refuses :
    (ms : List (Result String)) (before : Bool) (env : PayEnv) (sign : SignEnv) (me : Local)
    (moniker : String) (opts : TransferOptions) (mint recipient : String) (amount : ℕ) (has : Bool)
    (sessions : Sessions)
    → All (λ m. m ≢ ok "unlock") ms
    → let locked = lock_after (ok "lock" ∷ ms) before in
      (build_and_pay env sign me locked moniker opts sessions
        ≡ (sessions, [], err (message "wallet is locked")))
      × (pay env sign me locked moniker mint recipient amount has sessions
          ≡ (sessions, [], err (message "wallet locked")))
unfolding build_and_pay pay prepare_transfer prepare_x402 payable_share lock_after
locked-refuses ms before env sign me moniker opts mint recipient amount has sessions h =
    let e : lock_after ms (handle_policy (ok "lock") before).0 ≡ true =
      ap (lock_after ms) (lock_sets before) ∙ stays_locked ms h in
    (rw e, rw e)
