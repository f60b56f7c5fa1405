-- ===== src/Solana/Rpc/Ids.antt =====
-- The ids of the requests of one client. `Add` on the counter is atomic, so any interleaving of
-- callers is a sequence of calls.
use clawdwallet.Base.{
  ℕ, zero, suc, ◌+◌, ◌%◌, ◌^◌, ◌<◌, ◌≤◌, ◌≡◌, refl, ap, String, some, List, [], ◌∷◌, arith,
  get_elem?, length,
}
use clawdwallet.Solana.Keys.{KeyText}
use clawdwallet.Solana.Rpc.{
  Client, RpcRequest, RpcEnv, call, next_id, get_latest_blockhash, get_balance,
  get_token_account_balance, get_token_supply_decimals, send_transaction, simulate_transaction,
}

-- A call of one of the client's methods.
pub data Call : Type 0 where
  latest_blockhash : Call
  balance token_account_balance token_supply_decimals : String → Call
  send simulate : List ℕ → Call

module _ (env : RpcEnv) (t : KeyText) where
  -- The client after the call, and the request.
  unfoldable pub made : Call → Client → Client × RpcRequest
  made latest_blockhash c = let (c', req, r) = get_latest_blockhash env t c in (c', req)
  made (balance addr) c = let (c', req, r) = get_balance env addr c in (c', req)
  made (token_account_balance ata) c =
      let (c', req, r) = get_token_account_balance env ata c in (c', req)
  made (token_supply_decimals mint) c =
      let (c', req, r) = get_token_supply_decimals env mint c in (c', req)
  made (send raw_tx) c = let (c', req, r) = send_transaction env raw_tx c in (c', req)
  made (simulate raw_tx) c = let (c', req, r) = simulate_transaction env raw_tx c in (c', req)

  unfoldable pub requests : List Call → Client → List RpcRequest
  requests [] c = []
  requests (k ∷ ks) c = let (c', req) = made k c in req ∷ requests ks c'

  made_id : (k : Call) (c : Client) → (made k c).1.id ≡ next_id c
  unfolding made call get_latest_blockhash get_balance get_token_account_balance
      get_token_supply_decimals send_transaction simulate_transaction
  made_id latest_blockhash c = refl
  made_id (balance addr) c = refl
  made_id (token_account_balance ata) c = refl
  made_id (token_supply_decimals mint) c = refl
  made_id (send raw_tx) c = refl
  made_id (simulate raw_tx) c = refl

  made_counter : (k : Call) (c : Client) → (made k c).0.id ≡ next_id c
  unfolding made call get_latest_blockhash get_balance get_token_account_balance
      get_token_supply_decimals send_transaction simulate_transaction
  made_counter latest_blockhash c = refl
  made_counter (balance addr) c = refl
  made_counter (token_account_balance ata) c = refl
  made_counter (token_supply_decimals mint) c = refl
  made_counter (send raw_tx) c = refl
  made_counter (simulate raw_tx) c = refl

  nth_id :
      (ks : List Call) (c : Client) (i : ℕ) (r : RpcRequest)
      → get_elem? (requests ks c) i ≡ some r
      → (r.id ≡ (c.id + 1 + i) % 2 ^ 64) × (i < length ks)
  unfolding requests
  nth_id [] c i r h = cc
  nth_id (k ∷ ks) c zero r h =
      let e : (made k c).1 ≡ r = cc in
      (omega (arith, ap (λ (x : RpcRequest). x.id) e, made_id k c), omega arith)
  nth_id (k ∷ ks) c (suc i) r h =
      let (e, l) = nth_id ks (made k c).0 i r h in (omega (arith, made_counter k c), omega arith)

  -- Among any 2^64 calls of one client, whichever methods are called, no two requests have the
  -- same id.
  pub requests_distinct :
      (ks : List Call) (c : Client) (i j : ℕ) (r s : RpcRequest)
      → length ks ≤ 2 ^ 64
      → get_elem? (requests ks c) i ≡ some r
      → get_elem? (requests ks c) j ≡ some s
      → r.id ≡ s.id
      → i ≡ j
  requests_distinct ks c i j r s few h k same =
      let (a, l) = nth_id ks c i r h in let (b, m) = nth_id ks c j s k in omega arith
