-- ===== src/X402/Retry.antt =====
-- The second request of `Do` of x402/x402.go.
use clawdwallet.Base.{
  ℕ, ◌≡◌, refl, ap, ◌∙◌, subst, sym, ◌≢◌, inl, inr, String, Bool-cases, Option, none, some,
  Option-cases, List, [], ◌∷◌, Error, Result, ok, Result-cases, arith, eq_iff, str_eq, ◌==◌,
  if◌then◌else◌,
}
use clawdwallet.Encoding.Base64.{encode_padded, std}
use clawdwallet.X402.{
  finish_with, PaymentRequirement, Payment, Request, Response, Exchange, requirement_of, payment_of,
  retry_of, replayed, captured, pay_and_retry, do_request, set_header, payment_header, parse_uint,
}
use clawdwallet.Encoding.Text.{codes}
use clawdwallet.X402.Payments.{requirement-inv, finished}

-- The values under a name.
unfoldable pub values : String → List (String × String) → List String
values k [] = []
values k ((i, v) ∷ hs) = let rest = values k hs in if str_eq i k then v ∷ rest else rest

values-set_header :
    (j k v : String) (hs : List (String × String))
    → values j (set_header k v hs) ≡ (if str_eq k j then v ∷ [] else values j hs)
unfolding values set_header
values-set_header j k v [] = refl
values-set_header j k v ((i, w) ∷ hs) =
    ground (arith, eq_iff k j, eq_iff i k, eq_iff i j, values-set_header j k v hs)

-- The second request is the first with the payment, which is the transaction that the payer gave for
-- the one payment that was made, of what the answer demands: it may differ from the first in the
-- header of the payment only, and its body is what was read of the first one's.
abbrev pub IsRetryOf : Exchange → Response → List Payment → Request → List ℕ → Request → Type 0
IsRetryOf x resp made req body retry =
    (payer : Payment → Result (List ℕ)) × (pr : PaymentRequirement) × (p : Payment) × (raw_tx : List
      ℕ)
    × (x.payer ≡ some payer)
    × (x.decode resp.payment_required ≡ ok pr)
    × (p.mint ≡ pr.asset)
    × (p.recipient ≡ pr.receiver)
    × (parse_uint (codes pr.max_amount_required) ≡ some p.amount)
    × (made ≡ p ∷ [])
    × (payer p ≡ ok raw_tx)
    × (retry.method ≡ req.method)
    × (retry.url ≡ req.url)
    × (retry.body ≡ some body)
    × (values payment_header retry.headers
        ≡ x.encode_payment pr.scheme pr.network (encode_padded std raw_tx) ∷ [])
    × ((k : String) → payment_header ≢ k → values k retry.headers ≡ values k req.headers)

module _ (x : Exchange) where
  retry-IsRetryOf :
      (payer : Payment → Result (List ℕ)) (req : Request) (body : List ℕ) (resp : Response)
      (pr : PaymentRequirement) (v : ℕ) (raw_tx : List ℕ)
      → x.payer ≡ some payer
      → requirement_of x resp ≡ ok (pr, v)
      → payer (payment_of pr v) ≡ ok raw_tx
      → IsRetryOf x resp (payment_of pr v ∷ []) req body (retry_of x req body pr raw_tx)
  retry-IsRetryOf payer req body resp pr v raw_tx q d t =
      let value = x.encode_payment pr.scheme pr.network (encode_padded std raw_tx) in
      let (read, parsed) = requirement-inv x resp pr v d in
      (
        payer,
        pr,
        payment_of pr v,
        raw_tx,
        q,
        read,
        refl,
        refl,
        parsed,
        refl,
        t,
        refl,
        refl,
        refl,
        values-set_header payment_header payment_header value req.headers,
        λ k n. ground (
          arith,
          values-set_header k payment_header value req.headers,
          eq_iff payment_header k,
          n,
        ),
      )

  finished_requests :
      (req retry a b : Request) (rest : List Request) (made : List Payment) (o : Option Error)
      → (finish_with x req made retry o).1 ≡ a ∷ b ∷ rest
      → (rest ≡ []) × (a ≡ req) × (b ≡ retry)
  finished_requests req retry a b rest made none h = (cc, cc, cc)
  finished_requests req retry a b rest made (some e) h = cc

  paid_requests :
      (payer : Payment → Result (List ℕ)) (req : Request) (body : List ℕ) (resp : Response)
      (a b : Request) (rest : List Request) (made : List Payment)
      → x.payer ≡ some payer
      → (pay_and_retry x payer req body resp).0 ≡ made
      → (pay_and_retry x payer req body resp).1 ≡ a ∷ b ∷ rest
      → (rest ≡ []) × (a ≡ req) × IsRetryOf x resp made req body b
  unfolding pay_and_retry
  paid_requests payer req body resp a b rest made q m h =
      elim (Result-cases (requirement_of x resp)) [
        | inr (e, q1) ↦ absurd (let z = rw (q1, pay_and_retry) at h in cc)
        | inl ((pr, v), q1) ↦ elim (Result-cases (payer (payment_of pr v))) [
          | inr (e, q2) ↦ absurd (let z = rw (q1, q2, pay_and_retry) at h in cc)
          | inl (raw_tx, q2) ↦
              let retry = retry_of x req body pr raw_tx in
              let paid = payment_of pr v ∷ [] in
              let fault = x.new_request retry in
              let (p, u, r) =
                finished_requests req retry a b rest paid fault (rw (q1, q2, pay_and_retry) at h) in
              let k : (finish_with x req paid retry fault).0 ≡ made =
                rw (q1, q2, pay_and_retry) at m in
              let all = sym (finished x req retry paid fault) ∙ k in
              (
                p,
                u,
                subst (λ y. IsRetryOf x resp y req body b) all
                    (subst (IsRetryOf x resp paid req body) (sym r)
                      (retry-IsRetryOf payer req body resp pr v raw_tx q q1 q2)),
              )
        ]
      ]

  retried :
      (req a b : Request) (rest : List Request) (made : List Payment)
      → (do_request x req).0 ≡ made
      → (do_request x req).1 ≡ a ∷ b ∷ rest
      → (body : List ℕ) × (resp : Response) × (captured x req.body ≡ ok body)
        × (a ≡ replayed req body)
        × (x.first a ≡ ok resp)
        × (resp.status ≡ 402)
        × (rest ≡ [])
        × IsRetryOf x resp made a body b
  unfolding do_request pay_and_retry
  retried req a b rest made m h = elim (Option-cases x.payer) [
    | inl q1 ↦ absurd (let z = rw (q1, do_request) at h in cc)
    | inr (payer, q1) ↦ elim (Result-cases (captured x req.body)) [
      | inr (e, q2) ↦ absurd (let z = rw (q1, q2, do_request) at h in cc)
      | inl (body, q2) ↦ elim (Result-cases (x.first (replayed req body))) [
        | inr (e, q3) ↦ absurd (let z = rw (q1, q2, q3, do_request) at h in cc)
        | inl (resp, q3) ↦ elim (Bool-cases (resp.status == 402)) [
          | inr q4 ↦ absurd (let z = rw (q1, q2, q3, q4, do_request) at h in cc)
          | inl q4 ↦
              let (p, q, r) =
                paid_requests payer (replayed req body) body resp a b rest made q1
                  (rw (q1, q2, q3, q4, do_request) at m) (rw (q1, q2, q3, q4, do_request) at h) in
              (
                body,
                resp,
                q2,
                q,
                ap x.first q ∙ q3,
                ground (arith, q4),
                p,
                subst (λ y. IsRetryOf x resp made y body b) (sym q) r,
              )
        ]
      ]
    ]
  ]

  -- If a second request is sent it is the last one, and the first was answered with status 402;
  -- the payer gave a transaction for the one payment that was made, of the asset, to the receiver
  -- and of the amount that the answer names; the second request has that transaction as the only
  -- value of the payment header, for the scheme and the network of the answer, the method, the
  -- URL and the body of the first, and every other header as it was.
  pub do_request-retries :
      (req a b : Request) (rest : List Request)
      → (do_request x req).1 ≡ a ∷ b ∷ rest
      → (body : List ℕ) × (resp : Response) × (captured x req.body ≡ ok body)
        × (a ≡ replayed req body)
        × (x.first a ≡ ok resp)
        × (resp.status ≡ 402)
        × (rest ≡ [])
        × IsRetryOf x resp (do_request x req).0 a body b
  do_request-retries req a b rest h = retried req a b rest (do_request x req).0 refl h
