-- ===== src/X402/Payments.antt =====
-- What `Do` of x402/x402.go pays, and what `ParseUint` reads.
use clawdwallet.Base.{
  subst, ℕ, ◌+◌, ◌*◌, ◌-◌, ◌^◌, ◌≡◌, refl, ap, sym, ◌∙◌, inl, inr, true, Bool-cases, Option, none,
  some, Option-cases, List, [], ◌∷◌, Error, Result, ok, Result-cases, arith, str_eq, ◌==◌, ltb,
  ltb→lt,
}
use clawdwallet.Base.Machine.{IsU64}
use clawdwallet.Encoding.Text.{codes}
use clawdwallet.X402.{
  finish_with, PaymentRequirement, Payment, Request, Response, Exchange, parse_digits, parse_uint,
  amount, requirement_of, payment_of, retry_of, replayed, captured, pay_and_retry, do_request,
}

digits-IsU64 : (n : ℕ) (cs : List ℕ) (v : ℕ) → IsU64 n → parse_digits n cs ≡ some v → IsU64 v
unfolding parse_digits
digits-IsU64 n [] v u h = ground (arith, h)
digits-IsU64 n (c ∷ cs) v u h = elim (Bool-cases (ltb (n * 10 + (c - 48)) (2 ^ 64))) [
  | inl q ↦
      ground
        (arith, q, h, digits-IsU64 (n * 10 + (c - 48)) cs v (ltb→lt (n * 10 + (c - 48)) (2 ^ 64) q))
  | inr q ↦ ground (arith, q, h)
]

parsed-IsU64 : (cs : List ℕ) (v : ℕ) → parse_uint cs ≡ some v → IsU64 v
unfolding parse_uint
parsed-IsU64 [] v h = cc
parsed-IsU64 (c ∷ cs) v h = digits-IsU64 0 (c ∷ cs) v (omega arith) h

-- What a 402 response has to say for a payment to be made.
abbrev pub IsDemanded : Exchange → Response → Payment → Type 0
IsDemanded x resp p =
    (resp.status ≡ 402)
    × (pr : PaymentRequirement) × (x.decode resp.payment_required ≡ ok pr)
    × (p.mint ≡ pr.asset)
    × (p.recipient ≡ pr.receiver)
    × (parse_uint (codes pr.max_amount_required) ≡ some p.amount)
    × IsU64 p.amount

module _ (x : Exchange) where
  -- What a requirement is read from.
  pub requirement-inv :
      (resp : Response) (pr : PaymentRequirement) (v : ℕ)
      → requirement_of x resp ≡ ok (pr, v)
      → (x.decode resp.payment_required ≡ ok pr)
        × (parse_uint (codes pr.max_amount_required) ≡ some v)
  unfolding requirement_of amount
  requirement-inv resp pr v h = elim (Bool-cases (str_eq resp.payment_required "")) [
    | inl q1 ↦ absurd (let z = rw (q1, requirement_of) at h in cc)
    | inr q1 ↦ elim (Result-cases (x.decode resp.payment_required)) [
      | inr (e, q2) ↦ absurd (let z = rw (q1, q2, requirement_of) at h in cc)
      | inl (r, q2) ↦ elim (Option-cases (parse_uint (codes r.max_amount_required))) [
        | inl q3 ↦ absurd (let z = rw (q1, q2, q3, requirement_of, amount) at h in cc)
        | inr (w, q3) ↦
            let z = rw (q1, q2, q3, requirement_of, amount) at h in
            let e : r ≡ pr = cc in
            let f : w ≡ v = cc in
            (
              q2 ∙ ap ok e,
              ap (λ y. parse_uint (codes y.max_amount_required)) (sym e) ∙ q3 ∙ ap some f,
            )
      ]
    ]
  ]

  demanded :
      (resp : Response) (pr : PaymentRequirement) (v : ℕ)
      → (resp.status == 402) ≡ true
      → requirement_of x resp ≡ ok (pr, v)
      → IsDemanded x resp (payment_of pr v)
  demanded resp pr v s h =
      let (d, g) = requirement-inv resp pr v h in
      (ground (arith, s), pr, d, refl, refl, g, parsed-IsU64 (codes pr.max_amount_required) v g)

  pub finished :
      (req retry : Request) (made : List Payment) (o : Option Error)
      → (finish_with x req made retry o).0 ≡ made
  finished req retry made none = refl
  finished req retry made (some e) = refl

  paid :
      (payer : Payment → Result (List ℕ)) (req : Request) (body : List ℕ) (resp : Response)
      (p : Payment) (ps : List Payment)
      → (resp.status == 402) ≡ true
      → (pay_and_retry x payer req body resp).0 ≡ p ∷ ps
      → (ps ≡ []) × IsDemanded x resp p
  unfolding pay_and_retry
  paid payer req body resp p ps s h = elim (Result-cases (requirement_of x resp)) [
    | inr (e, q1) ↦ absurd (let z = rw (q1, pay_and_retry) at h in cc)
    | inl ((pr, v), q1) ↦ elim (Result-cases (payer (payment_of pr v))) [
      | inr (e, q2) ↦ absurd (let z = rw (q1, q2, pay_and_retry) at h in cc)
      | inl (raw_tx, q2) ↦
          let retry = retry_of x req body pr raw_tx in
          let k : (finish_with x req (payment_of pr v ∷ []) retry (x.new_request retry)).0
              ≡ p ∷ ps =
            rw (q1, q2, pay_and_retry) at h in
          let z = sym (finished req retry (payment_of pr v ∷ []) (x.new_request retry)) ∙ k in
          let e : payment_of pr v ≡ p = cc in
          let f : [] ≡ ps = cc in (sym f, subst (IsDemanded x resp) e (demanded resp pr v s q1))
    ]
  ]

  -- A payment is made once at most, and only after an answer with status 402: of the asset, to
  -- the receiver and of the amount that the answer names, which fits 64 bits.
  pub do_request-pays :
      (req : Request) (p : Payment) (ps : List Payment)
      → (do_request x req).0 ≡ p ∷ ps
      → (ps ≡ [])
        × (body : List ℕ) × (resp : Response) × (captured x req.body ≡ ok body)
        × (x.first (replayed req body) ≡ ok resp)
        × IsDemanded x resp p
  unfolding do_request pay_and_retry
  do_request-pays req p ps h = elim (Option-cases x.payer) [
    | inl q1 ↦ absurd (let z = rw (q1, do_request) at h in cc)
    | inr (payer, q1) ↦ elim (Result-cases (captured x req.body)) [
      | inr (e, q2) ↦ absurd (let z = rw (q1, q2, do_request) at h in cc)
      | inl (body, q2) ↦ elim (Result-cases (x.first (replayed req body))) [
        | inr (e, q3) ↦ absurd (let z = rw (q1, q2, q3, do_request) at h in cc)
        | inl (resp, q3) ↦ elim (Bool-cases (resp.status == 402)) [
          | inr q4 ↦ absurd (let z = rw (q1, q2, q3, q4, do_request) at h in cc)
          | inl q4 ↦
              let (a, b) =
                paid payer (replayed req body) body resp p ps q4
                  (rw (q1, q2, q3, q4, do_request) at h) in
              (a, body, resp, q2, q3, b)
        ]
      ]
    ]
  ]
