-- ===== src/X402.antt =====
-- x402/x402.go: an HTTP request that is paid for once and sent again.
pub mod Payments
pub mod Retry
use clawdwallet.Base.{
  ℕ, ◌+◌, ◌*◌, ◌-◌, ◌^◌, String, Bool, true, false, Option, none, some, List, [], ◌∷◌, ◌++◌, Error,
  Result, ok, err, message, about, wrap, context, if◌then◌else◌, str_eq, ◌==◌, ltb, leb, ◌&&◌,
}
use clawdwallet.Encoding.Text.{codes, text}
use clawdwallet.Encoding.Base64.{encode_padded, std}

-- `Extra` is not read.
pub record PaymentRequirement : Type 0 where
  pub scheme : String
  pub network : String
  pub asset : String
  pub max_amount_required : String
  pub receiver : String

-- The decimal digits of a `uint64`: the value so far, and the rest.
unfoldable pub parse_digits : ℕ → List ℕ → Option ℕ
parse_digits n [] = some n
parse_digits n (c ∷ cs) =
    let next = n * 10 + (c - 48) in
    let rest = parse_digits next cs in
    if leb 48 c && leb c 57 then if ltb next (2 ^ 64) then rest else none else none

-- `strconv.ParseUint(s, 10, 64)`
unfoldable pub parse_uint : List ℕ → Option ℕ
parse_uint [] = none
parse_uint (c ∷ cs) = parse_digits 0 (c ∷ cs)

-- The error of `ParseUint`, which `%w` wraps, is left out.
unfoldable pub amount : PaymentRequirement → Result ℕ
amount p = elim (parse_uint (codes p.max_amount_required)) [
  | none ↦ err (about "x402: invalid maxAmountRequired %q: %w" p.max_amount_required)
  | some v ↦ ok v
]

-- A request: its headers by canonical name, and its body, `none` where it has none.
pub record Request : Type 0 where
  pub method : String
  pub url : String
  pub headers : List (String × String)
  pub body : Option (List ℕ)

-- What the client reads of a response; a missing header is empty.
pub record Response : Type 0 where
  pub status : ℕ
  pub payment_required : String

pub record Payment : Type 0 where
  pub mint : String
  pub recipient : String
  pub amount : ℕ

-- The world of one call of `Do`: the answers to the two requests, the body's reader, JSON, the payer,
-- and whether the URL of the first request is taken for the second.
pub record Exchange : Type 0 where
  pub first : Request → Result Response
  pub second : Request → Result Response
  pub read_all : List ℕ → Result (List ℕ)
  pub decode : String → Result PaymentRequirement
  pub payer : Option (Payment → Result (List ℕ))
  pub encode_payment : String → String → List ℕ → String
  pub new_request : Request → Option Error

abbrev pub payment_header : String
payment_header = "X-Payment"

-- `Header.Set`: the only value under the name.
unfoldable pub set_header : String → String → List (String × String) → List (String × String)
set_header k v [] = (k, v) ∷ []
set_header k v ((i, w) ∷ hs) =
    let rest = set_header k v hs in if str_eq i k then rest else (i, w) ∷ rest

-- The body that is replayed: what was read of it.
abbrev pub captured : Exchange → Option (List ℕ) → Result (List ℕ)
captured x none = ok []
captured x (some b) = x.read_all b

abbrev pub replayed : Request → List ℕ → Request
replayed req body = record req { body = elim req.body [ none ↦ none | some _ ↦ some body ] }

abbrev pub payment_of : PaymentRequirement → ℕ → Payment
payment_of pr v = record { mint = pr.asset; recipient = pr.receiver; amount = v }

-- The second request: method, URL, headers and body of the first, with the payment.
abbrev pub retry_of : Exchange → Request → List ℕ → PaymentRequirement → List ℕ → Request
retry_of x req body pr raw_tx = record {
  method = req.method;
  url = req.url;
  headers =
      set_header payment_header (x.encode_payment pr.scheme pr.network (encode_padded std raw_tx))
        req.headers;
  body = some body;
}

-- The requirement of a 402 response.
unfoldable pub requirement_of : Exchange → Response → Result (PaymentRequirement × ℕ)
requirement_of x resp =
    if str_eq resp.payment_required ""
    then err (message "x402: 402 without X-PAYMENT-REQUIRED header")
    else elim (x.decode resp.payment_required) [
      | err e ↦ err (wrap "x402: bad X-PAYMENT-REQUIRED header" e)
      | ok pr ↦ elim (amount pr) [ err e ↦ err e | ok v ↦ ok (pr, v) ]
    ]

-- `http.NewRequestWithContext` may refuse the method or the URL.
abbrev pub finish_with :
    Exchange
    → Request
    → List Payment
    → Request
    → Option Error
    → List Payment × List Request × Result Response
finish_with x req paid retry (some e) = (paid, req ∷ [], err e)
finish_with x req paid retry none = (paid, req ∷ retry ∷ [], x.second retry)

-- The payments that were made, the requests that were sent, and the answer.
unfoldable pub pay_and_retry :
    Exchange
    → (Payment → Result (List ℕ))
    → Request
    → List ℕ
    → Response
    → List Payment × List Request × Result Response
pay_and_retry x payer req body resp = elim (requirement_of x resp) [
  | err e ↦ ([], req ∷ [], err e)
  | ok (pr, v) ↦ elim (payer (payment_of pr v)) [
    | err e ↦ ([], req ∷ [], err (wrap "x402: payment failed" e))
    | ok raw_tx ↦
        let retry = retry_of x req body pr raw_tx in
        finish_with x req (payment_of pr v ∷ []) retry (x.new_request retry)
  ]
]

unfoldable pub do_request : Exchange → Request → List Payment × List Request × Result Response
do_request x req = elim x.payer [
  | none ↦ ([], [], err (message "x402: nil payer"))
  | some payer ↦ elim (captured x req.body) [
    | err e ↦ ([], [], err e)
    | ok body ↦
        let sent = replayed req body in
        elim (x.first sent) [
          | err e ↦ ([], sent ∷ [], err e)
          | ok resp ↦
              if resp.status == 402
              then pay_and_retry x payer sent body resp
              else ([], sent ∷ [], ok resp)
        ]
  ]
]
