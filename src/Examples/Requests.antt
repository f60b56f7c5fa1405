-- ===== src/Examples/Requests.antt =====
-- An HTTP request that is paid for.
use clawdwallet.Base.{ℕ, ◌≡◌, refl, none, some, List, [], ◌∷◌, ok}
use clawdwallet.X402.{
  PaymentRequirement, Payment, Request, Response, Exchange, captured, replayed, do_request,
}
use clawdwallet.X402.Payments.{IsDemanded, do_request-pays}
use clawdwallet.X402.Retry.{IsRetryOf, do_request-retries}

abbrev exchange : Exchange
exchange = record {
  first = λ r. ok (record { status = 402; payment_required = "{}" });
  second = λ r. ok (record { status = 200; payment_required = "" });
  read_all = λ b. ok b;
  decode = λ h. ok (record {
    scheme = "exact";
    network = "solana";
    asset = "usdc";
    max_amount_required = "12";
    receiver = "dest";
  });
  payer = some (λ p. ok (1 ∷ 2 ∷ []));
  encode_payment = λ scheme network tx. "payment";
  new_request = λ r. none;
}

abbrev get_request : Request
get_request = record { method = "GET"; url = "https://x"; headers = []; body = none }

abbrev payment : Payment
payment = record { mint = "usdc"; recipient = "dest"; amount = 12 }

paid_once : (do_request exchange get_request).0 ≡ payment ∷ []
unfolding do_request clawdwallet.X402.pay_and_retry clawdwallet.X402.requirement_of
    clawdwallet.X402.amount clawdwallet.X402.parse_uint clawdwallet.X402.parse_digits
paid_once = refl

do_request-pays_example :
    (◌≡◌ {A = List Payment} [] [])
    × (body : List ℕ) × (resp : Response) × (captured exchange get_request.body ≡ ok body)
    × (exchange.first (replayed get_request body) ≡ ok resp)
    × IsDemanded exchange resp payment
do_request-pays_example = do_request-pays exchange get_request payment [] paid_once

abbrev retried : Request
retried = record {
  method = "GET";
  url = "https://x";
  headers = ("X-Payment", "payment") ∷ [];
  body = some [];
}

two_requests : (do_request exchange get_request).1 ≡ get_request ∷ retried ∷ []
unfolding do_request clawdwallet.X402.pay_and_retry clawdwallet.X402.requirement_of
    clawdwallet.X402.amount clawdwallet.X402.parse_uint clawdwallet.X402.parse_digits
    clawdwallet.X402.set_header
two_requests = refl

do_request-retries_example :
    (body : List ℕ) × (resp : Response) × (captured exchange get_request.body ≡ ok body)
    × (get_request ≡ replayed get_request body)
    × (exchange.first get_request ≡ ok resp)
    × (resp.status ≡ 402)
    × (◌≡◌ {A = List Request} [] [])
    × IsRetryOf exchange resp (do_request exchange get_request).0 get_request body retried
do_request-retries_example =
    do_request-retries exchange get_request get_request retried [] two_requests
