-- ===== src/Cli/Fetch.antt =====
-- x402.go: an HTTP request from the command line, which may be paid for.
use clawdwallet.Base.{
  ℕ, String, Option, none, some, List, [], ◌∷◌, Error, Result, ok, err, message, return_if, ◌>>=◌,
  ◌>>◌, if◌then◌else◌, str_eq,
}
use clawdwallet.Encoding.Text.{split, cut}
use clawdwallet.Encoding.Header.{trim_space, canonical_header}
use clawdwallet.Store.Disk.{Disk}
use clawdwallet.Agent.Runtime.{RuntimeEnv, Agent}
use clawdwallet.X402.{Request, Response, Payment, Exchange, set_header, do_request}
use clawdwallet.Cli.Started.{with_agent}

pub record FetchFlags : Type 0 where
  pub method : String
  pub body : String
  pub header : String
  pub urls : List String

-- `Header.Set` of one part of the flag, if it has a colon.
abbrev set_part : List (String × String) → Option (String × String) → List (String × String)
set_part headers none = headers
set_part headers (some (k, v)) = set_header (canonical_header (trim_space k)) (trim_space v) headers

unfoldable pub set_parts : List (String × String) → List String → List (String × String)
set_parts headers [] = headers
set_parts headers (h ∷ hs) = set_parts (set_part headers (cut b':' (trim_space h))) hs

unfoldable pub headers_of : String → List (String × String)
headers_of flag = if str_eq flag "" then [] else set_parts [] (split b';' flag)

-- Standard input, the files, and what `http.NewRequest` says of a method and a URL.
pub record Inputs : Type 0 where
  pub stdin : List ℕ
  pub open_file : String → Result (List ℕ)
  pub new_request : String → String → Option Error

unfoldable pub body_reader : Inputs → String → Result (Option (List ℕ))
body_reader i file =
    if str_eq file "-"
    then ok (some i.stdin)
    else if str_eq file ""
    then ok none
    else (i.open_file file >>= λ b. ok (some b))

-- `http.NewRequest` takes no method for GET.
abbrev method_of : String → String
method_of m = if str_eq m "" then "GET" else m

abbrev first_arg : List String → Result String
first_arg [] = err (message "x402: URL required")
first_arg (u ∷ us) = ok u

unfoldable pub request_from : Inputs → FetchFlags → String → Result Request
request_from i fs url = do
  body ← body_reader i fs.body
  return_if (i.new_request fs.method url)
  ok (record {
    method = method_of fs.method;
    url = url;
    headers = headers_of fs.header;
    body = body;
  })

-- The agent that pays, and the request.
unfoldable pub fetch_request :
    (env : RuntimeEnv)
    → Inputs
    → Option Error
    → Result FetchFlags
    → Disk
    → Result (Agent env × Request)
fetch_request env i read_fault parsed d = do
  fs ← parsed
  url ← first_arg fs.urls
  (c, a) ← with_agent env read_fault d
  req ← request_from i fs url
  ok (a, req)

-- The payments, the requests, and the response that is copied to the terminal. `exchange` is the
-- world of the client that is made with the agent as its payer.
unfoldable pub run_x402 :
    (env : RuntimeEnv)
    → Inputs
    → (Agent env → Exchange)
    → Option Error
    → Result FetchFlags
    → Disk
    → List Payment × List Request × Result Response
run_x402 env i exchange read_fault parsed d = elim (fetch_request env i read_fault parsed d) [
  | err e ↦ ([], [], err e)
  | ok (a, req) ↦ do_request (exchange a) req
]
