-- ===== src/Mcp/Replies.antt =====
-- When the server of mcp/mcp.go answers, and how.
use clawdwallet.Base.{
  subst, ◌≡◌, ◌≢◌, ◌↔◌, inl, inr, refl, ap, sym, String, Bool, true, false, not, Bool-cases, Option,
  none, some, List, [], ◌∷◌, arith, eq_iff, str_eq, if◌then◌else◌, ◌||◌,
}
use clawdwallet.Mcp.{
  Json, ToolSpec, RpcRequest, RpcResponse, RpcError, called, tools_call, answer, handle, respond,
}

notified :
    {V : Type 0} (p q : Bool) (id : String)
    → str_eq id "" ≡ p
    → str_eq id "null" ≡ q
    → (x y : RpcResponse V)
    → ◌≡◌ {A = Option (RpcResponse V)} (if p || q then none else some x) (some y)
    → (id ≢ "") × (id ≢ "null") × (y ≡ x)
notified true q id e f x y h = cc
notified false true id e f x y h = cc
notified false false id e f x y h =
    ((λ z. ground (arith, eq_iff id "", e, z)), (λ z. ground (arith, eq_iff id "null", f, z)), cc)

answered : (id : String) → id ≢ "" → id ≢ "null" → (str_eq id "" || str_eq id "null") ≡ false
answered id n m = ground (arith, eq_iff id "", eq_iff id "null", n, m)

-- A request that parses is answered exactly if its id is neither missing nor `null`, and with
-- that id and the answer to its method.
handle_iff :
    (json : Json) (tools : List (ToolSpec json)) (req : RpcRequest json.Value)
    (r : RpcResponse json.Value)
    → (handle json tools (some req) ≡ some r) ↔ (
        (req.id ≢ "")
        × (req.id ≢ "null")
        × (r ≡ respond json req.id (answer json tools req.method req.params)))
unfolding handle
handle_iff json tools req r = (
  λ h. notified (str_eq req.id "") (str_eq req.id "null") req.id refl refl _ r h,
  λ (n, m, e). rw (answered req.id n m) (ap some (sym e)),
)

-- Exactly one of the result and the error.
unfoldable pub has_one : {V : Type 0} → Option V × Option RpcError → Bool
has_one (none, none) = false
has_one (some v, none) = true
has_one (none, some e) = true
has_one (some v, some e) = false

has_one-tools_call :
    (json : Json) (tools : List (ToolSpec json)) (name : String) (args : json.Value)
    → has_one (tools_call json tools name args) ≡ true
unfolding has_one tools_call
has_one-tools_call json [] name args = refl
has_one-tools_call json (t ∷ ts) name args = elim (Bool-cases (str_eq t.name name)) [
  | inl q ↦ rw q
  | inr q ↦ rw q (has_one-tools_call json ts name args)
]

has_one-called :
    (json : Json) (tools : List (ToolSpec json)) (params : Option (String × json.Value))
    → has_one (called json tools params) ≡ true
unfolding has_one
has_one-called json tools none = refl
has_one-called json tools (some (name, args)) = has_one-tools_call json tools name args

-- The answer to a method has exactly one of a result and an error, unless the method tells the
-- server that the client is initialized: then it has neither.
pub has_one-answer :
    (json : Json) (tools : List (ToolSpec json)) (method : String)
    (params : Option (String × json.Value))
    → has_one (answer json tools method params)
      ≡ not (str_eq method "notifications/initialized" || str_eq method "initialized")
unfolding answer has_one
has_one-answer json tools method params =
    let P : String → Type 0 = λ m.
      has_one (answer json tools m params)
      ≡ not (str_eq m "notifications/initialized" || str_eq m "initialized") in
    elim (Bool-cases (str_eq method "initialize")) [
      | inl q ↦ subst P (sym ((eq_iff method "initialize").0 q)) refl
      | inr q1 ↦
          elim (Bool-cases
            (str_eq method "notifications/initialized" || str_eq method "initialized")) [
              | inl q ↦ rw (q1, q, answer)
              | inr q2 ↦ elim (Bool-cases (str_eq method "tools/list")) [
                | inl q ↦ rw (q1, q2, q, answer)
                | inr q3 ↦ elim (Bool-cases (str_eq method "tools/call")) [
                  | inl q ↦ rw (q1, q2, q3, q, answer) (has_one-called json tools params)
                  | inr q4 ↦ elim (Bool-cases (str_eq method "ping" || str_eq method "shutdown")) [
                    | inl q ↦ rw (q1, q2, q3, q4, q, answer)
                    | inr q5 ↦ rw (q1, q2, q3, q4, q5, answer)
                  ]
                ]
              ]
            ]
    ]
