-- ===== src/Agent/Handlers/Paths.antt =====
-- A frame of `sendWalletSign` arrives at the handler of `handleWalletSign` for its session.
use Prim.Native.String
use clawdwallet.Base.{
  ℕ, ◌≡◌, refl, ap, sym, subst, ◌∙◌, ◌≢◌, inl, inr, String, false, Bool-cases, some, List, [], ◌∷◌,
  arith, eq_iff, str_eq, if◌then◌else◌,
}
use text.Mathlib.TextLemmas.{append_assoc}
use clawdwallet.Base.Maps.{lookup}
use clawdwallet.Encoding.Text.{split}
use clawdwallet.Encoding.Text.Split.{Lacks, split-Lacks, split-slash}
use clawdwallet.Agent.Ceremony.{walletsign_frame, slash}
use clawdwallet.Agent.Handlers.{
  WalletSignEnv, handle_wallet_sign, session_part, routed, start_session, deliver_to,
}

-- No slash.
abbrev pub IsSegment : String → Type 0
IsSegment s = Lacks b'/' s

split-slash_path : (a b : String) → IsSegment a → split b'/' (slash a b) ≡ a ∷ split b'/' b
split-slash_path a b h = split-slash a b h

-- What the handler finds after the session's id.
abbrev pub suffix_part : String → List String
suffix_part suffix = if str_eq suffix "" then [] else suffix ∷ []

slash_assoc : (a b c : String) → slash (slash a b) c ≡ slash a (slash b c)
slash_assoc a b c =
    append_assoc a (String.◌++◌ "/" b) (String.◌++◌ "/" c)
    ∙ ap (String.◌++◌ a) (append_assoc "/" b (String.◌++◌ "/" c))

IsSegment-walletsign : IsSegment "walletsign"
IsSegment-walletsign = omega arith

split-target :
    (target sid : String) (rest : List String) (s : String)
    → IsSegment target
    → split b'/' s ≡ sid ∷ rest
    → split b'/' (slash target (slash "walletsign" s)) ≡ target ∷ "walletsign" ∷ sid ∷ rest
split-target target sid rest s ht e =
    split-slash_path target (slash "walletsign" s) ht
    ∙ ap (λ x. target ∷ x)
        (split-slash_path "walletsign" s IsSegment-walletsign ∙ ap (λ x. "walletsign" ∷ x) e)

session_part-target :
    (my_spot target sid suffix party_id : String) (body : List ℕ)
    → IsSegment target
    → IsSegment sid
    → IsSegment suffix
    → session_part (split b'/' (walletsign_frame my_spot target sid suffix party_id body).target)
      ≡ some (sid, suffix_part suffix)
unfolding walletsign_frame
session_part-target my_spot target sid suffix party_id body ht hs hx =
    elim (Bool-cases (str_eq suffix "")) [
      | inl q ↦ rw q (ap session_part (split-target target sid [] sid ht (split-Lacks b'/' sid hs)))
      | inr q ↦ rw q (
          ap (λ x. session_part (split b'/' x))
            (slash_assoc target (slash "walletsign" sid) suffix
              ∙ ap (slash target) (slash_assoc "walletsign" sid suffix))
          ∙ ap session_part (
              split-target target sid (suffix ∷ []) (slash sid suffix) ht
                (split-slash_path sid suffix hs ∙ ap (λ x. sid ∷ x) (split-Lacks b'/' suffix hx))))
    ]

frame_body :
    (my_spot target sid suffix party_id : String) (body : List ℕ)
    → (walletsign_frame my_spot target sid suffix party_id body).body ≡ body
unfolding walletsign_frame
frame_body my_spot target sid suffix party_id body = refl

routed_suffix :
    (env : WalletSignEnv) (sid sender suffix : String) (body : List ℕ)
    → routed env sid sender body (suffix_part suffix) ≡ (
        if str_eq suffix "init"
        then start_session env sid sender body
        else deliver_to env (lookup sid env.brokers) sid body)
routed_suffix env sid sender suffix body = elim (Bool-cases (str_eq suffix "")) [
  | inr q ↦ rw q
  | inl q ↦
      let P : String → Type 0 = λ x. routed env sid sender body (suffix_part x) ≡ (
        if str_eq x "init"
        then start_session env sid sender body
        else deliver_to env (lookup sid env.brokers) sid body) in
      subst P (sym ((eq_iff suffix "").0 q)) refl
]

-- A frame whose target, session id and suffix have no slash, and whose session id is not empty,
-- is taken by the handler of its receiver for that session: with the suffix `init` its body and
-- its sender start that session, and else its body is a message for the session's broker.
pub handle-walletsign_frame :
    (env : WalletSignEnv) (my_spot target sid suffix party_id : String) (body : List ℕ)
    → IsSegment target
    → IsSegment sid
    → sid ≢ ""
    → IsSegment suffix
    → let f = walletsign_frame my_spot target sid suffix party_id body in
      handle_wallet_sign env
        (some (record { recipient = f.target; sender = f.sender; body = f.body }))
      ≡ (if str_eq suffix "init"
          then start_session env sid f.sender body
          else deliver_to env (lookup sid env.brokers) sid body)
unfolding handle_wallet_sign
handle-walletsign_frame env my_spot target sid suffix party_id body ht hs n hx =
    let q : str_eq sid "" ≡ false = ground (arith, n, eq_iff sid "") in
    rw
      (
        handle_wallet_sign,
        session_part-target my_spot target sid suffix party_id body ht hs hx,
        q,
        frame_body my_spot target sid suffix party_id body,
      )
      (routed_suffix env sid _ suffix body)
