-- ===== src/Examples/World.antt =====
-- The data of the runs: three peers, a share, and an environment.
use clawdwallet.Base.{
  ℕ, ◌≡◌, refl, String, true, Bool-cases, inl, inr, none, some, List, [], ◌∷◌, arith, ok, replicate,
  str_eq, eq_iff, Result, err, message, ap, sym,
}
use clawdwallet.Agent.Party.{PeerSpec, Libraries}
use clawdwallet.Base.Machine.{pos}
use clawdwallet.Store.Share.{Share}
use clawdwallet.Store.Disk.{Bottles}
use clawdwallet.Solana.Keys.{SolanaKey}
use clawdwallet.Agent.Session.{InitPayload}
use clawdwallet.Agent.Keygen.{KeygenEnv}
use clawdwallet.Agent.Ceremony.{SignEnv, Local, done}
use native.Mathlib.Decide.{ℕ_discrete}
use clawdwallet.Examples.Sorting.{sort_parties, sort_parties-perm, sort_parties-IsSorted}

-- A hash that is its input.
unfoldable pub libraries : Libraries
unfolding sort_parties
libraries = record {
  sha256 = λ bs. bs;
  sort_party_ids = sort_parties;
  sort-perm = sort_parties-perm;
  sort-IsSorted = sort_parties-IsSorted;
}

abbrev pub peer : String → String → PeerSpec
peer id key = record { spot_id = id; moniker = "m"; key = key }

-- The keys are 2 and 1 in base64url; the third has none.
abbrev pub alice : PeerSpec
alice = peer "a" "Ag"

abbrev pub bob : PeerSpec
bob = peer "b" "AQ"

abbrev carol : PeerSpec
carol = peer "c" ""

abbrev pub peers : List PeerSpec
peers = alice ∷ bob ∷ carol ∷ []

-- A FROST share of the three peers.
abbrev pub share : Share
share = record {
  wallet_id = "crws:w";
  schema = "frost";
  party_key = none;
  peer_keys = some 1 ∷ some 2 ∷ some 99 ∷ [];
  peer_spot_ids = "b" ∷ "a" ∷ "c" ∷ [];
  threshold = pos 1;
  frost_key = some (record { group_public_key = none });
  dkls_blob = [];
  pub_key = [];
  secp256k1_pub = [];
}

abbrev pub local : Local
local = record { started = true; spot_id = "a"; share = some share }

-- A network that takes every frame, and a FROST signer that always signs.
unfoldable pub sign_env : SignEnv
sign_env = record {
  lib = libraries;
  DklsKey = Unit {0};
  load = λ _. ok tt;
  frost_signing = λ _ _ _. ok (done (replicate 64 7));
  dkls_signing = λ _ _ _. ok (done (record { r = 1; s = 2; v = 0 }));
  marshal = λ i. ok i.digest;
  send = λ _. none;
}

pub String-discrete : Discrete String
String-discrete s t = elim (Bool-cases (str_eq s t)) [
  | inl e ↦ yes ((eq_iff s t).0 e)
  | inr e ↦ no (λ h. ground (arith, e, eq_iff s t, h))
]

Share-discrete : Discrete Share
Share-discrete = hlevel (ℕ_discrete, String-discrete)

-- The share is written as one byte, and no other share can be written.
abbrev pub written : {sh : Share} → Dec (sh ≡ share) → Result (List ℕ)
written (yes e) = ok (0 ∷ [])
written (no n) = err (message "not the share")

pub marshal : Share → Result (List ℕ)
unfolding Share-discrete
marshal sh = written (Share-discrete sh share)

written_back :
    (sh : Share) (body : List ℕ) (d : Dec (sh ≡ share))
    → written d ≡ ok body
    → ◌≡◌ {A = Result Share} (ok share) (ok sh)
written_back sh body (yes e) h = ap ok (sym e)
written_back sh body (no n) h = cc

pub decodes_share :
    (sh : Share) (body : List ℕ) → marshal sh ≡ ok body → ◌≡◌ {A = Result Share} (ok share) (ok sh)
unfolding marshal
decodes_share sh body h = written_back sh body (Share-discrete sh share) h

pub opens_body :
    (a body wire b c : List ℕ)
    → ◌≡◌ {A = Result (List ℕ)} (ok body) (ok a)
    → ◌≡◌ {A = Result (List ℕ)} (ok a) (ok b)
    → ◌≡◌ {A = Result (List ℕ)} (ok b) (ok c)
    → ◌≡◌ {A = Result (List ℕ)} (ok c) (ok wire)
    → ◌≡◌ {A = Result (List ℕ)} (ok wire) (ok body)
opens_body a body wire b c e f g h = cc

written_share : (d : Dec (share ≡ share)) → written d ≡ ok (0 ∷ [])
written_share (yes e) = refl
written_share (no n) = absurd (n refl)

unfoldable pub bottles : Bottles
unfolding marshal
bottles = record {
  Keychain = Unit {0};
  Signer = Unit {0};
  Bottle = List ℕ;
  Opener = Unit {0};
  signers = λ _. tt ∷ [];
  new_bottle = λ b. b;
  encrypt = λ _ b. ok b;
  bottle_up = λ b. ok b;
  sign = λ _ b. ok b;
  to_cbor = λ b. ok b;
  new_opener = λ _. ok tt;
  open_cbor = λ _ b. ok b;
  marshal_share = marshal;
  unmarshal_share = λ b. ok share;
  opens = λ kc s rest body wire a b c e1 e2 e3 e4 e5.
      (tt, refl, opens_body a body wire b c e2 e3 e4 e5);
  decodes = decodes_share;
}

pub marshal_ok : marshal share ≡ ok (0 ∷ [])
unfolding marshal
marshal_ok = written_share (Share-discrete share share)

unfoldable pub keychain : bottles.Keychain
unfolding bottles
keychain = tt

-- Every text stands for one key.
abbrev pub five_key : SolanaKey
five_key = replicate 32 5

abbrev pub init : InitPayload
init = record {
  kind = "keygen";
  sid = "s";
  curve = "ed25519";
  protocol = "frost";
  peers = peers;
  threshold = pos 1;
  digest = "";
  wallet_id = "crws:w";
  new_peers = [];
  new_threshold = pos 0;
}

-- A key generation that ends with a key that has no public key.
unfoldable pub keygen_env : KeygenEnv
keygen_env = record {
  lib = libraries;
  DklsKey = Unit {0};
  save_key = λ _. ok (1 ∷ []);
  ecdsa_pub = λ _. none;
  frost_keygen = λ _. ok (done (some (record { group_public_key = none })));
  dkls_keygen = λ _. ok (done (some tt));
}
