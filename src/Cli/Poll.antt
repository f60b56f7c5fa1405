-- ===== src/Cli/Poll.antt =====
-- keygen.go: the command waits until a share is there, and looks every half second.
use clawdwallet.Base.{
  ℕ, zero, suc, ◌+◌, ◌*◌, ◌/◌, ◌≤◌, ◌<◌, ◌≡◌, ap, sym, ◌∙◌, inl, inr, Bool-cases, Option, none,
  some, Option-cases, arith, ltb, ltb→lt, if◌then◌else◌,
}
use clawdwallet.Store.Share.{Share}

-- 500 milliseconds, in nanoseconds
abbrev pub pause : ℕ
pause = 500000000

-- What the loop ends with: the share, or the deadline.
pub data Waited : Type 0 where
  received : Share → Waited
  timed_out : Waited

-- The clock at the start of each round, and the agent's share in it.
pub record Watch : Type 0 where
  pub clock : ℕ → ℕ
  pub share : ℕ → Option Share

-- The rounds from `i` on. `none` means that the fuel ran out.
unfoldable pub wait_share : ℕ → Watch → ℕ → ℕ → Option Waited
wait_share zero w deadline i = none
wait_share (suc fuel) w deadline i =
    let rest = wait_share fuel w deadline (suc i) in
    if ltb (w.clock i) deadline
    then elim (w.share i) [ some sh ↦ some (received sh) | none ↦ rest ]
    else some timed_out

-- `time.Sleep` takes at least the pause.
abbrev pub IsPaced : Watch → Type 0
IsPaced w = (i : ℕ) → w.clock i + pause ≤ w.clock (suc i)

-- The command with a timeout, from the time at which the deadline is set: as many rounds as fit before
-- the deadline are enough, with one that sees it.
unfoldable pub run_keygen_command : Watch → ℕ → ℕ → Option Waited
run_keygen_command w now timeout = wait_share (timeout / pause + 2) w (now + timeout) 0

-- What the outcome says: the share of a round that began before the deadline, and no share in the
-- rounds before it; or that a round began at the deadline or later, and none before it had a share.
abbrev pub NoShare : Watch → ℕ → ℕ → Type 0
NoShare w i j = (k : ℕ) → i ≤ k → k < j → w.share k ≡ none

pub data Ends (w : Watch) (deadline i : ℕ) : Waited → Type 0 where
  at_share :
      (j : ℕ) (sh : Share)
      → i ≤ j
      → w.share j ≡ some sh
      → w.clock j < deadline
      → NoShare w i j
      → Ends w deadline i (received sh)
  at_deadline : (j : ℕ) → i ≤ j → deadline ≤ w.clock j → NoShare w i j → Ends w deadline i timed_out

NoShare-here : (w : Watch) (i : ℕ) → NoShare w i i
NoShare-here w i k h l = absurd (omega arith)

NoShare-before : (w : Watch) (i j : ℕ) → w.share i ≡ none → NoShare w (suc i) j → NoShare w i j
NoShare-before w i j q n k h l = elim (Bool-cases (ltb i k)) [
  | inl more ↦ n k (omega (arith, ltb→lt i k more)) l
  | inr same ↦ let e : i ≡ k = ground (arith, same) in ap w.share (sym e) ∙ q
]

Ends-before :
    (w : Watch) (deadline i : ℕ) (o : Waited)
    → w.share i ≡ none
    → Ends w deadline (suc i) o
    → Ends w deadline i o
Ends-before w deadline i o q (at_share j sh h s c n) =
    at_share j sh (omega arith) s c (NoShare-before w i j q n)
Ends-before w deadline i o q (at_deadline j h c n) =
    at_deadline j (omega arith) c (NoShare-before w i j q n)

enough :
    (fuel : ℕ) (w : Watch) (deadline i : ℕ)
    → IsPaced w
    → 0 < fuel
    → deadline + pause ≤ w.clock i + fuel * pause
    → (o : Waited) × (wait_share fuel w deadline i ≡ some o) × Ends w deadline i o
unfolding wait_share
enough zero w deadline i p f h = elim f [ ]
enough (suc fuel) w deadline i p f h = elim (Bool-cases (ltb (w.clock i) deadline)) [
  | inr q ↦ (timed_out, rw q, at_deadline i (omega arith) (ground (arith, q)) (NoShare-here w i))
  | inl q ↦ elim (Option-cases (w.share i)) [
    | inr (sh, s) ↦ (
      received sh,
      rw (q, s),
      at_share i sh (omega arith) s (ltb→lt (w.clock i) deadline q) (NoShare-here w i),
    )
    | inl s ↦
        let early = ltb→lt (w.clock i) deadline q in
        let (o, e, ends) =
          enough fuel w deadline (suc i) p (omega (arith, early)) (omega (arith, p i)) in
        (o, rw (q, s, e), Ends-before w deadline i o s ends)
  ]
]

-- If each round of the wait takes at least the pause, the command ends: with the share of the
-- first round that has one, if that round began before the deadline, or at a round that began at
-- the deadline or later, before which no round had a share.
pub run_keygen_command-Ends :
    (w : Watch) (now timeout : ℕ)
    → IsPaced w
    → now ≤ w.clock 0
    → (o : Waited) × (run_keygen_command w now timeout ≡ some o) × Ends w (now + timeout) 0 o
unfolding run_keygen_command
run_keygen_command-Ends w now timeout p h =
    enough (timeout / pause + 2) w (now + timeout) 0 p (omega arith) (omega arith)
