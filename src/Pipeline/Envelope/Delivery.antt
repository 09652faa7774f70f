-- ===== src/Pipeline/Envelope/Delivery.antt =====
-- The envelope stage where receivers may be gone: what arrives of the sends of a run.
use kronical.Prelude.{
  ℕ, ◌+◌, ◌≡◌, refl, ◌∙◌, Bool, true, false, List, [], ◌∷◌, ◌++◌, arith, if_elim, if◌then◌else◌,
}
use mathlib.Core.Path.{subst}
use kronical.Events.Model.{ActivityState}
use kronical.Pipeline.{
  DeriveCommand, CompressionCommand, SnapshotMessage, Send, to_hints, to_storage, to_compression,
  to_snapshot,
}
use kronical.Pipeline.Envelope.{run, start}
use kronical.Pipeline.Envelope.Runs.{run-Links}
use kronical.Pipeline.Envelope.Transitions.{Links, reported}
use kronical.Snapshot.{Transition}
use kronical.Time.{DateTime}

-- The sends whose failure ends the stage. That of a hint or of a storage command is logged, and
-- that of a shutdown is ignored.
abbrev pub stops : Send → Bool
stops (to_compression (CompressionCommand.process _ _)) = true
stops (to_snapshot (SnapshotMessage.update _)) = true
stops (to_snapshot SnapshotMessage.publish) = true
stops _ = false

-- What arrives, where the send with number `n` succeeds if `up n` is true.
unfoldable pub deliver : (ℕ → Bool) → ℕ → List Send → List Send
deliver up n [] = []
deliver up n (m ∷ sends) =
    let rest = deliver up (n + 1) sends in
    let failed = if stops m then [] else rest in if up n then m ∷ rest else failed

-- One list of transitions begins with another.
abbrev Begins : List Transition → List Transition → Type 0
Begins all ts = (rest : List Transition) × (all ≡ ts ++ rest)

reported-cons :
    (m : Send) (xs ys : List Send)
    → Begins (reported ys) (reported xs)
    → Begins (reported (m ∷ ys)) (reported (m ∷ xs))
reported-cons (to_snapshot (SnapshotMessage.update u)) xs ys (rest, e) = (rest, ground (arith, e))
reported-cons (to_snapshot (SnapshotMessage.activity r)) xs ys b = b
reported-cons (to_snapshot SnapshotMessage.publish) xs ys b = b
reported-cons (to_snapshot SnapshotMessage.hints_complete) xs ys b = b
reported-cons (to_snapshot SnapshotMessage.shutdown) xs ys b = b
reported-cons (to_hints e) xs ys b = b
reported-cons (to_storage c) xs ys b = b
reported-cons (to_compression c) xs ys b = b

-- A send that does not stop the stage reports no transition.
reported-unstopped : (m : Send) (ys : List Send) → stops m ≡ false → reported (m ∷ ys) ≡ reported ys
reported-unstopped m ys h = ground arith

deliver-Begins :
    (up : ℕ → Bool) (n : ℕ) (sends : List Send)
    → Begins (reported sends) (reported (deliver up n sends))
unfolding deliver
deliver-Begins up n [] = ([], refl)
deliver-Begins up n (m ∷ sends) =
    let rest = deliver up (n + 1) sends in
    let begins = deliver-Begins up (n + 1) sends in
    if_elim (λ out. Begins (reported (m ∷ sends)) (reported out)) (up n) (m ∷ rest)
      (if stops m then [] else rest) (λ ok. reported-cons m rest sends begins)
      (λ failed.
        if_elim (λ out. Begins (reported (m ∷ sends)) (reported out)) (stops m) [] rest
          (λ fatal. (reported (m ∷ sends), refl))
          (λ logged. (begins.0, reported-unstopped m sends logged ∙ begins.1)))

Links-prefix :
    (s t : ActivityState) (xs ys : List Transition)
    → Links s (xs ++ ys) t
    → (u : ActivityState) × (Links s xs u × Links u ys t)
Links-prefix s t [] ys l = (s, (refl, l))
Links-prefix s t (x ∷ xs) ys l =
    let (u, h) = Links-prefix x.to t xs ys l.2 in (u, ((l.0, l.1, h.0), h.1))

-- What arrives, `ts`, is cut off the front of `all`, and both parts lead on.
abbrev pub Cut : ActivityState → List Transition → List Transition → ActivityState → Type 0
Cut s all ts t =
    (u : ActivityState) × (missed : List Transition) × ((all ≡ ts ++ missed)
      × Links s ts u
      × Links u missed t)

-- Whichever sends of a run fail, and whenever: the transitions that arrive are the first of those
-- that the run reports. They lead on, one from the other, from `Inactive`, and the rest from there
-- to the engine's state: a failure cuts them off, and leaves no gap between two that arrive.
pub deliver-Cut :
    (up : ℕ → Bool) (now : DateTime) (grace idle : ℕ) (cs : List DeriveCommand)
    → let (s, sends) = run (start now grace idle) cs in
      Cut ActivityState.inactive
        (reported sends)
        (reported (deliver up 0 sends))
        s.state_deriver.engine.current
deliver-Cut up now grace idle cs =
    let (s, sends) = run (start now grace idle) cs in
    let (missed, e) = deliver-Begins up 0 sends in
    let all = run-Links now grace idle cs in
    let (u, h) =
      Links-prefix ActivityState.inactive s.state_deriver.engine.current
        (reported (deliver up 0 sends)) missed
        (subst (λ ts. Links ActivityState.inactive ts s.state_deriver.engine.current) e all) in
    (u, missed, (e, h.0, h.1))
