-- ===== src/BinaryAgreement/Latch.antt =====
-- src/binary_agreement/binary_agreement.rs: outputs and decision of a call, and rules for
-- programs.
use hbbft.Prelude.{
  add_u64, ◌≡◌, refl, ◌∙◌, Bool, true, false, Option, none, some, List, [], ◌∷◌, ◌++◌, is_some,
  if◌then◌else◌, Outcome, ok, err, panicked, exhausted, and_then, ◌>>=◌, return,
}
use hbbft.Traits.{default, extend, join}
use hbbft.Messaging.{Target, TargetedMessage, message}
use hbbft.Crypto.{Crypto}
use hbbft.BinaryAgreement.Faults.{Error}
use hbbft.BinaryAgreement.Content.{Message, with_epoch, term}
use hbbft.BinaryAgreement.Instance.{BinaryAgreement, Step, Ba, decide}

-- The outputs of a call; an error has no step.
abbrev pub outputs_of : {C : Crypto} → Outcome (Error C) (Step C) → List Bool
outputs_of (ok step) = step.output
outputs_of (err e) = []
outputs_of panicked = []
outputs_of exhausted = []

-- Whether a call failed: it has no step.
abbrev pub failed : {C : Crypto} → Outcome (Error C) (Step C) → Bool
failed (ok step) = false
failed (err e) = true
failed panicked = true
failed exhausted = true

module _ {C : Crypto} {S : Type 0} where
  -- From one state to another with these outputs: the decision is as before and nothing is output,
  -- or the decision is new, and it is the output unless the call has failed and so has no step.
  pub data Latch (s : BinaryAgreement C S) (out : List Bool) (fails : Bool)
      (t : BinaryAgreement C S) : Type 0 where
    unchanged : t.decision ≡ s.decision → out ≡ [] → Latch s out fails t
    reached :
        (b : Bool) → s.decision ≡ none → t.decision ≡ some b → out ≡ b ∷ [] → Latch s out fails t
    lost :
        (b : Bool)
        → s.decision ≡ none
        → t.decision ≡ some b
        → out ≡ []
        → fails ≡ true
        → Latch s out fails t

  -- A call behind one that has a step.
  pub Latch-append :
      {s t u : BinaryAgreement C S} {a b : List Bool} {fails : Bool}
      → Latch s a false t
      → Latch t b fails u
      → Latch s (a ++ b) fails u
  Latch-append (unchanged p q) (unchanged v w) = unchanged (cc) (rw (q, w) refl)
  Latch-append (unchanged p q) (reached b v w x) = reached b (cc) w (rw (q, x) refl)
  Latch-append (unchanged p q) (lost b v w x f) = lost b (cc) w (rw (q, x) refl) f
  Latch-append (reached b p q r) (unchanged v w) = reached b p (cc) (rw (r, w) refl)
  Latch-append (reached b p q r) (reached c v w x) = absurd (cc)
  Latch-append (reached b p q r) (lost c v w x f) = absurd (cc)
  Latch-append (lost b p q r f) later = absurd (cc)

  -- The same, when the step is lost with a later failure.
  pub Latch-lost :
      {s t : BinaryAgreement C S} {a : List Bool} {fails : Bool}
      → Latch s a fails t
      → Latch s [] true t
  Latch-lost (unchanged p q) = unchanged p refl
  Latch-lost (reached b p q r) = lost b p q refl refl
  Latch-lost (lost b p q r f) = lost b p q refl refl

  abbrev pub Latched :
      BinaryAgreement C S → Outcome (Error C) (Step C) × BinaryAgreement C S → Type 0
  Latched s r = Latch s (outputs_of r.0) (failed r.0) r.1

  -- The rule for a test.
  pub Latched-test :
      (b : Bool) (m k : Ba C S (Step C)) (s t : BinaryAgreement C S)
      → Latched s (m t)
      → Latched s (k t)
      → Latched s ((if b then m else k) t)
  Latched-test true m k s t h l = h
  Latched-test false m k s t h l = l

  pub Latched-if :
      (b : Bool) (r q : Outcome (Error C) (Step C) × BinaryAgreement C S) (s : BinaryAgreement C S)
      → Latched s r
      → Latched s q
      → Latched s (if b then r else q)
  Latched-if true r q s h l = h
  Latched-if false r q s h l = l

  -- From a state with the same decision.
  pub Latched_from :
      {s t u : BinaryAgreement C S} {out : List Bool} {fails : Bool}
      → t.decision ≡ s.decision
      → Latch t out fails u
      → Latch s out fails u
  Latched_from e (unchanged p q) = unchanged (p ∙ e) q
  Latched_from e (reached b p q r) = reached b (cc) q r
  Latched_from e (lost b p q r f) = lost b (cc) q r f

  -- After a call that leaves the decision alone.
  pub Latched-then :
      {A : Type 0} (s : BinaryAgreement C S) (r : Outcome (Error C) A × BinaryAgreement C S)
      (k : A → Ba C S (Step C))
      → r.1.decision ≡ s.decision
      → ((a : A) (t : BinaryAgreement C S) → t.decision ≡ s.decision → Latched t (k a t))
      → Latched s (and_then r k)
  Latched-then s (ok a, t) k e h = Latched_from e (h a t e)
  Latched-then s (err x, t) k e h = unchanged e refl
  Latched-then s (panicked, t) k e h = unchanged e refl
  Latched-then s (exhausted, t) k e h = unchanged e refl

  -- A call whose step comes behind another.
  pub Latched-after :
      (s t : BinaryAgreement C S) (first : Step C)
      (r : Outcome (Error C) (Step C) × BinaryAgreement C S)
      → Latch s first.output false t
      → Latched t r
      → Latched s (and_then r (λ out. return (extend first out)))
  Latched-after s t first (ok out, u) h k = Latch-append h k
  Latched-after s t first (err x, u) h k = Latch-lost (Latch-append h k)
  Latched-after s t first (panicked, u) h k = Latch-lost (Latch-append h k)
  Latched-after s t first (exhausted, u) h k = Latch-lost (Latch-append h k)

  -- Two calls whose steps are joined.
  pub Latched-join :
      (s : BinaryAgreement C S) (r : Outcome (Error C) (Step C) × BinaryAgreement C S)
      (k : Ba C S (Step C))
      → Latched s r
      → ((t : BinaryAgreement C S) → Latched t (k t))
      → Latched s (and_then r (λ first. k >>= λ second. return (join first second)))
  Latched-join s (ok first, t) k h l = Latched-after s t first (k t) h (l t)
  Latched-join s (err x, t) k h l = h
  Latched-join s (panicked, t) k h l = h
  Latched-join s (exhausted, t) k h l = h

  pub decide-Latched : (b : Bool) (s : BinaryAgreement C S) → Latched s (decide b s)
  unfolding decide
  decide-Latched b s = go s.decision refl
    where
      msgs : List (TargetedMessage (Message C))
      msgs =
          if s.netinfo.is_validator
          then message Target.all (with_epoch (term b) (add_u64 s.epoch 1)) ∷ []
          else []

      go :
          (d : Option Bool)
          → s.decision ≡ d
          → Latched s (
              if is_some d
              then return default s
              else return
                  (record { output = b ∷ []; fault_log = []; messages = msgs })
                  (record s { decision = some b }))
      go none e = reached b e refl refl
      go (some d) e = unchanged refl refl

  -- To a state with the same decision.
  pub Latch-moved :
      {s t u : BinaryAgreement C S} {out : List Bool} {fails : Bool}
      → Latch s out fails t
      → u.decision ≡ t.decision
      → Latch s out fails u
  Latch-moved (unchanged p q) e = unchanged (e ∙ p) q
  Latch-moved (reached b p q r) e = reached b p (e ∙ q) r
  Latch-moved (lost b p q r f) e = lost b p (e ∙ q) r f
