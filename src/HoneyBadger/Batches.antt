-- ===== src/HoneyBadger/Batches.antt =====
-- src/honey_badger/honey_badger.rs: the batches that an instance outputs, in their order.
use hbbft.Prelude.{
  ℕ, zero, suc, ◌<◌, inl, inr, ◌≡◌, refl, sym, subst, ◌∙◌, append-nil, append_assoc, none, some,
  List, [], ◌∷◌, ◌++◌, length, add_u64, arith, Outcome, ok, err, panicked, exhausted, Returns,
  Returns-weaken, Option-cases, ◌>>=◌, return, and_then,
}
use hbbft.Prelude.BTreeMap.{
  get, remove, Entries, Entries-get, Entries-insert, Entries-remove, length-remove,
}
use hbbft.FaultLog.{NodeId}
use hbbft.FaultLog
use hbbft.Traits.{default, join}
use hbbft.Crypto.{Crypto}
use hbbft.Broadcast.Coding.{ReedSolomon}
use hbbft.HoneyBadger.Content.{Codec, Error, Batch, Step, FaultKind}
use hbbft.HoneyBadger.Epoch as Epoch
use hbbft.HoneyBadger.Epoch.{EpochState, Es}
use hbbft.HoneyBadger.Output.{try_output_batch}
use hbbft.HoneyBadger.Numbered.{outputs_of, IsQuiet, try_output_batch-epoch}
use hbbft.HoneyBadger.Instance.{
  HoneyBadger, Hb, update_epoch, next_batch, create_epoch, epoch_state_mut, with_epoch_state,
  output_fuel, try_output_batches, then_output,
}

-- Batches with consecutive numbers from `e` on; `e2` is the number after them.
abbrev pub Consecutive : {A : Type 0} → ℕ → List (Batch A) → ℕ → Type 0
Consecutive e [] e2 = e2 ≡ e
Consecutive e (b ∷ bs) e2 = (b.epoch ≡ e) × Consecutive (add_u64 e 1) bs e2

pub Consecutive-append :
    {A : Type 0} (e : ℕ) (bs cs : List (Batch A)) (e2 e3 : ℕ)
    → Consecutive e bs e2
    → Consecutive e2 cs e3
    → Consecutive e (bs ++ cs) e3
Consecutive-append e [] cs e2 e3 h k = subst (λ x. Consecutive x cs e3) h k
Consecutive-append e (b ∷ bs) cs e2 e3 h k =
    (h.0, Consecutive-append (add_u64 e 1) bs cs e2 e3 h.1 k)

-- Each state among the epochs stands under its own number.
abbrev pub IsNumbered : {C : Crypto} {R : ReedSolomon} → HoneyBadger C R → Type 0
IsNumbered s = Entries (λ k es. es.epoch ≡ k) s.epochs

-- What a run that outputs `bs` does to the instance.
abbrev pub Emits :
    {C : Crypto} {R : ReedSolomon} {A : Type 0}
    → HoneyBadger C R
    → List (Batch A)
    → HoneyBadger C R
    → Type 0
Emits s bs t = IsNumbered t × Consecutive s.epoch bs t.epoch

module _ {C : Crypto} {R : ReedSolomon} (B : Codec C) where
  -- A batch that is ready: its number, and the rest of the instance.
  ready :
      (s : HoneyBadger C R) (b : Batch B.Contribution) (log : FaultLog.FaultLog FaultKind)
      → IsNumbered s
      → next_batch B s ≡ some (b, log)
      → (b.epoch ≡ s.epoch) × (suc (length (remove s.epoch s.epochs)) ≡ length s.epochs)
  unfolding next_batch
  ready s b log h e = elim (Option-cases (get s.epochs s.epoch)) [
    | inl missing ↦ absurd (ground arith)
    | inr (es, there) ↦
        let out : try_output_batch B es ≡ some (b, log) = ground arith in
        (
          try_output_batch-epoch B es (b, log) out
              ∙ Entries-get (λ k es. es.epoch ≡ k) s.epochs s.epoch es h there,
          length-remove s.epoch es s.epochs there,
        )
  ]

  -- What the loop adds to the outputs of `step`.
  abbrev Loops : HoneyBadger C R → List (Batch B.Contribution) → Step C B → HoneyBadger C R → Type 0
  Loops s before out t =
      (bs : List (Batch B.Contribution)) × (out.output ≡ before ++ bs)
      × Emits s bs t
      × (next_batch B t ≡ none)

  output_fuel-Loops :
      (n : ℕ) (step : Step C B) (s : HoneyBadger C R)
      → IsNumbered s
      → length s.epochs < n
      → Returns (Loops s step.output) (output_fuel {B = B} n step s)
  unfolding output_fuel update_epoch
  output_fuel-Loops zero step s h enough = absurd (omega arith)
  output_fuel-Loops (suc n) step s h enough = elim (Option-cases (next_batch B s)) [
    | inl last ↦ rw (last, output_fuel) ([], sym (append-nil step.output), (h, refl), last)
    | inr ((b, log), more) ↦
        let (number, fewer) = ready s b log h more in
        let next = update_epoch s in
        let after : IsNumbered next = Entries-remove (λ k es. es.epoch ≡ k) s.epoch s.epochs h in
        let left : length next.epochs < n = omega arith in
        rw (more, output_fuel)
          (Returns-weaken _ _ _ (λ out t l. with_first s step.output b out t number l)
            (output_fuel-Loops n _ next after left))
  ]
    where
      with_first :
          (s : HoneyBadger C R) (before : List (Batch B.Contribution)) (b : Batch B.Contribution)
          (out : Step C B) (t : HoneyBadger C R)
          → b.epoch ≡ s.epoch
          → Loops (update_epoch s) (before ++ b ∷ []) out t
          → Loops s before out t
      with_first s before b out t number (bs, outs, (numbered, run), last) =
          (b ∷ bs, outs ∙ append_assoc before (b ∷ []) bs, (numbered, (number, run)), last)

  -- For an instance whose epochs stand under their numbers, `try_output_batches` ends with
  -- success, outputs batches with consecutive numbers from the epoch of the instance up to its
  -- epoch after the call, and leaves no batch that is ready.
  pub try_output_batches-Ends :
      (s : HoneyBadger C R)
      → IsNumbered s
      → Returns
          (λ out t. Emits s out.output t × (next_batch B t ≡ none))
          (try_output_batches {B = B} s)
  unfolding try_output_batches
  try_output_batches-Ends s h =
      Returns-weaken (Loops s []) _ _
        (λ out t (bs, outs, emits, last). (subst (λ x. Emits s x t) (sym outs) emits, last))
        (output_fuel-Loops (suc (length s.epochs)) default s h (omega arith))

  abbrev pub CallEmits : HoneyBadger C R → Outcome (Error C B) (Step C B) × HoneyBadger C R → Type 0
  CallEmits s r = Emits s (outputs_of r.0) r.1

  -- The state of an epoch, found or new, has the number of the epoch.
  epoch_state_mut-epoch :
      (epoch : ℕ) (s : HoneyBadger C R) (es : EpochState C R)
      → IsNumbered s
      → epoch_state_mut {B = B} epoch s ≡ ok es
      → es.epoch ≡ epoch
  unfolding epoch_state_mut create_epoch Epoch.new
  epoch_state_mut-epoch epoch s es h e = elim (Option-cases (get s.epochs epoch)) [
    | inl missing ↦ ground arith
    | inr (found, there) ↦
        let same : found ≡ es = ground arith in
        rw (← same) (Entries-get (λ k es. es.epoch ≡ k) s.epochs epoch found h there)
  ]

  -- A call of the state of an epoch outputs nothing and does not end the epoch.
  pub with_epoch_state-IsNumbered :
      (epoch : ℕ) (f : Es C R B (Step C B)) (s : HoneyBadger C R)
      → IsNumbered s
      → ((es : EpochState C R) → es.epoch ≡ epoch → IsQuiet epoch (f es))
      → CallEmits s (with_epoch_state epoch f s) × (outputs_of (with_epoch_state epoch f s).0 ≡ [])
  unfolding with_epoch_state
  with_epoch_state-IsNumbered epoch f s h quiet = go (epoch_state_mut epoch s) refl
    where
      go :
          (o : Outcome (Error C B) (EpochState C R))
          → epoch_state_mut epoch s ≡ o
          → CallEmits s (with_epoch_state epoch f s)
            × (outputs_of (with_epoch_state epoch f s).0 ≡ [])
      go (ok es) e =
          let (silent, number) = quiet es (epoch_state_mut-epoch epoch s es h e) in
          rw (e, with_epoch_state)
            (rw silent (
              (Entries-insert (λ k es. es.epoch ≡ k) epoch (f es).1 s.epochs h number, refl),
              refl,
            ))
      go (err x) e = rw (e, with_epoch_state) ((h, refl), refl)
      go panicked e = rw (e, with_epoch_state) ((h, refl), refl)
      go exhausted e = rw (e, with_epoch_state) ((h, refl), refl)

  joined :
      (s t : HoneyBadger C R) (step : Step C B)
      (q : Outcome (Error C B) (Step C B) × HoneyBadger C R)
      → t.epoch ≡ s.epoch
      → step.output ≡ []
      → Returns (λ out u. Emits t out.output u × (next_batch B u ≡ none)) q
      → CallEmits s (and_then q (λ out. return (join step out)))
  joined s t step (ok out, u) same none_yet h =
      rw none_yet (h.0.0, subst (λ e. Consecutive e out.output u.epoch) same h.0.1)
  joined s t step (err e, u) same none_yet h = absurd h
  joined s t step (panicked, u) same none_yet h = absurd h
  joined s t step (exhausted, u) same none_yet h = absurd h

  pub then_output-Emits :
      (m : Hb C R B (Step C B)) (s : HoneyBadger C R)
      → CallEmits s (m s) × (outputs_of (m s).0 ≡ [])
      → CallEmits s (then_output m s)
  unfolding then_output
  then_output-Emits m s h = go (m s) h.0 h.1
    where
      go :
          (r : Outcome (Error C B) (Step C B) × HoneyBadger C R)
          → CallEmits s r
          → outputs_of r.0 ≡ []
          → CallEmits s (and_then r (λ step. try_output_batches >>= λ out. return (join step out)))
      go (ok step, t) k none_yet =
          joined s t step (try_output_batches t)
            (subst (λ bs. Consecutive s.epoch bs t.epoch) none_yet k.1) none_yet
            (try_output_batches-Ends t k.0)
      go (err e, t) k none_yet = k
      go (panicked, t) k none_yet = k
      go (exhausted, t) k none_yet = k
