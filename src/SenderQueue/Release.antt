-- ===== src/SenderQueue/Release.antt =====
-- src/sender_queue/mod.rs: the queue of a peer that has come to an epoch.
use hbbft.Prelude.{
  ℕ, ◌≡◌, ◌<◌, refl, sym, ap, ◌∙◌, subst, Bool, true, false, not, Option, none, some, List, [], ◌∷◌,
  ◌++◌, keep, keep-pass, keep-drop, take_while-pass, take_while-stop, take_while, leb, ◌==◌, ==_iff,
  ==_refl, if◌then◌else◌, arith, Bool-cases, inl, inr, ◌⊎◌,
}
use hbbft.Prelude.BTreeMap.{BTreeMap, get, insert, remove, keys, get-insert, Entries}
use hbbft.Prelude.BTreeMap.Ascending.{IsAscending}
use hbbft.FaultLog.{NodeId}
use hbbft.Traits.{default}
use hbbft.SenderQueue.Interface.{Algorithm}
use hbbft.SenderQueue.Instance.{SenderQueue, Step, get_or, release, sent_to, process_new_epoch}

-- All messages of a queue, in the order of their epochs.
abbrev pub flatten : {M : Type 0} → BTreeMap (List M) → List M
flatten [] = []
flatten ((k, msgs) ∷ queue) = msgs ++ flatten queue

-- The parts of a queue up to an epoch, and after it.
abbrev pub up_to : {M : Type 0} → ℕ → BTreeMap (List M) → BTreeMap (List M)
up_to epoch = keep (λ e. leb e.0 epoch)

abbrev pub after : {M : Type 0} → ℕ → BTreeMap (List M) → BTreeMap (List M)
after epoch = keep (λ e. not (leb e.0 epoch))

module _ {M : Type 0} (epoch : ℕ) where
  all_after :
      (k : ℕ) (queue : BTreeMap (List M))
      → leb k epoch ≡ false
      → Entries (λ j v. k < j) queue
      → (up_to epoch queue ≡ []) × (after epoch queue ≡ queue)
  all_after k [] h e = (refl, refl)
  all_after k ((j, v) ∷ queue) h e =
      let late : leb j epoch ≡ false = ground arith in
      let (none_left, same) = all_after k queue h e.1 in
      (
        rw (keep-drop (λ x. leb x.0 epoch) (j, v) queue late) none_left,
        rw (keep-pass (λ x. not (leb x.0 epoch)) (j, v) queue (ap not late))
            (ap (λ l. (j, v) ∷ l) same),
      )

  pub release_lem :
      (queue : BTreeMap (List M))
      → IsAscending queue
      → release (take_while (λ k. leb k epoch) (keys queue)) queue
        ≡ (flatten (up_to epoch queue), after epoch queue)
  unfolding release get remove
  release_lem [] h = refl
  release_lem ((k, v) ∷ queue) h = go (Bool-cases (leb k epoch)) (release_lem queue h.1)
    where
      go :
          (leb k epoch ≡ true) ⊎ (leb k epoch ≡ false)
          → release (take_while (λ k. leb k epoch) (keys queue)) queue
            ≡ (flatten (up_to epoch queue), after epoch queue)
          → release (take_while (λ k. leb k epoch) (keys ((k, v) ∷ queue))) ((k, v) ∷ queue)
            ≡ (flatten (up_to epoch ((k, v) ∷ queue)), after epoch ((k, v) ∷ queue))
      go (inl early) ih =
          ap (λ ks. release ks ((k, v) ∷ queue))
            (take_while-pass (λ k. leb k epoch) k (keys queue) early)
          ∙ rw (==_refl k) (ap (λ r. (v ++ r.0, r.1)) ih)
          ∙ ap (λ e. (flatten e, after epoch queue))
              (sym (keep-pass (λ e. leb e.0 epoch) (k, v) queue early))
          ∙ ap (λ e. (flatten (up_to epoch ((k, v) ∷ queue)), e))
              (sym (keep-drop (λ e. not (leb e.0 epoch)) (k, v) queue (ap not early)))
      go (inr late) ih =
          let (none_left, same) = all_after k queue late h.0 in
          ap (λ ks. release ks ((k, v) ∷ queue))
            (take_while-stop (λ k. leb k epoch) k (keys queue) late)
          ∙ ap (λ e. (flatten e, (k, v) ∷ queue))
              (sym (keep-drop (λ e. leb e.0 epoch) (k, v) queue late ∙ none_left))
          ∙ ap (λ e. (flatten (up_to epoch ((k, v) ∷ queue)), e))
              (sym (
                keep-pass (λ e. not (leb e.0 epoch)) (k, v) queue (ap not late)
                ∙ ap (λ e. (k, v) ∷ e) same))

get-keep :
    {V : Type 0} (p : ℕ → Bool) (m : BTreeMap V) (k : ℕ)
    → get (keep (λ e. p e.0) m) k ≡ (if p k then get m k else none)
unfolding get
get-keep p [] k = elim (Bool-cases (p k)) [ inl e ↦ rw e refl | inr e ↦ rw e refl ]
get-keep p ((j, v) ∷ m) k = go (Bool-cases (p j)) (get-keep p m k)
  where
    go :
        (p j ≡ true) ⊎ (p j ≡ false)
        → get (keep (λ e. p e.0) m) k ≡ (if p k then get m k else none)
        → get (keep (λ e. p e.0) ((j, v) ∷ m)) k ≡ (if p k then get ((j, v) ∷ m) k else none)
    go (inl kept) ih = rw kept (elim (Bool-cases (j == k)) [
      | inl same ↦
          let here : p k ≡ true = subst (λ i. p i ≡ true) ((==_iff j k).0 same) kept in
          rw same (rw here refl)
      | inr other ↦ rw other ih
    ])
    go (inr out) ih = rw out (elim (Bool-cases (j == k)) [
      | inl same ↦
          let here : p k ≡ false = subst (λ i. p i ≡ false) ((==_iff j k).0 same) out in
          ih ∙ rw same (rw here refl)
      | inr other ↦ rw other ih
    ])

flipped :
    {V : Type 0} (b : Bool) (o : Option V) → (if not b then o else none) ≡ (if b then none else o)
flipped true o = refl
flipped false o = refl

empty_queue :
    {V : Type 0} (b : Bool) (k : ℕ) → get {V = V} [] k ≡ (if b then none else get {V = V} [] k)
unfolding get
empty_queue true k = refl
empty_queue false k = refl

-- The queue for a peer.
abbrev pub queue_of : {A : Algorithm} → SenderQueue A → NodeId → BTreeMap (List A.Message)
queue_of s id = get_or [] (get s.outgoing_queue id)

module _ (A : Algorithm) where
  -- The peer's messages up to the epoch are sent and gone, and all others are where they were.
  abbrev pub Released : NodeId → ℕ → SenderQueue A → Step A × SenderQueue A → Type 0
  Released id epoch s r =
      (r.0.messages
        ≡ sent_to id (
            keep (λ m. not (A.queueable.is_obsolete m epoch))
              (flatten (up_to epoch (queue_of s id)))))
      × ((k : ℕ) → get (queue_of r.1 id) k ≡ (if leb k epoch then none else get (queue_of s id) k))
      × ((j : NodeId) → (id == j) ≡ false → queue_of r.1 j ≡ queue_of s j)

  -- When a peer whose queue is in ascending order of the epochs has come to an epoch, the messages
  -- of its queue up to this epoch are sent to it, in the order of their epochs, but for those
  -- that are obsolete in it; they leave the queue, the later ones stay in it, and so do all
  -- messages to other peers.
  pub process_new_epoch-Releases :
      (id : NodeId) (epoch : ℕ) (s : SenderQueue A)
      → IsAscending (queue_of s id)
      → Released id epoch s (process_new_epoch A id epoch s)
  unfolding process_new_epoch sent_to
  process_new_epoch-Releases id epoch s h = go (get s.outgoing_queue id) refl
    where
      go :
          (o : Option (BTreeMap (List A.Message)))
          → get s.outgoing_queue id ≡ o
          → Released id epoch s (process_new_epoch A id epoch s)
      go none e =
          let same : process_new_epoch A id epoch s ≡ (default, s) =
            rw (e, process_new_epoch) refl in
          let empty : queue_of s id ≡ [] = ap (get_or []) e in
          subst (Released id epoch s) (sym same)
            (rw empty refl, λ k. rw empty (empty_queue (leb k epoch) k), λ j other. refl)
      go (some queue) e =
          let here : queue_of s id ≡ queue = ap (get_or []) e in
          let ascending : IsAscending queue = subst IsAscending here h in
          let same : process_new_epoch A id epoch s ≡ (
            record {
              output = [];
              fault_log = [];
              messages =
                  sent_to id (
                    keep (λ m. not (A.queueable.is_obsolete m epoch))
                      (flatten (up_to epoch queue)));
            },
            record s { outgoing_queue = insert id (after epoch queue) s.outgoing_queue },
          ) =
            rw (e, process_new_epoch) (rw (release_lem epoch queue ascending) refl) in
          let outgoing = insert id (after epoch queue) s.outgoing_queue in
          let stored : get outgoing id ≡ some (after epoch queue) =
            get-insert id (after epoch queue) s.outgoing_queue id ∙ rw (==_refl id) refl in
          let elsewhere : (j : NodeId)
              → (id == j) ≡ false
              → get outgoing j ≡ get s.outgoing_queue j =
            λ j other. get-insert id (after epoch queue) s.outgoing_queue j ∙ rw other refl in
          subst (Released id epoch s) (sym same) (
            rw here refl,
            λ k. rw here (
                ap (λ o. get (get_or [] o) k) stored
                ∙ get-keep (λ i. not (leb i epoch)) queue k
                ∙ flipped (leb k epoch) (get queue k)),
            λ j other. ap (get_or []) (elsewhere j other),
          )
