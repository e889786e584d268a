-- ===== src/SenderQueue/Tests.antt =====
-- A sender queue around a toy algorithm, and the theorems at concrete inputs.
use hbbft.Prelude.{ℕ, ◌+◌, ◌≡◌, refl, arith, false, some, [], ◌∷◌, ◌++◌, keep, map, ltb, ok, ◌==◌}
use hbbft.Prelude.BTreeMap.{BTreeMap, get}
use hbbft.Prelude.BTreeMap.Ascending.{IsAscending}
use hbbft.Prelude.BTreeSet.{BTreeSet}
use hbbft.Messaging
use hbbft.Messaging.{TargetedMessage, node, message}
use hbbft.Traits
use hbbft.Samples.{toy}
use hbbft.HoneyBadger.Content as Hb
use hbbft.HoneyBadger.Content.{Codec, EpochId, decryption_share, with_epoch}
use hbbft.SenderQueue.Interface.{Algorithm, Queueable, algo, epoch_started, is_accepted}
use hbbft.SenderQueue.Deferral.{defer_messages}
use hbbft.SenderQueue.Delivery.{addressed, waiting, defer_messages-Splits}
use hbbft.SenderQueue.Instance.{SenderQueue, build, process_new_epoch, process_step, update_epoch}
use hbbft.SenderQueue.Release.{Released, process_new_epoch-Releases}
use hbbft.SenderQueue.Queued.{queued, process_step-Accounts}
use hbbft.SenderQueue.Invariant.{IsWellFormed}
use hbbft.SenderQueue.Kept.{input, receive, run, run-IsWellFormed}
use hbbft.SenderQueue.HoneyBadger.{queueable}

-- A message is the number of its epoch, and one epoch ahead is allowed.
abbrev by_epoch : Queueable ℕ
by_epoch = record {
  is_premature = λ m them ahead. ltb (them + ahead) m;
  is_obsolete = λ m them. ltb m them;
  first_epoch = λ m. m;
}

abbrev to_all : ℕ → Traits.Step ℕ BTreeSet ℕ
to_all m = record { output = []; fault_log = []; messages = message Messaging.all m ∷ [] }

-- An input is sent to all; a message that comes in is the new epoch, and node 20 leaves by it.
abbrev counter : Algorithm
counter = record {
  State = ℕ;
  Input = ℕ;
  Output = BTreeSet;
  Message = ℕ;
  FaultKind = ℕ;
  Error = ℕ;
  handle_input = λ m s. (ok (to_all m), s);
  handle_message = λ id m s. (ok (record (to_all m) { output = (10 ∷ 30 ∷ []) ∷ [] }), m);
  epoch = λ s. s;
  max_future_epochs = λ s. 1;
  queueable = by_epoch;
  participant_change = λ o. some o;
  output_epoch = λ o. 3;
}

abbrev peers : BTreeMap ℕ
peers = (20, 0) ∷ (30, 4) ∷ []

-- Node 10, with messages of the epochs 2 and 4 for node 20.
abbrev waiting_two : SenderQueue counter
waiting_two = record {
  algo = 4;
  our_id = 10;
  outgoing_queue = (20, (2, 2 ∷ []) ∷ (4, 4 ∷ []) ∷ []) ∷ [];
  peer_epochs = peers;
  last_epochs = [];
  participants_after_change = [];
  is_removed = false;
}

peers-IsAscending : IsAscending peers
peers-IsAscending = ((omega arith, tt), (tt, tt))

defer_messages-Splits_example :
    let (deferred, rest) = defer_messages by_epoch 1 peers (to_all 5) in
    (addressed 20 rest.messages
      ≡ keep (λ m. is_accepted by_epoch m 0 1) (addressed 20 (to_all 5).messages))
    × (waiting 20 deferred
        ≡ keep (λ m. by_epoch.is_premature m 0 1) (addressed 20 (to_all 5).messages))
unfolding get
defer_messages-Splits_example =
    defer_messages-Splits by_epoch 1 20 0 peers (to_all 5) refl peers-IsAscending

process_new_epoch-Releases_example :
    Released counter 20 3 waiting_two (process_new_epoch counter 20 3 waiting_two)
unfolding get
process_new_epoch-Releases_example =
    process_new_epoch-Releases counter 20 3 waiting_two ((omega arith, tt), (tt, tt))

process_step-Accounts_example :
    let (update, t) = update_epoch counter [] waiting_two in
    let (out, u) = process_step counter (to_all 5) waiting_two in
    (addressed 20 out.messages
      ≡ addressed 20 update.messages ++ map algo (keep (λ m. is_accepted by_epoch m 0 1) (5 ∷ [])))
    × (queued u.outgoing_queue 20 5
        ≡ queued t.outgoing_queue 20 5
          ++ keep (λ m. m == 5) (keep (λ m. by_epoch.is_premature m 0 1) (5 ∷ [])))
unfolding get update_epoch
process_step-Accounts_example =
    process_step-Accounts counter (to_all 5) waiting_two 20 0 5 refl peers-IsAscending

started-IsWellFormed : IsWellFormed (build counter 0 peers 10).0
unfolding build get
started-IsWellFormed = record {
  peers_ascend = peers-IsAscending;
  outgoing_ascends = tt;
  queues_ascend = λ id. tt;
  known = λ id missing. refl;
}

run-IsWellFormed_example : IsWellFormed (
    run
      (input 5 ∷ receive 30 (algo 4) ∷ receive 20 (epoch_started 5) ∷ [])
      (build counter 0 peers 10).0)
run-IsWellFormed_example =
    run-IsWellFormed (input 5 ∷ receive 30 (algo 4) ∷ receive 20 (epoch_started 5) ∷ [])
      (build counter 0 peers 10).0 started-IsWellFormed

share_for : ℕ → Hb.Message toy
share_for e = with_epoch (decryption_share 30 (record { share = 5 })) e
