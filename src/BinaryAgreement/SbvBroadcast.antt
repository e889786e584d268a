-- ===== src/BinaryAgreement/SbvBroadcast.antt =====
-- src/binary_agreement/sbv_broadcast.rs: the `BVal` and `Aux` rounds.
pub mod Accounts
pub mod Invariant
pub mod Handling
pub mod History
pub mod Output
mod Tests
use hbbft.Prelude.{
  ℕ, zero, suc, ◌+◌, ◌*◌, Bool, true, false, ◌||◌, List, [], ◌∷◌, length, ltb, ◌==◌, if◌then◌else◌,
  M, exhausted, ◌>>=◌, ◌>>◌, return, modify,
}
use hbbft.Prelude.BTreeSet.{contains as set_contains, insert as set_insert}
use hbbft.FaultLog.{NodeId}
use hbbft.Messaging.{Target, message}
use hbbft.Traits
use hbbft.Traits.{when, default, extend, join, with_output, from_fault, from_message}
use hbbft.Crypto.{Crypto}
use hbbft.NetworkInfo.{NetworkInfo, num_correct}
use hbbft.BinaryAgreement.Faults.{Error, FaultKind, duplicate_bval, duplicate_aux}
use hbbft.BinaryAgreement.BoolSet
use hbbft.BinaryAgreement.BoolSet.{BoolSet}
use hbbft.BinaryAgreement.BoolMultimap
use hbbft.BinaryAgreement.BoolMultimap.{BoolMultimap, index, update}

pub data Message : Type 0 where
  bval : Bool → Message
  aux : Bool → Message

abbrev pub Step : Type 0
Step = Traits.Step Message BoolSet FaultKind

pub record SbvBroadcast (C : Crypto) : Type 0 where
  pub netinfo : NetworkInfo C
  pub bin_values : BoolSet
  pub received_bval : BoolMultimap
  pub sent_bval : BoolSet
  pub received_aux : BoolMultimap
  pub terminated : Bool

abbrev pub Sbv : (C : Crypto) → Type 0 → Type 0
Sbv C A = M (SbvBroadcast C) (Error C) A

-- A round of the loop in `count_aux`.
count_step : BoolMultimap → ℕ × BoolSet → Bool → ℕ × BoolSet
count_step received_aux (count, values) b =
    if length (index received_aux b) == 0
    then (count, values)
    else (count + length (index received_aux b), (BoolSet.insert b values).0)

count_loop : BoolMultimap → ℕ × BoolSet → List Bool → ℕ × BoolSet
count_loop received_aux acc [] = acc
count_loop received_aux acc (b ∷ bs) = count_loop received_aux (count_step received_aux acc b) bs

module _ {C : Crypto} where
  unfoldable pub new : NetworkInfo C → SbvBroadcast C
  new netinfo = record {
    netinfo = netinfo;
    bin_values = BoolSet.empty;
    received_bval = BoolMultimap.default;
    sent_bval = BoolSet.empty;
    received_aux = BoolMultimap.default;
    terminated = false;
  }

  unfoldable pub clear : BoolMultimap → SbvBroadcast C → SbvBroadcast C
  clear init s = record s {
    bin_values = BoolSet.empty;
    received_bval = init;
    sent_bval = BoolSet.empty;
    received_aux = init;
    terminated = false;
  }

  unfoldable pub count_aux : SbvBroadcast C → ℕ × BoolSet
  unfolding count_loop count_step
  count_aux s = count_loop s.received_aux (0, BoolSet.empty) (BoolSet.elements s.bin_values)

  unfoldable pub try_output : Sbv C Step
  try_output s =
      if s.terminated || BoolSet.eq s.bin_values BoolSet.empty
      then return default s
      else (let (aux_count, aux_vals) = count_aux s in
          if ltb aux_count (num_correct s.netinfo)
          then return default s
          else return (with_output default aux_vals) (record s { terminated = true }))

  unfoldable pub handle_aux : NodeId → Bool → Sbv C Step
  unfolding try_output
  handle_aux sender_id b s =
      if set_contains (index s.received_aux b) sender_id
      then return (from_fault sender_id duplicate_aux) s
      else try_output (record s {
        received_aux = update s.received_aux b (set_insert sender_id (index s.received_aux b));
      })

  -- `handle_bval` reaches itself through `send_bval`, `send` and `handle_message`. `handle` stands
  -- for that last call, and the recursion is closed in `handle_fuel` below.
  module _ (handle : NodeId → Message → Sbv C Step) where
    unfoldable pub send : Message → Sbv C Step
    unfolding try_output
    send msg s =
        if s.netinfo.is_validator
        then (do
          step ← handle s.netinfo.our_id msg
          return (join (from_message (message Target.all msg)) step))
            s
        else try_output s

    unfoldable pub send_bval_with : Bool → Sbv C Step
    unfolding send
    send_bval_with b s =
        let (sent, fresh) = BoolSet.insert b s.sent_bval in
        if fresh then send (bval b) (record s { sent_bval = sent }) else return default s

    -- A value that enters `bin_values`: the first is sent as `Aux`.
    unfoldable pub enter_bin_values : Bool → Sbv C Step
    unfolding send try_output
    enter_bin_values b s =
        let t = record s { bin_values = (BoolSet.insert b s.bin_values).0 } in
        if BoolSet.eq t.bin_values BoolSet.both then try_output t else send (aux b) t

    unfoldable pub handle_bval_with : NodeId → Bool → Sbv C Step
    unfolding enter_bin_values send_bval_with
    handle_bval_with sender_id b s =
        if set_contains (index s.received_bval b) sender_id
        then return (from_fault sender_id duplicate_bval) s
        else (let senders = set_insert sender_id (index s.received_bval b) in
            let count_bval = length senders in
            let f = s.netinfo.num_faulty in
            (do
              modify (λ t. record t { received_bval = update t.received_bval b senders })
              first ← when (count_bval == 2 * f + 1) (enter_bin_values b)
              second ← when (count_bval == f + 1) (send_bval_with b)
              return (extend first second))
              s)

    unfoldable pub dispatch : NodeId → Message → Sbv C Step
    unfolding handle_bval_with handle_aux
    dispatch sender_id (bval b) = handle_bval_with sender_id b
    dispatch sender_id (aux b) = handle_aux sender_id b

  unfoldable pub handle_fuel : ℕ → NodeId → Message → Sbv C Step
  unfolding dispatch
  handle_fuel zero sender_id msg s = (exhausted, s)
  handle_fuel (suc n) sender_id msg s = dispatch (handle_fuel n) sender_id msg s

  -- Three nested calls are the most there are.
  unfoldable pub handle_message : NodeId → Message → Sbv C Step
  unfolding handle_fuel
  handle_message = handle_fuel 3

  unfoldable pub handle_bval : NodeId → Bool → Sbv C Step
  unfolding handle_message
  handle_bval sender_id b = handle_message sender_id (bval b)

  unfoldable pub send_bval : Bool → Sbv C Step
  unfolding send_bval_with handle_message
  send_bval b = send_bval_with handle_message b
