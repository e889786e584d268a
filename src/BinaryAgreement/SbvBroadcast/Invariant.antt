-- ===== src/BinaryAgreement/SbvBroadcast/Invariant.antt =====
-- src/binary_agreement/sbv_broadcast.rs: what holds of the state between two calls, and the parts
-- of a call that touch no `BVal`.
use hbbft.Prelude.{
  ℕ, suc, ◌+◌, ◌*◌, ◌≡◌, Bool, true, false, [], length, flag, count, ltb, arith, Returns,
  Returns-bind, Returns-weaken, Returns-if,
}
use hbbft.FaultLog.{NodeId}
use hbbft.Crypto.{Crypto}
use hbbft.BinaryAgreement.BoolSet
use hbbft.BinaryAgreement.BoolSet.Laws.{IsValid, contains-insert, insert-IsValid, eq-both}
use hbbft.BinaryAgreement.BoolMultimap.{index}
use hbbft.BinaryAgreement.SbvBroadcast.{
  SbvBroadcast, aux, Step, try_output, handle_aux, send, enter_bin_values, handle_fuel,
}
use hbbft.BinaryAgreement.SbvBroadcast.Accounts.{is_aux, is_bval, inhabited, sent}

-- With a new value the set is full exactly if it was not empty.
eq-both-insert :
    (b : Bool) (s : BoolSet.BoolSet)
    → IsValid s
    → BoolSet.contains s b ≡ false
    → BoolSet.eq (BoolSet.insert b s).0 BoolSet.both ≡ inhabited s
eq-both-insert b s valid fresh = ground (
  arith,
  eq-both (BoolSet.insert b s).0 (insert-IsValid b s valid),
  contains-insert b s true,
  contains-insert b s false,
)

module _ {C : Crypto} where
  abbrev pub bval_count : SbvBroadcast C → Bool → ℕ
  bval_count s b = length (index s.received_bval b)

  -- A value is in `bin_values` exactly when 2 f + 1 nodes have sent it.
  pub record Inv (s : SbvBroadcast C) : Type 0 where
    pub bin_valid : IsValid s.bin_values
    pub sent_valid : IsValid s.sent_bval
    pub bin_iff :
        (b : Bool)
        → BoolSet.contains s.bin_values b ≡ ltb (2 * s.netinfo.num_faulty) (bval_count s b)

  -- Nothing that concerns `BVal` has changed.
  pub record Same (s t : SbvBroadcast C) : Type 0 where
    pub network : t.netinfo ≡ s.netinfo
    pub bin_values : t.bin_values ≡ s.bin_values
    pub received_bval : t.received_bval ≡ s.received_bval
    pub sent_bval : t.sent_bval ≡ s.sent_bval

  -- The output is counted, and no message is sent.
  pub record Quiet (s : SbvBroadcast C) (step : Step) (t : SbvBroadcast C) : Type 0 where
    pub same : Same s t
    pub outputs : length step.output + flag s.terminated ≡ flag t.terminated
    pub silent : step.messages ≡ []

  pub try_output-Quiet : (s : SbvBroadcast C) → Returns (Quiet s) (try_output s)
  unfolding try_output
  try_output-Quiet s = ground arith

  pub handle_aux-Quiet :
      (id : NodeId) (b : Bool) (s : SbvBroadcast C) → Returns (Quiet s) (handle_aux id b s)
  unfolding handle_aux try_output
  handle_aux-Quiet id b s = ground arith

  -- `Aux` goes out once, unless the node is an observer.
  pub record Announced (s : SbvBroadcast C) (step : Step) (t : SbvBroadcast C) : Type 0 where
    pub same : Same s t
    pub outputs : length step.output + flag s.terminated ≡ flag t.terminated
    pub auxs : count is_aux step.messages ≡ flag s.netinfo.is_validator
    pub bvals : (b : Bool) → count (is_bval b) step.messages ≡ 0

  send-Announced :
      (n : ℕ) (b : Bool) (s : SbvBroadcast C)
      → Returns (Announced s) (send (handle_fuel (suc n)) (aux b) s)
  unfolding send handle_fuel
  send-Announced n b s =
      Returns-if (Announced s) s.netinfo.is_validator _ _
        (λ v.
          Returns-bind (Quiet s) (Announced s) (handle_aux s.netinfo.our_id b s) _
            (handle_aux-Quiet s.netinfo.our_id b s)
            (λ step t q. record {
              same = q.same;
              outputs = q.outputs;
              auxs = ground arith;
              bvals = λ c. ground arith;
            }))
        (λ v.
          Returns-weaken (Quiet s) (Announced s) _
            (λ step t q. record {
              same = q.same;
              outputs = q.outputs;
              auxs = ground arith;
              bvals = λ c. ground arith;
            })
            (try_output-Quiet s))

  -- A value enters `bin_values`, and `Aux` goes out if it is the first.
  pub record Entered (b : Bool) (s : SbvBroadcast C) (step : Step) (t : SbvBroadcast C)
      : Type 0 where
    pub network : t.netinfo ≡ s.netinfo
    pub bin_values : t.bin_values ≡ (BoolSet.insert b s.bin_values).0
    pub received_bval : t.received_bval ≡ s.received_bval
    pub sent_bval : t.sent_bval ≡ s.sent_bval
    pub outputs : length step.output + flag s.terminated ≡ flag t.terminated
    pub auxs :
        count is_aux step.messages + sent s (inhabited s.bin_values) ≡ flag s.netinfo.is_validator
    pub bvals : (c : Bool) → count (is_bval c) step.messages ≡ 0

  pub enter-Entered :
      (n : ℕ) (b : Bool) (s : SbvBroadcast C)
      → IsValid s.bin_values
      → BoolSet.contains s.bin_values b ≡ false
      → Returns (Entered b s) (enter_bin_values (handle_fuel (suc n)) b s)
  unfolding enter_bin_values
  enter-Entered n b s valid fresh =
      let next : SbvBroadcast C = record s { bin_values = (BoolSet.insert b s.bin_values).0 } in
      Returns-if (Entered b s) (BoolSet.eq next.bin_values BoolSet.both) _ _
        (λ v.
          Returns-weaken (Quiet next) (Entered b s) _
            (λ step t q. record {
              network = q.same.network;
              bin_values = q.same.bin_values;
              received_bval = q.same.received_bval;
              sent_bval = q.same.sent_bval;
              outputs = q.outputs;
              auxs = ground (arith, eq-both-insert b s.bin_values valid fresh);
              bvals = λ c. ground arith;
            })
            (try_output-Quiet next))
        (λ v.
          Returns-weaken (Announced next) (Entered b s) _
            (λ step t q. record {
              network = q.same.network;
              bin_values = q.same.bin_values;
              received_bval = q.same.received_bval;
              sent_bval = q.same.sent_bval;
              outputs = q.outputs;
              auxs = ground (arith, q.auxs, eq-both-insert b s.bin_values valid fresh);
              bvals = q.bvals;
            })
            (send-Announced n b next))
