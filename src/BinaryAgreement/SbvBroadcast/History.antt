-- ===== src/BinaryAgreement/SbvBroadcast/History.antt =====
-- src/binary_agreement/sbv_broadcast.rs: an instance from its start, through any sequence of
-- inputs and messages.
use hbbft.Prelude.{
  ◌≤◌, Bool, List, [], ◌∷◌, length, count, flag-le, ◌&&◌, arith, Returns, Returns-bind,
  Returns-weaken, ◌>>=◌, return,
}
use hbbft.FaultLog.{NodeId}
use hbbft.Traits.{default, extend}
use hbbft.Crypto.{Crypto}
use hbbft.NetworkInfo.{NetworkInfo}
use hbbft.BinaryAgreement.BoolSet
use hbbft.BinaryAgreement.SbvBroadcast.{
  SbvBroadcast, Message, Step, Sbv, new, handle_message, send_bval,
}
use hbbft.BinaryAgreement.SbvBroadcast.Accounts.{
  Accounts-default, Accounts-extend, is_aux, is_bval, inhabited,
}
use hbbft.BinaryAgreement.SbvBroadcast.Invariant.{Inv}
use hbbft.BinaryAgreement.SbvBroadcast.Handling.{Kept, handle_message-Kept, send_bval-Kept, new-Inv}

pub data Event : Type 0 where
  input : Bool → Event
  receive : NodeId → Message → Event

-- What an instance may send and output in its whole life.
pub record AtMostOnce (step : Step) : Type 0 where
  pub outputs : length step.output ≤ 1
  pub auxs : count is_aux step.messages ≤ 1
  pub bvals : (b : Bool) → count (is_bval b) step.messages ≤ 1

module _ {C : Crypto} where
  abbrev pub on_event : Event → Sbv C Step
  on_event (input b) = send_bval b
  on_event (receive id msg) = handle_message id msg

  -- The steps of all events, joined.
  unfoldable pub history : List Event → Sbv C Step
  history [] = return default
  history (e ∷ es) = do first ← on_event e; rest ← history es; return (extend first rest)

  on_event-Kept : (e : Event) (s : SbvBroadcast C) → Inv s → Returns (Kept s) (on_event e s)
  on_event-Kept (input b) s h = send_bval-Kept b s h
  on_event-Kept (receive id msg) s h = handle_message-Kept id msg s h

  history-Kept : (es : List Event) (s : SbvBroadcast C) → Inv s → Returns (Kept s) (history es s)
  unfolding history
  history-Kept [] s h = record { inv = h; grows = λ b known. known; accounts = Accounts-default s }
  history-Kept (e ∷ es) s h =
      Returns-bind (Kept s) (Kept s) (on_event e s) _ (on_event-Kept e s h) (λ first t k.
        Returns-bind (Kept t) (Kept s) (history es t) (λ rest. return (extend first rest))
          (history-Kept es t k.inv)
          (λ rest u l. record {
            inv = l.inv;
            grows = λ b known. l.grows b (k.grows b known);
            accounts = Accounts-extend k.accounts l.accounts;
          }))

  -- Whatever a new instance is told, in whatever order and by whom: no call fails, at most one
  -- set is output, at most one `Aux` is sent, and each `BVal(b)` at most once.
  pub history-AtMostOnce :
      (n : NetworkInfo C) (es : List Event)
      → Returns (λ step t. AtMostOnce step) (history es (new n))
  history-AtMostOnce n es =
      Returns-weaken (Kept (new n)) (λ step t. AtMostOnce step) _
        (λ step t k. record {
          outputs = omega (arith, k.accounts.outputs, flag-le t.terminated);
          auxs =
              omega (
                arith,
                k.accounts.auxs,
                flag-le (t.netinfo.is_validator && inhabited t.bin_values),
              );
          bvals = λ b. omega (
            arith,
            k.accounts.bvals b,
            flag-le (t.netinfo.is_validator && BoolSet.contains t.sent_bval b),
          );
        })
        (history-Kept es (new n) (new-Inv n))
