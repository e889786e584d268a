-- ===== src/BinaryAgreement/SbvBroadcast/Handling.antt =====
-- src/binary_agreement/sbv_broadcast.rs: the invariant and the accounts, call by call.
use hbbft.Prelude.{
  ℕ, suc, ◌+◌, ◌*◌, ◌≤◌, ◌≡◌, refl, ap, ◌⊎◌, inl, inr, Bool, true, false, length, flag, bool_eq,
  arith, Returns, Returns-bind, Returns-weaken, Returns-if, ◌==◌, return,
}
use hbbft.Prelude.BTreeSet.{contains as set_contains, insert as set_insert, length-insert}
use hbbft.FaultLog.{NodeId}
use hbbft.Messaging.{Target, message}
use hbbft.Traits.{default, extend, from_message, when, Returns-when}
use hbbft.Crypto.{Crypto}
use hbbft.NetworkInfo.{NetworkInfo}
use hbbft.BinaryAgreement.Faults.{Error}
use hbbft.BinaryAgreement.BoolSet
use hbbft.BinaryAgreement.BoolSet.Laws.{
  contains-empty, contains-insert, insert_changed, insert-IsValid,
}
use hbbft.BinaryAgreement.BoolMultimap.{BoolMultimap, index, update}
use hbbft.BinaryAgreement.SbvBroadcast.{
  SbvBroadcast, Message, bval, aux, Step, new, clear, send, send_bval_with, enter_bin_values,
  handle_bval_with, dispatch, handle_fuel, handle_message, send_bval,
}
use hbbft.BinaryAgreement.SbvBroadcast.Accounts.{
  Accounts, Accounts-default, Accounts-extend, inhabited,
}
use hbbft.BinaryAgreement.SbvBroadcast.Invariant.{
  Inv, bval_count, Quiet, try_output-Quiet, handle_aux-Quiet, Entered, enter-Entered,
}

module _ {C : Crypto} where
  -- What a call guarantees of its step and of the state after it.
  pub record Kept (s : SbvBroadcast C) (step : Step) (t : SbvBroadcast C) : Type 0 where
    pub inv : Inv t
    pub grows :
        (b : Bool) → BoolSet.contains s.sent_bval b ≡ true → BoolSet.contains t.sent_bval b ≡ true
    pub accounts : Accounts s step t

  default-Kept : (s : SbvBroadcast C) → Inv s → Kept s default s
  default-Kept s h = record { inv = h; grows = λ b e. e; accounts = Accounts-default s }

  Quiet-Kept :
      (s : SbvBroadcast C) (step : Step) (t : SbvBroadcast C)
      → Inv s
      → Quiet s step t
      → Kept s step t
  Quiet-Kept s step t h q = record {
    inv = record {
      bin_valid = ground arith;
      sent_valid = ground arith;
      bin_iff = λ b. ground (arith, h.bin_iff b);
    };
    grows = λ b e. ground arith;
    accounts = record {
      network = q.same.network;
      outputs = q.outputs;
      bvals = λ b. ground arith;
      auxs = ground arith;
    };
  }

  -- The state with one more `BVal`.
  abbrev with_bval : SbvBroadcast C → NodeId → Bool → SbvBroadcast C
  with_bval s id b = record s {
    received_bval = update s.received_bval b (set_insert id (index s.received_bval b));
  }

  bval_count-with_bval :
      (s : SbvBroadcast C) (id : NodeId) (b c : Bool)
      → set_contains (index s.received_bval b) id ≡ false
      → bval_count (with_bval s id b) c ≡ bval_count s c + flag (bool_eq b c)
  bval_count-with_bval s id b c new = ground (arith, length-insert id (index s.received_bval b))

  enter_stage :
      (n : ℕ) (s : SbvBroadcast C) (id : NodeId) (b : Bool)
      → Inv s
      → set_contains (index s.received_bval b) id ≡ false
      → Returns (Kept s) (
          when
            (length (set_insert id (index s.received_bval b)) == 2 * s.netinfo.num_faulty + 1)
            (enter_bin_values (handle_fuel (suc n)) b)
            (with_bval s id b))
  enter_stage n s id b h new =
      Returns-when (Kept s)
        (length (set_insert id (index s.received_bval b)) == 2 * s.netinfo.num_faulty + 1) _
        (with_bval s id b)
        (λ full.
          Returns-weaken (Entered b (with_bval s id b)) (Kept s) _
            (λ step t e. record {
              inv = record {
                bin_valid = ground (arith, insert-IsValid b s.bin_values h.bin_valid);
                sent_valid = ground arith;
                bin_iff = λ c. ground (
                  arith,
                  ap (λ v. BoolSet.contains v c) e.bin_values,
                  ap (λ m. length (index m c)) e.received_bval,
                  contains-insert b s.bin_values c,
                  bval_count-with_bval s id b c new,
                  length-insert id (index s.received_bval b),
                  new,
                  h.bin_iff c,
                );
              };
              grows = λ c known. ground arith;
              accounts = record {
                network = e.network;
                outputs = e.outputs;
                bvals = λ c. ground (arith, e.bvals c);
                auxs = ground (
                  arith,
                  e.auxs,
                  ap (λ v. inhabited v) e.bin_values,
                  contains-insert b s.bin_values true,
                  contains-insert b s.bin_values false,
                );
              };
            })
            (enter-Entered n b (with_bval s id b) h.bin_valid
              (ground (arith, h.bin_iff b, length-insert id (index s.received_bval b), new))))
        (λ other. record {
          inv = record {
            bin_valid = h.bin_valid;
            sent_valid = h.sent_valid;
            bin_iff = λ c. ground (
              arith,
              h.bin_iff c,
              bval_count-with_bval s id b c new,
              length-insert id (index s.received_bval b),
              new,
            );
          };
          grows = λ c known. known;
          accounts = record {
            network = refl;
            outputs = omega arith;
            bvals = λ c. omega arith;
            auxs = omega arith;
          };
        })

-- What is known of a nested call with `BVal(b)`, which is made once `b` counts as sent.
abbrev Nested : Crypto → ℕ → Bool → Type 0
Nested C n b =
    (u : SbvBroadcast C)
    → Inv u
    → BoolSet.contains u.sent_bval b ≡ true
    → Returns (Kept u) (handle_fuel (suc n) u.netinfo.our_id (bval b) u)

module _ {C : Crypto} (s : SbvBroadcast C) (b : Bool) where
  -- The state with `b` among the values sent.
  abbrev with_sent : SbvBroadcast C
  with_sent = record s { sent_bval = (BoolSet.insert b s.sent_bval).0 }

  first_sent :
      BoolSet.contains s.sent_bval b ≡ false
      → s.netinfo.is_validator ≡ true
      → Accounts s (from_message (message Target.all (bval b))) with_sent
  first_sent fresh v = record {
    network = refl;
    outputs = omega arith;
    bvals = λ c. ground (arith, contains-insert b s.sent_bval c);
    auxs = omega arith;
  }

  observer_sent : s.netinfo.is_validator ≡ false → Accounts s default with_sent
  observer_sent v = record {
    network = refl;
    outputs = omega arith;
    bvals = λ c. ground arith;
    auxs = omega arith;
  }

  with_sent-Inv : Inv s → Inv with_sent
  with_sent-Inv h = record {
    bin_valid = h.bin_valid;
    sent_valid = insert-IsValid b s.sent_bval h.sent_valid;
    bin_iff = h.bin_iff;
  }

  with_sent_grows :
      (c : Bool)
      → BoolSet.contains s.sent_bval c ≡ true
      → BoolSet.contains with_sent.sent_bval c ≡ true
  with_sent_grows c known = ground (arith, contains-insert b s.sent_bval c)

  with_sent-Kept :
      {a d : Step} {t : SbvBroadcast C}
      → Accounts s a with_sent
      → Kept with_sent d t
      → Kept s (extend a d) t
  with_sent-Kept first k = record {
    inv = k.inv;
    grows = λ c known. k.grows c (with_sent_grows c known);
    accounts = Accounts-extend first k.accounts;
  }

  send_stage :
      (n : ℕ)
      → Inv s
      → (BoolSet.contains s.sent_bval b ≡ true) ⊎ Nested C n b
      → Returns (Kept s) (send_bval_with (handle_fuel (suc n)) b s)
  unfolding send_bval_with send
  send_stage n h nested =
      Returns-if (Kept s) (BoolSet.insert b s.sent_bval).1 _ _
        (λ fresh.
          let new : BoolSet.contains s.sent_bval b ≡ false =
            ground (arith, insert_changed b s.sent_bval) in
          Returns-if (Kept s) s.netinfo.is_validator _ _
            (λ v.
              Returns-bind (Kept with_sent) (Kept s)
                (handle_fuel (suc n) s.netinfo.our_id (bval b) with_sent) _
                (elim nested [
                  | inl old ↦ absurd (cc)
                  | inr call ↦
                      call with_sent (with_sent-Inv h)
                        (ground (arith, contains-insert b s.sent_bval b))
                ])
                (λ step t k. with_sent-Kept (first_sent new v) k))
            (λ v.
              Returns-weaken (Quiet with_sent) (Kept s) _
                (λ step t q.
                  with_sent-Kept (observer_sent v)
                    (Quiet-Kept with_sent step t (with_sent-Inv h) q))
                (try_output-Quiet with_sent)))
        (λ old. default-Kept s h)

module _ {C : Crypto} where
  bval-Kept :
      (n : ℕ) (id : NodeId) (b : Bool) (s : SbvBroadcast C)
      → Inv s
      → (BoolSet.contains s.sent_bval b ≡ true) ⊎ Nested C n b
      → Returns (Kept s) (handle_bval_with (handle_fuel (suc n)) id b s)
  unfolding handle_bval_with
  bval-Kept n id b s h nested =
      Returns-if (Kept s) (set_contains (index s.received_bval b) id) _ _
        (λ dup. record {
          inv = h;
          grows = λ c known. known;
          accounts = record {
            network = refl;
            outputs = omega arith;
            bvals = λ c. omega arith;
            auxs = omega arith;
          };
        })
        (λ new. Returns-bind (Kept s) (Kept s) _ _ (enter_stage n s id b h new) (λ first t k.
          Returns-bind {E = Error C} (Kept t) (Kept s) _ (λ second. return (extend first second))
            (Returns-when (Kept t)
              (length (set_insert id (index s.received_bval b)) == s.netinfo.num_faulty + 1)
              (send_bval_with (handle_fuel (suc n)) b) t
              (λ reached.
                send_stage t b n k.inv
                  (elim nested [ inl old ↦ inl (k.grows b old) | inr call ↦ inr call ]))
              (λ other. default-Kept t k.inv))
            (λ second u l. record {
              inv = l.inv;
              grows = λ c known. l.grows c (k.grows c known);
              accounts = Accounts-extend k.accounts l.accounts;
            })))

  -- Two nested calls are enough for a value that counts as sent, three for any.
  Nested-Kept : (n : ℕ) (b : Bool) → Nested C (suc n) b
  unfolding handle_fuel dispatch
  Nested-Kept n b u h known = bval-Kept n u.netinfo.our_id b u h (inl known)

  handle_fuel-Kept :
      (n : ℕ) (id : NodeId) (msg : Message) (s : SbvBroadcast C)
      → Inv s
      → Returns (Kept s) (handle_fuel (suc (suc (suc n))) id msg s)
  unfolding handle_fuel dispatch
  handle_fuel-Kept n id (bval b) s h = bval-Kept (suc n) id b s h (inr (Nested-Kept n b))
  handle_fuel-Kept n id (aux b) s h =
      Returns-weaken (Quiet s) (Kept s) _ (λ step t q. Quiet-Kept s step t h q)
        (handle_aux-Quiet id b s)

  pub handle_message-Kept :
      (id : NodeId) (msg : Message) (s : SbvBroadcast C)
      → Inv s
      → Returns (Kept s) (handle_message id msg s)
  unfolding handle_message
  handle_message-Kept id msg s h = handle_fuel-Kept 0 id msg s h

  pub send_bval-Kept : (b : Bool) (s : SbvBroadcast C) → Inv s → Returns (Kept s) (send_bval b s)
  unfolding send_bval handle_message
  send_bval-Kept b s h = send_stage s b 2 h (inr (Nested-Kept 1 b))

  -- The invariant holds at the start, and after a reset to few enough values.
  pub new-Inv : (n : NetworkInfo C) → Inv (new n)
  unfolding new
  new-Inv n = record {
    bin_valid = omega arith;
    sent_valid = omega arith;
    bin_iff = λ b. ground (arith, contains-empty b);
  }

  pub clear-Inv :
      (init : BoolMultimap) (s : SbvBroadcast C)
      → ((b : Bool) → length (index init b) ≤ 2 * s.netinfo.num_faulty)
      → Inv (clear init s)
  unfolding clear
  clear-Inv init s few = record {
    bin_valid = omega arith;
    sent_valid = omega arith;
    bin_iff = λ b. ground (arith, contains-empty b, few b);
  }
