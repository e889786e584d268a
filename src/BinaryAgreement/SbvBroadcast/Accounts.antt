-- ===== src/BinaryAgreement/SbvBroadcast/Accounts.antt =====
-- src/binary_agreement/sbv_broadcast.rs: what a call of a handler sends and outputs, counted
-- against the change of the state.
use hbbft.Prelude.{
  ℕ, ◌+◌, ◌≡◌, refl, ◌∙◌, Bool, true, false, ◌&&◌, ◌||◌, length, length-append, flag, count,
  count-append, bool_eq, arith,
}
use hbbft.Messaging.{TargetedMessage}
use hbbft.Traits.{default, extend}
use hbbft.Crypto.{Crypto}
use hbbft.BinaryAgreement.BoolSet
use hbbft.BinaryAgreement.SbvBroadcast.{SbvBroadcast, Message, bval, aux, Step}

abbrev pub is_bval : Bool → TargetedMessage Message → Bool
is_bval b m = elim m.message [ bval c ↦ bool_eq b c | aux c ↦ false ]

abbrev pub is_aux : TargetedMessage Message → Bool
is_aux m = elim m.message [ bval c ↦ false | aux c ↦ true ]

-- The set of values is not empty.
abbrev pub inhabited : BoolSet.BoolSet → Bool
inhabited s = BoolSet.contains s true || BoolSet.contains s false

module _ {C : Crypto} where
  -- What the instance counts as sent: an observer sends nothing.
  abbrev pub sent : SbvBroadcast C → Bool → ℕ
  sent s b = flag (s.netinfo.is_validator && b)

  -- Each `BVal(b)`, the `Aux` and the output are produced exactly when the state records them for
  -- the first time.
  pub record Accounts (s : SbvBroadcast C) (step : Step) (t : SbvBroadcast C) : Type 0 where
    pub network : t.netinfo ≡ s.netinfo
    pub outputs : length step.output + flag s.terminated ≡ flag t.terminated
    pub bvals :
        (b : Bool)
        → count (is_bval b) step.messages + sent s (BoolSet.contains s.sent_bval b)
          ≡ sent t (BoolSet.contains t.sent_bval b)
    pub auxs :
        count is_aux step.messages + sent s (inhabited s.bin_values)
        ≡ sent t (inhabited t.bin_values)

  pub Accounts-default : (s : SbvBroadcast C) → Accounts s default s
  Accounts-default s = record {
    network = refl;
    outputs = omega arith;
    bvals = λ b. omega arith;
    auxs = omega arith;
  }

  pub Accounts-extend :
      {s t u : SbvBroadcast C} {a b : Step}
      → Accounts s a t
      → Accounts t b u
      → Accounts s (extend a b) u
  Accounts-extend {a} {b} h k = record {
    network = k.network ∙ h.network;
    outputs = omega (arith, h.outputs, k.outputs, length-append a.output b.output);
    bvals =
        λ c. omega (arith, h.bvals c, k.bvals c, count-append (is_bval c) a.messages b.messages);
    auxs = omega (arith, h.auxs, k.auxs, count-append is_aux a.messages b.messages);
  }
