-- ===== src/HoneyBadger/Builder.antt =====
-- src/honey_badger/builder.rs: the builder of an instance, with its setters.
use hbbft.Prelude.{ℕ, false, []}
use hbbft.Crypto.{Crypto}
use hbbft.NetworkInfo.{NetworkInfo}
use hbbft.Broadcast.Coding.{ReedSolomon}
use hbbft.HoneyBadger.Schedule.{SubsetHandlingStrategy, EncryptionSchedule, Params, default}
use hbbft.HoneyBadger.Instance.{HoneyBadger}

pub record HoneyBadgerBuilder (C : Crypto) : Type 0 where
  pub netinfo : NetworkInfo C
  pub session_id : ℕ
  pub epoch : ℕ
  pub params : Params

module _ {C : Crypto} where
  unfoldable pub new : NetworkInfo C → HoneyBadgerBuilder C
  new netinfo = record { netinfo = netinfo; session_id = 0; epoch = 0; params = default }

  abbrev pub with_session_id : HoneyBadgerBuilder C → ℕ → HoneyBadgerBuilder C
  with_session_id b id = record b { session_id = id }

  abbrev pub with_epoch : HoneyBadgerBuilder C → ℕ → HoneyBadgerBuilder C
  with_epoch b e = record b { epoch = e }

  abbrev pub with_max_future_epochs : HoneyBadgerBuilder C → ℕ → HoneyBadgerBuilder C
  with_max_future_epochs b n = record b { params = record b.params { max_future_epochs = n } }

  abbrev pub with_strategy : HoneyBadgerBuilder C → SubsetHandlingStrategy → HoneyBadgerBuilder C
  with_strategy b strategy = record b {
    params = record b.params { subset_handling_strategy = strategy };
  }

  abbrev pub with_schedule : HoneyBadgerBuilder C → EncryptionSchedule → HoneyBadgerBuilder C
  with_schedule b schedule = record b {
    params = record b.params { encryption_schedule = schedule };
  }

  abbrev pub with_params : HoneyBadgerBuilder C → Params → HoneyBadgerBuilder C
  with_params b p = record b { params = p }

  unfoldable pub build : {R : ReedSolomon} → HoneyBadgerBuilder C → HoneyBadger C R
  build b = record {
    netinfo = b.netinfo;
    session_id = b.session_id;
    epoch = b.epoch;
    has_input = false;
    epochs = [];
    params = b.params;
  }
