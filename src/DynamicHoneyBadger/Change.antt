-- ===== src/DynamicHoneyBadger/Change.antt =====
-- src/dynamic_honey_badger/change.rs: changes of the network, and their equality.
use hbbft.Prelude.{arith, ◌≡◌, ◌↔◌, refl, ap, Bool, true, false, ◌&&◌, [], ◌∷◌, ◌==◌}
use hbbft.Prelude.BTreeMap.{BTreeMap}
use hbbft.Crypto.{Crypto}
use hbbft.HoneyBadger.Schedule.{EncryptionSchedule, always, never, every_nth_epoch, tick_tock}

pub data Change (C : Crypto) : Type 0 where
  node_change : BTreeMap C.PublicKey → Change C
  encryption_schedule : EncryptionSchedule → Change C

pub data ChangeState (C : Crypto) : Type 0 where
  nothing : ChangeState C
  in_progress : Change C → ChangeState C
  complete : Change C → ChangeState C

-- `PartialEq` of the schedules, of the maps of keys, and of the changes.
abbrev pub schedule_eq : EncryptionSchedule → EncryptionSchedule → Bool
schedule_eq always always = true
schedule_eq never never = true
schedule_eq (every_nth_epoch n) (every_nth_epoch m) = n == m
schedule_eq (tick_tock on off) (tick_tock on2 off2) = (on == on2) && (off == off2)
schedule_eq _ _ = false

abbrev pub keys_eq : {K : Type 0} → (K → K → Bool) → BTreeMap K → BTreeMap K → Bool
keys_eq same_key [] [] = true
keys_eq same_key [] (e ∷ m) = false
keys_eq same_key (e ∷ m) [] = false
keys_eq same_key ((i, k) ∷ m) ((j, l) ∷ n) = (i == j) && (same_key k l && keys_eq same_key m n)

abbrev pub change_eq :
    {C : Crypto} → (C.PublicKey → C.PublicKey → Bool) → Change C → Change C → Bool
change_eq same_key (node_change m) (node_change n) = keys_eq same_key m n
change_eq same_key (encryption_schedule s) (encryption_schedule t) = schedule_eq s t
change_eq same_key (node_change m) (encryption_schedule t) = false
change_eq same_key (encryption_schedule s) (node_change n) = false

pub schedule_eq_iff : (s t : EncryptionSchedule) → (schedule_eq s t ≡ true) ↔ (s ≡ t)
schedule_eq_iff always always = (λ e. refl, λ e. refl)
schedule_eq_iff always never = (λ e. cc, λ e. cc)
schedule_eq_iff always (every_nth_epoch m) = (λ e. cc, λ e. cc)
schedule_eq_iff always (tick_tock on2 off2) = (λ e. cc, λ e. cc)
schedule_eq_iff never always = (λ e. cc, λ e. cc)
schedule_eq_iff never never = (λ e. refl, λ e. refl)
schedule_eq_iff never (every_nth_epoch m) = (λ e. cc, λ e. cc)
schedule_eq_iff never (tick_tock on2 off2) = (λ e. cc, λ e. cc)
schedule_eq_iff (every_nth_epoch n) always = (λ e. cc, λ e. cc)
schedule_eq_iff (every_nth_epoch n) never = (λ e. cc, λ e. cc)
schedule_eq_iff (every_nth_epoch n) (every_nth_epoch m) = (λ e. ground arith, λ e. ground arith)
schedule_eq_iff (every_nth_epoch n) (tick_tock on2 off2) = (λ e. cc, λ e. cc)
schedule_eq_iff (tick_tock on off) always = (λ e. cc, λ e. cc)
schedule_eq_iff (tick_tock on off) never = (λ e. cc, λ e. cc)
schedule_eq_iff (tick_tock on off) (every_nth_epoch m) = (λ e. cc, λ e. cc)
schedule_eq_iff (tick_tock on off) (tick_tock on2 off2) = (λ e. ground arith, λ e. ground arith)

pub keys_eq_iff :
    {K : Type 0} (same_key : K → K → Bool)
    → ((k l : K) → (same_key k l ≡ true) ↔ (k ≡ l))
    → (m n : BTreeMap K) → (keys_eq same_key m n ≡ true) ↔ (m ≡ n)
keys_eq_iff same_key law [] [] = (λ e. refl, λ e. refl)
keys_eq_iff same_key law [] (x ∷ n) = (λ e. cc, λ e. cc)
keys_eq_iff same_key law (x ∷ m) [] = (λ e. cc, λ e. cc)
keys_eq_iff same_key law ((i, k) ∷ m) ((j, l) ∷ n) =
    let ih = keys_eq_iff same_key law m n in
    let here = law k l in (λ e. ground (arith, ih, here), λ e. ground (arith, ih, here))

-- Where the equality of keys decides it, so does the equality of changes.
pub change_eq_iff :
    {C : Crypto} (same_key : C.PublicKey → C.PublicKey → Bool)
    → ((k l : C.PublicKey) → (same_key k l ≡ true) ↔ (k ≡ l))
    → (c d : Change C) → (change_eq same_key c d ≡ true) ↔ (c ≡ d)
change_eq_iff same_key law (node_change m) (node_change n) =
    let same = keys_eq_iff same_key law m n in (λ e. ap node_change (same.0 e), λ e. same.1 cc)
change_eq_iff same_key law (encryption_schedule s) (encryption_schedule t) =
    let same = schedule_eq_iff s t in (λ e. ap encryption_schedule (same.0 e), λ e. same.1 cc)
change_eq_iff same_key law (node_change m) (encryption_schedule t) = (λ e. cc, λ e. cc)
change_eq_iff same_key law (encryption_schedule s) (node_change n) = (λ e. cc, λ e. cc)
