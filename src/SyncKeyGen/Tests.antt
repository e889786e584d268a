-- ===== src/SyncKeyGen/Tests.antt =====
-- A key generation of four nodes with a toy polynomial, and the theorems at concrete inputs.
use hbbft.Prelude.{
  ℕ, ◌+◌, ◌-◌, ◌≡◌, refl, inr, none, some, List, [], ◌∷◌, head?, if◌then◌else◌, ◌==◌, true, ok,
  ==_refl, ==_iff, arith,
}
use hbbft.Prelude.BTreeMap.{BTreeMap, Entries, get, insert, set}
use hbbft.Prelude.BTreeSet as Set
use hbbft.Prelude.BTreeSet.{contains}
use hbbft.FaultLog.{NodeId}
use hbbft.Crypto.{Crypto}
use hbbft.Samples.{toy, four_keys}
use hbbft.SyncKeyGen.Instance.{
  ProposalState, valid, valid_ack, Polynomials, Part, Ack, SyncKeyGen, count_complete, is_ready,
  generate, position, is_complete, sum_commitments, sum_values, complete_parts, node_index,
}
use hbbft.SyncKeyGen.Handlers.{
  new, handle_part, handle_ack, handle_part_or_fault, handle_ack_or_fault, check_row, check_value,
  store_value, ack_part, part_outcome, ack_row, encrypt_each, add_ciphertext,
}
use hbbft.SyncKeyGen.Public.{
  Event, part_from, ack_from, handle, handle_all, public_state, see_all, public-handle_all,
  handle_all-same_keys,
}
use hbbft.SyncKeyGen.Ciphertexts.{IsLawful}
use hbbft.SyncKeyGen.Honest.{IsMember, handle_part-honest, handle_ack-honest}
use hbbft.SyncKeyGen.Values.{Matches, IsHandled}
use hbbft.SyncKeyGen.Handled.{new-Handles}

-- A ciphertext is the public key with the text.
abbrev boxes : Crypto
boxes = record toy {
  Ciphertext = ℕ × List ℕ;
  verify_ciphertext = λ ct. true;
  decrypt_share = λ key ct. 0;
  verify_decryption_share = λ key share ct. true;
  decrypt = λ set shares ct. inr ct.1;
}

-- The polynomial p + x + y, which is its own commitment.
abbrev sums : Polynomials boxes
sums = record {
  BivarPoly = ℕ;
  BivarCommitment = ℕ;
  Poly = ℕ;
  Commitment = ℕ;
  Fr = ℕ;
  G1 = ℕ;
  Rng = ℕ;
  SerializeError = ℕ;
  random = λ degree rng. (rng, rng + 1);
  commitment = λ p. p;
  row = λ p i. p + i;
  commitment_row = λ c i. c + i;
  commitment_at = λ c i j. c + i + j;
  bivar_eq = λ c d. c == d;
  commitment_eq = λ c d. c == d;
  g1_eq = λ x y. x == y;
  poly_commitment = λ r. r;
  evaluate = λ r j. r + j;
  interpolate = at_zero;
  one_mul = λ v. v;
  zero_commitment = 0;
  add_commitment = λ c d. c + d;
  fr_zero = 0;
  fr_add = λ v w. v + w;
  key_set = λ c. c;
  key_share = λ v. v;
  serialize_row = λ r. inr (r ∷ []);
  deserialize_row = head?;
  serialize_value = λ v. inr (v ∷ []);
  deserialize_value = head?;
  encrypt_with_rng = λ pk rng bytes. ((pk, bytes), rng);
  decrypt = λ sk ct. if ct.0 == sk then some ct.1 else none;
}
  where
    at_zero : List (ℕ × ℕ) → ℕ
    at_zero [] = 0
    at_zero ((j, v) ∷ points) = v - j

started : NodeId → ℕ → SyncKeyGen boxes sums
started id key = record {
  our_id = id;
  our_idx = position 0 (10 ∷ 20 ∷ 30 ∷ 40 ∷ []) id;
  sec_key = key;
  pub_keys = four_keys;
  parts = [];
  threshold = 1;
}

-- The part of the polynomial 5 + x + y, and acknowledgements of it.
abbrev part_of_ten : Part boxes sums
part_of_ten = record {
  commit = 5;
  rows = (0, 6 ∷ []) ∷ (1, 7 ∷ []) ∷ (2, 8 ∷ []) ∷ (3, 9 ∷ []) ∷ [];
}

abbrev short_ack : ℕ → Ack boxes
short_ack i = record {
  proposer_idx = 0;
  values = (0, (7 + i) ∷ []) ∷ (1, (8 + i) ∷ []) ∷ (2, (9 + i) ∷ []) ∷ [];
}

abbrev full_ack : ℕ → Ack boxes
full_ack i = record {
  proposer_idx = 0;
  values = (0, (7 + i) ∷ []) ∷ (1, (8 + i) ∷ []) ∷ (2, (9 + i) ∷ []) ∷ (3, (10 + i) ∷ []) ∷ [];
}

-- One acknowledgement is too short, one comes twice.
abbrev events : List (Event boxes sums)
events =
    part_from 10 part_of_ten
    ∷ ack_from 10 (full_ack 0)
    ∷ ack_from 30 (short_ack 2)
    ∷ ack_from 10 (full_ack 0)
    ∷ ack_from 30 (full_ack 2)
    ∷ ack_from 40 (full_ack 3)
    ∷ []

new_made : new sums 10 0 four_keys 1 5 ≡ (inr (started 10 0, some part_of_ten), 6)
unfolding new started position encrypt_each add_ciphertext
new_made = refl

counted : count_complete (handle_all events 5 (started 20 1)).1 ≡ 1
unfolding handle_all count_complete started position is_complete sum_commitments sum_values
    complete_parts handle handle_part handle_ack node_index handle_part_or_fault handle_ack_or_fault
    check_row check_value store_value ack_part part_outcome ack_row encrypt_each add_ciphertext get
    insert set Set.insert contains
counted = refl

values_stored : (generate (handle_all events 5 (started 20 1)).1) ≡ (5, some 7)
unfolding handle_all generate started position is_complete sum_commitments sum_values complete_parts
    handle handle_part handle_ack node_index handle_part_or_fault handle_ack_or_fault check_row
    check_value store_value ack_part part_outcome ack_row encrypt_each add_ciphertext get insert set
    Set.insert contains
values_stored = refl

public-handle_all_example :
    public_state (handle_all events 5 (started 20 1)).1
    ≡ see_all events (public_state (started 20 1))
public-handle_all_example = public-handle_all events 5 (started 20 1)

-- Node 20 and an observer.
handle_all-same_keys_example :
    let node = (handle_all events 5 (started 20 1)).1 in
    let observer = (handle_all events 9 (started 50 4)).1 in
    (count_complete node ≡ count_complete observer)
    × (is_ready node ≡ is_ready observer)
    × ((generate node).0 ≡ (generate observer).0)
unfolding started public_state
handle_all-same_keys_example = handle_all-same_keys events 5 9 (started 20 1) (started 50 4) refl

new-Handles_example :
    let node = (handle_all events 7 (started 10 0)).1 in
    Entries (Matches sums node.our_idx) node.parts
    × ((sender : NodeId) (p : Part boxes sums) (u : ℕ)
        → IsHandled (handle_part sender p u node).0.0)
    × ((sender : NodeId) (ack : Ack boxes) → IsHandled (handle_ack sender ack node).0)
new-Handles_example =
    new-Handles sums 10 0 four_keys 1 5 6 (started 10 0) (some part_of_ten) new_made events 7

sums-IsLawful : IsLawful sums
sums-IsLawful = record {
  row_commits = λ p i. ==_refl (p + i);
  value_commits = λ p i j. (==_iff (p + i + j) (p + j + i)).1 (omega arith);
  reads_row = λ row bytes e. ground (arith, e);
  reads_value = λ v bytes e. ground (arith, e);
}

second-IsMember :
    (parts : BTreeMap (ProposalState boxes sums))
    → IsMember sums (record (started 20 1) { parts = parts }) 1 1
unfolding started position
second-IsMember parts = record { at_index = refl; has_key = refl; opens = λ rng bytes. refl }

-- Node 20, before and after the part of node 10.
abbrev with_part : SyncKeyGen boxes sums
with_part = record (started 20 1) {
  parts = (0, record { commit = 5; values = []; acks = [] }) ∷ [];
}

handle_part-honest_example :
    (p : ℕ) × (part_of_ten.commit ≡ p)
    × (handle_part 10 part_of_ten 9 (started 20 1) ≡ (ack_row 0 four_keys (p + 2) 9, with_part))
unfolding started insert node_index position get
handle_part-honest_example =
    handle_part-honest sums sums-IsLawful 10 0 1 5 6 (started 10 0) (started 20 1) part_of_ten
      new_made 1 1 (second-IsMember []) 10 0 refl refl 9

third_ack : ack_row {P = sums} 0 four_keys 8 5 ≡ (ok (valid (some (full_ack 2))), 5)
unfolding ack_row encrypt_each add_ciphertext
third_ack = refl

handle_ack-honest_example : handle_ack 30 (full_ack 2) with_part ≡ (
  ok valid_ack,
  record with_part {
    parts = (0, record { commit = 5; values = (3, 10) ∷ []; acks = 2 ∷ [] }) ∷ [];
  },
)
unfolding started insert set node_index position get Set.insert contains
handle_ack-honest_example =
    handle_ack-honest sums sums-IsLawful 5 with_part 0 2 5 5 (full_ack 2) third_ack 1 1
      (second-IsMember with_part.parts) 30 refl (record { commit = 5; values = []; acks = [] }) refl
      refl refl
