-- ===== src/Bundle.antt =====
-- common/model/bundle.c: a bundle of transactions, its hash, its signatures and its validity. The
-- sponge Kerl is the parameter `kerl`, which gives the 243 trits squeezed from the blocks absorbed
-- since it was set up, and `sig_digest` is `iss_kerl_sig_digest`, on the normalized hash from an
-- offset on and a signature.
pub mod Supply
pub mod Placed
pub mod Valid
pub mod Signatures
pub mod Indexes
pub mod Examples
use entangled.Prelude.{
  ℕ, zero, suc, ◌+◌, ◌-◌, ◌/◌, ◌%◌, ◌^◌, Bool, true, false, Option, none, some, List, [], ◌∷◌, ◌++◌,
  map, ◌==◌, ◌&&◌, ◌||◌, not, if◌then◌else◌, ltb, length, take, drop, replicate,
}
use entangled.Prelude.Int.{ℤ, pos}
use entangled.Prelude.Word.{u64_mod, add64, is_neg, gt64, llabs}
use entangled.Outcome.{Outcome, done, fail}
use entangled.Outcome.Retcode.{rc_null_param}
use entangled.Trinary.Long.{long_to_trits}
use entangled.Transaction.{
  Transaction, BundleStatus, to_trits, from_trits, not_initialized, valid, incomplete, invalid_tx,
  invalid_input_address, invalid_value, invalid_hash, invalid_signature,
}
use entangled.Normalize.{normalize_flex_hash_to_trits}

abbrev pub Bundle : Type 0
Bundle = List Transaction

abbrev pub max_iota_supply : ℕ
max_iota_supply = 2779530283277761

-- `long_to_trits` at an offset of an array.
unfoldable pub write_long : ℕ → ℕ → List ℤ → List ℤ
write_long offset value trits = take offset trits ++ (long_to_trits value (drop offset trits)).1

-- The essence of a transaction: 243, 81, 81, 27, 27 and 27 trits.
unfoldable pub essence : Transaction → List ℤ
essence tx =
    let with_address = to_trits 243 tx.address ++ replicate 243 (pos 0) in
    let with_value = write_long 243 tx.value with_address in
    let with_tag = take 324 with_value ++ to_trits 81 tx.obsolete_tag ++ drop 405 with_value in
    let with_timestamp = write_long 405 tx.timestamp with_tag in
    let with_current = write_long 432 tx.current_index with_timestamp in
    write_long 459 tx.last_index with_current

unfoldable pub calculate_hash : (List (List ℤ) → List ℤ) → Bundle → ℕ
calculate_hash kerl bundle = from_trits (kerl (map essence bundle))

-- The condition of the `do` loop of `validate_signatures`.
abbrev pub continues : ℕ → Bundle → Bool
continues address [] = false
continues address (tx ∷ txs) = (tx.address == address) && (tx.value == 0)

-- The `do` loop of `validate_signatures`, on the transactions from the one at hand on: the digests
-- absorbed, and the transactions left.
unfoldable pub absorb_digests :
    (List ℤ → ℕ → List ℤ) → List ℤ → ℕ → ℕ → Bundle → List (List ℤ) × Bundle
absorb_digests sig_digest normalized address offset [] = ([], [])
absorb_digests sig_digest normalized address offset (tx ∷ txs) =
    let digest = sig_digest (drop (offset % 243) normalized) tx.signature in
    let (rest, end) = absorb_digests sig_digest normalized address ((offset + 80) % 243 + 1) txs in
    if continues address txs then (digest ∷ rest, end) else (digest ∷ [], txs)

-- The `for` loop; a bundle of n transactions takes at most n rounds.
unfoldable pub validate_signatures_loop :
    ℕ → (List (List ℤ) → List ℤ) → (List ℤ → ℕ → List ℤ) → List ℤ → Bundle → Bool
validate_signatures_loop zero kerl sig_digest normalized txs = true
validate_signatures_loop (suc fuel) kerl sig_digest normalized [] = true
validate_signatures_loop (suc fuel) kerl sig_digest normalized (tx ∷ txs) =
    let next = validate_signatures_loop fuel kerl sig_digest normalized txs in
    let (digests, end) = absorb_digests sig_digest normalized tx.address 0 (tx ∷ txs) in
    let later = validate_signatures_loop fuel kerl sig_digest normalized end in
    if is_neg tx.value
    then if from_trits (kerl digests) == tx.address then later else false
    else next

unfoldable pub validate_signatures :
    (List (List ℤ) → List ℤ) → (List ℤ → ℕ → List ℤ) → List ℤ → Bundle → Bool
validate_signatures kerl sig_digest normalized bundle =
    validate_signatures_loop (length bundle) kerl sig_digest normalized bundle

unfoldable pub bundle_at : Bundle → ℕ → Option Transaction
bundle_at [] index = none
bundle_at (tx ∷ txs) index =
    let rest = bundle_at txs (index - 1) in if index == 0 then some tx else rest

-- `flex_trits_at` of the last trit of an address.
unfoldable pub last_trit_set : ℕ → Bool
last_trit_set address = not (address / 3 ^ 242 % 3 == 0)

-- The checks on the last transaction of a bundle.
unfoldable pub validate_last :
    (List (List ℤ) → List ℤ) → (List ℤ → ℕ → List ℤ) → Bundle → ℕ → ℕ → BundleStatus
validate_last kerl sig_digest bundle bundle_hash bundle_value =
    let calculated = calculate_hash kerl bundle in
    if not (bundle_value == 0)
    then invalid_value
    else if not (bundle_hash == calculated)
    then invalid_hash
    else if validate_signatures kerl sig_digest (normalize_flex_hash_to_trits calculated) bundle
    then valid
    else invalid_signature

-- `break` on a fault, else the next round.
abbrev pub then_next : BundleStatus → BundleStatus → BundleStatus
then_next valid next = next
then_next s next = s

-- The loop of `bundle_validate`: `last` stands for the checks on the last transaction, given the
-- value of the bundle.
unfoldable pub validate_from : (ℕ → BundleStatus) → ℕ → ℕ → ℕ → BundleStatus → Bundle → BundleStatus
validate_from last last_index current_index bundle_value status [] = status
validate_from last last_index current_index bundle_value status (tx ∷ txs) =
    let sum = add64 bundle_value tx.value in
    let rest = validate_from last last_index ((current_index + 1) % u64_mod) sum valid txs in
    if gt64 (llabs tx.value) max_iota_supply
    then invalid_value
    else if gt64 (llabs sum) max_iota_supply
    then invalid_value
    else if not (tx.current_index == current_index) || not (tx.last_index == last_index)
    then invalid_tx
    else if not (tx.value == 0) && last_trit_set tx.address
    then invalid_input_address
    else if tx.current_index == last_index
    then then_next (last sum) rest
    else rest

-- `none` on an empty array, where the code reads through a null pointer.
unfoldable pub validate :
    (List (List ℤ) → List ℤ) → (List ℤ → ℕ → List ℤ) → Bundle → Option BundleStatus
validate kerl sig_digest [] = none
validate kerl sig_digest (tx ∷ txs) = some (
    if length (tx ∷ txs) == (tx.last_index + 1) % u64_mod
    then validate_from (validate_last kerl sig_digest (tx ∷ txs) tx.bundle) tx.last_index 0 0
        not_initialized (tx ∷ txs)
    else incomplete)

-- With the test for the null pointer, `none`.
unfoldable pub bundle_validate :
    (List (List ℤ) → List ℤ) → (List ℤ → ℕ → List ℤ) → Option Bundle → Option (Outcome BundleStatus)
bundle_validate kerl sig_digest none = some (fail rc_null_param not_initialized)
bundle_validate kerl sig_digest (some txs) = elim (validate kerl sig_digest txs) [
  | none ↦ none
  | some status ↦ some (done status)
]

unfoldable pub reset_indexes_from : ℕ → ℕ → Bundle → Bundle
reset_indexes_from last_index current_index [] = []
reset_indexes_from last_index current_index (tx ∷ txs) =
    record tx { last_index = last_index; current_index = current_index }
    ∷ reset_indexes_from last_index (current_index + 1) txs

unfoldable pub reset_indexes : Bundle → Bundle
reset_indexes bundle = reset_indexes_from (length bundle - 1) 0 bundle
