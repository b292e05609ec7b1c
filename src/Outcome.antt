-- ===== src/Outcome.antt =====
-- The status codes of common/errors.h that the modelled code returns, and the outcome of an
-- operation on an object that its caller passes by reference: the object as the operation leaves
-- it, also when the operation fails.
use entangled.Prelude.{◌≡◌, refl, List, [], ◌∷◌}

pub data Retcode : Type 0 where
  rc_oom : Retcode
  rc_null_param : Retcode
  rc_still_running : Retcode
  rc_storage : Retcode
  rc_tangle_tail_not_found : Retcode
  rc_tangle_not_a_tail : Retcode
  rc_snapshot_balance_not_found : Retcode
  rc_snapshot_inconsistent_patch : Retcode
  rc_snapshot_invalid_supply : Retcode
  rc_snapshot_inconsistent_snapshot : Retcode
  rc_ledger_validator_invalid_transaction : Retcode
  rc_ledger_validator_transaction_not_solid : Retcode
  rc_ledger_validator_could_not_load_milestone : Retcode
  rc_ledger_validator_inconsistent_delta : Retcode
  rc_cw_failed_in_dfs_from_db : Retcode
  rc_cw_failed_in_light_dfs : Retcode
  rc_exit_probabilities_invalid_entrypoint : Retcode
  rc_exit_probabilities_missing_rating : Retcode
  rc_tip_selector_tips_not_consistent : Retcode
  rc_tip_selector_reference_too_old : Retcode
  rc_mam_invalid_value : Retcode
  rc_mam_pb3_eof : Retcode
  rc_mam_pb3_bad_mac : Retcode

-- `done s` is `RC_OK`.
pub data Outcome (S : Type 0) : Type 0 where
  done : S → Outcome S
  fail : Retcode → S → Outcome S

-- The object after the call, whatever the call returned.
abbrev pub left : {S : Type 0} → Outcome S → S
left (done s) = s
left (fail e s) = s

infixl 5 ◌>>=◌
abbrev pub ◌>>=◌ : {S : Type 0} → Outcome S → (S → Outcome S) → Outcome S
done s >>= f = f s
fail e s >>= f = fail e s

-- A loop over a list that returns at the first error.
unfoldable pub for_each : {S A : Type 0} → (A → S → Outcome S) → List A → S → Outcome S
for_each step [] s = done s
for_each step (x ∷ xs) s = step x s >>= for_each step xs

-- Inversion of a successful sequence.
pub >>=-eq-done :
    {S : Type 0} (m : Outcome S) (f : S → Outcome S) {t : S}
    → (m >>= f) ≡ done t
    → (s : S) × (m ≡ done s) × (f s ≡ done t)
>>=-eq-done (done s) f h = (s, refl, h)
>>=-eq-done (fail e s) f h = cc

-- What the first part establishes and the second keeps, the sequence establishes, also when one
-- of them fails.
pub >>=-left :
    {S : Type 0} (P : S → Type 0) (m : Outcome S) (f : S → Outcome S)
    → P (left m)
    → ((s : S) → P s → P (left (f s)))
    → P (left (m >>= f))
>>=-left P (done s) f h k = k s h
>>=-left P (fail e s) f h k = h

-- What every step keeps, the loop keeps.
pub for_each-left :
    {S A : Type 0} (P : S → Type 0) (step : A → S → Outcome S)
    → ((x : A) (s : S) → P s → P (left (step x s)))
    → (xs : List A) (s : S) → P s
    → P (left (for_each step xs s))
unfolding for_each
for_each-left P step keep [] s h = h
for_each-left P step keep (x ∷ xs) s h =
    >>=-left P (step x s) (for_each step xs) (keep x s h) (for_each-left P step keep xs)
