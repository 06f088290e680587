-- ===== src/Common/Results.antt =====
-- Fallible code: a fault is a run-time error of the program or a null dereference.
use mathlib.Core.Path.{◌≡◌, refl}
use mathlib.Core.Bool.{Bool, true, false}
use mathlib.Core.Logic.{◌⊎◌, inl, inr}

-- `null_server`, `null_client`, `null_rms`: a lookup returned NULL and the code dereferences it.
-- `too_many_cores`, `bad_output`, `not_connected`, `too_many_jobs`, `memory_exceeded`,
-- `negative_memory`, `negative_jobs`: a call of `error`.
-- `bad_index`: an index outside a container, or an erasure at its end.
-- `not_local`, `peer_not_found`, `request_not_found`, `queue_full`: a call of `opp_error`.
-- `freed_job`: a read of a message that was deleted.
-- `past_time`: a self-message scheduled for an earlier time than the current one.
-- `no_fuel`: the bound on a loop's rounds was too small.
pub data Fault : Type 0 where
  null_server null_client null_rms freed_job past_time too_many_cores bad_output not_connected
        bad_index :
      Fault
  not_local peer_not_found request_not_found queue_full : Fault
  too_many_jobs memory_exceeded negative_memory negative_jobs no_fuel : Fault

pub data Result {ℓ} (A : Type ℓ) : Type ℓ where
  fault : Fault → Result A
  ok : A → Result A

module _ {ℓ κ} {A : Type ℓ} {B : Type κ} where
  infixl 5 ◌>>=◌
  abbrev pub ◌>>=◌ : Result A → (A → Result B) → Result B
  fault e >>= next = fault e
  ok x >>= next = next x

  -- A chain that ends well had a first step that ended well.
  pub >>=-eq-ok :
      (first : Result A) (next : A → Result B) {y : B}
      → (first >>= next) ≡ ok y
      → (x : A) × (first ≡ ok x) × (next x ≡ ok y)
  >>=-eq-ok (fault e) next ended = cc
  >>=-eq-ok (ok x) next ended = (x, refl, ended)

module _ {ℓ} {A : Type ℓ} where
  abbrev pub is_ok : Result A → Bool
  is_ok (fault e) = false
  is_ok (ok x) = true

  pub Result-cases : (r : Result A) → ((x : A) × (r ≡ ok x)) ⊎ ((e : Fault) × (r ≡ fault e))
  Result-cases (fault e) = inr (e, refl)
  Result-cases (ok x) = inl (x, refl)

  pub ok_inj : {x y : A} → ok x ≡ ok y → x ≡ y
  ok_inj same = cc
