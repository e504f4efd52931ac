-- ===== src/Samples/Libraries.antt =====
-- Libraries that keep the laws of Deps: finalizers as a list without repetition, a hash that copies its
-- argument, and equality of statuses by a decision.
use native.Mathlib.Decide.{ℕ_discrete}
use smolvm_operator.Prelude.{text_discrete}
use smolvm_operator.Prelude.{
  ◌≡◌, refl, String, Bool, true, false, none, some, List, [], ◌∷◌, ◌++◌, arith, str_eq, eq_iff,
  if◌then◌else◌,
}
use smolvm_operator.Smolvm.{Error, error_text}
use smolvm_operator.Deps.{Deps, Documented}
use smolvm_operator.Api.{SmolVmStatus}
use smolvm_operator.Controller.Reconciler.{Reconciler}

contains : List String → String → Bool
contains [] f = false
contains (x ∷ xs) f = if str_eq x f then true else contains xs f

add : List String → String → List String
unfolding contains
add l f = if contains l f then l else l ++ f ∷ []

remove : List String → String → List String
remove [] f = []
remove (x ∷ xs) f = let rest = remove xs f in if str_eq x f then rest else x ∷ rest

contains-append : (l : List String) (f : String) → contains (l ++ f ∷ []) f ≡ true
unfolding contains
contains-append [] f = ground (arith, eq_iff f f)
contains-append (x ∷ xs) f = ground (arith, contains-append xs f)

contains-add_lem : (l : List String) (f : String) → contains (add l f) f ≡ true
unfolding add
contains-add_lem l f = ground (arith, contains-append l f)

contains-remove_lem : (l : List String) (f : String) → contains (remove l f) f ≡ false
unfolding contains remove
contains-remove_lem [] f = refl
contains-remove_lem (x ∷ xs) f = ground (arith, contains-remove_lem xs f)

pub status_discrete : Discrete SmolVmStatus
status_discrete = hlevel (ℕ_discrete, text_discrete)

same_status : SmolVmStatus → SmolVmStatus → Bool
same_status s t = elim (status_discrete s t) [ yes e ↦ true | no ne ↦ false ]

same_status_refl : (s : SmolVmStatus) → same_status s s ≡ true
unfolding same_status
same_status_refl s =
    elim (status_discrete s s)
      as (λ d. elim d as (λ x. Bool) [ yes e ↦ true | no ne ↦ false ] ≡ true) [
        | yes e ↦ refl
        | no ne ↦ absurd (ne refl)
      ]

same_status_sound : (s t : SmolVmStatus) → same_status s t ≡ true → s ≡ t
unfolding same_status
same_status_sound s t =
    elim (status_discrete s t)
      as (λ d. elim d as (λ x. Bool) [ yes e ↦ true | no ne ↦ false ] ≡ true → s ≡ t) [
        | yes e ↦ λ h. e
        | no ne ↦ λ h. cc
      ]

is_missing : Error → Bool
is_missing e = str_eq (error_text e) "not found"

unfoldable pub libraries : Deps
unfolding contains add remove same_status is_missing
libraries = record {
  sha256_hex = λ s. s;
  parse_cidr_error = λ s. if str_eq s "" then some "invalid CIDR address: " else none;
  contains_finalizer = contains;
  add_finalizer = add;
  remove_finalizer = remove;
  kube_not_found = is_missing;
  ignore_not_found = λ e. if is_missing e then none else some e;
  deep_equal = same_status;
}

pub libraries-Documented : Documented libraries
unfolding libraries
libraries-Documented = record {
  contains-add = contains-add_lem;
  contains-remove = contains-remove_lem;
  ignore_not_found_lem = λ e. refl;
  deep_equal_refl = same_status_refl;
  deep_equal_sound = same_status_sound;
}

abbrev pub sample_reconciler : Reconciler
sample_reconciler = record {
  deps = libraries;
  has_factory = false;
  has_recorder = true;
  runtime_token = "secret";
  insecure_skip_verify = "true";
}
