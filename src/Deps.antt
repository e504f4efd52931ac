-- ===== src/Deps.antt =====
-- The libraries that the controller calls and that are not part of the repository, as a record of
-- functions; their documented behaviour, where a theorem needs it, as the record of laws below.
use smolvm_operator.Prelude.{
  String, ◌≡◌, Bool, true, false, List, Option, none, some, if◌then◌else◌,
}
use smolvm_operator.Api.{SmolVmStatus}
use smolvm_operator.Smolvm.{Error}

pub record Deps : Type 0 where
  -- hex.EncodeToString of sha256.Sum256
  pub sha256_hex : String → String
  -- net.ParseCIDR: the text of its error, if it refuses its argument
  pub parse_cidr_error : String → Option String
  -- controllerutil.ContainsFinalizer, AddFinalizer and RemoveFinalizer, on the list of finalizers
  pub contains_finalizer : List String → String → Bool
  pub add_finalizer : List String → String → List String
  pub remove_finalizer : List String → String → List String
  -- apierrors.IsNotFound, and client.IgnoreNotFound
  pub kube_not_found : Error → Bool
  pub ignore_not_found : Error → Option Error
  -- apiequality.Semantic.DeepEqual on two statuses
  pub deep_equal : SmolVmStatus → SmolVmStatus → Bool

-- What the documentation of these libraries promises.
pub record Documented (d : Deps) : Type 0 where
  pub contains-add :
      (l : List String) (f : String) → d.contains_finalizer (d.add_finalizer l f) f ≡ true
  pub contains-remove :
      (l : List String) (f : String) → d.contains_finalizer (d.remove_finalizer l f) f ≡ false
  pub ignore_not_found_lem :
      (e : Error) → d.ignore_not_found e ≡ (if d.kube_not_found e then none else some e)
  pub deep_equal_refl : (s : SmolVmStatus) → d.deep_equal s s ≡ true
  pub deep_equal_sound : (s t : SmolVmStatus) → d.deep_equal s t ≡ true → s ≡ t
