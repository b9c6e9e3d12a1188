-- ===== src/Library.antt =====
-- What the controllers take from packages outside the repository: the conditions of
-- fluxcd/pkg/runtime, the finalizers of controller-runtime's controllerutil, and the text of errors.
-- `Laws` states the documented behaviour that the proofs rely on.
pub mod Sample
use ocm_k8s_toolkit.Prelude.{
  ℕ, String, str_append, ◌≡◌, ◌≢◌, Bool, true, false, Option, none, some, List,
}
use ocm_k8s_toolkit.Errors.{Error}
use ocm_k8s_toolkit.Api.{Condition, ObjectKey, is_true, is_false}

abbrev pub ready_condition : String
ready_condition = "Ready"

abbrev pub reconciling_condition : String
reconciling_condition = "Reconciling"

abbrev pub stalled_condition : String
stalled_condition = "Stalled"

pub record Library : Type 0 where
  pub error_text : Error → String
  -- `%s` of a duration
  -- what the event recorder makes of a text that it is given as a format without arguments
  pub formatted : String → String
  pub duration_text : ℕ → String
  -- NamespacedName.String
  pub key_text : ObjectKey → String
  -- conditions.Get, Set, Delete, MarkTrue, MarkFalse: conditions, type, then reason and message
  pub get : List Condition → String → Option Condition
  pub set : List Condition → Condition → List Condition
  pub delete : List Condition → String → List Condition
  pub mark_true : List Condition → String → String → String → List Condition
  pub mark_false : List Condition → String → String → String → List Condition
  pub is_ready : List Condition → Bool
  pub is_reconciling : List Condition → Bool
  -- controllerutil.ContainsFinalizer, AddFinalizer, RemoveFinalizer: the list, and whether it changed
  pub contains_finalizer : List String → String → Bool
  pub add_finalizer : List String → String → List String × Bool
  pub remove_finalizer : List String → String → List String × Bool

pub record Laws (lib : Library) : Type 0 where
  pub key_text_lem :
      (k : ObjectKey) → lib.key_text k ≡ str_append k.namespace (str_append "/" k.name)
  pub get-mark_true :
      (c : List Condition) (t r m : String)
      → lib.get (lib.mark_true c t r m) t
        ≡ some (record { type = t; status = is_true; reason = r; message = m })
  pub get-mark_false :
      (c : List Condition) (t r m : String)
      → lib.get (lib.mark_false c t r m) t
        ≡ some (record { type = t; status = is_false; reason = r; message = m })
  pub get-mark_true_ne :
      (c : List Condition) (t u r m : String)
      → t ≢ u
      → lib.get (lib.mark_true c t r m) u ≡ lib.get c u
  pub get-mark_false_ne :
      (c : List Condition) (t u r m : String)
      → t ≢ u
      → lib.get (lib.mark_false c t r m) u ≡ lib.get c u
  pub get-delete : (c : List Condition) (t : String) → lib.get (lib.delete c t) t ≡ none
  pub get-delete_ne :
      (c : List Condition) (t u : String) → t ≢ u → lib.get (lib.delete c t) u ≡ lib.get c u
  pub get-set : (c : List Condition) (d : Condition) → lib.get (lib.set c d) d.type ≡ some d
  pub get-set_ne :
      (c : List Condition) (d : Condition) (u : String)
      → d.type ≢ u
      → lib.get (lib.set c d) u ≡ lib.get c u
  -- an object is ready only if its Ready condition stands and is true
  pub ready_status :
      (c : List Condition) (d : Condition)
      → lib.is_ready c ≡ true
      → lib.get c ready_condition ≡ some d
      → d.status ≡ is_true
  pub ready_present :
      (c : List Condition) → lib.is_ready c ≡ true → lib.get c ready_condition ≢ none
  pub reconciling_present :
      (c : List Condition) → lib.is_reconciling c ≡ true → lib.get c reconciling_condition ≢ none
  pub get_type :
      (c : List Condition) (t : String) (d : Condition) → lib.get c t ≡ some d → d.type ≡ t
  -- a finalizer is added unless it is there, and removed if it is
  pub add_finalizer_lem :
      (l : List String) (f : String)
      → lib.contains_finalizer l f ≡ true
      → lib.add_finalizer l f ≡ (l, false)
  pub add_finalizer_new :
      (l : List String) (f : String)
      → lib.contains_finalizer l f ≡ false
      → (lib.add_finalizer l f).1 ≡ true
  pub contains-add :
      (l : List String) (f : String) → lib.contains_finalizer (lib.add_finalizer l f).0 f ≡ true
  pub remove_finalizer_lem :
      (l : List String) (f : String) → (lib.remove_finalizer l f).1 ≡ lib.contains_finalizer l f
  pub remove_finalizer_missing :
      (l : List String) (f : String)
      → lib.contains_finalizer l f ≡ false
      → (lib.remove_finalizer l f).0 ≡ l
  pub contains-remove :
      (l : List String) (f : String) → lib.contains_finalizer (lib.remove_finalizer l f).0 f ≡ false
