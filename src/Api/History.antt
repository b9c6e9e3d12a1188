-- ===== src/Api/History.antt =====
-- The transfer history of a Replication: api/v1alpha1/replication_types.go.
pub mod Records
use ocm_k8s_toolkit.Prelude.{
  ℕ, zero, suc, String, Bool, true, false, not, ◌&&◌, ◌||◌, Option, none, some, List, [], ◌∷◌, ◌==◌,
  leb, length, any, if◌then◌else◌,
}
use mathlib.Core.Option

-- Go's `int`; `negsuc n` is -(n + 1)
pub data ℤ : Type 0 where
  pos : ℕ → ℤ
  negsuc : ℕ → ℤ

pub record TransferStatus : Type 0 where
  pub component : String
  pub version : String
  pub source_repository_spec : String
  pub target_repository_spec : String
  pub start_time : ℕ
  pub end_time : ℕ
  pub error : String
  pub success : Bool

-- `h[1:]`, which panics on an empty slice
abbrev pub rest? : List TransferStatus → Option (List TransferStatus)
rest? [] = none
rest? (x ∷ xs) = some xs

-- the oldest record makes room if the capacity is reached
unfoldable pub make_room : ℤ → List TransferStatus → Option (List TransferStatus)
make_room (pos n) h = if leb n (length h) then rest? h else some h
make_room (negsuc n) h = rest? h

-- both failed, in the same way and for the same transfer
unfoldable pub repeats : TransferStatus → TransferStatus → Bool
repeats last rec =
    not rec.success
    && not last.success
    && last.error == rec.error
    && last.component == rec.component
    && last.version == rec.version
    && last.target_repository_spec == rec.target_repository_spec

unfoldable pub append_or_merge : TransferStatus → List TransferStatus → List TransferStatus
append_or_merge rec [] = rec ∷ []
append_or_merge rec (x ∷ []) =
    if repeats x rec
    then record x { start_time = rec.start_time; end_time = rec.end_time } ∷ []
    else x ∷ rec ∷ []
append_or_merge rec (x ∷ y ∷ ys) = x ∷ append_or_merge rec (y ∷ ys)

-- AddHistoryRecord; `none` is a panic
unfoldable pub add_history_record :
    ℤ → TransferStatus → List TransferStatus → Option (List TransferStatus)
unfolding make_room append_or_merge
add_history_record (pos zero) rec h = some h
add_history_record capacity rec h = Option.map (append_or_merge rec) (make_room capacity h)

unfoldable pub is_record_of : String → String → String → TransferStatus → Bool
is_record_of component version target_spec r =
    r.component == component
    && r.version == version
    && r.target_repository_spec == target_spec
    && r.success

-- IsInHistory
unfoldable pub is_in_history : String → String → String → List TransferStatus → Bool
unfolding any is_record_of
is_in_history component version target_spec h = any (is_record_of component version target_spec) h
