-- ===== src/Api/History/Records.antt =====
-- What AddHistoryRecord keeps in the history, and what IsInHistory finds there.
use Prim.Native.Nat.{max}
use ocm_k8s_toolkit.Prelude.{
  ℕ, zero, suc, ◌+◌, ◌≤◌, ◌<◌, String, ◌≡◌, ◌↔◌, refl, ap, Any, Bool, true, none, some, List, [],
  ◌∷◌, ◌++◌, arith, eq_iff, eq_refl, leb, length, length-append, any, if◌then◌else◌,
}
use ocm_k8s_toolkit.Api.History.{
  ℤ, pos, negsuc, TransferStatus, repeats, append_or_merge, add_history_record, is_record_of,
  is_in_history,
}

module _ (rec : TransferStatus) where
  length-append_or_merge :
      (h : List TransferStatus)
      → (length (append_or_merge rec h) ≤ suc (length h))
        × (0 < length (append_or_merge rec h))
        × (length h ≤ length (append_or_merge rec h))
  unfolding append_or_merge
  length-append_or_merge [] = omega arith
  length-append_or_merge (x ∷ []) = ground arith
  length-append_or_merge (x ∷ y ∷ ys) = omega (arith, length-append_or_merge (y ∷ ys))

  -- AddHistoryRecord panics exactly if the capacity is negative and the history empty.
  pub add_history_record_panics :
      (capacity : ℤ) (h : List TransferStatus)
      → (add_history_record capacity rec h ≡ none) ↔ ((n : ℕ) × (capacity ≡ negsuc n) × (h ≡ []))
  unfolding add_history_record
  add_history_record_panics (pos zero) h = (λ p. cc, λ q. cc (q.1))
  add_history_record_panics (pos (suc n)) [] = (λ p. ground arith, λ q. cc (q.1))
  add_history_record_panics (pos (suc n)) (x ∷ h) = (λ p. ground arith, λ q. cc (q.1))
  add_history_record_panics (negsuc n) [] = (λ p. (n, refl, refl), λ q. refl)
  add_history_record_panics (negsuc n) (x ∷ h) = (λ p. cc, λ q. cc (q.2))

  -- A positive capacity bounds the history: a history within the capacity stays within it, one
  -- that is longer does not grow, and it is not empty afterwards.
  add_history_record_bounded :
      (n : ℕ) (h h' : List TransferStatus)
      → add_history_record (pos (suc n)) rec h ≡ some h'
      → (length h' ≤ max (suc n) (length h)) × (0 < length h')
  unfolding add_history_record
  add_history_record_bounded n [] h' e = ground (arith, length-append_or_merge [])
  add_history_record_bounded n (x ∷ h) h' e =
      ground (arith, length-append_or_merge h, length-append_or_merge (x ∷ h))

  is_record_of_self :
      rec.success ≡ true
      → is_record_of rec.component rec.version rec.target_repository_spec rec ≡ true
  unfolding is_record_of
  is_record_of_self s =
      rw (eq_refl rec.component, eq_refl rec.version, eq_refl rec.target_repository_spec) s

  success-append_or_merge :
      (h : List TransferStatus) → rec.success ≡ true → append_or_merge rec h ≡ h ++ rec ∷ []
  unfolding append_or_merge repeats
  success-append_or_merge [] s = refl
  success-append_or_merge (x ∷ []) s = rw s
  success-append_or_merge (x ∷ y ∷ ys) s = ap (λ t. x ∷ t) (success-append_or_merge (y ∷ ys) s)

  any-append_self :
      (p : TransferStatus → Bool) (h : List TransferStatus)
      → p rec ≡ true
      → any p (h ++ rec ∷ []) ≡ true
  unfolding any
  any-append_self p [] e = rw e
  any-append_self p (x ∷ h) e = ground (arith, any-append_self p h e)

  -- A successful transfer that is recorded under a positive capacity is found in the history, by
  -- its component, version and target.
  pub is_in_history-add_history_record :
      (n : ℕ) (h h' : List TransferStatus)
      → rec.success ≡ true
      → add_history_record (pos (suc n)) rec h ≡ some h'
      → is_in_history rec.component rec.version rec.target_repository_spec h' ≡ true
  unfolding add_history_record is_in_history
  is_in_history-add_history_record n [] h' s e = ground (
    arith,
    success-append_or_merge [] s,
    any-append_self (is_record_of rec.component rec.version rec.target_repository_spec) []
        (is_record_of_self s),
  )
  is_in_history-add_history_record n (x ∷ h) h' s e = ground (
    arith,
    success-append_or_merge h s,
    success-append_or_merge (x ∷ h) s,
    any-append_self (is_record_of rec.component rec.version rec.target_repository_spec) h
        (is_record_of_self s),
    any-append_self (is_record_of rec.component rec.version rec.target_repository_spec) (x ∷ h)
        (is_record_of_self s),
  )

  abbrev pub with_times_of : TransferStatus → TransferStatus
  with_times_of x = record x { start_time = rec.start_time; end_time = rec.end_time }

  repeats-append_or_merge :
      (x : TransferStatus) (h : List TransferStatus)
      → repeats x rec ≡ true
      → append_or_merge rec (h ++ x ∷ []) ≡ h ++ with_times_of x ∷ []
  unfolding append_or_merge
  repeats-append_or_merge x [] e = rw e
  repeats-append_or_merge x (y ∷ []) e = rw e
  repeats-append_or_merge x (y ∷ z ∷ h) e = ap (λ t. y ∷ t) (repeats-append_or_merge x (z ∷ h) e)

  -- A failure that repeats the last record of a history of several changes only the times of that
  -- record, but if the history is at its capacity the oldest record is dropped as well, although
  -- nothing is added. If the repeated record is the only one, then under a capacity of one it is
  -- replaced by the new record, and under a larger capacity it only gets the new times.
  pub add_history_record_repeated :
      (n : ℕ) (y x : TransferStatus) (h : List TransferStatus)
      → repeats x rec ≡ true
      → (add_history_record (pos (suc n)) rec (y ∷ (h ++ x ∷ []))
          ≡ some (
              if leb (suc n) (length h + 2)
              then h ++ with_times_of x ∷ []
              else y ∷ (h ++ with_times_of x ∷ [])))
        × (add_history_record (pos (suc n)) rec (x ∷ [])
            ≡ some ((if leb (suc n) 1 then rec else with_times_of x) ∷ []))
  unfolding add_history_record
  add_history_record_repeated n y x h e = (
    ground (
      arith,
      repeats-append_or_merge x h e,
      repeats-append_or_merge x (y ∷ h) e,
      length-append h (x ∷ []),
    ),
    ground (arith, repeats-append_or_merge x [] e),
  )

-- IsInHistory answers true exactly if some record of the history is a successful transfer of that
-- component and version to that target.
pub is_in_history_iff :
    (component version target : String) (h : List TransferStatus)
    → (is_in_history component version target h ≡ true)
      ↔ Any
          (λ r.
            (r.component ≡ component)
            × (r.version ≡ version)
            × (r.target_repository_spec ≡ target)
            × (r.success ≡ true))
          h
unfolding is_in_history
is_in_history_iff c v t [] = (λ p. cc, λ q. absurd q)
is_in_history_iff c v t (r ∷ h) =
    let ih = is_in_history_iff c v t h in
    let ec = eq_iff r.component c in
    let ev = eq_iff r.version v in
    let et = eq_iff r.target_repository_spec t in
    (λ p. ground (arith, ih, ec, ev, et), λ q. ground (arith, ih, ec, ev, et))
