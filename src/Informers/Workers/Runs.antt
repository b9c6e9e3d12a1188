-- ===== src/Informers/Workers/Runs.antt =====
-- The informer manager as a set of keys, of which one comes or goes at a time.
use ocm_k8s_toolkit.Prelude.{
  ◌≡◌, refl, sym, ap, ◌∙◌, Bool, true, false, ◌||◌, Option, none, some, List, [], ◌∷◌, Any, arith,
  if◌then◌else◌, Bool-cases, Option-cases, ◌⊎◌, inl, inr, any, eq_refl,
}
use ocm_k8s_toolkit.Informers.{
  WatchTaskKey, WatchTask, Manager, key_eq, gvk_eq, load, shares, is_last_watch,
}
use ocm_k8s_toolkit.Informers.Keys.{Tasks, load-delete, gvk_eq_iff}
use ocm_k8s_toolkit.Informers.Sharing.{any-load, gvk_eq_refl}
use ocm_k8s_toolkit.Informers.Workers.Effects.{Stored, Deleted, Untouched}

-- the keys that are watched
abbrev pub Keys : Type 0
Keys = WatchTaskKey → Bool

-- no other parent watches the same kind in the same namespace
abbrev pub IsAlone : Keys → WatchTaskKey → Type 0
IsAlone f k =
    (j : WatchTaskKey)
    → f j ≡ true
    → j.gvk ≡ k.gvk
    → j.namespace ≡ k.namespace
    → j.parent ≡ k.parent

-- What a manager promises: a key comes, or a key goes that may go.
pub data Change (may : WatchTaskKey → Type 0) (f g : Keys) : Type 0 where
  same : ((j : WatchTaskKey) → g j ≡ f j) → Change may f g
  added : (k : WatchTaskKey) → ((j : WatchTaskKey) → g j ≡ (key_eq k j || f j)) → Change may f g
  removed :
      (k : WatchTaskKey)
      → may k
      → ((j : WatchTaskKey) → g j ≡ (if key_eq k j then false else f j))
      → Change may f g

-- which keys may go, given the set and those before it, the latest first
abbrev pub Rule : Type 1
Rule = Keys → List Keys → WatchTaskKey → Type 0

-- the key is watched, and no other parent watches
abbrev pub now : Rule
now f past k = (f k ≡ true) × IsAlone f k

-- the key was watched at some moment
abbrev pub WasWatched : WatchTaskKey → List Keys → Type 0
WasWatched k seen = Any (λ f. f k ≡ true) seen

-- at some moment no other parent watched, and the key was watched then or before
abbrev pub WasAlone : WatchTaskKey → List Keys → Type 0
WasAlone k [] = ⊥
WasAlone k (f ∷ earlier) = (IsAlone f k × WasWatched k (f ∷ earlier)) ⊎ WasAlone k earlier

abbrev pub once : Rule
once f past k = WasAlone k (f ∷ past)

abbrev pub nothing : Keys
nothing k = false

-- a run from the empty set, with the sets before the last one
pub data Changes (rule : Rule) : Keys → List Keys → Type 0 where
  start : Changes rule nothing []
  change :
      {f g : Keys} {past : List Keys}
      → Changes rule f past
      → Change (rule f past) f g
      → Changes rule g (f ∷ past)

abbrev pub is_there : Option WatchTask → Bool
is_there none = false
is_there (some t) = true

-- the abstraction
abbrev pub watched : Manager → Keys
watched m k = is_there (load k m.tasks)

pub Untouched-Change :
    (may : WatchTaskKey → Type 0) (m n : Manager)
    → Untouched m n
    → Change may (watched m) (watched n)
Untouched-Change may m n u = same (λ j. ap (λ l. is_there (load j l)) u.tasks)

is_there-if :
    (b : Bool) (t : WatchTask) (o p : Option WatchTask)
    → p ≡ (if b then none else o)
    → is_there (if b then some t else p) ≡ (b || is_there o)
is_there-if true t o p h = refl
is_there-if false t o p h = ap is_there h

is_there-unless :
    (b : Bool) (o : Option WatchTask)
    → is_there (if b then none else o) ≡ (if b then false else is_there o)
is_there-unless true o = refl
is_there-unless false o = refl

pub Stored-Change :
    (may : WatchTaskKey → Type 0) (k : WatchTaskKey) (m n : Manager)
    → Stored k m n
    → Change may (watched m) (watched n)
unfolding load
Stored-Change may k m n u = added k λ j.
    ap (λ l. is_there (load j l)) u.tasks
    ∙ is_there-if (key_eq k j) u.task (load j m.tasks) _ (load-delete k j m.tasks)

-- the last watch for a kind and a namespace
last_alone :
    (k j : WatchTaskKey) (t : WatchTask) (l : Tasks)
    → is_last_watch k l ≡ true
    → load j l ≡ some t
    → j.gvk ≡ k.gvk
    → j.namespace ≡ k.namespace
    → j.parent ≡ k.parent
unfolding is_last_watch shares
last_alone k j t l h there g n = elim (Bool-cases (gvk_eq j.parent k.parent)) [
  | inl e ↦ (gvk_eq_iff j.parent k.parent).0 e
  | inr e ↦ absurd (
      clash (
        any-load (shares k) j t l there
          (λ u. rw (g, n, gvk_eq_refl k.gvk, eq_refl k.namespace, e) refl)))
]
  where
    clash : any (shares k) l ≡ true → ⊥
    clash a = ground (arith, a, h)

pub is_last_watch-IsAlone :
    (k : WatchTaskKey) (m : Manager) → is_last_watch k m.tasks ≡ true → IsAlone (watched m) k
is_last_watch-IsAlone k m last j there g s = elim (Option-cases (load j m.tasks)) [
  | inl gone ↦ absurd (ground (arith, sym (ap is_there gone) ∙ there))
  | inr (t, e) ↦ last_alone k j t m.tasks last e g s
]

pub Deleted-Change :
    (may : WatchTaskKey → Type 0) (k : WatchTaskKey) (m n : Manager)
    → Deleted k m n
    → may k
    → Change may (watched m) (watched n)
Deleted-Change may k m n u p = removed k p λ j.
    ap (λ l. is_there (load j l)) u.tasks
    ∙ ap is_there (load-delete k j m.tasks)
    ∙ is_there-unless (key_eq k j) (load j m.tasks)
