-- ===== src/Informers/Workers/Abstraction.antt =====
-- The goroutines of the informer manager implement a set of keys.
use ocm_k8s_toolkit.Prelude.{List, ◌∷◌, All}
use ocm_k8s_toolkit.Informers.{InformerOps}
use ocm_k8s_toolkit.Informers.Workers.{Pool}
use ocm_k8s_toolkit.Informers.Workers.Runs.{Keys, once, Changes, watched}
use ocm_k8s_toolkit.Informers.Workers.Cleared.{Cleared}

module _ (ops : InformerOps) where
  -- a run of sets that ends in the set of a state, in which the Unregisters have looked
  abbrev Seen : Pool → Type 0
  Seen t =
      (past : List Keys) × Changes once (watched t.manager) past
      × All (Cleared (watched t.manager ∷ past)) t.stopping
