-- ===== src/Deployer/Grouped.antt =====
-- What a group of tasks that has no error has done.
use ocm_k8s_toolkit.Prelude.{
  suc, ◌≡◌, refl, sym, ap, ◌∙◌, subst, true, Option, none, some, List, [], ◌∷◌, ◌++◌, All, arith,
  Bool-cases, inl, inr, length,
}
use mathlib.Core.List.{append-nil, append_assoc, Permᴰ}
use ocm_k8s_toolkit.Errors.{Error, Fault, Reply, got, fault, wrap, external, new, ok}
use ocm_k8s_toolkit.Deployer.Digest.{DigestSpec, digest_spec}
use ocm_k8s_toolkit.Deployer.Ownership.Labels.{Labelled, ownership_labels-Labelled}
use ocm_k8s_toolkit.Deployer.Ownership.Annotations.{Annotated, ownership_annotations-Annotated}
use ocm_k8s_toolkit.Deployer.Objects.{DeployedObject}
use ocm_k8s_toolkit.Deployer.Ops.{Deployer, ApplyOps, WatchOps, Process}
use ocm_k8s_toolkit.Deployer.Rollout.{
  Deployable, in_group, with_ownership, patch_object, apply, watch_object, track,
}

-- a group that has an error keeps it
in_group-some :
    (task : DeployedObject → Process → Option Error × Process) (objs : List DeployedObject)
    (e : Error) (p : Process)
    → (in_group task objs (some e) p).0 ≡ some e
unfolding in_group
in_group-some task [] e p = refl
in_group-some task (obj ∷ objs) e p = in_group-some task objs e (task obj p).1

-- a group without an error: its first task has none, and neither has the rest
in_group-none :
    (task : DeployedObject → Process → Option Error × Process) (objs : List DeployedObject)
    (f : Option Error) (p : Process)
    → (in_group task objs f p).0 ≡ none
    → f ≡ none
in_group-none task objs none p h = refl
in_group-none task objs (some e) p h = absurd (ground (arith, h, in_group-some task objs e p))

-- Two lists of one length whose elements are related in order.
abbrev pub Pairwise : {A B : Type 0} → (A → B → Type 0) → List A → List B → Type 0
Pairwise R [] [] = Unit
Pairwise R [] (b ∷ bs) = ⊥
Pairwise R (a ∷ as') [] = ⊥
Pairwise R (a ∷ as') (b ∷ bs) = R a b × Pairwise R as' bs

pub All-Permᴰ : {A : Type 0} {l m : List A} (P : A → Type 0) → Permᴰ l m → All P l → All P m
All-Permᴰ P Permᴰ.nil h = h
All-Permᴰ P (Permᴰ.cons e p) h = (subst P e h.0, All-Permᴰ P p h.1)
All-Permᴰ P (Permᴰ.swap e f) h = (subst P f h.1.0, (subst P e h.0, h.1.1))
All-Permᴰ P (Permᴰ.trans p q) h = All-Permᴰ P q (All-Permᴰ P p h)

pub length-Permᴰ : {A : Type 0} {l m : List A} → Permᴰ l m → length l ≡ length m
length-Permᴰ Permᴰ.nil = refl
length-Permᴰ (Permᴰ.cons e p) = ap suc (length-Permᴰ p)
length-Permᴰ (Permᴰ.swap e f) = refl
length-Permᴰ (Permᴰ.trans p q) = length-Permᴰ p ∙ length-Permᴰ q

pub length-Pairwise :
    {A B : Type 0} (R : A → B → Type 0) (l : List A) (m : List B)
    → Pairwise R l m
    → length m ≡ length l
length-Pairwise R [] [] h = refl
length-Pairwise R [] (b ∷ m) h = absurd h
length-Pairwise R (a ∷ l) [] h = absurd h
length-Pairwise R (a ∷ l) (b ∷ m) (r, h) = ap suc (length-Pairwise R l m h)

pub All-Pairwise :
    {A B : Type 0} (R : A → B → Type 0) (l : List A) (m : List B)
    → Pairwise R l m
    → All (λ a. (b : B) × R a b) l
All-Pairwise R [] [] h = tt
All-Pairwise R [] (b ∷ m) h = absurd h
All-Pairwise R (a ∷ l) [] h = absurd h
All-Pairwise R (a ∷ l) (b ∷ m) (r, h) = ((b, r), All-Pairwise R l m h)

module _ (ops : ApplyOps) (d : Deployable) (o : Deployer) where
  -- A copy of an object that says to whom it belongs: only its labels and annotations differ, the
  -- labels are those of the deployer, and the annotations tell the digest of the resource, if that
  -- can be read, its access, and its component.
  pub record Owned (obj owned : DeployedObject) : Type 0 where
    pub only_metadata :
        owned ≡ record obj { labels = owned.labels; annotations = owned.annotations }
    pub labelled :
        Labelled d.resource.meta.name d.resource.meta.uid d.info o.meta.name obj.labels owned.labels
    pub annotated :
        (spec : DigestSpec)
        → digest_spec d.info.digest ≡ ok spec
        → Annotated d.info d.component owned.annotations

  with_ownership-Owned : (obj : DeployedObject) → Owned obj (with_ownership d o obj)
  unfolding with_ownership
  with_ownership-Owned obj = record {
    only_metadata = refl;
    labelled =
        ownership_labels-Labelled d.resource.meta.name d.resource.meta.uid d.info o.meta.name
          obj.labels;
    annotated = λ spec h. ownership_annotations-Annotated spec d.info d.component obj.annotations h;
  }

  -- what is sent to the cluster for an object of the manifest: a copy that says to whom it belongs
  -- and that the deployer controls; the cluster took it
  abbrev pub Patched : DeployedObject → DeployedObject → Type 0
  Patched obj sent =
      (owned : DeployedObject) × Owned obj owned
      × (ops.set_controller_reference o owned ≡ got sent)
      × (ops.patch sent ≡ none)

  patch_object-none :
      (r : Reply DeployedObject) (p : Process)
      → (patch_object ops r p).0 ≡ none
      → (sent : DeployedObject) × (r ≡ got sent)
        × (ops.patch sent ≡ none)
        × ((patch_object ops r p).1 ≡ record p { patched = p.patched ++ sent ∷ [] })
  unfolding patch_object
  patch_object-none (fault f) p h = absurd (ground (arith, h))
  patch_object-none (got sent) p h = (sent, refl, ground (arith, h), refl)

  pub apply-none :
      (objs : List DeployedObject) (p : Process)
      → (in_group (apply ops d o) objs none p).0 ≡ none
      → (sent : List DeployedObject) × Pairwise Patched objs sent
        × ((in_group (apply ops d o) objs none p).1 ≡ record p { patched = p.patched ++ sent })
  unfolding in_group apply
  apply-none [] p h =
      ([], tt, ap {B = Process} (λ l. record p { patched = l }) (sym (append-nil p.patched)))
  apply-none (obj ∷ objs) p h =
      let first =
        in_group-none (apply ops d o) objs (apply ops d o obj p).0 (apply ops d o obj p).1 h in
      let (sent, r, q, after) =
        patch_object-none (ops.set_controller_reference o (with_ownership d o obj)) p first in
      let rest =
        apply-none objs (apply ops d o obj p).1 (
          subst (λ f. (in_group (apply ops d o) objs f (apply ops d o obj p).1).0 ≡ none) first
            h) in
      (
        sent ∷ rest.0,
        ((with_ownership d o obj, with_ownership-Owned obj, r, q), rest.1),
        ap (λ f. (in_group (apply ops d o) objs f (apply ops d o obj p).1).1) first
            ∙ rest.2
            ∙ ap {A = Process} (λ x. record x { patched = x.patched ++ rest.0 }) after
            ∙ ap {B = Process} (λ l. record p { patched = l })
                (append_assoc p.patched (sent ∷ []) rest.0),
      )

module _ (ops : ApplyOps) (watch : WatchOps) where
  abbrev pub IsSynced : DeployedObject → Type 0
  IsSynced obj = watch.has_synced (watch_object ops watch obj) ≡ true

  track-none :
      (obj : DeployedObject) (p : Process)
      → (track ops watch obj p).0 ≡ none
      → IsSynced obj × ((track ops watch obj p).1 ≡ p)
  unfolding track
  track-none obj p h = elim (Bool-cases (watch.has_synced (watch_object ops watch obj))) [
    | inl e ↦ (e, rw e)
    | inr n ↦ absurd (unsynced (watch.register (watch_object ops watch obj)) (rw n at h))
  ]
    where
      unsynced :
          (f : Option Fault)
          → ◌≡◌ {A = Option Error}
              (elim f as (λ x. Option Error × Process) [
                | some f ↦ (
                  some (wrap "context canceled while unregistering resource watch" (external f)),
                  p,
                )
                | none ↦ (
                  some (new "object is not yet registered and synced, waiting for registration"),
                  record p { registrations = p.registrations ++ watch_object ops watch obj ∷ [] },
                )
              ]).0
              none
          → ⊥
      unsynced none k = ground (arith, k)
      unsynced (some f) k = ground (arith, k)

  pub tracked-none :
      (objs : List DeployedObject) (p : Process)
      → (in_group (track ops watch) objs none p).0 ≡ none
      → All IsSynced objs × ((in_group (track ops watch) objs none p).1 ≡ p)
  unfolding in_group
  tracked-none [] p h = (tt, refl)
  tracked-none (obj ∷ objs) p h =
      let task = track ops watch in
      let first = in_group-none task objs (task obj p).0 (task obj p).1 h in
      let (synced, same) = track-none obj p first in
      let (rest, kept) =
        tracked-none objs (task obj p).1
          (subst (λ f. (in_group task objs f (task obj p).1).0 ≡ none) first h) in
      ((synced, rest), ap (λ f. (in_group task objs f (task obj p).1).1) first ∙ kept ∙ same)
